-- ===== src/Events/Creation.antt =====
-- app/services/club_service.py (`create_event_service`) and app/services/chat_service.py (the room of an
-- event). The fields of an event that only a response shows are left out; ids are drawn by `uuid4`.
use book_club_be.Prelude.{ℕ, false, not, ◌||◌, Option, none, some, [], ◌∷◌, ◌++◌, head?, is_some}
use book_club_be.Models.{Text, User, Event, EventStatus, ChatRoom}
use book_club_be.Database.{Database}
use book_club_be.Text.{strip}
use book_club_be.Session.{
  Service, query, pure, or_raise, raise_if, modify, flush, commit, get_now, when, ◌>>=◌, ◌>>◌,
  event_not_found, event_chat_not_found,
}
use book_club_be.ClubRepository.{get_membership, is_banned}
use book_club_be.Access.{require_club_organizer, is_club_organizer, event_rows}
use book_club_be.Clubs.Common.{get_club_or_404, can_view_club}
use book_club_be.Events.Repository.{add_attendee, attendance_rows}
use book_club_be.Events.Service.{room_of_event}

pub record CreateEventRequest : Type 0 where
  pub title : Text
  pub date : ℕ
  pub city : Text
  pub address : Option Text

abbrev pub new_event : ℕ → ℕ → CreateEventRequest → Event
new_event id club_id body = record {
  id = id;
  club_id = club_id;
  title = body.title;
  date = body.date;
  city = strip body.city;
  address = body.address;
  status = EventStatus.scheduled;
  cancelled_at = none;
  has_winner = false;
  winner_id = none;
  winner_name = none;
}

abbrev pub add_event : Event → Database → Database
add_event event db = record db { events = db.events ++ event ∷ [] }

-- a space, a middle dot, a space and "Chat"
abbrev pub chat_suffix : Text
chat_suffix = 32 ∷ 183 ∷ 32 ∷ 67 ∷ 104 ∷ 97 ∷ 116 ∷ []

abbrev pub room_for : ℕ → Event → ℕ → ChatRoom
room_for room_id event now = record {
  id = room_id;
  club_id = event.club_id;
  name = event.title ++ chat_suffix;
  event_id = some event.id;
  created_at = now;
}

abbrev pub add_chat_room : ChatRoom → Database → Database
add_chat_room room db = record db { rooms = db.rooms ++ room ∷ [] }

abbrev pub existing_or_new : ChatRoom → Option ChatRoom → Service ChatRoom
existing_or_new new (some room) = pure room
existing_or_new new none = modify (add_chat_room new) >>= λ _. flush >>= λ _. pure new

unfoldable pub get_or_create_event_chat_room : ℕ → Event → Service ChatRoom
get_or_create_event_chat_room room_id event = do
  existing ← query (room_of_event event.id)
  now ← get_now
  existing_or_new (room_for room_id event now) existing

-- Returns the event, from which the response is built.
unfoldable pub create_event_service : ℕ → ℕ → CreateEventRequest → ℕ → User → Service Event
create_event_service event_id room_id body club_id current_user = do
  _ ← require_club_organizer club_id current_user
  _ ← get_club_or_404 club_id
  modify
      (λ db. add_attendee event_id current_user.id (add_event (new_event event_id club_id body) db))
  flush
  _ ← get_or_create_event_chat_room room_id (new_event event_id club_id body)
  commit
  pure (new_event event_id club_id body)

unfoldable pub find_event : ℕ → Service Event
find_event event_id = do
  found ← query (λ db. head? (event_rows event_id db))
  or_raise found 404 event_not_found

unfoldable pub require_visible : Event → User → Service (Unit {0})
require_visible event user = do
  club ← get_club_or_404 event.club_id
  visible ← can_view_club club (some user)
  raise_if (not visible) 404 event_not_found

unfoldable pub create_event_chat_room_service : ℕ → ℕ → User → Service ChatRoom
create_event_chat_room_service room_id event_id current_user = do
  event ← find_event event_id
  membership ← get_membership event.club_id current_user.id
  raise_if (not (is_some membership)) 404 event_not_found
  require_visible event current_user
  _ ← require_club_organizer event.club_id current_user
  room ← get_or_create_event_chat_room room_id event
  commit
  pure room

-- what the room of an event asks of a user who is no organizer: the queries run in this order, the ban
-- only where attendance and membership are there
unfoldable pub require_attendee : Event → User → Service (Unit {0})
require_attendee event user = do
  attendee ← query (λ db. head? (attendance_rows event.id user.id db))
  membership ← get_membership event.club_id user.id
  raise_if (not (is_some attendee) || not (is_some membership)) 404 event_chat_not_found
  banned ← is_banned event.club_id user.id
  raise_if banned 404 event_chat_not_found

unfoldable pub get_event_chat_room_service : ℕ → User → Service ChatRoom
get_event_chat_room_service event_id current_user = do
  event ← find_event event_id
  require_visible event current_user
  organizer ← is_club_organizer event.club_id current_user.id
  when (not organizer) (require_attendee event current_user)
  room ← query (room_of_event event_id)
  or_raise room 404 event_chat_not_found
