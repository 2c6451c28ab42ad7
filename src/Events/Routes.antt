-- ===== src/Events/Routes.antt =====
-- app/routers/events.py: editing, rescheduling, cancelling and the winner, with the check of the organizer that
-- runs before each handler. The response and the refresh of the frontend's cache change no row.
use book_club_be.Prelude.{Bool, ℕ, Option, none, some, List, ◌==◌, opt_eq, select, delete}
use book_club_be.Models.{Text, User, Event, EventStatus, ChatRoom}
use book_club_be.Database.{Database}
use book_club_be.Session.{
  err, integrity_error, Service, pure, scalar_one_or_none, modify, commit, get_now, ◌>>=◌, ◌>>◌,
}
use book_club_be.ClubRepository.{without_messages, without_rooms}
use book_club_be.Access.{require_event_club_organizer}
use book_club_be.Events.Service.{get_event_or_404, set_event, set_event_winner_service}

abbrev pub rooms_of_event : ℕ → Database → List ChatRoom
rooms_of_event event_id db = select (λ r. opt_eq r.event_id (some event_id)) db.rooms

abbrev pub without_room : ℕ → Database → Database
without_room room_id db =
    let db1 = record db {
      message_reads = delete (λ r. r.room_id == room_id) db.message_reads;
      room_bans = delete (λ b. b.room_id == room_id) db.room_bans;
    } in
    without_rooms (λ id. id == room_id) (without_messages (λ id. id == room_id) db1)

unfoldable pub delete_room : Option ChatRoom → Service (Unit {0})
delete_room none = pure tt
delete_room (some room) = modify (without_room room.id)

unfoldable pub delete_event_chat_room : ℕ → Service (Unit {0})
delete_event_chat_room event_id = do
  room ← scalar_one_or_none (rooms_of_event event_id)
  delete_room room

-- A field that is not sent is none, and one that is sent as null is `some none`; those that only a
-- response shows are left out. There is no field for the status, so that no room is deleted.
pub record EventUpdatePayload : Type 0 where
  pub title : Option (Option Text)
  pub date : Option (Option ℕ)
  pub city : Option (Option Text)
  pub address : Option (Option Text)
  pub has_winner : Option (Option Bool)

-- the value of a column that takes no null
abbrev pub set_column {ℓ} : {A : Type ℓ} → Option (Option A) → A → Option A
set_column none old = some old
set_column (some new) old = new

abbrev pub set_address : Option (Option Text) → Option Text → Option Text
set_address none old = old
set_address (some new) old = new

-- none where a column that takes no null would get one
abbrev pub with_columns :
    Option Text → Option ℕ → Option Text → Option Bool → Option Text → Event → Option Event
with_columns (some title) (some date) (some city) (some has_winner) address e = some (record e {
  title = title;
  date = date;
  city = city;
  has_winner = has_winner;
  address = address;
})
with_columns _ _ _ _ address e = none

abbrev pub updated : EventUpdatePayload → Event → Option Event
updated body e =
    with_columns (set_column body.title e.title) (set_column body.date e.date)
      (set_column body.city e.city) (set_column body.has_winner e.has_winner)
      (set_address body.address e.address) e

-- the commit, at which PostgreSQL refuses a null
abbrev pub store_event : ℕ → Option Event → Service (Unit {0})
store_event event_id none s = (err integrity_error, s)
store_event event_id (some e) s = (modify (set_event event_id (λ _. e)) >>= λ _. commit) s

unfoldable pub update_event : ℕ → EventUpdatePayload → User → Service (Unit {0})
update_event event_id body current_user = do
  _ ← require_event_club_organizer event_id current_user
  event ← get_event_or_404 event_id
  store_event event_id (updated body event)

pub record RescheduleEventRequest : Type 0 where
  pub new_date : ℕ
  pub new_address : Option Text
  pub new_city : Option Text

abbrev pub or_kept {ℓ} : {A : Type ℓ} → Option A → A → A
or_kept none old = old
or_kept (some new) old = new

abbrev pub or_kept_address : Option Text → Option Text → Option Text
or_kept_address none old = old
or_kept_address (some new) old = some new

abbrev pub moved : RescheduleEventRequest → Event → Event
moved body e = record e {
  date = body.new_date;
  status = EventStatus.rescheduled;
  address = or_kept_address body.new_address e.address;
  city = or_kept body.new_city e.city;
}

unfoldable pub reschedule_event : ℕ → RescheduleEventRequest → User → Service (Unit {0})
reschedule_event event_id body current_user = do
  _ ← require_event_club_organizer event_id current_user
  _ ← get_event_or_404 event_id
  modify (set_event event_id (moved body))
  commit

abbrev pub cancelled_at : ℕ → Event → Event
cancelled_at now e = record e { status = EventStatus.cancelled; cancelled_at = some now }

unfoldable pub cancel_event : ℕ → User → Service (Unit {0})
cancel_event event_id current_user = do
  _ ← require_event_club_organizer event_id current_user
  _ ← get_event_or_404 event_id
  now ← get_now
  modify (set_event event_id (cancelled_at now))
  delete_event_chat_room event_id
  commit

unfoldable pub set_event_winner : ℕ → ℕ → User → Service Event
set_event_winner event_id winner_id current_user = do
  _ ← require_event_club_organizer event_id current_user
  set_event_winner_service event_id winner_id
