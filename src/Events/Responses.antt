-- ===== src/Events/Responses.antt =====
-- app/services/event_service.py: the response of an event, alone and in bulk.
use book_club_be.Prelude.{
  ℕ, Bool, false, not, ◌&&◌, ◌||◌, Option, none, some, List, [], ◌∷◌, map, ◌==◌, select, is_some,
  if◌then◌else◌, Dict, lookup, insert, counted, group_by,
}
use book_club_be.Models.{Text, User, Club, Event}
use book_club_be.Database.{Database}
use book_club_be.ClubRepository.{in_ids}
use book_club_be.Session.{Service, query, pure, raise_if, ◌>>=◌, ◌>>◌, event_not_found}
use book_club_be.Clubs.Common.{get_club_or_404, can_view_club}
use book_club_be.Events.Repository.{count_attendees, get_attendance, get_club_for_event}
use book_club_be.Events.Service.{get_event_or_404}

-- the event's own fields, and what is looked up for it; an organizer that is not found is ""
pub record EventResponse : Type 0 where
  pub event : Event
  pub club_name : Text
  pub organizer_id : Option ℕ
  pub attendee_count : ℕ
  pub is_attending : Bool

abbrev pub assemble_event_response : Event → ℕ → Bool → Text → Option ℕ → EventResponse
assemble_event_response event attendee_count is_attending club_name organizer_id = record {
  event = event;
  club_name = club_name;
  organizer_id = organizer_id;
  attendee_count = attendee_count;
  is_attending = is_attending;
}

-- `a or b`: an empty text counts as none
abbrev pub or_text : Option Text → Text → Text
or_text none b = b
or_text (some []) b = b
or_text (some (c ∷ cs)) b = c ∷ cs

abbrev pub or_id : Option ℕ → Option ℕ → Option ℕ
or_id none b = b
or_id (some a) b = some a

abbrev pub name_in : Option Text → Text
name_in none = []
name_in (some name) = name

abbrev pub bulk_attendee_counts : List ℕ → Database → Dict ℕ
bulk_attendee_counts event_ids db =
    group_by (λ a. a.event_id) (select (λ a. in_ids event_ids a.event_id) db.attendees)

-- a set of ids, as a list
abbrev pub bulk_attending : List ℕ → Option ℕ → Database → List ℕ
bulk_attending event_ids none db = []
bulk_attending event_ids (some user_id) db =
    map (λ a. a.event_id)
      (select (λ a. in_ids event_ids a.event_id && a.user_id == user_id) db.attendees)

-- the rows of a table of clubs, which have different ids
abbrev pub index_clubs : List Club → Dict Club
index_clubs [] = []
index_clubs (c ∷ cs) = let rest = index_clubs cs in insert c.id c rest

-- the clubs are loaded only where the name or the organizer is not given; the two maps are one
abbrev pub bulk_clubs : Option Text → Option ℕ → List ℕ → Database → Dict Club
bulk_clubs club_name organizer_id club_ids db =
    if not (is_some club_name) || not (is_some organizer_id)
    then index_clubs (select (λ c. in_ids club_ids c.id) db.clubs)
    else []

abbrev pub club_name_of : Option Club → Option Text
club_name_of none = none
club_name_of (some c) = some c.name

abbrev pub organizer_of : Option Club → Option ℕ
organizer_of none = none
organizer_of (some c) = some c.organizer_id

abbrev pub bulk_entry : Dict ℕ → List ℕ → Dict Club → Option Text → Option ℕ → Event → EventResponse
bulk_entry counts attending clubs club_name organizer_id event =
    assemble_event_response event (counted (lookup event.id counts)) (in_ids attending event.id)
      (or_text club_name (name_in (club_name_of (lookup event.club_id clubs))))
      (or_id organizer_id (organizer_of (lookup event.club_id clubs)))

-- The early return for no events gives what the queries give then.
unfoldable pub build_event_responses_bulk :
    List Event → Option ℕ → Option Text → Option ℕ → Service (List EventResponse)
build_event_responses_bulk events user_id club_name organizer_id = do
  counts ← query (bulk_attendee_counts (map (λ e. e.id) events))
  attending ← query (bulk_attending (map (λ e. e.id) events) user_id)
  clubs ← query (bulk_clubs club_name organizer_id (map (λ e. e.club_id) events))
  pure (map (bulk_entry counts attending clubs club_name organizer_id) events)

unfoldable pub attends : ℕ → Option ℕ → Service Bool
attends event_id none = pure false
attends event_id (some user_id) = do
  attendance ← get_attendance event_id user_id
  pure (is_some attendance)

-- `if club`: none too where both are given and nothing is loaded
unfoldable pub load_club : Event → Option Text → Option ℕ → Service (Option Club)
load_club event (some name) (some id) = pure none
load_club event (some name) none = get_club_for_event event
load_club event none organizer_id = get_club_for_event event

unfoldable pub build_event_response :
    Event → Option ℕ → Option Text → Option ℕ → Service EventResponse
build_event_response event user_id club_name organizer_id = do
  attendee_count ← count_attendees event.id
  is_attending ← attends event.id user_id
  club ← load_club event club_name organizer_id
  pure (
      assemble_event_response event attendee_count is_attending
        (or_text club_name (name_in (club_name_of club))) (or_id organizer_id (organizer_of club)))

abbrev pub user_id_of : Option User → Option ℕ
user_id_of none = none
user_id_of (some user) = some user.id

-- GET /events/{event_id}
unfoldable pub get_event_response : ℕ → Option User → Service EventResponse
get_event_response event_id current_user = do
  event ← get_event_or_404 event_id
  club ← get_club_or_404 event.club_id
  visible ← can_view_club club current_user
  raise_if (not visible) 404 event_not_found
  build_event_response event (user_id_of current_user) none none
