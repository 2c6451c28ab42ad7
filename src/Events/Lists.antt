-- ===== src/Events/Lists.antt =====
-- The routes that list events (app/routers/events.py, clubs.py), by queries with filters and pages. The `city` of a
-- request is a test, since ILIKE is PostgreSQL's; events of one date stand in the order of their table.
use book_club_be.Prelude.{
  not, ℕ, Bool, true, false, ◌&&◌, ◌||◌, Option, none, some, List, [], ◌∷◌, ◌++◌, map, ◌==◌, ltb,
  leb, take, drop, select, count, exists, if◌then◌else◌,
}
use book_club_be.Models.{Text, User, is_admin, Club, Event, EventStatus}
use book_club_be.Database.{Database}
use book_club_be.Session.{Service, query, pure, get_now, ◌>>=◌}
use book_club_be.Clubs.Common.{get_club_or_404, can_view_club}
use book_club_be.Events.Repository.{is_attendance, attendees_of}
use book_club_be.Events.Responses.{
  EventResponse, assemble_event_response, user_id_of, build_event_responses_bulk,
}

-- FROM events JOIN clubs
abbrev pub join_clubs : List Event → List Club → List (Event × Club)
join_clubs [] clubs = []
join_clubs (e ∷ es) clubs =
    map (λ c. (e, c)) (select (λ c. c.id == e.club_id) clubs) ++ join_clubs es clubs

-- ORDER BY date
abbrev pub insert_row : Event × Club → List (Event × Club) → List (Event × Club)
insert_row r [] = r ∷ []
insert_row r (q ∷ qs) =
    let rest = insert_row r qs in if ltb q.0.date r.0.date then q ∷ rest else r ∷ q ∷ qs

abbrev pub by_date : List (Event × Club) → List (Event × Club)
by_date [] = []
by_date (r ∷ rs) = insert_row r (by_date rs)

abbrev pub is_attending_column : ℕ → Option ℕ → Database → Bool
is_attending_column event_id none db = false
is_attending_column event_id (some user_id) db =
    ltb 0 (count (is_attendance event_id user_id) db.attendees)

abbrev pub enriched : Option ℕ → Database → Event × Club → EventResponse
enriched user_id db r =
    assemble_event_response r.0 (attendees_of r.0.id db) (is_attending_column r.0.id user_id db)
      r.1.name (some r.1.organizer_id)

unfoldable pub fetch_enriched_event_list :
    (Database → Event → Bool) → Option ℕ → ℕ → ℕ → Service (List EventResponse)
fetch_enriched_event_list filters user_id skip limit = query (λ db.
    map (enriched user_id db)
      (take limit (drop skip (by_date (join_clubs (select (filters db) db.events) db.clubs)))))

abbrev pub is_open : EventStatus → Bool
is_open EventStatus.scheduled = true
is_open EventStatus.active = true
is_open _ = false

abbrev pub is_upcoming : ℕ → Event → Bool
is_upcoming now e = leb now e.date && is_open e.status

abbrev pub meets_city : Option (Text → Bool) → Event → Bool
meets_city none e = true
meets_city (some like) e = like e.city

abbrev pub meets_club : Option ℕ → Event → Bool
meets_club none e = true
meets_club (some club_id) e = e.club_id == club_id

abbrev pub in_public_club : Database → Event → Bool
in_public_club db e = exists (λ c. c.id == e.club_id && c.is_public) db.clubs

abbrev pub in_member_club : ℕ → Database → Event → Bool
in_member_club user_id db e =
    exists (λ m. m.club_id == e.club_id && m.user_id == user_id) db.members

abbrev pub is_listed_for : Option User → Database → Event → Bool
is_listed_for none db e = in_public_club db e
is_listed_for (some user) db e =
    is_admin user.role || in_public_club db e || in_member_club user.id db e

-- GET /events; `like` is none where no city is asked for
unfoldable pub list_events :
    Option User → Option (Text → Bool) → Option ℕ → ℕ → ℕ → Service (List EventResponse)
list_events current_user like club_id skip limit = do
  now ← get_now
  fetch_enriched_event_list
      (λ db e.
        is_upcoming now e
        && meets_city like e
        && meets_club club_id e
        && is_listed_for current_user db e)
      (user_id_of current_user) skip limit

-- GET /events/my
unfoldable pub list_my_events : User → ℕ → ℕ → Service (List EventResponse)
list_my_events current_user skip limit = do
  now ← get_now
  fetch_enriched_event_list (λ db e. in_member_club current_user.id db e && is_upcoming now e)
      (some current_user.id) skip limit

abbrev pub insert_event : Event → List Event → List Event
insert_event e [] = e ∷ []
insert_event e (q ∷ qs) =
    let rest = insert_event e qs in if ltb q.date e.date then q ∷ rest else e ∷ q ∷ qs

abbrev pub events_by_date : List Event → List Event
events_by_date [] = []
events_by_date (e ∷ es) = insert_event e (events_by_date es)

abbrev pub events_of_club : ℕ → Bool → ℕ → ℕ → ℕ → Database → List Event
events_of_club club_id include_past now skip limit db = take limit (
    drop skip (
      events_by_date
        (select (λ e. e.club_id == club_id && (include_past || leb now e.date)) db.events)))

unfoldable pub visible_events : Club → Option User → Bool → ℕ → ℕ → Service (List EventResponse)
visible_events club current_user include_past skip limit = do
  now ← get_now
  events ← query (events_of_club club.id include_past now skip limit)
  build_event_responses_bulk events (user_id_of current_user) (some club.name)
      (some club.organizer_id)

-- GET /clubs/{club_id}/events
unfoldable pub list_club_events : ℕ → Option User → Bool → ℕ → ℕ → Service (List EventResponse)
list_club_events club_id current_user include_past skip limit = do
  club ← get_club_or_404 club_id
  visible ← can_view_club club current_user
  if not visible then pure [] else visible_events club current_user include_past skip limit
