-- ===== src/Events/Repository.antt =====
-- app/repositories/event.py: the queries of `EventRepository` that the services use.
use book_club_be.Prelude.{ℕ, Bool, ◌&&◌, Option, List, [], ◌∷◌, ◌++◌, ◌==◌, select, delete, count}
use book_club_be.Models.{User, Club, ClubMember, Event, EventAttendee}
use book_club_be.Database.{Database}
use book_club_be.Session.{Service, query, scalar_one_or_none}
use book_club_be.ClubRepository.{club_rows, member_rows}
use book_club_be.Access.{event_rows}

unfoldable pub get_event : ℕ → Service (Option Event)
get_event event_id = scalar_one_or_none (event_rows event_id)

abbrev pub attendees_of : ℕ → Database → ℕ
attendees_of event_id db = count (λ a. a.event_id == event_id) db.attendees

unfoldable pub count_attendees : ℕ → Service ℕ
count_attendees event_id = query (attendees_of event_id)

abbrev pub is_attendance : ℕ → ℕ → EventAttendee → Bool
is_attendance event_id user_id a = a.event_id == event_id && a.user_id == user_id

abbrev pub attendance_rows : ℕ → ℕ → Database → List EventAttendee
attendance_rows event_id user_id db = select (is_attendance event_id user_id) db.attendees

unfoldable pub get_attendance : ℕ → ℕ → Service (Option EventAttendee)
get_attendance event_id user_id = scalar_one_or_none (attendance_rows event_id user_id)

abbrev pub add_attendee : ℕ → ℕ → Database → Database
add_attendee event_id user_id db = record db {
  attendees = db.attendees ++ record { event_id = event_id; user_id = user_id } ∷ [];
}

abbrev pub remove_attendee : ℕ → ℕ → Database → Database
remove_attendee event_id user_id db = record db {
  attendees = delete (is_attendance event_id user_id) db.attendees;
}

unfoldable pub get_club_for_event : Event → Service (Option Club)
get_club_for_event event = scalar_one_or_none (club_rows event.club_id)

unfoldable pub get_user : ℕ → Service (Option User)
get_user user_id = scalar_one_or_none (λ db. select (λ u. u.id == user_id) db.users)

-- the id of the membership, which is there exactly when the membership is
unfoldable pub get_membership_id : ℕ → ℕ → Service (Option ClubMember)
get_membership_id club_id user_id = scalar_one_or_none (member_rows club_id user_id)
