-- ===== src/Events/Service.antt =====
-- app/services/event_service.py: attending an event, cancelling that, and the winner of an event.
use book_club_be.Prelude.{
  ℕ, ◌+◌, ◌*◌, Bool, true, false, not, Option, none, some, ◌==◌, ltb, head?, opt_eq, select, update,
  is_some, if◌then◌else◌,
}
use book_club_be.Models.{User, JoinSource, Event, is_cancelled, is_held, ChatRoom}
use book_club_be.Database.{Database}
use book_club_be.Session.{
  Service, Result, ok, err, Failure, app_error, pure, raise, or_raise, raise_if, modify,
  change_sockets, commit, get_now, on_integrity_error, when, ◌>>=◌, ◌>>◌, event_not_found,
  club_banned, event_cancelled, registration_closed, already_attending, event_not_held,
  winner_not_attendee, user_not_found,
}
use book_club_be.Connections.{ConnectionManager, kick}
use book_club_be.ClubRepository.{is_banned, get_membership}
use book_club_be.Clubs.Common.{get_club_or_404, can_view_club, is_organizer_member}
use book_club_be.Clubs.Members.{day}
use book_club_be.Clubs.Joining.{
  JoinOutcome, now_pending, already_requested, is_member, request_join_club_service,
}
use book_club_be.Events.Repository.{
  get_event, count_attendees, get_attendance, add_attendee, remove_attendee, get_user,
  get_membership_id,
}

unfoldable pub get_event_or_404 : ℕ → Service Event
get_event_or_404 event_id = do found ← get_event event_id; or_raise found 404 event_not_found

unfoldable pub require_event_visible : Event → User → Service (Unit {0})
require_event_visible event user = do
  club ← get_club_or_404 event.club_id
  visible ← can_view_club club (some user)
  raise_if (not visible) 404 event_not_found

-- the literals "none", "pending" and "member"
pub data JoinRequestStatus : Type 0 where
  no_request request_pending has_membership : JoinRequestStatus

abbrev pub is_club_banned : Failure → Bool
is_club_banned (app_error status club_banned) = true
is_club_banned _ = false

abbrev pub join_answer : JoinOutcome → JoinRequestStatus
join_answer now_pending = request_pending
join_answer already_requested = request_pending
join_answer is_member = no_request

-- `except AppError`: only the code for a ban is swallowed
abbrev pub status_of : Result JoinOutcome → Service JoinRequestStatus
status_of (ok outcome) s = (ok (join_answer outcome), s)
status_of (err e) s = (if is_club_banned e then ok no_request else err e, s)

unfoldable pub request_membership : Event → User → Service JoinRequestStatus
request_membership event current_user s =
    let (r, s') = request_join_club_service event.club_id current_user JoinSource.event s in
    status_of r s'

unfoldable pub resolve_join_request_status : Event → User → Service JoinRequestStatus
resolve_join_request_status event current_user = do
  membership ← get_membership_id event.club_id current_user.id
  if is_some membership then pure has_membership else request_membership event current_user

pub record AttendEventResponse : Type 0 where
  pub attendee_count : ℕ
  pub join_request_status : JoinRequestStatus

unfoldable pub attend_event_service : ℕ → User → Service AttendEventResponse
attend_event_service event_id current_user = do
  event ← get_event_or_404 event_id
  require_event_visible event current_user
  banned ← is_banned event.club_id current_user.id
  raise_if banned 403 club_banned
  raise_if (is_cancelled event.status) 400 event_cancelled
  now ← get_now
  raise_if (ltb event.date (now + 3 * day)) 400 registration_closed
  attendance ← get_attendance event_id current_user.id
  raise_if (is_some attendance) 409 already_attending
  modify (add_attendee event_id current_user.id)
  on_integrity_error commit (raise 409 already_attending)
  attendee_count ← count_attendees event_id
  join_request_status ← resolve_join_request_status event current_user
  pure (record { attendee_count = attendee_count; join_request_status = join_request_status })

abbrev pub room_of_event : ℕ → Database → Option ChatRoom
room_of_event event_id db = head? (select (λ r. opt_eq r.event_id (some event_id)) db.rooms)

-- what is closed for a user who is no organizer of the club
abbrev pub kick_from_room : Option ChatRoom → ℕ → ConnectionManager → ConnectionManager
kick_from_room none user_id m = m
kick_from_room (some r) user_id m = kick user_id r.id m

-- best effort, after the commit; the membership is the only one of its club and user
unfoldable pub kick_user_from_event_room : ℕ → ℕ → ℕ → Service (Unit {0})
kick_user_from_event_room event_id club_id user_id = do
  membership ← get_membership club_id user_id
  when (not (is_organizer_member membership))
      (change_sockets (λ db. kick_from_room (room_of_event event_id db) user_id))

unfoldable pub cancel_attendance_service : ℕ → User → Service (Unit {0})
cancel_attendance_service event_id current_user = do
  event ← get_event_or_404 event_id
  require_event_visible event current_user
  modify (remove_attendee event_id current_user.id)
  commit
  kick_user_from_event_room event_id event.club_id current_user.id

abbrev pub set_event : ℕ → (Event → Event) → Database → Database
set_event event_id f db = record db { events = update (λ e. e.id == event_id) f db.events }

abbrev pub won_by : User → Event → Event
won_by winner e = record e {
  has_winner = true;
  winner_id = some winner.id;
  winner_name = some winner.display_name;
}

-- Returns the event, from which the response is built.
unfoldable pub set_event_winner_service : ℕ → ℕ → Service Event
set_event_winner_service event_id winner_id = do
  event ← get_event_or_404 event_id
  raise_if (not (is_held event.status)) 400 event_not_held
  attendance ← get_attendance event_id winner_id
  raise_if (not (is_some attendance)) 400 winner_not_attendee
  found ← get_user winner_id
  winner ← or_raise found 404 user_not_found
  modify (set_event event_id (won_by winner))
  commit
  pure (won_by winner event)
