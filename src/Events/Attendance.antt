-- ===== src/Events/Attendance.antt =====
-- Who attends an event: what attending leaves, also after the join request that goes with it.
use book_club_be.Prelude.{
  ℕ, ◌+◌, ◌*◌, ◌≡◌, refl, false, Option, none, some, List, [], ◌∷◌, ◌++◌, ltb, is_some,
}
use book_club_be.Models.{
  User, Event, EventAttendee, JoinSource, JoinStatus, pending, approved, rejected, ClubMember,
  ClubJoinRequest, is_cancelled,
}
use book_club_be.Session.{Session, Result, ok, err}
use book_club_be.Session.Readers.{IsReader-raise_if, IsReader-get_now}
use book_club_be.Session.Holds.{
  Holds, After, Holds-read, Holds-if, Holds-bind, Holds-get_now, Holds-modify, Holds-commit,
  Holds-commit_last, Holds-pure, Holds-raise, Holds-any, Holds-on_integrity_error,
}
use book_club_be.Clubs.Inversion.{
  raise_if-ok, IsReader-get_club, IsReader-is_banned, IsReader-get_membership,
  IsReader-get_join_request,
}
use book_club_be.Clubs.Steps.{Holds-returns}
use book_club_be.Clubs.Members.{day}
use book_club_be.Clubs.Joining.{
  JoinOutcome, reopen, open_request, join_or_answer, answer_member, request_join_club_service,
}
use book_club_be.Access.{event_rows}
use book_club_be.Events.Repository.{attendance_rows}
use book_club_be.Events.Service.{
  AttendEventResponse, status_of, request_membership, resolve_join_request_status,
  attend_event_service,
}
use book_club_be.Events.Inversion.{
  get_event-ok, attendance-none, IsReader-get_event, IsReader-require_event_visible,
  IsReader-get_attendance, IsReader-count_attendees, IsReader-get_membership_id,
}

-- the attendances, stored and worked on
abbrev pub Attend : List EventAttendee → Session → Type 0
Attend rows s = (s.saved.attendees ≡ rows) × (s.work.attendees ≡ rows)

module _ (rows : List EventAttendee) where
  reopen-Attend :
      (club_id user_id : ℕ) (source : JoinSource) (status : JoinStatus) (s : Session)
      → Attend rows s
      → Holds (Attend rows) (Attend rows) (reopen club_id user_id source status) s
  unfolding reopen
  reopen-Attend club_id user_id source pending s h = Holds-pure _ s h
  reopen-Attend club_id user_id source approved s h = Holds-pure _ s h
  reopen-Attend club_id user_id source rejected s h =
      Holds-modify _ _ s (Holds-commit _ _ h λ _. Holds-pure _ _ (h.1, h.1))

  open_request-Attend :
      (club_id user_id : ℕ) (source : JoinSource) (r : Option ClubJoinRequest) (s : Session)
      → Attend rows s
      → Holds (Attend rows) (Attend rows) (open_request club_id user_id source r) s
  unfolding open_request
  open_request-Attend club_id user_id source (some r) s h =
      reopen-Attend club_id user_id source r.status s h
  open_request-Attend club_id user_id source none s h = Holds-read _ _ s IsReader-get_now h λ now _.
      Holds-modify _ _ s (
        Holds-on_integrity_error _ _ _ (Holds-commit _ _ h λ _. Holds-pure _ _ (h.1, h.1))
          (λ s' k. Holds-pure _ _ (k.0, k.0)))

  join_or_answer-Attend :
      (club_id user_id : ℕ) (m : Option ClubMember) (s : Session)
      → Attend rows s
      → Holds (Attend rows) (Attend rows) (join_or_answer club_id user_id JoinSource.event m) s
  unfolding join_or_answer answer_member
  join_or_answer-Attend club_id user_id (some m) s h = Holds-pure _ s h
  join_or_answer-Attend club_id user_id none s h =
      Holds-read _ _ s (IsReader-get_join_request _ _) h
        λ r _. open_request-Attend club_id user_id JoinSource.event r s h

  request_join-Attend :
      (club_id : ℕ) (u : User) (s : Session)
      → Attend rows s
      → Holds (Attend rows) (Attend rows) (request_join_club_service club_id u JoinSource.event) s
  unfolding request_join_club_service
  request_join-Attend club_id u s h = Holds-read _ _ s (IsReader-get_club _) h λ _ _.
      Holds-read _ _ s (IsReader-is_banned _ _) h λ _ _.
        Holds-read _ _ s (IsReader-raise_if _ _ _) h λ _ _.
          Holds-read _ _ s (IsReader-get_membership _ _) h
            λ m _. join_or_answer-Attend club_id u.id m s h

  both :
      {A : Type 0} (r : Result A) (s : Session)
      → Attend rows s
      → After (Attend rows) (Attend rows) r s
  both (ok a) s h = h
  both (err e) s h = h

  either :
      {A : Type 0} (r : Result A) (s : Session)
      → After (Attend rows) (Attend rows) r s
      → Attend rows s
  either (ok a) s h = h
  either (err e) s h = h

  status_of-Attend :
      (r : Result JoinOutcome) (s : Session)
      → Attend rows s
      → Holds (Attend rows) (Attend rows) (status_of r) s
  status_of-Attend (ok outcome) s h = record { at = h }
  status_of-Attend (err e) s h = record { at = both _ s h }

  resolve-Attend :
      (e : Event) (u : User) (s : Session)
      → Attend rows s
      → Holds (Attend rows) (Attend rows) (resolve_join_request_status e u) s
  unfolding resolve_join_request_status request_membership
  resolve-Attend e u s h = Holds-read _ _ s (IsReader-get_membership_id _ _) h λ m _.
      Holds-if (is_some m) _ _ s (λ _. Holds-pure _ s h)
        (λ _. record {
          at =
              (status_of-Attend (request_join_club_service e.club_id u JoinSource.event s).0 _ (
                either (request_join_club_service e.club_id u JoinSource.event s).0 _
                  (request_join-Attend e.club_id u s h).at)).at;
        })

abbrev the_attendance : ℕ → ℕ → EventAttendee
the_attendance event_id user_id = record { event_id = event_id; user_id = user_id }

-- the user attends the event, which was open for registration
pub record Attends (event_id user_id : ℕ) (s s' : Session) : Type 0 where
  pub event : Event
  pub found : event_rows event_id s.work ≡ event ∷ []
  pub not_cancelled : is_cancelled event.status ≡ false
  pub in_time : ltb event.date (s.now + 3 * day) ≡ false
  pub not_yet : attendance_rows event_id user_id s.work ≡ []
  pub stored : s'.saved.attendees ≡ s.work.attendees ++ the_attendance event_id user_id ∷ []
  pub worked : s'.work.attendees ≡ s.work.attendees ++ the_attendance event_id user_id ∷ []

attend-Holds :
    (event_id : ℕ) (u : User) (s : Session)
    → Holds (λ _. Unit) (Attends event_id u.id s) (attend_event_service event_id u) s
unfolding attend_event_service
attend-Holds event_id u s = Holds-read _ _ s (IsReader-get_event _) tt λ event found.
    Holds-read _ _ s (IsReader-require_event_visible _ _) tt λ _ _.
      Holds-read _ _ s (IsReader-is_banned _ _) tt λ banned _.
        Holds-read _ _ s (IsReader-raise_if _ _ _) tt λ _ _.
          Holds-read _ _ s (IsReader-raise_if _ _ _) tt λ _ not_cancelled. Holds-get_now _ s (
            Holds-read _ _ s (IsReader-raise_if _ _ _) tt λ _ in_time.
              Holds-read _ _ s (IsReader-get_attendance _ _) tt λ attendance mine.
                Holds-read _ _ s (IsReader-raise_if _ _ _) tt λ _ not_yet. Holds-modify _ _ s (
                  Holds-bind {Q = Attend (s.work.attendees ++ the_attendance event_id u.id ∷ [])} _
                    _ _
                    (Holds-on_integrity_error _ _ _ (Holds-commit_last _ tt (λ _. (refl, refl)))
                      (λ s' _. Holds-raise _ _ _ tt))
                    (λ _ s' h. Holds-read _ _ s' (IsReader-count_attendees _) tt λ n _.
                      Holds-bind _ _ s' (Holds-any _ s' (resolve-Attend _ event u s' h))
                        λ status s'' k. Holds-pure _ s'' record {
                          event = event;
                          found = get_event-ok event_id s found;
                          not_cancelled = raise_if-ok _ _ _ s _ not_cancelled;
                          in_time = raise_if-ok _ _ _ s _ in_time;
                          not_yet =
                              attendance-none event_id u.id s attendance mine
                                (raise_if-ok _ _ _ s _ not_yet);
                          stored = k.0;
                          worked = k.1;
                        })))

-- Attending, with no error, is of an event that is not cancelled and starts in three days at least,
-- by a user who did not attend it; the attendance is then stored, no other attendance changes, and
-- both stay so whatever becomes of the join request that goes with it.
pub attend-Attends :
    (event_id : ℕ) (u : User) (s : Session) {response : AttendEventResponse}
    → (attend_event_service event_id u s).0 ≡ ok response
    → Attends event_id u.id s (attend_event_service event_id u s).1
attend-Attends event_id u s =
    Holds-returns (attend_event_service event_id u) s (attend-Holds event_id u s)
