-- ===== src/Events/Changes.antt =====
-- What leaving, cancelling and deciding an event stores.
use book_club_be.Prelude.{
  ℕ, ◌≡◌, refl, ap, ◌∙◌, Bool, true, false, not, inl, inr, Option, some, List, [], ◌∷◌, arith, ◌==◌,
  select, delete, update, Bool-cases,
}
use book_club_be.Models.{User, Event, EventAttendee, is_held}
use book_club_be.Session.{Session, ok, scalar_one_or_none, change_sockets, when}
use book_club_be.Session.Readers.{IsReader-raise_if, IsReader-or_raise}
use book_club_be.Session.Holds.{Holds, Holds-read, Holds-modify, Holds-commit, Holds-pure}
use book_club_be.Clubs.Inversion.{raise_if-ok, or_raise-ok, one_row-some, IsReader-get_membership}
use book_club_be.Clubs.Common.{is_organizer_member}
use book_club_be.Clubs.Steps.{Holds-returns}
use book_club_be.Access.{event_rows}
use book_club_be.Events.Repository.{attendance_rows, is_attendance, remove_attendee, get_user}
use book_club_be.Events.Service.{
  cancel_attendance_service, kick_user_from_event_room, set_event, won_by, set_event_winner_service,
}
use book_club_be.Events.Routes.{rooms_of_event, cancelled_at, set_event_winner}
use book_club_be.Events.Inversion.{
  get_event-ok, attendance-some, IsReader-get_event, IsReader-require_event_visible,
  IsReader-get_attendance, IsReader-get_user, IsReader-require_event_club_organizer,
}

select-delete_own {ℓ} : {A : Type ℓ} (p : A → Bool) (xs : List A) → select p (delete p xs) ≡ []
select-delete_own p [] = refl
select-delete_own p (x ∷ xs) = ground (arith, select-delete_own p xs)

-- the user attends the event no more, and all other attendances are as they were
pub record HasCancelled (event_id user_id : ℕ) (s s' : Session) : Type 0 where
  pub gone : attendance_rows event_id user_id s'.saved ≡ []
  pub only_that : s'.saved ≡ remove_attendee event_id user_id s.work

kick-Holds :
    (event_id club_id user_id : ℕ) (Q : Session → Type 0) (s : Session)
    → ((m : _) → Q (record s { manager = m }))
    → Q s
    → Holds (λ _. Unit) Q (kick_user_from_event_room event_id club_id user_id) s
unfolding kick_user_from_event_room when change_sockets
kick-Holds event_id club_id user_id Q s h k =
    Holds-read _ _ s (IsReader-get_membership _ _) tt λ m _.
      elim (Bool-cases (not (is_organizer_member m))) [
        | inl no_organizer ↦ rw no_organizer record { at = h _ }
        | inr is_organizer ↦ rw is_organizer record { at = k }
      ]

cancel_attendance-Holds :
    (event_id : ℕ) (u : User) (s : Session)
    → Holds (λ _. Unit) (HasCancelled event_id u.id s) (cancel_attendance_service event_id u) s
unfolding cancel_attendance_service
cancel_attendance-Holds event_id u s = Holds-read _ _ s (IsReader-get_event _) tt λ event found.
    Holds-read _ _ s (IsReader-require_event_visible _ _) tt λ _ _. Holds-modify _ _ s (
      Holds-commit _ _ tt λ _.
        kick-Holds event_id event.club_id u.id (HasCancelled event_id u.id s) _
          (λ m. record {
            gone = select-delete_own (is_attendance event_id u.id) s.work.attendees;
            only_that = refl;
          })
          (record {
            gone = select-delete_own (is_attendance event_id u.id) s.work.attendees;
            only_that = refl;
          }))

-- Cancelling one's attendance, with no error, leaves the user without an attendance of the event
-- and changes no other row.
pub cancel_attendance-HasCancelled :
    (event_id : ℕ) (u : User) (s : Session) {t : Unit {0}}
    → (cancel_attendance_service event_id u s).0 ≡ ok t
    → HasCancelled event_id u.id s (cancel_attendance_service event_id u s).1
cancel_attendance-HasCancelled event_id u s =
    Holds-returns (cancel_attendance_service event_id u) s (cancel_attendance-Holds event_id u s)

-- the event has its winner, one of its attendees
pub record HasWinner (event_id winner_id : ℕ) (s s' : Session) : Type 0 where
  pub event : Event
  pub found : event_rows event_id s.work ≡ event ∷ []
  pub held : is_held event.status ≡ true
  pub attendance : EventAttendee
  pub attends : attendance_rows event_id winner_id s.work ≡ attendance ∷ []
  pub winner : User
  pub is_user : select (λ u. u.id == winner_id) s.work.users ≡ winner ∷ []
  pub only_that : s'.saved ≡ set_event event_id (won_by winner) s.work

user-ok :
    (id : ℕ) (s : Session) {o : Option User} {u : User}
    → (get_user id s).0 ≡ ok o
    → o ≡ some u
    → select (λ u. u.id == id) s.work.users ≡ u ∷ []
unfolding get_user scalar_one_or_none
user-ok id s h e = one_row-some (select (λ u. u.id == id) s.work.users) (h ∙ ap ok e)

set_event_winner-Holds :
    (event_id winner_id : ℕ) (u : User) (s : Session)
    → Holds (λ _. Unit) (HasWinner event_id winner_id s) (set_event_winner event_id winner_id u) s
unfolding set_event_winner set_event_winner_service
set_event_winner-Holds event_id winner_id u s =
    Holds-read _ _ s (IsReader-require_event_club_organizer _ _) tt λ _ _.
      Holds-read _ _ s (IsReader-get_event _) tt λ event found.
        Holds-read _ _ s (IsReader-raise_if _ _ _) tt λ _ held.
          Holds-read _ _ s (IsReader-get_attendance _ _) tt λ attendance row.
            Holds-read _ _ s (IsReader-raise_if _ _ _) tt λ _ attends.
              Holds-read _ _ s (IsReader-get_user _) tt λ o is_row.
                Holds-read _ _ s (IsReader-or_raise _ _ _) tt λ winner is_user.
                  let a =
                    attendance-some event_id winner_id s attendance row
                      (not-false _ (raise_if-ok _ _ _ s _ attends)) in
                  Holds-modify _ _ s (
                    Holds-commit _ _ tt λ _. Holds-pure _ _ record {
                      event = event;
                      found = get_event-ok event_id s found;
                      held = not-false _ (raise_if-ok _ _ _ s _ held);
                      attendance = a.0;
                      attends = a.1;
                      winner = winner;
                      is_user = user-ok winner_id s is_row (or_raise-ok o _ _ s is_user);
                      only_that = refl;
                    })
  where
    not-false : (b : Bool) → not b ≡ false → b ≡ true
    not-false true h = refl
    not-false false h = cc

-- A winner that is set, with no error, is a user who attends the event, which has been held; only
-- the event's row changes, to name them.
pub set_event_winner-HasWinner :
    (event_id winner_id : ℕ) (u : User) (s : Session) {event : Event}
    → (set_event_winner event_id winner_id u s).0 ≡ ok event
    → HasWinner event_id winner_id s (set_event_winner event_id winner_id u s).1
set_event_winner-HasWinner event_id winner_id u s =
    Holds-returns (set_event_winner event_id winner_id u) s
      (set_event_winner-Holds event_id winner_id u s)

-- no chat room of the event is left, and its row says that it is cancelled
pub record IsOff (event_id : ℕ) (s s' : Session) : Type 0 where
  pub no_room : rooms_of_event event_id s'.saved ≡ []
  pub events : s'.saved.events ≡ update (λ e. e.id == event_id) (cancelled_at s.now) s.work.events
