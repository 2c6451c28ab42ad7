-- ===== src/Events/Inversion.antt =====
-- What the checks of the event services have found when they return, and that they only read.
use book_club_be.Prelude.{
  ℕ, ◌≡◌, refl, ap, ◌∙◌, true, false, inl, inr, Option, none, some, [], ◌∷◌, ◌||◌, ◌==◌, Bool-cases,
  is_some,
}
use book_club_be.Models.{User, Club, Event, EventAttendee, is_admin}
use book_club_be.Session.{Session, ok, scalar_one_or_none, pure}
use book_club_be.Session.Readers.{
  IsReader, IsReader-scalar, IsReader-bind, IsReader-pure, bind-ok, readers,
}
use book_club_be.Access.{event_rows, require_event_club_organizer}
use book_club_be.ClubRepository.{get_membership}
use book_club_be.Clubs.Common.{can_view_club}
use book_club_be.Clubs.Inversion.{
  one_row-some, one_row-none, or_raise-ok, IsReader-get_club, IsReader-get_membership,
  IsReader-require_club_organizer,
}
use book_club_be.Events.Repository.{
  get_event, get_attendance, attendance_rows, count_attendees, get_user, get_membership_id,
}
use book_club_be.Events.Service.{get_event_or_404, require_event_visible}

pub IsReader-get_attendance : (event_id user_id : ℕ) → IsReader (get_attendance event_id user_id)
unfolding get_attendance
IsReader-get_attendance event_id user_id = search readers

pub IsReader-count_attendees : (event_id : ℕ) → IsReader (count_attendees event_id)
unfolding count_attendees
IsReader-count_attendees event_id = search readers

pub IsReader-get_user : (user_id : ℕ) → IsReader (get_user user_id)
unfolding get_user
IsReader-get_user user_id = search readers

pub IsReader-get_membership_id :
    (club_id user_id : ℕ) → IsReader (get_membership_id club_id user_id)
unfolding get_membership_id
IsReader-get_membership_id club_id user_id = search readers

pub IsReader-get_event : (event_id : ℕ) → IsReader (get_event_or_404 event_id)
unfolding get_event_or_404 get_event
IsReader-get_event event_id = search readers

pub IsReader-require_event_club_organizer :
    (event_id : ℕ) (u : User) → IsReader (require_event_club_organizer event_id u)
unfolding require_event_club_organizer
IsReader-require_event_club_organizer event_id u = search (readers, IsReader-require_club_organizer)

pub IsReader-can_view : (club : Club) (user : Option User) → IsReader (can_view_club club user)
unfolding can_view_club pure
IsReader-can_view club none = record { at = λ s. refl }
IsReader-can_view club (some user) = record {
  at = λ s.
      elim (Bool-cases (club.is_public || is_admin user.role || club.organizer_id == user.id)) [
        | inl visible ↦ rw visible refl
        | inr closed ↦ rw closed (
            (IsReader-bind (get_membership club.id user.id) (λ found. pure (is_some found))
                (IsReader-get_membership _ _) (λ o. IsReader-pure _)).at
              s)
      ];
}

pub IsReader-require_event_visible : (e : Event) (u : User) → IsReader (require_event_visible e u)
unfolding require_event_visible
IsReader-require_event_visible e u = search (readers, IsReader-get_club, IsReader-can_view)

pub get_event-ok :
    (event_id : ℕ) (s : Session) {e : Event}
    → (get_event_or_404 event_id s).0 ≡ ok e
    → event_rows event_id s.work ≡ e ∷ []
unfolding get_event_or_404 get_event scalar_one_or_none
get_event-ok event_id s h =
    let found = bind-ok _ _ s (IsReader-scalar _) h in
    one_row-some (event_rows event_id s.work) (found.1 ∙ ap ok (or_raise-ok found.0 _ _ s found.2))

-- no attendance was found
pub attendance-none :
    (event_id user_id : ℕ) (s : Session) (o : Option EventAttendee)
    → (get_attendance event_id user_id s).0 ≡ ok o
    → is_some o ≡ false
    → attendance_rows event_id user_id s.work ≡ []
unfolding get_attendance scalar_one_or_none
attendance-none event_id user_id s none h e =
    one_row-none (attendance_rows event_id user_id s.work) h
attendance-none event_id user_id s (some a) h e = cc

pub attendance-some :
    (event_id user_id : ℕ) (s : Session) (o : Option EventAttendee)
    → (get_attendance event_id user_id s).0 ≡ ok o
    → is_some o ≡ true
    → (a : EventAttendee) × (attendance_rows event_id user_id s.work ≡ a ∷ [])
unfolding get_attendance scalar_one_or_none
attendance-some event_id user_id s none h e = cc
attendance-some event_id user_id s (some a) h e =
    (a, one_row-some (attendance_rows event_id user_id s.work) h)
