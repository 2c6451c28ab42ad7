-- ===== src/Access.antt =====
-- app/dependencies.py: who may act. Which user a request comes from (`get_current_user`) is the
-- argument `current_user` of each service.
use book_club_be.Prelude.{ℕ, Bool, not, ◌&&◌, Option, List, ◌==◌, is_some, select, head?}
use book_club_be.Models.{User, ClubMember, Event, is_organizer_role, is_admin}
use book_club_be.Database.{Database}
use book_club_be.Session.{
  Service, query, scalar_one_or_none, pure, or_raise, raise_if, when, ◌>>=◌, ◌>>◌, forbidden,
  club_not_found, event_not_found,
}
use book_club_be.ClubRepository.{is_membership, club_rows}

abbrev pub organizer_rows : ℕ → ℕ → Database → List ClubMember
organizer_rows club_id user_id db =
    select (λ m. is_membership club_id user_id m && is_organizer_role m.role) db.members

-- `_fetch_organizer_membership`
unfoldable pub fetch_organizer_membership : ℕ → ℕ → Service (Option ClubMember)
fetch_organizer_membership club_id user_id = scalar_one_or_none (organizer_rows club_id user_id)

unfoldable pub require_club_organizer : ℕ → User → Service ClubMember
require_club_organizer club_id current_user = do
  membership ← fetch_organizer_membership club_id current_user.id
  or_raise membership 403 forbidden

unfoldable pub require_club_owner_or_organizer : ℕ → User → Service (Unit {0})
require_club_owner_or_organizer club_id current_user = do
  row ← query (λ db. head? (club_rows club_id db))
  club ← or_raise row 404 club_not_found
  when (not (club.organizer_id == current_user.id))
      (require_club_organizer club_id current_user >>= λ _. pure tt)

unfoldable pub require_admin : User → Service User
require_admin current_user = do
  raise_if (not (is_admin current_user.role)) 403 forbidden
  pure current_user

abbrev pub event_rows : ℕ → Database → List Event
event_rows event_id db = select (λ e. e.id == event_id) db.events

unfoldable pub require_event_club_organizer : ℕ → User → Service ClubMember
require_event_club_organizer event_id current_user = do
  found ← scalar_one_or_none (event_rows event_id)
  event ← or_raise found 404 event_not_found
  require_club_organizer event.club_id current_user

unfoldable pub is_club_organizer : ℕ → ℕ → Service Bool
is_club_organizer club_id user_id = do
  membership ← fetch_organizer_membership club_id user_id
  pure (is_some membership)
