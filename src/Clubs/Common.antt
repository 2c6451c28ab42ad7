-- ===== src/Clubs/Common.antt =====
-- app/services/club_service.py: what its services share.
use book_club_be.Prelude.{
  ℕ, Bool, true, false, not, ◌&&◌, ◌||◌, Option, none, some, List, ◌==◌, is_some, count,
  if◌then◌else◌,
}
use book_club_be.Models.{User, Club, ClubMember, is_organizer_role, is_admin}
use book_club_be.Database.{Database}
use book_club_be.Session.{
  Service, query, scalar_one_or_none, pure, or_raise, raise_if, change_sockets, ◌>>=◌, ◌>>◌,
  club_not_found, forbidden, owner_only,
}
use book_club_be.Connections.{kick_from_rooms, close_rooms}
use book_club_be.ClubRepository.{
  club_rows, member_rows, get_by_id, get_membership, room_ids_of_club,
}

unfoldable pub get_club_or_404 : ℕ → Service Club
get_club_or_404 club_id = do club ← get_by_id club_id; or_raise club 404 club_not_found

-- SELECT … FOR UPDATE: the requests that take this lock on a club run one after the other.
unfoldable pub lock_club_for_update : ℕ → Service Club
lock_club_for_update club_id = do
  club ← scalar_one_or_none (club_rows club_id)
  or_raise club 404 club_not_found

unfoldable pub get_member_fresh : ℕ → ℕ → Service (Option ClubMember)
get_member_fresh club_id user_id = scalar_one_or_none (member_rows club_id user_id)

abbrev pub is_organizer_member : Option ClubMember → Bool
is_organizer_member none = false
is_organizer_member (some m) = is_organizer_role m.role

unfoldable pub lock_club_and_recheck_actor : ℕ → User → Service Club
lock_club_and_recheck_actor club_id actor = do
  club ← lock_club_for_update club_id
  actor_member ← get_member_fresh club_id actor.id
  raise_if (not (is_organizer_member actor_member)) 403 forbidden
  pure club

abbrev pub organizers : ℕ → Database → ℕ
organizers club_id db = count (λ m. m.club_id == club_id && is_organizer_role m.role) db.members

unfoldable pub count_organizers : ℕ → Service ℕ
count_organizers club_id = query (organizers club_id)

-- `_require_owner_to_act_on_organizer`
unfoldable pub require_owner_to_act_on_organizer : Club → User → Service (Unit {0})
require_owner_to_act_on_organizer club actor =
    raise_if (not (club.organizer_id == actor.id)) 403 owner_only

-- best effort, after the commit: what goes wrong with a socket is swallowed
unfoldable pub kick_user_from_club_rooms : ℕ → ℕ → Service (Unit {0})
kick_user_from_club_rooms club_id user_id =
    change_sockets (λ db. kick_from_rooms (room_ids_of_club club_id db) user_id)

unfoldable pub close_rooms_best_effort : List ℕ → Service (Unit {0})
close_rooms_best_effort room_ids = change_sockets (λ _. close_rooms room_ids)

-- `user` is none for a request without a signed-in user
unfoldable pub can_view_club : Club → Option User → Service Bool
can_view_club club none s = pure club.is_public s
can_view_club club (some user) s =
    if club.is_public || is_admin user.role || club.organizer_id == user.id
    then pure true s
    else (get_membership club.id user.id >>= λ found. pure (is_some found)) s

unfoldable pub require_club_viewable : ℕ → Option User → Service Club
require_club_viewable club_id user = do
  club ← get_club_or_404 club_id
  visible ← can_view_club club user
  raise_if (not visible) 403 forbidden
  pure club
