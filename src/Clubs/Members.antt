-- ===== src/Clubs/Members.antt =====
-- app/services/club_service.py: leaving, removing, banning and unbanning members, and their roles.
use book_club_be.Prelude.{
  ℕ, ◌+◌, ◌*◌, Bool, true, false, not, ◌&&◌, Option, none, some, List, [], ◌∷◌, ◌++◌, ◌==◌, leb,
  select, delete, update, if◌then◌else◌,
}
use book_club_be.Models.{
  User, Club, ClubMember, ClubBan, MemberRole, is_organizer_role, BanDuration, one_day, three_days,
  five_days, permanent,
}
use book_club_be.Database.{Database}
use book_club_be.Session.{
  Service, query, scalar_one_or_none, pure, or_raise, raise_if, modify, commit, get_now, when,
  ◌>>=◌, ◌>>◌, owner_cannot_leave, not_a_member, last_organizer, member_not_found,
  cannot_remove_owner, user_not_found, cannot_ban_self, ban_not_found, cannot_demote_owner,
}
use book_club_be.ClubRepository.{is_membership, remove_member}
use book_club_be.Access.{require_club_organizer}
use book_club_be.Clubs.Common.{
  lock_club_for_update, lock_club_and_recheck_actor, get_member_fresh, count_organizers,
  require_owner_to_act_on_organizer, kick_user_from_club_rooms, is_organizer_member,
}

unfoldable pub leave_club_service : ℕ → User → Service (Unit {0})
leave_club_service club_id current_user = do
  club ← lock_club_for_update club_id
  raise_if (club.organizer_id == current_user.id) 400 owner_cannot_leave
  found ← get_member_fresh club_id current_user.id
  member ← or_raise found 409 not_a_member
  organizer_count ← count_organizers club_id
  raise_if (is_organizer_role member.role && leb organizer_count 1) 400 last_organizer
  remove_member club_id current_user.id
  commit
  kick_user_from_club_rooms club_id current_user.id

-- the checks for a member who is an organizer
unfoldable pub require_removable_organizer : ℕ → ℕ → Club → User → Service (Unit {0})
require_removable_organizer club_id user_id club current_user = do
  when (not (user_id == current_user.id)) (require_owner_to_act_on_organizer club current_user)
  organizer_count ← count_organizers club_id
  raise_if (leb organizer_count 1) 400 last_organizer

unfoldable pub remove_member_service : ℕ → ℕ → User → Service (Unit {0})
remove_member_service club_id user_id current_user = do
  _ ← require_club_organizer club_id current_user
  club ← lock_club_and_recheck_actor club_id current_user
  found ← get_member_fresh club_id user_id
  member ← or_raise found 404 member_not_found
  raise_if (club.organizer_id == user_id) 400 cannot_remove_owner
  when (is_organizer_role member.role)
      (require_removable_organizer club_id user_id club current_user)
  remove_member club_id user_id
  commit
  kick_user_from_club_rooms club_id user_id

abbrev pub day : ℕ
day = 86400 * 1000000

abbrev pub expiry : ℕ → BanDuration → Option ℕ
expiry now one_day = some (now + 1 * day)
expiry now three_days = some (now + 3 * day)
expiry now five_days = some (now + 5 * day)
expiry now permanent = none

abbrev pub add_ban : ClubBan → Database → Database
add_ban ban db = record db { bans = db.bans ++ ban ∷ [] }

abbrev pub user_rows : ℕ → Database → List User
user_rows user_id db = select (λ u. u.id == user_id) db.users

-- the row that the service adds, at the time of its `now_utc`
abbrev pub new_ban : ℕ → ℕ → BanDuration → ℕ → ℕ → ClubBan
new_ban club_id user_id duration banned_by now = record {
  club_id = club_id;
  user_id = user_id;
  banned_by = banned_by;
  banned_at = now;
  duration = duration;
  expires_at = expiry now duration;
}

unfoldable pub require_bannable_organizer : ℕ → Club → User → Service (Unit {0})
require_bannable_organizer club_id club current_user = do
  require_owner_to_act_on_organizer club current_user
  organizer_count ← count_organizers club_id
  raise_if (leb organizer_count 1) 400 last_organizer

-- Returns the stored ban, from which the response is made.
unfoldable pub ban_user_service : ℕ → ℕ → BanDuration → User → Service ClubBan
ban_user_service club_id user_id duration current_user = do
  _ ← require_club_organizer club_id current_user
  club ← lock_club_and_recheck_actor club_id current_user
  target ← scalar_one_or_none (user_rows user_id)
  _ ← or_raise target 404 user_not_found
  raise_if (club.organizer_id == user_id) 400 cannot_remove_owner
  raise_if (user_id == current_user.id) 400 cannot_ban_self
  target_member ← get_member_fresh club_id user_id
  when (is_organizer_member target_member) (require_bannable_organizer club_id club current_user)
  now_utc ← get_now
  modify (add_ban (new_ban club_id user_id duration current_user.id now_utc))
  remove_member club_id user_id
  commit
  kick_user_from_club_rooms club_id user_id
  pure (new_ban club_id user_id duration current_user.id now_utc)

abbrev pub is_ban_of : ℕ → ℕ → ClubBan → Bool
is_ban_of club_id user_id b = b.club_id == club_id && b.user_id == user_id

abbrev pub is_empty_list {ℓ} : {A : Type ℓ} → List A → Bool
is_empty_list [] = true
is_empty_list (x ∷ xs) = false

unfoldable pub unban_user_service : ℕ → ℕ → User → Service (Unit {0})
unban_user_service club_id user_id current_user = do
  _ ← require_club_organizer club_id current_user
  bans ← query (λ db. select (is_ban_of club_id user_id) db.bans)
  raise_if (is_empty_list bans) 404 ban_not_found
  modify (λ db. record db { bans = delete (is_ban_of club_id user_id) db.bans })
  commit

abbrev pub set_role : MemberRole → ClubMember → ClubMember
set_role role m = record m { role = role }

abbrev pub same_role : MemberRole → MemberRole → Bool
same_role MemberRole.member MemberRole.member = true
same_role MemberRole.organizer MemberRole.organizer = true
same_role _ _ = false

unfoldable pub with_role : ℕ → ℕ → MemberRole → Database → Database
with_role club_id user_id role db = record db {
  members = update (is_membership club_id user_id) (set_role role) db.members;
}

unfoldable pub require_demotable : ℕ → ℕ → Club → User → Service (Unit {0})
require_demotable club_id user_id club current_user = do
  raise_if (club.organizer_id == user_id) 400 cannot_demote_owner
  when (not (user_id == current_user.id)) (require_owner_to_act_on_organizer club current_user)
  organizer_count ← count_organizers club_id
  raise_if (leb organizer_count 1) 400 last_organizer

-- the rest of the service for a role that differs from the member's
unfoldable pub store_role : ℕ → ℕ → MemberRole → Club → User → ClubMember → Service ClubMember
store_role club_id user_id new_role club current_user member = do
  when (same_role new_role MemberRole.member) (require_demotable club_id user_id club current_user)
  modify (with_role club_id user_id new_role)
  commit
  pure (set_role new_role member)

unfoldable pub change_member_role_service : ℕ → ℕ → MemberRole → User → Service ClubMember
change_member_role_service club_id user_id new_role current_user = do
  _ ← require_club_organizer club_id current_user
  club ← lock_club_and_recheck_actor club_id current_user
  found ← get_member_fresh club_id user_id
  member ← or_raise found 404 member_not_found
  if same_role member.role new_role
      then pure member
      else store_role club_id user_id new_role club current_user member
