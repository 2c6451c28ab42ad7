-- ===== src/Members.antt =====
-- app/routers/members.py: the lists of a club's members, bans and join requests, page by page with the
-- total (app/repositories/pagination.py); the other routes call the services of Clubs. A response carries
-- the columns of its row and of the user; links to social networks are left out.
pub mod Rows
pub mod Joined
pub mod Pages
mod Tests
use book_club_be.Prelude.{
  ℕ, Bool, true, false, ◌&&◌, ◌||◌, Option, none, some, List, [], ◌∷◌, ◌++◌, map, ◌==◌, ltb, take,
  drop, select, count, length, if◌then◌else◌,
}
use book_club_be.Models.{User, ClubMember, ClubBan, ClubJoinRequest, is_pending}
use book_club_be.Database.{Database}
use book_club_be.ClubRepository.{is_in_force}
use book_club_be.Session.{Service, query, get_now, ◌>>=◌, ◌>>◌}
use book_club_be.Access.{require_club_organizer, require_club_owner_or_organizer}
use book_club_be.Clubs.Common.{require_club_viewable}

-- ORDER BY
module _ {A : Type 0} (before : A → A → Bool) where
  abbrev pub insert_by : A → List A → List A
  insert_by x [] = x ∷ []
  insert_by x (y ∷ ys) = let rest = insert_by x ys in if before y x then y ∷ rest else x ∷ y ∷ ys

  abbrev pub sort_by : List A → List A
  sort_by [] = []
  sort_by (x ∷ xs) = insert_by x (sort_by xs)

-- the JOIN of rows with their users
module _ {A : Type 0} (user_of : A → ℕ) (users : List User) where
  abbrev pub join_users : List A → List (A × User)
  join_users [] = []
  join_users (x ∷ xs) = map (λ u. (x, u)) (select (λ u. u.id == user_of x) users) ++ join_users xs

-- the total is a window's over all rows; a page without rows asks for it on its own
abbrev pub total_of {ℓ} : {A : Type ℓ} → List A → ℕ → ℕ → ℕ
total_of [] all_rows counted_rows = counted_rows
total_of (r ∷ rs) all_rows counted_rows = all_rows

unfoldable pub fetch_page_with_total :
    {A : Type 0} → (Database → List A) → (Database → ℕ) → ℕ → ℕ → Service (List A × ℕ)
fetch_page_with_total rows counted_rows skip limit = query (λ db.
    let page = take limit (drop skip (rows db)) in
    (page, total_of page (length (rows db)) (counted_rows db)))

abbrev pub joined_before : ClubMember → ClubMember → Bool
joined_before a b =
    ltb a.joined_at b.joined_at || (a.joined_at == b.joined_at && ltb a.user_id b.user_id)

abbrev pub members_of : ℕ → Database → List (ClubMember × User)
members_of club_id db =
    join_users (λ m. m.user_id) db.users
      (sort_by joined_before (select (λ m. m.club_id == club_id) db.members))

unfoldable pub list_members : ℕ → User → ℕ → ℕ → Service (List (ClubMember × User) × ℕ)
list_members club_id current_user skip limit = do
  _ ← require_club_viewable club_id (some current_user)
  fetch_page_with_total (members_of club_id) (λ db. count (λ m. m.club_id == club_id) db.members)
      skip limit

abbrev pub is_active_ban : ℕ → ℕ → ClubBan → Bool
is_active_ban club_id now b = b.club_id == club_id && is_in_force now b.expires_at

abbrev pub banned_before : ClubBan → ClubBan → Bool
banned_before a b =
    ltb a.banned_at b.banned_at || (a.banned_at == b.banned_at && ltb a.user_id b.user_id)

abbrev pub bans_of : ℕ → ℕ → Database → List (ClubBan × User)
bans_of club_id now db =
    join_users (λ b. b.user_id) db.users
      (sort_by banned_before (select (is_active_ban club_id now) db.bans))

unfoldable pub list_bans : ℕ → User → ℕ → ℕ → Service (List (ClubBan × User) × ℕ)
list_bans club_id current_user skip limit = do
  require_club_owner_or_organizer club_id current_user
  now ← get_now
  fetch_page_with_total (bans_of club_id now) (λ db. count (is_active_ban club_id now) db.bans) skip
      limit

abbrev pub is_open_request : ℕ → ClubJoinRequest → Bool
is_open_request club_id r = r.club_id == club_id && is_pending r.status

abbrev pub requested_before : ClubJoinRequest → ClubJoinRequest → Bool
requested_before a b =
    ltb a.created_at b.created_at || (a.created_at == b.created_at && ltb a.user_id b.user_id)

abbrev pub requests_of : ℕ → Database → List (ClubJoinRequest × User)
requests_of club_id db =
    join_users (λ r. r.user_id) db.users
      (sort_by requested_before (select (is_open_request club_id) db.join_requests))

unfoldable pub list_join_requests_service :
    ℕ → User → ℕ → ℕ → Service (List (ClubJoinRequest × User) × ℕ)
list_join_requests_service club_id current_user skip limit = do
  _ ← require_club_organizer club_id current_user
  fetch_page_with_total (requests_of club_id)
      (λ db. count (is_open_request club_id) db.join_requests) skip limit
