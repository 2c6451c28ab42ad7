-- ===== src/Members/Pages.antt =====
-- The pages of the lists and their totals.
use book_club_be.Prelude.{
  ℕ, ◌-◌, ◌+◌, ◌||◌, ap, All, Memᴰ, none, leb, ◌≡◌, refl, sym, ◌∙◌, subst, Bool, true, ◌&&◌, Option,
  some, List, [], ◌∷◌, arith, ◌==◌, ltb, take, drop, select, count, length, for_all, if◌then◌else◌,
}
use book_club_be.Models.{User, ClubMember, ClubBan}
use book_club_be.Database.{Database, integrity, has_user}
use book_club_be.Session.{Session, ok, query, get_now}
use book_club_be.Session.Readers.{IsReader, readers, bind-ok, IsReader-get_now}
use book_club_be.Events.Listing.{ok-injective}
use book_club_be.Access.{require_club_owner_or_organizer}
use book_club_be.Clubs.Common.{require_club_viewable}
use book_club_be.Clubs.Inversion.{IsReader-get_club, IsReader-require_club_organizer}
use book_club_be.Events.Inversion.{IsReader-can_view}
use book_club_be.Members.Joined.{
  IsOrdered, count-join_users, count-sort_by, count-select_both, join_users-IsOrdered,
  sort_by-IsOrdered, join_users-own, user_ids, length-joined, members_users, bans_users,
}
use book_club_be.ClubRepository.{is_in_force}
use book_club_be.Members.Rows.{length-take, length-drop, for_all-sort_by, for_all-select}
use book_club_be.Members.{
  members_of, bans_of, joined_before, banned_before, is_active_ban, list_members, list_bans,
  sort_by, total_of, fetch_page_with_total,
}

-- a page with the right total, and as many rows as there are from `skip` on, `limit` at most
pub record IsPage {A : Type 0} (expected skip limit : ℕ) (r : List A × ℕ) : Type 0 where
  pub total : r.1 ≡ expected
  pub size : length r.0 ≡ (if ltb limit (expected - skip) then limit else expected - skip)

total_of-same : {A : Type 0} (xs : List A) (n : ℕ) → total_of xs n n ≡ n
total_of-same [] n = refl
total_of-same (x ∷ xs) n = refl

page_of :
    {A : Type 0} (xs : List A) (skip limit counted : ℕ)
    → length xs ≡ counted
    → let page = take limit (drop skip xs) in
      IsPage counted skip limit (page, total_of page (length xs) counted)
page_of xs skip limit counted same = record {
  total = rw same (total_of-same (take limit (drop skip xs)) counted);
  size = ground (arith, same, length-take limit (drop skip xs), length-drop skip xs);
}

fetched-IsPage :
    {A : Type 0} (rows : Database → List A) (counted_rows : Database → ℕ) (skip limit : ℕ)
    (s : Session) {r : List A × ℕ}
    → length (rows s.work) ≡ counted_rows s.work
    → (fetch_page_with_total rows counted_rows skip limit s).0 ≡ ok r
    → IsPage (counted_rows s.work) skip limit r
unfolding fetch_page_with_total query
fetched-IsPage rows counted_rows skip limit s same h =
    subst (λ r. IsPage (counted_rows s.work) skip limit r) (ok-injective h)
      (page_of (rows s.work) skip limit (counted_rows s.work) same)

IsReader-require_club_viewable :
    (club_id : ℕ) (user : Option User) → IsReader (require_club_viewable club_id user)
unfolding require_club_viewable
IsReader-require_club_viewable club_id user = search (readers, IsReader-get_club, IsReader-can_view)

IsReader-require_owner_or_organizer :
    (club_id : ℕ) (u : User) → IsReader (require_club_owner_or_organizer club_id u)
unfolding require_club_owner_or_organizer
IsReader-require_owner_or_organizer club_id u = search (readers, IsReader-require_club_organizer)

pub list_members-IsPage :
    (club_id : ℕ) (u : User) (skip limit : ℕ) (s : Session) {r : List (ClubMember × User) × ℕ}
    → integrity s.work ≡ true
    → (list_members club_id u skip limit s).0 ≡ ok r
    → IsPage (count (λ m. m.club_id == club_id) s.work.members) skip limit r
unfolding list_members
list_members-IsPage club_id u skip limit s meets h =
    let (c, viewable, h1) = bind-ok _ _ s (IsReader-require_club_viewable club_id (some u)) h in
    fetched-IsPage (members_of club_id) _ skip limit s
      (length-joined (λ m. m.user_id) joined_before (λ m. m.club_id == club_id) s.work.members
        s.work meets (members_users s.work meets))
      h1

abbrev expires_after : ℕ → Option ℕ → Bool
expires_after now none = true
expires_after now (some t) = leb (now + 1) t

-- a ban of the club that has not expired
abbrev pub is_unexpired_ban : ℕ → ℕ → ClubBan → Bool
is_unexpired_ban club_id now b = b.club_id == club_id && expires_after now b.expires_at

-- in the order of the times of the bans, then of the users' ids
abbrev pub is_listed_before : ClubBan → ClubBan → Bool
is_listed_before a b =
    ltb a.banned_at b.banned_at || (a.banned_at == b.banned_at && leb a.user_id b.user_id)

-- A page of the club's unexpired bans, each listed once with its user and in order, with their
-- number.
pub record IsBanPage (club_id skip limit now : ℕ) (db : Database) (r : List (ClubBan × User) × ℕ)
    : Type 0 where
  pub listed : List (ClubBan × User)
  pub bans :
      (p : ClubBan → Bool)
      → count (λ x. p x.0) listed ≡ count (λ b. p b && is_unexpired_ban club_id now b) db.bans
  pub users : All (λ x. Memᴰ x.1 db.users × (x.1.id ≡ x.0.user_id)) listed
  pub order : IsOrdered (λ a b. is_listed_before a.0 b.0) listed
  pub page : r.0 ≡ take limit (drop skip listed)
  pub sized : IsPage (count (is_unexpired_ban club_id now) db.bans) skip limit r

count_ext :
    {A : Type 0} (p q : A → Bool) → ((x : A) → p x ≡ q x) → (xs : List A) → count p xs ≡ count q xs
count_ext p q e [] = refl
count_ext p q e (x ∷ xs) = rw (e x, count_ext p q e xs)

is_active_ban_lem :
    (club_id now : ℕ) (b : ClubBan) → is_active_ban club_id now b ≡ is_unexpired_ban club_id now b
is_active_ban_lem club_id now b =
    elim b.expires_at
      as (λ o.
        (b.club_id == club_id && is_in_force now o)
        ≡ (b.club_id == club_id && expires_after now o)) [ none ↦ refl | some t ↦ ground arith ]

module _ (club_id now : ℕ) (db : Database) (meets : integrity db ≡ true) where
  abbrev sorted_bans : List ClubBan
  sorted_bans = sort_by banned_before (select (is_active_ban club_id now) db.bans)

  sorted_users : for_all (λ b. has_user db b.user_id) sorted_bans ≡ true
  sorted_users =
      for_all-sort_by banned_before (λ b. has_user db b.user_id)
        (select (is_active_ban club_id now) db.bans)
      ∙ for_all-select (λ b. has_user db b.user_id) (is_active_ban club_id now) db.bans
          (bans_users db meets)

  bans_of-counts :
      (p : ClubBan → Bool)
      → count (λ x. p x.0) (bans_of club_id now db)
        ≡ count (λ b. p b && is_unexpired_ban club_id now b) db.bans
  bans_of-counts p =
      count-join_users (λ b. b.user_id) db.users (user_ids db meets) p sorted_bans sorted_users
      ∙ count-sort_by banned_before p (select (is_active_ban club_id now) db.bans)
      ∙ count-select_both p (is_active_ban club_id now) db.bans
      ∙ count_ext _ _ (λ b. ap (λ c. p b && c) (is_active_ban_lem club_id now b)) db.bans

  bans_of-IsOrdered : IsOrdered (λ a b. is_listed_before a.0 b.0) (bans_of club_id now db)
  bans_of-IsOrdered =
      join_users-IsOrdered (λ b. b.user_id) db.users (user_ids db meets) is_listed_before
        sorted_bans sorted_users
        (sort_by-IsOrdered banned_before is_listed_before (λ x y h. ground arith)
          (λ x y h. ground arith) (λ x y z h k. ground arith)
          (select (is_active_ban club_id now) db.bans))

  bans_of-IsBanPage :
      (skip limit : ℕ) (r : List (ClubBan × User) × ℕ)
      → r.0 ≡ take limit (drop skip (bans_of club_id now db))
      → IsPage (count (is_active_ban club_id now) db.bans) skip limit r
      → IsBanPage club_id skip limit now db r
  bans_of-IsBanPage skip limit r page sized = record {
    listed = bans_of club_id now db;
    bans = bans_of-counts;
    users = join_users-own (λ b. b.user_id) db.users sorted_bans;
    order = bans_of-IsOrdered;
    page = page;
    sized =
        subst (λ n. IsPage n skip limit r) (count_ext _ _ (is_active_ban_lem club_id now) db.bans)
          sized;
  }

fetched-rows :
    {A : Type 0} (rows : Database → List A) (counted_rows : Database → ℕ) (skip limit : ℕ)
    (s : Session) {r : List A × ℕ}
    → (fetch_page_with_total rows counted_rows skip limit s).0 ≡ ok r
    → r.0 ≡ take limit (drop skip (rows s.work))
unfolding fetch_page_with_total query
fetched-rows rows counted_rows skip limit s h = sym (ap (λ x. x.0) (ok-injective h))

-- A page of a club's bans, with no error and from tables that meet their constraints, is the part
-- from its start on, up to its limit, of a list of the club's unexpired bans: each stored one is
-- there as often as in the table, and no other, each with the user whom it bans, in the order of
-- their times and then of the users' ids. The total is the number of all of them, also where the
-- page lies past the end.
pub list_bans-IsPage :
    (club_id : ℕ) (u : User) (skip limit : ℕ) (s : Session) {r : List (ClubBan × User) × ℕ}
    → integrity s.work ≡ true
    → (list_bans club_id u skip limit s).0 ≡ ok r
    → IsBanPage club_id skip limit s.now s.work r
unfolding list_bans get_now
list_bans-IsPage club_id u skip limit s {r = r} meets h =
    let (t, organizer, h1) = bind-ok _ _ s (IsReader-require_owner_or_organizer club_id u) h in
    let (now, read, h2) = bind-ok _ _ s IsReader-get_now h1 in
    let same : s.now ≡ now = ok-injective read in
    let fetched =
      subst
        (λ n.
          (fetch_page_with_total (bans_of club_id n) (λ db. count (is_active_ban club_id n) db.bans)
            skip limit s).0
          ≡ ok r)
        (sym same) h2 in
    bans_of-IsBanPage club_id s.now s.work meets skip limit r
      (fetched-rows (bans_of club_id s.now) _ skip limit s fetched)
      (fetched-IsPage (bans_of club_id s.now) _ skip limit s
        (length-joined (λ b. b.user_id) banned_before (is_active_ban club_id s.now) s.work.bans
          s.work meets (bans_users s.work meets))
        fetched)
