-- ===== src/Members/Joined.antt =====
-- What sorting and joining rows with their users keeps: which rows there are, and their order.
use book_club_be.Prelude.{
  ℕ, ◌≡◌, refl, sym, subst, ap, ◌∙◌, Bool, true, false, ◌&&◌, inl, inr, List, [], ◌∷◌, map, Memᴰ,
  arith, ◌==◌, ==→eq, select, count, length, exists, for_all, &&-left, &&-right, All, All-map,
  All-append, All-select, All-Memᴰ, Bool-cases,
}
use book_club_be.Models.{User}
use book_club_be.Database.{Database, integrity, clubs_integrity, unique, has_user, has_club}
use book_club_be.Database.Unique.{unique-select, exists-select_none}
use book_club_be.Members.Rows.{
  length-sort_by, length-select, for_all-sort_by, for_all-select, length-join_users,
}
use book_club_be.Members.{insert_by, sort_by, join_users}

-- each element stands before all later ones
abbrev pub IsOrdered : {A : Type 0} → (A → A → Bool) → List A → Type 0
IsOrdered first [] = Unit
IsOrdered first (x ∷ xs) = All (λ y. first x y ≡ true) xs × IsOrdered first xs

module _ {A : Type 0} (before : A → A → Bool) where
  count-insert_by :
      (p : A → Bool) (x : A) (xs : List A) → count p (insert_by before x xs) ≡ count p (x ∷ xs)
  count-insert_by p x [] = refl
  count-insert_by p x (y ∷ ys) = ground (arith, count-insert_by p x ys)

  pub count-sort_by : (p : A → Bool) (xs : List A) → count p (sort_by before xs) ≡ count p xs
  count-sort_by p [] = refl
  count-sort_by p (x ∷ xs) =
      count-insert_by p x (sort_by before xs) ∙ ground (arith, count-sort_by p xs)

  All-insert_by :
      (P : A → Type 0) (x : A) (xs : List A) → P x → All P xs → All P (insert_by before x xs)
  All-insert_by P x [] h hs = (h, tt)
  All-insert_by P x (y ∷ ys) h hs = elim (Bool-cases (before y x)) [
    | inl later ↦ rw later (hs.0, All-insert_by P x ys h hs.1)
    | inr now ↦ rw now (h, hs)
  ]

  module _ (first : A → A → Bool) (earlier : (x y : A) → before x y ≡ true → first x y ≡ true)
      (not_earlier : (x y : A) → before y x ≡ false → first x y ≡ true)
      (first_trans : (x y z : A) → first x y ≡ true → first y z ≡ true → first x z ≡ true) where
    insert_by-IsOrdered :
        (x : A) (xs : List A) → IsOrdered first xs → IsOrdered first (insert_by before x xs)
    insert_by-IsOrdered x [] h = (tt, tt)
    insert_by-IsOrdered x (y ∷ ys) h = elim (Bool-cases (before y x)) [
      | inl later ↦ rw later (
        All-insert_by (λ z. first y z ≡ true) x ys (earlier y x later) h.0,
        insert_by-IsOrdered x ys h.1,
      )
      | inr now ↦
          let xy = not_earlier x y now in
          rw now ((xy, All-map _ _ (λ z yz. first_trans x y z xy yz) ys h.0), h)
    ]

    pub sort_by-IsOrdered : (xs : List A) → IsOrdered first (sort_by before xs)
    sort_by-IsOrdered [] = tt
    sort_by-IsOrdered (x ∷ xs) = insert_by-IsOrdered x (sort_by before xs) (sort_by-IsOrdered xs)

pub count-select_both :
    {A : Type 0} (p q : A → Bool) (xs : List A) → count p (select q xs) ≡ count (λ x. p x && q x) xs
count-select_both p q [] = refl
count-select_both p q (x ∷ xs) = ground (arith, count-select_both p q xs)

select-users :
    (p : User → Bool) (us : List User) → All (λ u. Memᴰ u us × (p u ≡ true)) (select p us)
select-users p us = All-select _ _ p us (λ u hit m. (m, hit)) (All-Memᴰ us)

All-paired :
    {A : Type 0} (P : A × User → Type 0) (x : A) (us : List User)
    → All (λ u. P (x, u)) us
    → All P (map (λ u. (x, u)) us)
All-paired P x [] h = tt
All-paired P x (u ∷ us) h = (h.0, All-paired P x us h.1)

module _ {A : Type 0} (user_of : A → ℕ) (users : List User) where
  pub join_users-own :
      (xs : List A)
      → All (λ r. Memᴰ r.1 users × (r.1.id ≡ user_of r.0)) (join_users user_of users xs)
  join_users-own [] = tt
  join_users-own (x ∷ xs) =
      All-append _ (map (λ u. (x, u)) (select (λ u. u.id == user_of x) users)) _
        (All-paired _ x _ (
          All-map _ _ (λ u h. (h.0, ==→eq u.id (user_of x) h.1)) _
            (select-users (λ u. u.id == user_of x) users)))
        (join_users-own xs)

  All-join_users :
      (P : A → Type 0) (xs : List A) → All P xs → All (λ r. P r.0) (join_users user_of users xs)
  All-join_users P [] h = tt
  All-join_users P (x ∷ xs) h =
      All-append _ (map (λ u. (x, u)) (select (λ u. u.id == user_of x) users)) _
        (All-paired _ x _
          (All-map _ _ (λ u k. h.0) _ (select-users (λ u. u.id == user_of x) users)))
        (All-join_users P xs h.1)

  module _ (once : unique (λ a b. a.id == b.id) users ≡ true) where
    one_joined :
        (x : A) (xs : List A)
        → exists (λ u. u.id == user_of x) users ≡ true
        → (u : User) × (join_users user_of users (x ∷ xs) ≡ (x, u) ∷ join_users user_of users xs)
    one_joined x xs there =
        elim (unique-select (λ a b. a.id == b.id) (λ u. u.id == user_of x) (λ a b f g. ground arith)
          users once) [
            | inl empty ↦
                absurd
                  (ground (arith, there, exists-select_none (λ u. u.id == user_of x) users empty))
            | inr (u, one) ↦ (u, rw one refl)
          ]

    pub count-join_users :
        (p : A → Bool) (xs : List A)
        → for_all (λ x. exists (λ u. u.id == user_of x) users) xs ≡ true
        → count (λ r. p r.0) (join_users user_of users xs) ≡ count p xs
    count-join_users p [] h = refl
    count-join_users p (x ∷ xs) h =
        let (u, one) = one_joined x xs (&&-left _ _ h) in
        let rest = count-join_users p xs (&&-right (exists (λ u. u.id == user_of x) users) _ h) in
        ap (count (λ r. p r.0)) one ∙ ground (arith, rest)

    pub join_users-IsOrdered :
        (first : A → A → Bool) (xs : List A)
        → for_all (λ x. exists (λ u. u.id == user_of x) users) xs ≡ true
        → IsOrdered first xs
        → IsOrdered (λ a b. first a.0 b.0) (join_users user_of users xs)
    join_users-IsOrdered first [] h o = tt
    join_users-IsOrdered first (x ∷ xs) h o =
        let (u, one) = one_joined x xs (&&-left _ _ h) in
        let rest =
          join_users-IsOrdered first xs (&&-right (exists (λ u. u.id == user_of x) users) _ h)
            o.1 in
        subst (IsOrdered (λ a b. first a.0 b.0)) (sym one)
          (All-join_users (λ y. first x y ≡ true) xs o.0, rest)

pub user_ids : (db : Database) → integrity db ≡ true → unique (λ a b. a.id == b.id) db.users ≡ true
unfolding integrity clubs_integrity
user_ids db h = ground arith

-- rows whose users are there, sorted and joined
pub length-joined :
    {A : Type 0} (user_of : A → ℕ) (before : A → A → Bool) (p : A → Bool) (xs : List A)
    (db : Database)
    → integrity db ≡ true
    → for_all (λ x. has_user db (user_of x)) xs ≡ true
    → length (join_users user_of db.users (sort_by before (select p xs))) ≡ count p xs
length-joined user_of before p xs db meets users_there =
    length-join_users user_of db.users (user_ids db meets) (sort_by before (select p xs)) (
      for_all-sort_by before (λ x. has_user db (user_of x)) (select p xs)
      ∙ for_all-select (λ x. has_user db (user_of x)) p xs users_there)
    ∙ length-sort_by before (select p xs)
    ∙ length-select p xs

for_all-weaken :
    {A : Type 0} (p q : A → Bool) (xs : List A)
    → ((x : A) → p x ≡ true → q x ≡ true)
    → for_all p xs ≡ true
    → for_all q xs ≡ true
for_all-weaken p q [] f h = refl
for_all-weaken p q (x ∷ xs) f h = ground (arith, f x, for_all-weaken p q xs f)

pub members_users :
    (db : Database) → integrity db ≡ true → for_all (λ m. has_user db m.user_id) db.members ≡ true
unfolding integrity clubs_integrity
members_users db h =
    for_all-weaken (λ m. has_club db m.club_id && has_user db m.user_id) _ db.members
      (λ m e. ground (arith, e)) (ground arith)

pub bans_users :
    (db : Database) → integrity db ≡ true → for_all (λ b. has_user db b.user_id) db.bans ≡ true
unfolding integrity clubs_integrity
bans_users db h =
    for_all-weaken (λ b. has_club db b.club_id && has_user db b.user_id && has_user db b.banned_by)
      _ db.bans (λ b e. ground (arith, e)) (ground arith)
