-- ===== src/Members/Rows.antt =====
-- Sorted rows and their users: none is lost and none is there twice.
use book_club_be.Prelude.{
  ℕ, zero, suc, ◌-◌, ◌≡◌, refl, ap, ◌∙◌, Bool, true, ◌&&◌, inl, inr, List, [], ◌∷◌, map, arith,
  ◌==◌, ltb, take, drop, select, count, length, length-append, exists, for_all, &&-left, &&-right,
  if◌then◌else◌,
}
use book_club_be.Models.{User}
use book_club_be.Database.{unique}
use book_club_be.Database.Unique.{unique-select, exists-select_none}
use book_club_be.Members.{insert_by, sort_by, join_users}

length-insert_by :
    {A : Type 0} (before : A → A → Bool) (x : A) (xs : List A)
    → length (insert_by before x xs) ≡ suc (length xs)
length-insert_by before x [] = refl
length-insert_by before x (y ∷ ys) = ground (arith, length-insert_by before x ys)

pub length-sort_by :
    {A : Type 0} (before : A → A → Bool) (xs : List A) → length (sort_by before xs) ≡ length xs
length-sort_by before [] = refl
length-sort_by before (x ∷ xs) =
    length-insert_by before x (sort_by before xs) ∙ ap suc (length-sort_by before xs)

pub length-select : {A : Type 0} (p : A → Bool) (xs : List A) → length (select p xs) ≡ count p xs
length-select p [] = refl
length-select p (x ∷ xs) = ground (arith, length-select p xs)

pub length-take :
    {A : Type 0} (n : ℕ) (xs : List A)
    → length (take n xs) ≡ (if ltb n (length xs) then n else length xs)
length-take zero [] = refl
length-take zero (x ∷ xs) = ground arith
length-take (suc n) [] = ground arith
length-take (suc n) (x ∷ xs) = ground (arith, length-take n xs)

pub length-drop : {A : Type 0} (n : ℕ) (xs : List A) → length (drop n xs) ≡ length xs - n
length-drop zero xs = ground arith
length-drop (suc n) [] = ground arith
length-drop (suc n) (x ∷ xs) = ground (arith, length-drop n xs)

for_all-insert_by :
    {A : Type 0} (before : A → A → Bool) (p : A → Bool) (x : A) (xs : List A)
    → for_all p (insert_by before x xs) ≡ (p x && for_all p xs)
for_all-insert_by before p x [] = refl
for_all-insert_by before p x (y ∷ ys) = ground (arith, for_all-insert_by before p x ys)

pub for_all-sort_by :
    {A : Type 0} (before : A → A → Bool) (p : A → Bool) (xs : List A)
    → for_all p (sort_by before xs) ≡ for_all p xs
for_all-sort_by before p [] = refl
for_all-sort_by before p (x ∷ xs) =
    ground (arith, for_all-insert_by before p x (sort_by before xs), for_all-sort_by before p xs)

pub for_all-select :
    {A : Type 0} (p q : A → Bool) (xs : List A)
    → for_all p xs ≡ true
    → for_all p (select q xs) ≡ true
for_all-select p q [] h = refl
for_all-select p q (x ∷ xs) h = ground (arith, for_all-select p q xs)

module _ {A : Type 0} (user_of : A → ℕ) (users : List User)
    (once : unique (λ a b. a.id == b.id) users ≡ true) where
  one_user :
      (id : ℕ) → exists (λ u. u.id == id) users ≡ true → length (select (λ u. u.id == id) users) ≡ 1
  one_user id there =
      elim (unique-select (λ a b. a.id == b.id) (λ u. u.id == id) (λ x y f g. ground arith) users
        once) [
          | inl empty ↦
              absurd (ground (arith, there, exists-select_none (λ u. u.id == id) users empty))
          | inr (u, one) ↦ ap length one
        ]

  length-map : (x : A) (us : List User) → length {A = A × User} (map (λ u. (x, u)) us) ≡ length us
  length-map x [] = refl
  length-map x (u ∷ us) = ap suc (length-map x us)

  -- the join loses no row and doubles none
  pub length-join_users :
      (xs : List A)
      → for_all (λ x. exists (λ u. u.id == user_of x) users) xs ≡ true
      → length (join_users user_of users xs) ≡ length xs
  length-join_users [] h = refl
  length-join_users (x ∷ xs) h =
      let mine = select (λ u. u.id == user_of x) users in
      omega (
        arith,
        length-append (map (λ u. (x, u)) mine) (join_users user_of users xs),
        length-map x mine,
        one_user (user_of x) (&&-left _ _ h),
        length-join_users xs (&&-right (exists (λ u. u.id == user_of x) users) _ h),
      )
