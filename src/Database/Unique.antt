-- ===== src/Database/Unique.antt =====
-- What unique constraints give: at most one row for a key, and what appending and deleting keep.
use book_club_be.Prelude.{
  subst, sym, ◌∙◌, Memᴰ, select-Memᴰ, ◌≡◌, refl, ap, Bool, true, false, inl, inr, List, [], ◌∷◌,
  ◌++◌, ◌⊎◌, arith, select, delete, exists, exists-append, for_all, Bool-cases,
}
use book_club_be.Database.{unique}

module _ {A : Type 0} (same : A → A → Bool) (p : A → Bool) where
  unique-none :
      (x : A) (xs : List A)
      → ((y : A) → p y ≡ true → same x y ≡ true)
      → exists (same x) xs ≡ false
      → select p xs ≡ []
  unique-none x [] f h = refl
  unique-none x (y ∷ ys) f h = ground (arith, f y, unique-none x ys f)

  -- at most one row of a unique table has the key that `p` asks for
  pub unique-select :
      ((x y : A) → p x ≡ true → p y ≡ true → same x y ≡ true)
      → (xs : List A) → unique same xs ≡ true
      → (select p xs ≡ []) ⊎ ((x : A) × (select p xs ≡ x ∷ []))
  unfolding unique
  unique-select f [] h = inl refl
  unique-select f (x ∷ xs) h = elim (Bool-cases (p x)) [
    | inl hit ↦
        inr (x, rw hit (ap (λ ys. x ∷ ys) (unique-none x xs (λ y e. f x y hit e) (ground arith))))
    | inr miss ↦ rw miss (unique-select f xs (ground arith))
  ]

  pub unique-append :
      (xs : List A) (b : A)
      → unique same xs ≡ true
      → exists (λ x. same x b) xs ≡ false
      → unique same (xs ++ b ∷ []) ≡ true
  unfolding unique
  unique-append [] b h e = refl
  unique-append (x ∷ xs) b h e =
      ground (arith, unique-append xs b, exists-append (same x) xs (b ∷ []))

module _ {A : Type 0} (p : A → Bool) where
  pub exists-select_none : (xs : List A) → select p xs ≡ [] → exists p xs ≡ false
  exists-select_none [] h = refl
  exists-select_none (x ∷ xs) h = ground (arith, exists-select_none xs)

  pub exists-select_one : (xs : List A) (y : A) → select p xs ≡ y ∷ [] → exists p xs ≡ true
  exists-select_one [] y h = cc
  exists-select_one (x ∷ xs) y h = ground (arith, exists-select_one xs y)

  exists-delete_none :
      (q : A → Bool) (xs : List A) → exists q xs ≡ false → exists q (delete p xs) ≡ false
  exists-delete_none q [] h = refl
  exists-delete_none q (x ∷ xs) h = ground (arith, exists-delete_none q xs)

  pub unique-delete :
      (same : A → A → Bool) (xs : List A) → unique same xs ≡ true → unique same (delete p xs) ≡ true
  unfolding unique
  unique-delete same [] h = refl
  unique-delete same (x ∷ xs) h =
      ground (arith, unique-delete same xs, exists-delete_none (same x) xs)

  pub for_all-delete :
      (q : A → Bool) (xs : List A) → for_all q xs ≡ true → for_all q (delete p xs) ≡ true
  for_all-delete q [] h = refl
  for_all-delete q (x ∷ xs) h = ground (arith, for_all-delete q xs)

  pub for_all-append :
      (xs ys : List A) → for_all p xs ≡ true → for_all p ys ≡ true → for_all p (xs ++ ys) ≡ true
  for_all-append [] ys h k = k
  for_all-append (x ∷ xs) ys h k = ground (arith, for_all-append xs ys)

-- the row that is appended to a table of distinct rows is like none before it
pub unique-snoc :
    {A : Type 0} (same : A → A → Bool) (xs : List A) (x : A)
    → unique same (xs ++ x ∷ []) ≡ true
    → exists (λ y. same y x) xs ≡ false
unfolding unique
unique-snoc same [] x h = refl
unique-snoc same (y ∷ xs) x h =
    ground (arith, h, exists-append (same y) xs (x ∷ []), unique-snoc same xs x)

-- a row of a unique table is the only one with its key
pub unique-Memᴰ :
    {A : Type 0} (same : A → A → Bool) (p : A → Bool)
    → ((x y : A) → p x ≡ true → p y ≡ true → same x y ≡ true)
    → (xs : List A) (x : A) → unique same xs ≡ true
    → p x ≡ true
    → Memᴰ x xs
    → select p xs ≡ x ∷ []
unique-Memᴰ {A = A} same p f xs x once h m = elim (unique-select same p f xs once) [
  | inl empty ↦ none_of (subst (λ ys. Memᴰ x ys) empty (select-Memᴰ p x xs h m))
  | inr (y, one) ↦
      one ∙ ap (λ z. z ∷ []) (sym (only (subst (λ ys. Memᴰ x ys) one (select-Memᴰ p x xs h m))))
]
  where
    none_of : Memᴰ x [] → select p xs ≡ x ∷ []
    none_of r = elim r [ ]

    only : {y : A} → Memᴰ x (y ∷ []) → x ≡ y
    only (Memᴰ.head e) = e
    only (Memᴰ.tail r) = elim r [ ]
