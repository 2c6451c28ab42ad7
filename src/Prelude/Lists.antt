-- ===== src/Prelude/Lists.antt =====
-- Lists with native lengths, and the queries of a table: filtered rows, updated rows, tests on all rows.
use Prim.Native.Nat.{ℕ, zero, suc, ◌+◌, ◌≤◌}
use mathlib.Core.Path.{subst, ◌≡◌, refl}
use mathlib.Core.Logic.{inl, inr}
use mathlib.Core.Bool.{Bool, true, false, not, ◌&&◌, ◌||◌}
use mathlib.Core.Option.{Option, none, some}
use mathlib.Core.List.{List, [], ◌∷◌, ◌++◌, map, Memᴰ}
use native.Mathlib.Omega.{arith}
use book_club_be.Prelude.Tests.{ltb, Bool-cases, if◌then◌else◌}

module _ {ℓ} {A : Type ℓ} where
  abbrev pub length : List A → ℕ
  length [] = 0
  length (x ∷ xs) = suc (length xs)

  abbrev pub head? : List A → Option A
  head? [] = none
  head? (x ∷ xs) = some x

  abbrev pub take : ℕ → List A → List A
  take zero xs = []
  take (suc n) [] = []
  take (suc n) (x ∷ xs) = x ∷ take n xs

  abbrev pub drop : ℕ → List A → List A
  drop zero xs = xs
  drop (suc n) [] = []
  drop (suc n) (x ∷ xs) = drop n xs

  -- SELECT … WHERE p
  abbrev pub select : (A → Bool) → List A → List A
  select p [] = []
  select p (x ∷ xs) = let rest = select p xs in if p x then x ∷ rest else rest

  -- DELETE … WHERE p
  abbrev pub delete : (A → Bool) → List A → List A
  delete p = select (λ x. not (p x))

  -- UPDATE … SET f WHERE p
  abbrev pub update : (A → Bool) → (A → A) → List A → List A
  update p f [] = []
  update p f (x ∷ xs) = (if p x then f x else x) ∷ update p f xs

  -- EXISTS (SELECT … WHERE p)
  abbrev pub exists : (A → Bool) → List A → Bool
  exists p [] = false
  exists p (x ∷ xs) = p x || exists p xs

  abbrev pub for_all : (A → Bool) → List A → Bool
  for_all p [] = true
  for_all p (x ∷ xs) = p x && for_all p xs

  abbrev pub All {κ} : (A → Type κ) → List A → Type κ
  All P [] = Unit
  All P (x ∷ xs) = P x × All P xs

  abbrev pub count : (A → Bool) → List A → ℕ
  count p [] = 0
  count p (x ∷ xs) = let rest = count p xs in if p x then suc rest else rest

  pub length-append : (xs ys : List A) → length (xs ++ ys) ≡ length xs + length ys
  length-append [] ys = omega arith
  length-append (x ∷ xs) ys = omega (arith, length-append xs ys)

  pub length-select-le : (p : A → Bool) (xs : List A) → length (select p xs) ≤ length xs
  length-select-le p [] = omega arith
  length-select-le p (x ∷ xs) = ground (arith, length-select-le p xs)

  pub exists-append :
      (p : A → Bool) (xs ys : List A) → exists p (xs ++ ys) ≡ (exists p xs || exists p ys)
  exists-append p [] ys = refl
  exists-append p (x ∷ xs) ys = ground (arith, exists-append p xs ys)

  pub select-append :
      (p : A → Bool) (xs ys : List A) → select p (xs ++ ys) ≡ select p xs ++ select p ys
  select-append p [] ys = refl
  select-append p (x ∷ xs) ys = ground (arith, select-append p xs ys)

module _ {ℓ} {A : Type ℓ} where
  pub count-append : (p : A → Bool) (xs ys : List A) → count p (xs ++ ys) ≡ count p xs + count p ys
  count-append p [] ys = omega arith
  count-append p (x ∷ xs) ys = ground (arith, count-append p xs ys)

  pub select-holds :
      (p : A → Bool) (xs : List A) {y : A} {ys : List A} → select p xs ≡ y ∷ ys → p y ≡ true
  select-holds p [] h = cc
  select-holds p (x ∷ xs) {y = y} {ys = ys} h =
      ground (arith, λ (e : select p xs ≡ y ∷ ys). select-holds p xs e)

  pub count-select-le : (p q : A → Bool) (xs : List A) → count p (select q xs) ≤ count p xs
  count-select-le p q [] = omega arith
  count-select-le p q (x ∷ xs) = ground (arith, count-select-le p q xs)

module _ {ℓ κ} {A : Type ℓ} where
  pub All-append : (P : A → Type κ) (xs ys : List A) → All P xs → All P ys → All P (xs ++ ys)
  All-append P [] ys hx hy = hy
  All-append P (x ∷ xs) ys hx hy = (hx.0, All-append P xs ys hx.1 hy)

  pub All-map : (P Q : A → Type κ) → ((x : A) → P x → Q x) → (xs : List A) → All P xs → All Q xs
  All-map P Q f [] h = tt
  All-map P Q f (x ∷ xs) h = (f x h.0, All-map P Q f xs h.1)

  All-split_cons :
      (P Q : A → Type κ) (p : A → Bool) (x : A) (xs : List A)
      → ((x : A) → p x ≡ false → P x → Q x)
      → (b : Bool) → p x ≡ b
      → All (λ x. P x → Q x) (if b then x ∷ select p xs else select p xs)
      → All P (x ∷ xs)
      → (All (λ x. P x → Q x) (select p xs) → All P xs → All Q xs)
      → All Q (x ∷ xs)
  All-split_cons P Q p x xs f true e g h ih = (g.0 h.0, ih g.1 h.1)
  All-split_cons P Q p x xs f false e g h ih = (f x e h.0, ih g h.1)

  -- To pass from P to Q on all rows: outside the selected ones by a rule, and on the selected ones.
  pub All-split :
      (P Q : A → Type κ) (p : A → Bool) (xs : List A)
      → ((x : A) → p x ≡ false → P x → Q x)
      → All (λ x. P x → Q x) (select p xs)
      → All P xs
      → All Q xs
  All-split P Q p [] f g h = tt
  All-split P Q p (x ∷ xs) f g h = All-split_cons P Q p x xs f (p x) refl g h (All-split P Q p xs f)

  All-select_cons :
      (Q : A → Type κ) (p : A → Bool) (x : A) (xs : List A) (b : Bool)
      → (p x ≡ true → Q x)
      → p x ≡ b
      → All Q (select p xs)
      → All Q (if b then x ∷ select p xs else select p xs)
  All-select_cons Q p x xs true f e ih = (f e, ih)
  All-select_cons Q p x xs false f e ih = ih

  pub All-select :
      (P Q : A → Type κ) (p : A → Bool) (xs : List A)
      → ((x : A) → p x ≡ true → P x → Q x)
      → All P xs
      → All Q (select p xs)
  All-select P Q p [] f h = tt
  All-select P Q p (x ∷ xs) f h =
      All-select_cons Q p x xs (p x) (λ e. f x e h.0) refl (All-select P Q p xs f h.1)

pub All-Memᴰ {ℓ} : {A : Type ℓ} (xs : List A) → All (λ x. Memᴰ x xs) xs
All-Memᴰ [] = tt
All-Memᴰ (x ∷ xs) =
    (Memᴰ.head refl, All-map (λ y. Memᴰ y xs) _ (λ y m. Memᴰ.tail m) xs (All-Memᴰ xs))

pub map_congr :
    {A B : Type 0} (f g : A → B) (xs : List A) → All (λ x. f x ≡ g x) xs → map f xs ≡ map g xs
map_congr f g [] h = refl
map_congr f g (x ∷ xs) h = cc (h.0, map_congr f g xs h.1)

module _ {A : Type 0} where
  pub All-drop : (P : A → Type 0) (n : ℕ) (xs : List A) → All P xs → All P (drop n xs)
  All-drop P zero xs h = h
  All-drop P (suc n) [] h = tt
  All-drop P (suc n) (x ∷ xs) h = All-drop P n xs h.1

  pub All-take : (P : A → Type 0) (n : ℕ) (xs : List A) → All P xs → All P (take n xs)
  All-take P zero xs h = tt
  All-take P (suc n) [] h = tt
  All-take P (suc n) (x ∷ xs) h = (h.0, All-take P n xs h.1)

  pub All-mapped :
      {B : Type 0} (P : B → Type 0) (f : A → B) (xs : List A)
      → All (λ x. P (f x)) xs
      → All P (map f xs)
  All-mapped P f [] h = tt
  All-mapped P f (x ∷ xs) h = (h.0, All-mapped P f xs h.1)

  pub exists-select_both :
      (p q : A → Bool) (xs : List A) → exists q (select p xs) ≡ exists (λ x. p x && q x) xs
  exists-select_both p q [] = refl
  exists-select_both p q (x ∷ xs) = ground (arith, exists-select_both p q xs)

  pub exists-count : (p : A → Bool) (xs : List A) → exists p xs ≡ ltb 0 (count p xs)
  exists-count p [] = refl
  exists-count p (x ∷ xs) = ground (arith, exists-count p xs)

  pub select-Memᴰ :
      (p : A → Bool) (x : A) (xs : List A) → p x ≡ true → Memᴰ x xs → Memᴰ x (select p xs)
  select-Memᴰ p x [] h m = elim m [ ]
  select-Memᴰ p x (y ∷ ys) h (Memᴰ.head e) = rw (subst (λ z. p z ≡ true) e h) (Memᴰ.head e)
  select-Memᴰ p x (y ∷ ys) h (Memᴰ.tail m) = elim (Bool-cases (p y)) [
    | inl hit ↦ rw hit (Memᴰ.tail (select-Memᴰ p x ys h m))
    | inr miss ↦ rw miss (select-Memᴰ p x ys h m)
  ]
