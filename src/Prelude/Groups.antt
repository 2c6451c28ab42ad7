-- ===== src/Prelude/Groups.antt =====
-- SELECT key, count(*) … GROUP BY key, as a dictionary.
use Prim.Native.Nat.{ℕ, ◌+◌}
use mathlib.Core.Path.{◌≡◌, refl, ap}
use mathlib.Core.Bool.{Bool, true}
use mathlib.Core.Option.{Option, none, some}
use mathlib.Core.List.{List, [], ◌∷◌}
use native.Mathlib.Omega.{arith}
use book_club_be.Prelude.Tests.{◌==◌}
use book_club_be.Prelude.Lists.{select, count}
use book_club_be.Prelude.Dicts.{Dict, lookup, insert, lookup-insert}

-- dict.get(key, 0)
abbrev pub counted : Option ℕ → ℕ
counted none = 0
counted (some n) = n

module _ {A : Type 0} (key : A → ℕ) where
  abbrev pub group_by : List A → Dict ℕ
  group_by [] = []
  group_by (x ∷ xs) =
      let rest = group_by xs in insert (key x) (counted (lookup (key x) rest) + 1) rest

  pub lookup-group_by :
      (k : ℕ) (xs : List A) → counted (lookup k (group_by xs)) ≡ count (λ x. key x == k) xs
  unfolding lookup
  lookup-group_by k [] = refl
  lookup-group_by k (x ∷ xs) = ground (
    arith,
    lookup-insert (key x) k (counted (lookup (key x) (group_by xs)) + 1) (group_by xs),
    lookup-group_by k xs,
    lookup-group_by (key x) xs,
  )

  -- rows that a test on the key leaves out are of other keys
  pub count-select_same :
      (p : ℕ → Bool) (k : ℕ) (xs : List A)
      → p k ≡ true
      → count (λ x. key x == k) (select (λ x. p (key x)) xs) ≡ count (λ x. key x == k) xs
  count-select_same p k [] h = refl
  count-select_same p k (x ∷ xs) h =
      ground (arith, count-select_same p k xs h, λ (e : key x ≡ k). ap p e)

  pub select-select_same :
      (p : ℕ → Bool) (k : ℕ) (xs : List A)
      → p k ≡ true
      → select (λ x. key x == k) (select (λ x. p (key x)) xs) ≡ select (λ x. key x == k) xs
  select-select_same p k [] h = refl
  select-select_same p k (x ∷ xs) h =
      ground (arith, select-select_same p k xs h, λ (e : key x ≡ k). ap p e)
