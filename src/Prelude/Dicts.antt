-- ===== src/Prelude/Dicts.antt =====
-- A Python dict keyed by ids, as an association list, with what a defaultdict(list) reads.
use Prim.Native.Nat.{ℕ}
use mathlib.Core.Path.{◌≡◌, refl}
use mathlib.Core.Bool.{Bool, true, false}
use mathlib.Core.Option.{Option, none, some}
use mathlib.Core.List.{List, [], ◌∷◌}
use native.Mathlib.Omega.{arith}
use book_club_be.Prelude.Tests.{◌==◌, if◌then◌else◌}

abbrev pub Dict {ℓ} : Type ℓ → Type ℓ
Dict V = List (ℕ × V)

module _ {ℓ} {V : Type ℓ} where
  unfoldable pub lookup : ℕ → Dict V → Option V
  lookup k [] = none
  lookup k ((j, v) ∷ d) = if j == k then some v else lookup k d

  -- d.pop(k, None)
  unfoldable pub erase : ℕ → Dict V → Dict V
  erase k [] = []
  erase k ((j, v) ∷ d) = let rest = erase k d in if j == k then rest else (j, v) ∷ rest

  -- d[k] = v
  unfoldable pub insert : ℕ → V → Dict V → Dict V
  insert k v [] = (k, v) ∷ []
  insert k v ((j, w) ∷ d) = if j == k then (k, v) ∷ d else (j, w) ∷ insert k v d

  pub lookup-insert :
      (k j : ℕ) (v : V) (d : Dict V)
      → lookup j (insert k v d) ≡ (if k == j then some v else lookup j d)
  unfolding lookup insert
  lookup-insert k j v [] = refl
  lookup-insert k j v ((i, w) ∷ d) = ground (arith, lookup-insert k j v d)

  pub lookup-erase :
      (k j : ℕ) (d : Dict V) → lookup j (erase k d) ≡ (if k == j then none else lookup j d)
  unfolding lookup erase
  lookup-erase k j [] = ground arith
  lookup-erase k j ((i, w) ∷ d) = ground (arith, lookup-erase k j d)

-- What a dict of lists reads at a key, the empty list where there is none.
abbrev pub or_empty {ℓ} : {A : Type ℓ} → Option (List A) → List A
or_empty none = []
or_empty (some xs) = xs

abbrev pub get_list {ℓ} : {A : Type ℓ} → ℕ → Dict (List A) → List A
get_list k d = or_empty (lookup k d)

-- Storing a list, with the key dropped where the list is empty.
pub put_list {ℓ} : {A : Type ℓ} → ℕ → List A → Dict (List A) → Dict (List A)
put_list k [] d = erase k d
put_list k (x ∷ xs) d = insert k (x ∷ xs) d

pub get_list-put_list {ℓ} :
    {A : Type ℓ} (k j : ℕ) (xs : List A) (d : Dict (List A))
    → get_list j (put_list k xs d) ≡ (if k == j then xs else get_list j d)
unfolding put_list
get_list-put_list k j [] d = ground (arith, lookup-erase k j d)
get_list-put_list k j (x ∷ xs) d = ground (arith, lookup-insert k j (x ∷ xs) d)

abbrev pub is_empty {ℓ} : {A : Type ℓ} → List A → Bool
is_empty [] = true
is_empty (x ∷ xs) = false

-- No key is kept for an empty list.
pub record IsPruned {ℓ} {A : Type ℓ} (d : Dict (List A)) : Type ℓ where
  pub at : (k : ℕ) (xs : List A) → lookup k d ≡ some xs → is_empty xs ≡ false

pub put_list-IsPruned {ℓ} :
    {A : Type ℓ} (k : ℕ) (xs : List A) (d : Dict (List A)) → IsPruned d → IsPruned (put_list k xs d)
unfolding put_list
put_list-IsPruned k [] d h = record { at = λ j ys e. ground (arith, lookup-erase k j d, h.at j ys) }
put_list-IsPruned k (x ∷ xs) d h = record {
  at = λ j ys e. ground (arith, lookup-insert k j (x ∷ xs) d, h.at j ys);
}

pub insert-IsPruned {ℓ} :
    {A : Type ℓ} (k : ℕ) (xs : List A) (d : Dict (List A))
    → is_empty xs ≡ false
    → IsPruned d
    → IsPruned (insert k xs d)
insert-IsPruned k xs d p h = record {
  at = λ j ys e. ground (arith, lookup-insert k j xs d, h.at j ys);
}
