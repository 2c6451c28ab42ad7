-- ===== src/ChatFlood/Keys.antt =====
-- A Python dict whose keys are (room_id, user_id) pairs.
use book_club_be.Prelude.{
  ℕ, ◌≡◌, refl, Bool, ◌&&◌, Option, none, some, List, [], ◌∷◌, arith, ◌==◌, if◌then◌else◌,
}

pub record Key : Type 0 where
  pub room_id : ℕ
  pub user_id : ℕ

abbrev pub same_key : Key → Key → Bool
same_key a b = a.room_id == b.room_id && a.user_id == b.user_id

abbrev pub Table {ℓ} : Type ℓ → Type ℓ
Table V = List (Key × V)

module _ {ℓ} {V : Type ℓ} where
  unfoldable pub lookup : Key → Table V → Option V
  lookup k [] = none
  lookup k ((j, v) ∷ d) = if same_key j k then some v else lookup k d

  unfoldable pub insert : Key → V → Table V → Table V
  insert k v [] = (k, v) ∷ []
  insert k v ((j, w) ∷ d) = if same_key j k then (k, v) ∷ d else (j, w) ∷ insert k v d

  unfoldable pub erase : Key → Table V → Table V
  erase k [] = []
  erase k ((j, w) ∷ d) = let rest = erase k d in if same_key j k then rest else (j, w) ∷ rest

  pub lookup-insert :
      (k j : Key) (v : V) (d : Table V)
      → lookup j (insert k v d) ≡ (if same_key k j then some v else lookup j d)
  unfolding lookup insert
  lookup-insert k j v [] = refl
  lookup-insert k j v ((i, w) ∷ d) = ground (arith, lookup-insert k j v d)

  pub lookup-erase :
      (k j : Key) (d : Table V) → lookup j (erase k d) ≡ (if same_key k j then none else lookup j d)
  unfolding lookup erase
  lookup-erase k j [] = ground arith
  lookup-erase k j ((i, w) ∷ d) = ground (arith, lookup-erase k j d)
