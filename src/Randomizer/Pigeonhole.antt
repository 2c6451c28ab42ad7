-- ===== src/Randomizer/Pigeonhole.antt =====
-- Distinct ids among as many ids are all of these.
use book_club_be.Prelude.{
  ℕ, ◌≡◌, ◌<◌, ◌≤◌, refl, Bool, true, false, not, ◌&&◌, inl, inr, List, [], ◌∷◌, arith, ◌==◌,
  ==-refl, length, length-select-le, delete, Bool-cases,
}
use book_club_be.ClubRepository.{in_ids}

abbrev pub distinct : List ℕ → Bool
distinct [] = true
distinct (k ∷ ks) = not (in_ids ks k) && distinct ks

-- every id of the first list is in the second
pub record IsWithin (ks xs : List ℕ) : Type 0 where
  pub at : (j : ℕ) → in_ids ks j ≡ true → in_ids xs j ≡ true

length-delete_lt :
    (k : ℕ) (xs : List ℕ) → in_ids xs k ≡ true → length (delete (λ i. i == k) xs) < length xs
length-delete_lt k [] h = cc
length-delete_lt k (x ∷ xs) h =
    ground (arith, length-delete_lt k xs, length-select-le (λ i. not (i == k)) xs)

in_ids-delete :
    (k j : ℕ) (xs : List ℕ) → (j == k) ≡ false → in_ids (delete (λ i. i == k) xs) j ≡ in_ids xs j
in_ids-delete k j [] h = refl
in_ids-delete k j (x ∷ xs) h = ground (arith, in_ids-delete k j xs h)

apart : (ks : List ℕ) (k j : ℕ) → in_ids ks k ≡ false → in_ids ks j ≡ true → (j == k) ≡ false
apart [] k j h g = cc
apart (x ∷ ks) k j h g = ground (arith, apart ks k j)

without_one :
    (ks xs : List ℕ) (k : ℕ)
    → in_ids ks k ≡ false
    → IsWithin ks xs
    → IsWithin ks (delete (λ i. i == k) xs)
without_one ks xs k h within = record {
  at = λ j g. rw (in_ids-delete k j xs (apart ks k j h g)) (within.at j g);
}

length-IsWithin : (ks xs : List ℕ) → distinct ks ≡ true → IsWithin ks xs → length ks ≤ length xs
length-IsWithin [] xs d within = omega arith
length-IsWithin (k ∷ ks) xs d within =
    let tail_within : IsWithin ks xs = record { at = λ j g. within.at j (ground (arith, g)) } in
    let new : in_ids ks k ≡ false = ground (arith, d) in
    let rest =
      length-IsWithin ks (delete (λ i. i == k) xs) (ground (arith, d))
        (without_one ks xs k new tail_within) in
    ground (arith, rest, length-delete_lt k xs (within.at k (ground (arith, ==-refl k))))

pub in_all :
    (ks xs : List ℕ) → distinct ks ≡ true → IsWithin ks xs → length ks ≡ length xs → IsWithin xs ks
in_all ks xs d within same = record {
  at = λ j there. elim (Bool-cases (in_ids ks j)) [
    | inl found ↦ found
    | inr new ↦ ground (
      arith,
      same,
      length-IsWithin ks (delete (λ i. i == j) xs) d (without_one ks xs j new within),
      length-delete_lt j xs there,
    )
  ];
}
