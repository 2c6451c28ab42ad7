-- ===== src/Randomizer/Resolving.antt =====
-- What a draw stores: the candidates that were asked for, in their order, each a member of the club.
use book_club_be.Prelude.{
  ℕ, ◌≡◌, refl, sym, ap, ap₂, ◌∙◌, subst, true, false, ◌||◌, inl, inr, Option, none, some, List, [],
  ◌∷◌, ◌++◌, map, arith, ◌==◌, ==→eq, length, exists-append, is_some, All, Dict, lookup, insert,
  lookup-insert, Bool-cases, Option-cases,
}
use mathlib.Core.List.{append-nil, append_assoc, map-append}
use book_club_be.Models.{Candidate}
use book_club_be.Database.{Database}
use book_club_be.ClubRepository.{in_ids}
use book_club_be.Session.{Session, ok, pure, raise}
use book_club_be.Session.Readers.{IsReader, readers, bind-ok}
use book_club_be.Randomizer.{read_ids, candidate_rows, by_id, or_key_error, look_up, look_up_all}
use book_club_be.Randomizer.Pigeonhole.{distinct, IsWithin}
use book_club_be.Randomizer.Rows.{IsAsked, candidate_rows-IsAsked}

abbrev pub keys : Dict Candidate → List ℕ
keys [] = []
keys ((k, c) ∷ d) = k ∷ keys d

in_ids-insert :
    (k j : ℕ) (c : Candidate) (d : Dict Candidate)
    → in_ids (keys (insert k c d)) j ≡ (k == j || in_ids (keys d) j)
unfolding insert
in_ids-insert k j c [] = refl
in_ids-insert k j c ((i, b) ∷ d) = ground (arith, in_ids-insert k j c d)

distinct-insert :
    (k : ℕ) (c : Candidate) (d : Dict Candidate)
    → distinct (keys d) ≡ true
    → distinct (keys (insert k c d)) ≡ true
unfolding insert
distinct-insert k c [] h = refl
distinct-insert k c ((i, b) ∷ d) h = ground (arith, h, in_ids-insert k i c d, distinct-insert k c d)

pub is_some-lookup : (k : ℕ) (d : Dict Candidate) → is_some (lookup k d) ≡ in_ids (keys d) k
unfolding lookup
is_some-lookup k [] = refl
is_some-lookup k ((i, b) ∷ d) = ground (arith, is_some-lookup k d)

pub length-keys : (d : Dict Candidate) → length (keys d) ≡ length d
length-keys [] = refl
length-keys ((k, c) ∷ d) = ground (arith, length-keys d)

module _ (club_id : ℕ) (ids : List ℕ) (db : Database) where
  -- `resolved` has one entry per id, for the row of that id
  pub record IsIndex (d : Dict Candidate) : Type 0 where
    pub once : distinct (keys d) ≡ true
    pub entry :
        (k : ℕ) (c : Candidate) → lookup k d ≡ some c → (c.id ≡ k) × IsAsked club_id ids db c

  entry-insert :
      (d : Dict Candidate) (c : Candidate)
      → IsAsked club_id ids db c
      → IsIndex d
      → (k : ℕ) (b : Candidate) → lookup k (insert c.id c d) ≡ some b
      → (b.id ≡ k) × IsAsked club_id ids db b
  entry-insert d c asked h k b found = elim (Bool-cases (c.id == k)) [
    | inl here ↦
        let same : c ≡ b = ground (arith, here, found, lookup-insert c.id k c d) in
        subst (λ x. (x.id ≡ k) × IsAsked club_id ids db x) same (==→eq c.id k here, asked)
    | inr other ↦ h.entry k b (ground (arith, other, found, lookup-insert c.id k c d))
  ]

  by_id-IsIndex :
      (rows : List Candidate) (d : Dict Candidate)
      → All (IsAsked club_id ids db) rows
      → IsIndex d
      → IsIndex (by_id d rows)
  by_id-IsIndex [] d h index = index
  by_id-IsIndex (c ∷ cs) d h index =
      by_id-IsIndex cs (insert c.id c d) h.1
        (record { once = distinct-insert c.id c d index.once; entry = entry-insert d c h.0 index })

  pub resolved-IsIndex : IsIndex (by_id [] (candidate_rows club_id ids db))
  unfolding lookup
  resolved-IsIndex =
      by_id-IsIndex (candidate_rows club_id ids db) [] (candidate_rows-IsAsked club_id ids db)
        (record { once = refl; entry = λ k c e. cc e })

  pub keys-IsWithin : (d : Dict Candidate) → IsIndex d → IsWithin (keys d) ids
  keys-IsWithin d index = record {
    at = λ j there. elim (Option-cases (lookup j d)) [
      | inl none_there ↦ ground (arith, there, none_there, is_some-lookup j d)
      | inr (c, found) ↦
          let entry = index.entry j c found in subst (λ i. in_ids ids i ≡ true) entry.0 entry.1.1
    ];
  }

distinct-snoc :
    (ids : List ℕ) (id : ℕ)
    → distinct ids ≡ true
    → in_ids ids id ≡ false
    → distinct (ids ++ id ∷ []) ≡ true
distinct-snoc [] id d new = refl
distinct-snoc (i ∷ ids) id d new =
    ground (arith, distinct-snoc ids id, exists-append (λ j. j == i) ids (id ∷ []))

-- the ids that the loop reads: what was asked for, each once
pub read_ids-ok :
    (s : Session) (ids : List ℕ) (cs : List (Option ℕ)) {read : List ℕ}
    → distinct ids ≡ true
    → (read_ids ids cs s).0 ≡ ok read
    → (map some read ≡ map some ids ++ cs) × (distinct read ≡ true)
unfolding pure raise
read_ids-ok s ids [] {read = read} d h =
    let same : ids ≡ read = cc in
    (
      subst (λ r. map some r ≡ map some ids ++ []) same (sym (append-nil (map some ids))),
      subst (λ r. distinct r ≡ true) same d,
    )
read_ids-ok s ids (none ∷ cs) d h = cc
read_ids-ok s ids (some id ∷ cs) {read = read} d h = elim (Bool-cases (in_ids ids id)) [
  | inl seen ↦ cc
  | inr new ↦
      let rest =
        read_ids-ok s (ids ++ id ∷ []) cs {read = read} (distinct-snoc ids id d new)
          (ground (arith, h, new)) in
      (
        rest.0
            ∙ ap (λ r. r ++ cs) (map-append some ids (id ∷ []))
            ∙ append_assoc (map some ids) (some id ∷ []) cs,
        rest.1,
      )
]

pub IsReader-look_up : (id : ℕ) (d : Dict Candidate) → IsReader (look_up id d)
unfolding look_up
IsReader-look_up id d = record { at = λ s. of s (lookup id d) }
  where
    of : (s : Session) (o : Option Candidate) → (or_key_error o s).1 ≡ s
    of s none = refl
    of s (some c) = refl

pub IsReader-look_up_all : (ids : List ℕ) (d : Dict Candidate) → IsReader (look_up_all ids d)
unfolding look_up_all
IsReader-look_up_all [] d = search readers
IsReader-look_up_all (id ∷ ids) d =
    search (readers, IsReader-look_up id d, IsReader-look_up_all ids d)

look_up-ok :
    (s : Session) (o : Option Candidate) {c : Candidate} → (or_key_error o s).0 ≡ ok c → o ≡ some c
look_up-ok s none h = cc
look_up-ok s (some b) h = cc

-- each id's entry, in the order of the ids
pub look_up_all-ok :
    (s : Session) (ids : List ℕ) (d : Dict Candidate) {cs : List Candidate}
    → (look_up_all ids d s).0 ≡ ok cs
    → map (λ id. lookup id d) ids ≡ map some cs
unfolding look_up_all look_up pure
look_up_all-ok s [] d {cs = cs} h = let same : [] ≡ cs = cc in ap (map some) same
look_up_all-ok s (id ∷ ids) d {cs = cs} h =
    let (c, found, rest) = bind-ok _ _ s (IsReader-look_up id d) h in
    let (bs, others, done) = bind-ok _ _ s (IsReader-look_up_all ids d) rest in
    let same : c ∷ bs ≡ cs = cc in
    ap₂ (λ o os. o ∷ os) (look_up-ok s (lookup id d) found) (look_up_all-ok s ids d others)
    ∙ ap (map some) same
