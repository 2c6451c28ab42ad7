-- ===== src/Randomizer/Draws.antt =====
-- What a stored draw holds, and that resolving it meets no missing key.
use book_club_be.Prelude.{
  ℕ, ◌≡◌, refl, sym, ap, ap₂, ◌∙◌, subst, true, false, inl, inr, Option, none, some, List, [], ◌∷◌,
  ◌++◌, map, arith, ◌==◌, ==→eq, All, Memᴰ, Dict, lookup, Bool-cases, Option-cases,
}
use book_club_be.Models.{Candidate}
use book_club_be.Database.{Database}
use book_club_be.ClubRepository.{in_ids}
use book_club_be.Session.{Session, ok, pure, raise, query}
use book_club_be.Session.Readers.{
  IsReader, readers, bind-ok, IsReader-bind, IsReader-query, IsReader-raise_if, IsReader-pure,
}
use book_club_be.Randomizer.{
  CreateRandomizerSessionRequest, read_ids, candidate_rows, by_id, or_no_result, resolve_result,
  pick, resolve_candidates,
}
use book_club_be.Randomizer.Pigeonhole.{distinct}
use book_club_be.Randomizer.Rows.{IsMemberRow}
use book_club_be.Randomizer.Resolving.{
  IsIndex, resolved-IsIndex, read_ids-ok, IsReader-look_up_all, look_up_all-ok,
}

-- the result is the candidate that was named, if one was
abbrev pub IsResult : Option (Option ℕ) → List Candidate → Option Candidate → Type 0
IsResult none cs result = result ≡ none
IsResult (some none) cs result = true ≡ false
IsResult (some (some id)) cs result = (c : Candidate) × (result ≡ some c) × (c.id ≡ id) × Memᴰ c cs

pub record IsDrawn (club_id : ℕ) (body : CreateRandomizerSessionRequest) (db : Database)
    (candidates : List Candidate) (result : Option Candidate) : Type 0 where
  pub in_order : map (λ c. some c.id) candidates ≡ body.candidates
  pub once : distinct (map (λ c. c.id) candidates) ≡ true
  pub members : All (IsMemberRow club_id db) candidates
  pub named : IsResult body.result candidates result

module _ (club_id : ℕ) (asked : List ℕ) (db : Database) (d : Dict Candidate)
    (index : IsIndex club_id asked db d) where
  ids_of :
      (ids : List ℕ) (cs : List Candidate)
      → map (λ id. lookup id d) ids ≡ map some cs
      → map (λ c. c.id) cs ≡ ids
  ids_of [] [] h = refl
  ids_of [] (c ∷ cs) h = cc
  ids_of (id ∷ ids) [] h = cc
  ids_of (id ∷ ids) (c ∷ cs) h =
      let found : lookup id d ≡ some c = cc in
      let rest : map (λ id. lookup id d) ids ≡ map some cs = cc in
      ap₂ (λ i is. i ∷ is) (index.entry id c found).0 (ids_of ids cs rest)

  members_of :
      (ids : List ℕ) (cs : List Candidate)
      → map (λ id. lookup id d) ids ≡ map some cs
      → All (IsMemberRow club_id db) cs
  members_of [] [] h = tt
  members_of [] (c ∷ cs) h = cc
  members_of (id ∷ ids) [] h = cc
  members_of (id ∷ ids) (c ∷ cs) h =
      let found : lookup id d ≡ some c = cc in
      let rest : map (λ id. lookup id d) ids ≡ map some cs = cc in
      ((index.entry id c found).1.0, members_of ids cs rest)

  -- an entry of the index whose id was asked for is among the candidates
  entry_among :
      (ids : List ℕ) (cs : List Candidate) (id : ℕ) (c : Candidate)
      → map (λ id. lookup id d) ids ≡ map some cs
      → in_ids ids id ≡ true
      → lookup id d ≡ some c
      → Memᴰ c cs
  entry_among [] cs id c h asked found = cc
  entry_among (i ∷ ids) [] id c h asked found = cc
  entry_among (i ∷ ids) (b ∷ cs) id c h asked found =
      let first : lookup i d ≡ some b = cc in
      let rest : map (λ id. lookup id d) ids ≡ map some cs = cc in
      elim (Bool-cases (i == id)) [
        | inl same ↦
            let e : some c ≡ some b =
              sym found ∙ ap (λ k. lookup k d) (sym (==→eq i id same)) ∙ first in
            Memᴰ.head (cc e)
        | inr other ↦ Memᴰ.tail (entry_among ids cs id c rest (ground (arith, asked, other)) found)
      ]

  named_among :
      (s : Session) (cs : List Candidate) (named : Option (Option ℕ)) {result : Option Candidate}
      → map (λ id. lookup id d) asked ≡ map some cs
      → (resolve_result named d s).0 ≡ ok result
      → IsResult named cs result
  unfolding resolve_result pure raise
  named_among s cs none h got = cc
  named_among s cs (some none) h got = cc
  named_among s cs (some (some id)) {result = result} h got = elim (Option-cases (lookup id d)) [
    | inl none_there ↦ absurd (ground (arith, none_there, got))
    | inr (c, found) ↦
        let entry = index.entry id c found in
        (
          c,
          ground (arith, found, got),
          entry.0,
          entry_among asked cs id c h (subst (λ i. in_ids asked i ≡ true) entry.0 entry.1.1) found,
        )
  ]

pub IsReader-read_ids : (ids : List ℕ) (cs : List (Option ℕ)) → IsReader (read_ids ids cs)
unfolding pure raise
IsReader-read_ids ids [] = record { at = λ s. refl }
IsReader-read_ids ids (none ∷ cs) = record { at = λ s. refl }
IsReader-read_ids ids (some id ∷ cs) = record {
  at = λ s. elim (Bool-cases (in_ids ids id)) [
    | inl seen ↦ rw seen refl
    | inr new ↦ rw new ((IsReader-read_ids (ids ++ id ∷ []) cs).at s)
  ];
}

pub IsReader-resolve_result :
    (named : Option (Option ℕ)) (d : Dict Candidate) → IsReader (resolve_result named d)
unfolding resolve_result
IsReader-resolve_result none d = search readers
IsReader-resolve_result (some none) d = search readers
IsReader-resolve_result (some (some id)) d = of (lookup id d)
  where
    of : (o : Option Candidate) → IsReader (or_no_result o)
    of none = search readers
    of (some c) = search readers

IsReader-pick :
    (ids : List ℕ) (named : Option (Option ℕ)) (d : Dict Candidate) → IsReader (pick ids named d)
unfolding pick
IsReader-pick ids named d = IsReader-bind _ _ (IsReader-raise_if _ _ _) λ t.
    IsReader-bind _ _ (IsReader-look_up_all ids d)
      λ cs. IsReader-bind _ _ (IsReader-resolve_result named d) λ result. IsReader-pure _

pub IsReader-resolve_candidates :
    (club_id : ℕ) (body : CreateRandomizerSessionRequest)
    → IsReader (resolve_candidates club_id body)
unfolding resolve_candidates
IsReader-resolve_candidates club_id body = search (readers, IsReader-read_ids, IsReader-pick)

pure-ok : {A : Type 0} (a : A) (s : Session) {b : A} → (pure a s).0 ≡ ok b → a ≡ b
unfolding pure
pure-ok a s h = cc

pub query-ok :
    {A : Type 0} (f : Database → A) (s : Session) {b : A} → (query f s).0 ≡ ok b → f s.work ≡ b
unfolding query
query-ok f s h = cc

pick_ok :
    (club_id : ℕ) (body : CreateRandomizerSessionRequest) (s : Session) (ids : List ℕ)
    (d : Dict Candidate) {drawn : List Candidate × Option Candidate}
    → (map some ids ≡ body.candidates) × (distinct ids ≡ true)
    → IsIndex club_id ids s.work d
    → (pick ids body.result d s).0 ≡ ok drawn
    → IsDrawn club_id body s.work drawn.0 drawn.1
unfolding pick
pick_ok club_id body s ids d asked index h =
    let (t, passed, h1) = bind-ok _ _ s (IsReader-raise_if _ _ _) h in
    let (cs, looked, h2) = bind-ok _ _ s (IsReader-look_up_all ids d) h1 in
    let (result, named, done) = bind-ok _ _ s (IsReader-resolve_result body.result d) h2 in
    let entries = look_up_all-ok s ids d looked in
    let order = ids_of _ _ _ _ index ids cs entries in
    subst (λ p. IsDrawn club_id body s.work p.0 p.1) (pure-ok (cs, result) s done)
      (record {
        in_order = some_ids cs ∙ ap (map some) order ∙ asked.0;
        once = subst (λ i. distinct i ≡ true) (sym order) asked.1;
        members = members_of _ _ _ _ index ids cs entries;
        named = named_among _ _ _ _ index s cs body.result entries named;
      })
  where
    some_ids : (cs : List Candidate) → map (λ c. some c.id) cs ≡ map some (map (λ c. c.id) cs)
    some_ids [] = refl
    some_ids (c ∷ cs) = ap (λ r. some c.id ∷ r) (some_ids cs)

pub resolve_candidates-IsDrawn :
    (club_id : ℕ) (body : CreateRandomizerSessionRequest) (s : Session)
    {drawn : List Candidate × Option Candidate}
    → (resolve_candidates club_id body s).0 ≡ ok drawn
    → IsDrawn club_id body s.work drawn.0 drawn.1
unfolding resolve_candidates
resolve_candidates-IsDrawn club_id body s h =
    let (ids, read, h1) = bind-ok _ _ s (IsReader-read_ids [] body.candidates) h in
    let (rows, got, h2) = bind-ok _ _ s (IsReader-query (candidate_rows club_id ids)) h1 in
    pick_ok club_id body s ids (by_id [] rows) (read_ids-ok s [] body.candidates refl read)
      (subst (λ r. IsIndex club_id ids s.work (by_id [] r)) (query-ok _ s got)
        (resolved-IsIndex club_id ids s.work))
      h2
