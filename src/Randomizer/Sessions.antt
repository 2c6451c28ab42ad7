-- ===== src/Randomizer/Sessions.antt =====
-- What recording a draw stores, and that it always ends as the code means it to.
use book_club_be.Prelude.{
  ℕ, ◌≡◌, refl, ap, ◌∙◌, subst, true, false, inl, inr, Option, none, some, List, [], ◌∷◌, ◌++◌,
  arith, ==-refl, ==→eq, length, is_some, Dict, lookup, Bool-cases,
}
use book_club_be.Models.{User, Candidate, RandomizerSession}
use book_club_be.Database.{integrity}
use book_club_be.ClubRepository.{in_ids}
use book_club_be.Session.{Session, Result, ok, pure, raise, modify, commit, ◌>>=◌}
use book_club_be.Session.Readers.{
  bind-ok, bind-reads, IsReader-query, IsReader-raise_if, IsReader-get_now, IsReader-scalar,
}
use book_club_be.Clubs.Inversion.{raise_if-ok, IsReader-require_club_organizer}
use book_club_be.Access.{require_club_organizer, fetch_organizer_membership}
use book_club_be.Randomizer.{
  CreateRandomizerSessionRequest, read_ids, candidate_rows, by_id, or_key_error, look_up,
  look_up_all, or_no_result, resolve_result, pick, resolve_candidates, create_session,
  add_randomizer_session, store_session, new_randomizer_session,
}
use book_club_be.Randomizer.Pigeonhole.{IsWithin, in_all}
use book_club_be.Randomizer.Resolving.{
  keys, length-keys, is_some-lookup, IsIndex, resolved-IsIndex, keys-IsWithin, IsReader-look_up,
  IsReader-look_up_all,
}
use book_club_be.Randomizer.KeyErrors.{
  is_key_error, Avoids, Avoids-pure, Avoids-raise, Avoids-query, Avoids-scalar, Avoids-or_raise,
  Avoids-raise_if, Avoids-get_now, Avoids-read,
}
use book_club_be.Randomizer.Draws.{
  IsDrawn, query-ok, IsReader-read_ids, IsReader-resolve_result, IsReader-resolve_candidates,
  resolve_candidates-IsDrawn,
}

pub record HasStored (club_id : ℕ) (body : CreateRandomizerSessionRequest) (by : User)
    (s s' : Session) (r : RandomizerSession) : Type 0 where
  pub drawn : IsDrawn club_id body s.work r.candidates r.result
  pub stored : s'.saved ≡ add_randomizer_session r s.work
  pub of_club : r.club_id ≡ club_id
  pub created_by : r.created_by ≡ by.id

store_session_ok :
    (r : RandomizerSession) (s : Session) {q : RandomizerSession}
    → (store_session r s).0 ≡ ok q
    → (r ≡ q) × ((store_session r s).1.saved ≡ add_randomizer_session r s.work)
unfolding modify commit pure ◌>>=◌
store_session_ok r s h = elim (Bool-cases (integrity (add_randomizer_session r s.work))) [
  | inl meets ↦ (ground (arith, meets, h), rw meets refl)
  | inr breaks ↦ absurd (ground (arith, breaks, h))
]

-- A draw that is recorded, with no error, adds only its session to the tables: its candidates are
-- those asked for, in their order and each once, every one a stored user with a membership in the
-- club, and its result is the candidate that was named, if one was.
pub create_session-HasStored :
    (id club_id : ℕ) (body : CreateRandomizerSessionRequest) (by : User) (s : Session)
    {r : RandomizerSession}
    → (create_session id club_id body by s).0 ≡ ok r
    → HasStored club_id body by s (create_session id club_id body by s).1 r
unfolding create_session
create_session-HasStored id club_id body by s {r = r} h =
    let (m, organizer, h1) = bind-ok _ _ s (IsReader-require_club_organizer club_id by) h in
    let (p, resolved, h2) = bind-ok _ _ s (IsReader-resolve_candidates club_id body) h1 in
    let (now, read, h3) = bind-ok _ _ s IsReader-get_now h2 in
    let same =
      bind-reads _ _ s (IsReader-require_club_organizer club_id by) organizer
      ∙ bind-reads _ _ s (IsReader-resolve_candidates club_id body) resolved
      ∙ bind-reads _ _ s IsReader-get_now read in
    of_stored p.0 p.1 (resolve_candidates-IsDrawn club_id body s resolved) now _ same h3
  where
    of_stored :
        (cs : List Candidate) (result : Option Candidate)
        → IsDrawn club_id body s.work cs result
        → (now : ℕ) (out : Result RandomizerSession × Session)
        → let new = new_randomizer_session id club_id by.id body.purpose cs result now in
          out ≡ store_session new s
          → (store_session new s).0 ≡ ok r
          → HasStored club_id body by s out.1 r
    of_stored cs result drawn now out same h =
        let new = new_randomizer_session id club_id by.id body.purpose cs result now in
        let stored = store_session_ok new s h in
        subst (λ q. HasStored club_id body by s out.1 q) stored.0
          (record {
            drawn = drawn;
            stored = ap (λ o. o.1.saved) same ∙ stored.1;
            of_club = refl;
            created_by = refl;
          })

require_club_organizer-Avoids :
    (club_id : ℕ) (by : User) (s : Session) → Avoids (require_club_organizer club_id by) s
unfolding require_club_organizer fetch_organizer_membership
require_club_organizer-Avoids club_id by s =
    Avoids-read _ _ s (IsReader-scalar _) (Avoids-scalar s _) λ m _. Avoids-or_raise s m 403 _

read_ids_avoids :
    (s : Session) (ids : List ℕ) (cs : List (Option ℕ)) → is_key_error (read_ids ids cs s).0 ≡ false
unfolding pure raise
read_ids_avoids s ids [] = refl
read_ids_avoids s ids (none ∷ cs) = refl
read_ids_avoids s ids (some id ∷ cs) = elim (Bool-cases (in_ids ids id)) [
  | inl seen ↦ rw seen refl
  | inr new ↦ rw new (read_ids_avoids s (ids ++ id ∷ []) cs)
]

found_avoids :
    (o : Option Candidate) (s : Session)
    → is_some o ≡ true
    → is_key_error (or_key_error o s).0 ≡ false
found_avoids none s h = cc
found_avoids (some c) s h = refl

look_up_all-Avoids :
    (s : Session) (ids : List ℕ) (d : Dict Candidate)
    → IsWithin ids (keys d)
    → Avoids (look_up_all ids d) s
unfolding look_up_all look_up
look_up_all-Avoids s [] d within = Avoids-pure s []
look_up_all-Avoids s (id ∷ ids) d within =
    let here : is_some (lookup id d) ≡ true =
      is_some-lookup id d ∙ within.at id (ground (arith, ==-refl id)) in
    Avoids-read _ _ s (IsReader-look_up id d) (record { at = found_avoids (lookup id d) s here })
      λ c _.
        Avoids-read _ _ s (IsReader-look_up_all ids d)
          (look_up_all-Avoids s ids d (record { at = λ j g. within.at j (ground (arith, g)) }))
          λ cs _. Avoids-pure s (c ∷ cs)

resolve_result-Avoids :
    (s : Session) (named : Option (Option ℕ)) (d : Dict Candidate)
    → Avoids (resolve_result named d) s
unfolding resolve_result
resolve_result-Avoids s none d = Avoids-pure s none
resolve_result-Avoids s (some none) d = Avoids-raise s 422 _
resolve_result-Avoids s (some (some id)) d = of (lookup id d)
  where
    of : (o : Option Candidate) → Avoids (or_no_result o) s
    of none = Avoids-raise s 422 _
    of (some c) = Avoids-pure s (some c)

pick-Avoids :
    (club_id : ℕ) (s : Session) (ids : List ℕ) (named : Option (Option ℕ)) (d : Dict Candidate)
    → IsIndex club_id ids s.work d
    → Avoids (pick ids named d) s
unfolding pick
pick-Avoids club_id s ids named d index =
    Avoids-read _ _ s (IsReader-raise_if _ _ _) (Avoids-raise_if _ _ _ s) λ t passed.
      let as_many : length (keys d) ≡ length ids =
        length-keys d ∙ ==→eq _ _ (ground (arith, raise_if-ok _ _ _ s t passed)) in
      Avoids-read _ _ s (IsReader-look_up_all ids d)
        (look_up_all-Avoids s ids d
          (in_all (keys d) ids index.once (keys-IsWithin club_id ids s.work d index) as_many))
        λ cs _.
          Avoids-read _ _ s (IsReader-resolve_result named d) (resolve_result-Avoids s named d)
            λ result _. Avoids-pure s (cs, result)

store_session-Avoids : (r : RandomizerSession) (s : Session) → Avoids (store_session r) s
unfolding modify commit pure ◌>>=◌
store_session-Avoids r s = record {
  at = elim (Bool-cases (integrity (add_randomizer_session r s.work))) [
    | inl meets ↦ rw meets refl
    | inr breaks ↦ rw breaks refl
  ];
}

-- Recording a draw never ends in a KeyError: where as many candidates are resolved as were asked
-- for, each id is among them, so that the look-ups find every one.
pub create_session-is_key_error :
    (id club_id : ℕ) (body : CreateRandomizerSessionRequest) (by : User) (s : Session)
    → is_key_error (create_session id club_id body by s).0 ≡ false
unfolding create_session resolve_candidates
create_session-is_key_error id club_id body by s = found.at
  where
    resolved : Avoids (resolve_candidates club_id body) s
    resolved =
        Avoids-read _ _ s (IsReader-read_ids [] body.candidates)
          (record { at = read_ids_avoids s [] body.candidates })
          λ ids _.
            Avoids-read _ _ s (IsReader-query (candidate_rows club_id ids)) (Avoids-query s _)
              λ rows got. pick-Avoids club_id s ids body.result (by_id [] rows) (
                subst (λ r. IsIndex club_id ids s.work (by_id [] r)) (query-ok _ s got)
                  (resolved-IsIndex club_id ids s.work))

    found : Avoids (create_session id club_id body by) s
    found =
        Avoids-read _ _ s (IsReader-require_club_organizer club_id by)
          (require_club_organizer-Avoids club_id by s)
          λ m _. Avoids-read _ _ s (IsReader-resolve_candidates club_id body) resolved λ p _.
            Avoids-read _ _ s IsReader-get_now (Avoids-get_now s) λ now _. store_session-Avoids _ s
