-- ===== src/Randomizer.antt =====
-- app/routers/randomizer.py: draws among members of a club, as the client reports them. A response
-- carries the columns of a session's row; an id that `uuid.UUID` refuses is `none`.
pub mod Rows
pub mod Pigeonhole
pub mod Resolving
pub mod KeyErrors
pub mod Draws
pub mod Sessions
mod Tests
use book_club_be.Prelude.{
  ℕ, ◌+◌, Bool, true, false, not, ◌&&◌, ◌||◌, Option, none, some, List, [], ◌∷◌, ◌++◌, ◌==◌, ltb,
  length, take, drop, select, if◌then◌else◌, Dict, lookup, insert,
}
use book_club_be.Models.{Text, User, ClubMember, Candidate, RandomizerSession}
use book_club_be.Database.{Database}
use book_club_be.ClubRepository.{in_ids}
use book_club_be.Session.{
  Session, Service, ok, err, query, pure, raise, raise_if, modify, commit, get_now, key_error,
  ◌>>=◌, ◌>>◌, duplicate_candidate, candidate_not_member, result_not_candidate, invalid_candidate,
}
use book_club_be.Access.{require_club_organizer}

-- of a candidate only `userId` is read
pub record CreateRandomizerSessionRequest : Type 0 where
  pub purpose : Text
  pub candidates : List (Option ℕ)
  pub result : Option (Option ℕ)

-- the loop over the candidates: `seen` holds the ids read so far, as `ids` does
abbrev pub read_ids : List ℕ → List (Option ℕ) → Service (List ℕ)
read_ids ids [] s = pure ids s
read_ids ids (none ∷ cs) s = raise 422 invalid_candidate s
read_ids ids (some id ∷ cs) s =
    let rest = read_ids (ids ++ id ∷ []) cs s in
    if in_ids ids id then raise 422 duplicate_candidate s else rest

abbrev pub candidate_of : User → Candidate
candidate_of u = record { id = u.id; display_name = u.display_name; avatar_url = u.avatar_url }

abbrev pub candidates_of : List User → List Candidate
candidates_of [] = []
candidates_of (u ∷ us) = candidate_of u ∷ candidates_of us

-- the JOIN of the users among the ids with their memberships in the club
abbrev pub join_members : ℕ → List User → List ClubMember → List Candidate
join_members club_id users [] = []
join_members club_id users (m ∷ ms) =
    let rest = join_members club_id users ms in
    if m.club_id == club_id
    then candidates_of (select (λ u. u.id == m.user_id) users) ++ rest
    else rest

abbrev pub candidate_rows : ℕ → List ℕ → Database → List Candidate
candidate_rows club_id ids db =
    join_members club_id (select (λ u. in_ids ids u.id) db.users) db.members

abbrev pub by_id : Dict Candidate → List Candidate → Dict Candidate
by_id resolved [] = resolved
by_id resolved (c ∷ cs) = by_id (insert c.id c resolved) cs

abbrev pub or_key_error : Option Candidate → Service Candidate
or_key_error none s = (err key_error, s)
or_key_error (some c) s = (ok c, s)

unfoldable pub look_up : ℕ → Dict Candidate → Service Candidate
look_up id resolved = or_key_error (lookup id resolved)

unfoldable pub look_up_all : List ℕ → Dict Candidate → Service (List Candidate)
look_up_all [] resolved = pure []
look_up_all (id ∷ ids) resolved = do
  c ← look_up id resolved
  cs ← look_up_all ids resolved
  pure (c ∷ cs)

-- a ValueError and a KeyError have one answer
abbrev pub or_no_result : Option Candidate → Service (Option Candidate)
or_no_result none = raise 422 result_not_candidate
or_no_result (some c) = pure (some c)

unfoldable pub resolve_result : Option (Option ℕ) → Dict Candidate → Service (Option Candidate)
resolve_result none resolved = pure none
resolve_result (some none) resolved = raise 422 result_not_candidate
resolve_result (some (some id)) resolved = or_no_result (lookup id resolved)

-- from `if len(resolved) != len(ids)` on
unfoldable pub pick :
    List ℕ → Option (Option ℕ) → Dict Candidate → Service (List Candidate × Option Candidate)
pick ids named resolved = do
  raise_if (not (length resolved == length ids)) 422 candidate_not_member
  candidates ← look_up_all ids resolved
  result ← resolve_result named resolved
  pure (candidates, result)

unfoldable pub resolve_candidates :
    ℕ → CreateRandomizerSessionRequest → Service (List Candidate × Option Candidate)
resolve_candidates club_id body = do
  ids ← read_ids [] body.candidates
  rows ← query (candidate_rows club_id ids)
  pick ids body.result (by_id [] rows)

abbrev pub new_randomizer_session :
    ℕ → ℕ → ℕ → Text → List Candidate → Option Candidate → ℕ → RandomizerSession
new_randomizer_session id club_id created_by purpose candidates result now = record {
  id = id;
  club_id = club_id;
  created_by = created_by;
  purpose = purpose;
  candidates = candidates;
  result = result;
  created_at = now;
}

abbrev pub add_randomizer_session : RandomizerSession → Database → Database
add_randomizer_session r db = record db { randomizer_sessions = db.randomizer_sessions ++ r ∷ [] }

abbrev pub store_session : RandomizerSession → Service RandomizerSession
store_session r = modify (add_randomizer_session r) >>= λ _. commit >>= λ _. pure r

unfoldable pub create_session :
    ℕ → ℕ → CreateRandomizerSessionRequest → User → Service RandomizerSession
create_session id club_id body current_user = do
  _ ← require_club_organizer club_id current_user
  (candidates, result) ← resolve_candidates club_id body
  now ← get_now
  store_session
      (new_randomizer_session id club_id current_user.id body.purpose candidates result now)

-- ORDER BY created_at DESC, id DESC
abbrev pub is_older : RandomizerSession → RandomizerSession → Bool
is_older r q = ltb r.created_at q.created_at || (r.created_at == q.created_at && ltb r.id q.id)

abbrev pub insert_session : RandomizerSession → List RandomizerSession → List RandomizerSession
insert_session r [] = r ∷ []
insert_session r (q ∷ qs) =
    let rest = insert_session r qs in if is_older r q then q ∷ rest else r ∷ q ∷ qs

abbrev pub newest_sessions : List RandomizerSession → List RandomizerSession
newest_sessions [] = []
newest_sessions (r ∷ rs) = insert_session r (newest_sessions rs)

unfoldable pub get_history : ℕ → User → ℕ → ℕ → Service (List RandomizerSession)
get_history club_id current_user skip limit = do
  _ ← require_club_organizer club_id current_user
  sessions ←
      query (λ db. newest_sessions (select (λ r. r.club_id == club_id) db.randomizer_sessions))
  pure (take limit (drop skip sessions))
