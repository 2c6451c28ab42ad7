-- ===== src/Support/Likes/Abstract.antt =====
-- The abstract board: which submissions there are, of which type, and the set of pairs of a submission
-- and a user who likes it; the requests on likes, served by the code and answered by the board.
use book_club_be.Prelude.{
  ℕ, Bool, true, false, ◌&&◌, Option, none, some, List, [], ◌∷◌, ◌==◌, if◌then◌else◌, exists,
}
use book_club_be.Models.{User, SupportType, SupportSubmission}
use book_club_be.Database.{Database}
use book_club_be.Session.{
  Service, Result, ok, err, Failure, app_error, integrity_error, multiple_results, key_error, Code,
  pure, serve, ◌>>=◌, submission_not_found, cannot_like_suggestion, already_liked,
}
use book_club_be.Connections.{ConnectionManager}
use book_club_be.Support.{
  is_like, submission_rows, is_suggestion, like_submission, unlike_submission,
}

-- how a request is answered: with a response, an error of the program, or a 500
pub data Answer : Type 0 where
  done crashed : Answer
  refused : Code → Answer

abbrev pub failure_answer : Failure → Answer
failure_answer (app_error status code) = refused code
failure_answer integrity_error = crashed
failure_answer multiple_results = crashed
failure_answer key_error = crashed

abbrev pub result_answer : {A : Type 0} → Result A → Answer
result_answer (ok a) = done
result_answer (err e) = failure_answer e

abbrev pub Likes : Type 0
Likes = ℕ → ℕ → Bool

pub data Request : Type 0 where
  like unlike : ℕ → User → Request

abbrev pub actor : Request → User
actor (like submission_id u) = u
actor (unlike submission_id u) = u

-- The abstract board: `kind` gives the type of a submission.
abbrev pub set_pair : Bool → ℕ → ℕ → Likes → Likes
set_pair value submission_id user_id likes s u =
    if submission_id == s && user_id == u then value else likes s u

abbrev pub like_spec : Option SupportType → ℕ → ℕ → Likes → Answer × Likes
like_spec none s u likes = (refused submission_not_found, likes)
like_spec (some t) s u likes =
    if is_suggestion t
    then (refused cannot_like_suggestion, likes)
    else if likes s u
    then (refused already_liked, likes)
    else (done, set_pair true s u likes)

abbrev pub unlike_spec : Option SupportType → ℕ → ℕ → Likes → Answer × Likes
unlike_spec none s u likes = (refused submission_not_found, likes)
unlike_spec (some t) s u likes = (done, set_pair false s u likes)

abbrev pub spec : (ℕ → Option SupportType) → Request → Likes → Answer × Likes
spec kind (like s u) likes = like_spec (kind s) s u.id likes
spec kind (unlike s u) likes = unlike_spec (kind s) s u.id likes

abbrev pub spec_run : (ℕ → Option SupportType) → List Request → Likes → List Answer × Likes
spec_run kind [] likes = ([], likes)
spec_run kind (r ∷ rs) likes =
    let (a, likes') = spec kind r likes in
    let (as_, end) = spec_run kind rs likes' in (a ∷ as_, end)

-- What the tables stand for.
abbrev pub type_of : List SupportSubmission → Option SupportType
type_of [] = none
type_of (s ∷ ss) = some s.type

abbrev pub kinds : Database → ℕ → Option SupportType
kinds db s = type_of (submission_rows s db)

abbrev pub liked : Database → Likes
liked db s u = exists (is_like s u) db.likes

abbrev pub handle : Request → Service (Unit {0})
handle (like s u) = like_submission s u >>= λ _. pure tt
handle (unlike s u) = unlike_submission s u

-- a request served at a time of the clock
unfoldable pub step : ℕ × Request → Database → ConnectionManager → Answer × Database
step (now, r) db manager =
    let (a, s) = serve (handle r) db now manager in (result_answer a, s.saved)

unfoldable pub run : List (ℕ × Request) → Database → ConnectionManager → List Answer × Database
run [] db manager = ([], db)
run (r ∷ rs) db manager =
    let (a, db') = step r db manager in let (as_, end) = run rs db' manager in (a ∷ as_, end)
