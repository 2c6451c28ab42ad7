-- ===== src/Support.antt =====
-- app/routers/support.py: the board of complaints, suggestions and comments, and its likes.
pub mod Board
pub mod Likes
mod Tests
use book_club_be.Prelude.{
  ℕ, ◌+◌, Bool, true, false, not, ◌&&◌, ◌||◌, Option, none, some, List, [], ◌∷◌, ◌++◌, map, ◌==◌,
  ltb, is_some, if◌then◌else◌, select, delete, update, count, exists, Dict, lookup, insert,
}
use book_club_be.Models.{
  Text, User, is_admin, SupportType, SupportStatus, SupportSubmission, SupportSubmissionLike,
}
use book_club_be.Database.{Database}
use book_club_be.ClubRepository.{in_ids}
use book_club_be.Session.{
  Service, query, pure, raise, or_raise, raise_if, modify, commit, get_now, scalar_one_or_none,
  when, on_integrity_error, ◌>>=◌, ◌>>◌, submission_not_found, cannot_like_suggestion,
  already_liked,
}
use book_club_be.Access.{require_admin}

pub record SupportSubmissionResponse : Type 0 where
  pub submission : SupportSubmission
  pub author_id : Option ℕ
  pub like_count : ℕ
  pub liked_by_me : Bool

-- `_build_response`: the response carries the submission's columns, the author's only if not hidden
abbrev pub build_response : SupportSubmission → ℕ → Bool → Bool → SupportSubmissionResponse
build_response s like_count liked_by_me hide_author = record {
  submission = s;
  author_id = if hide_author then none else some s.author_id;
  like_count = like_count;
  liked_by_me = liked_by_me;
}

abbrev pub is_like : ℕ → ℕ → SupportSubmissionLike → Bool
is_like submission_id user_id l = l.submission_id == submission_id && l.user_id == user_id

abbrev pub likes_of : ℕ → Database → ℕ
likes_of submission_id db = count (λ l. l.submission_id == submission_id) db.likes

unfoldable pub count_likes : ℕ → Service ℕ
count_likes submission_id = query (likes_of submission_id)

abbrev pub like_rows : ℕ → ℕ → Database → List SupportSubmissionLike
like_rows submission_id user_id db = select (is_like submission_id user_id) db.likes

unfoldable pub has_liked : ℕ → ℕ → Service Bool
has_liked submission_id user_id = do
  row ← scalar_one_or_none (like_rows submission_id user_id)
  pure (is_some row)

abbrev pub or_no_likes : Option ℕ → ℕ
or_no_likes none = 0
or_no_likes (some n) = n

-- SELECT submission_id, count(*) … GROUP BY submission_id, as a dictionary
abbrev pub group_likes : List SupportSubmissionLike → Dict ℕ
group_likes [] = []
group_likes (l ∷ ls) =
    let rest = group_likes ls in
    insert l.submission_id (or_no_likes (lookup l.submission_id rest) + 1) rest

-- The early return for no ids gives what the query gives then, as in the next function.
abbrev pub bulk_like_counts : List ℕ → Database → Dict ℕ
bulk_like_counts submission_ids db =
    group_likes (select (λ l. in_ids submission_ids l.submission_id) db.likes)

-- a set of ids, as a list
abbrev pub bulk_liked_ids : List ℕ → ℕ → Database → List ℕ
bulk_liked_ids submission_ids user_id db =
    map (λ l. l.submission_id)
      (select (λ l. in_ids submission_ids l.submission_id && l.user_id == user_id) db.likes)

abbrev pub is_suggestion : SupportType → Bool
is_suggestion SupportType.suggestion = true
is_suggestion SupportType.complaint = false
is_suggestion SupportType.comment = false

abbrev pub is_complaint : SupportType → Bool
is_complaint SupportType.complaint = true
is_complaint SupportType.suggestion = false
is_complaint SupportType.comment = false

abbrev pub initial_status : SupportType → SupportStatus
initial_status SupportType.suggestion = SupportStatus.pending
initial_status SupportType.complaint = SupportStatus.open_
initial_status SupportType.comment = SupportStatus.open_

pub record CreateSupportSubmissionRequest : Type 0 where
  pub type : SupportType
  pub title : Text
  pub body : Text

abbrev pub new_submission : ℕ → ℕ → CreateSupportSubmissionRequest → ℕ → SupportSubmission
new_submission id author_id body now = record {
  id = id;
  author_id = author_id;
  type = body.type;
  title = body.title;
  body = body.body;
  status = initial_status body.type;
  created_at = now;
  updated_at = now;
}

unfoldable pub create_submission :
    ℕ → CreateSupportSubmissionRequest → User → Service SupportSubmissionResponse
create_submission id body current_user = do
  now ← get_now
  modify (λ db. record db {
    submissions = db.submissions ++ new_submission id current_user.id body now ∷ [];
  })
  commit
  pure (build_response (new_submission id current_user.id body now) 0 false false)

-- the position of a status or a type in its enumeration
abbrev pub type_index : SupportType → ℕ
type_index SupportType.complaint = 0
type_index SupportType.suggestion = 1
type_index SupportType.comment = 2

abbrev pub status_index : SupportStatus → ℕ
status_index SupportStatus.open_ = 0
status_index SupportStatus.pending = 1
status_index SupportStatus.approved = 2
status_index SupportStatus.rejected = 3
status_index SupportStatus.in_progress = 4
status_index SupportStatus.done = 5

abbrev pub same_status : SupportStatus → SupportStatus → Bool
same_status a b = status_index a == status_index b

-- `or_(type in ("complaint", "comment"), (type == "suggestion") & (status != "rejected"))`
abbrev pub is_listed : SupportSubmission → Bool
is_listed s = not (is_suggestion s.type) || not (same_status s.status SupportStatus.rejected)

abbrev pub matches_type : Option SupportType → SupportSubmission → Bool
matches_type none s = true
matches_type (some t) s = type_index s.type == type_index t

abbrev pub matches_status : Option SupportStatus → SupportSubmission → Bool
matches_status none s = true
matches_status (some t) s = same_status s.status t

-- ORDER BY created_at DESC
abbrev pub insert_submission : SupportSubmission → List SupportSubmission → List SupportSubmission
insert_submission s [] = s ∷ []
insert_submission s (r ∷ rs) =
    let rest = insert_submission s rs in
    if ltb s.created_at r.created_at then r ∷ rest else s ∷ r ∷ rs

abbrev pub newest_first : List SupportSubmission → List SupportSubmission
newest_first [] = []
newest_first (s ∷ ss) = insert_submission s (newest_first ss)

abbrev pub listed : Option SupportType → Option SupportStatus → Database → List SupportSubmission
listed submission_type submission_status db = newest_first (
    select
      (λ s. is_listed s && matches_type submission_type s && matches_status submission_status s)
      db.submissions)

abbrev pub list_entry : Dict ℕ → List ℕ → User → SupportSubmission → SupportSubmissionResponse
list_entry like_counts liked_ids current_user s =
    build_response s (or_no_likes (lookup s.id like_counts)) (in_ids liked_ids s.id)
      (is_complaint s.type && not (is_admin current_user.role))

unfoldable pub list_submissions :
    User → Option SupportType → Option SupportStatus → Service (List SupportSubmissionResponse)
list_submissions current_user submission_type submission_status = do
  submissions ← query (listed submission_type submission_status)
  like_counts ← query (bulk_like_counts (map (λ s. s.id) submissions))
  liked_ids ← query (bulk_liked_ids (map (λ s. s.id) submissions) current_user.id)
  pure (map (list_entry like_counts liked_ids current_user) submissions)

abbrev pub submission_rows : ℕ → Database → List SupportSubmission
submission_rows submission_id db = select (λ s. s.id == submission_id) db.submissions

unfoldable pub get_submission : ℕ → Service SupportSubmission
get_submission submission_id = do
  submission ← scalar_one_or_none (submission_rows submission_id)
  or_raise submission 404 submission_not_found

-- `updated_at` is set with an UPDATE (onupdate), and a status that stays the same makes none
abbrev pub with_status : SupportStatus → ℕ → SupportSubmission → SupportSubmission
with_status status now s =
    if same_status s.status status then s else record s { status = status; updated_at = now }

unfoldable pub update_submission_status :
    ℕ → SupportStatus → User → Service SupportSubmissionResponse
update_submission_status submission_id status admin = do
  _ ← require_admin admin
  submission ← get_submission submission_id
  now ← get_now
  modify (λ db. record db {
    submissions = update (λ s. s.id == submission_id) (with_status status now) db.submissions;
  })
  commit
  like_count ← count_likes submission_id
  liked_by_me ← has_liked submission_id admin.id
  pure (build_response (with_status status now submission) like_count liked_by_me false)

abbrev pub add_like : ℕ → ℕ → Database → Database
add_like submission_id user_id db = record db {
  likes = db.likes ++ record { submission_id = submission_id; user_id = user_id } ∷ [];
}

unfoldable pub like_submission : ℕ → User → Service SupportSubmissionResponse
like_submission submission_id current_user = do
  submission ← get_submission submission_id
  raise_if (is_suggestion submission.type) 400 cannot_like_suggestion
  liked ← has_liked submission_id current_user.id
  raise_if liked 409 already_liked
  modify (add_like submission_id current_user.id)
  on_integrity_error commit (raise 409 already_liked)
  like_count ← count_likes submission_id
  pure (build_response submission like_count true false)

abbrev pub remove_like : ℕ → ℕ → Database → Database
remove_like submission_id user_id db = record db {
  likes = delete (is_like submission_id user_id) db.likes;
}

unfoldable pub unlike_submission : ℕ → User → Service (Unit {0})
unlike_submission submission_id current_user = do
  _ ← get_submission submission_id
  like ← scalar_one_or_none (like_rows submission_id current_user.id)
  when (is_some like) (modify (remove_like submission_id current_user.id) >>= λ _. commit)
