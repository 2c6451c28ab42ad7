-- ===== src/Support/Likes.antt =====
-- The likes of the board as the set of pairs that they stand for, and the constraints that keep the
-- table such a set.
pub mod Abstract
pub mod Refinement
use book_club_be.Prelude.{
  ℕ, ◌≡◌, ◌⊎◌, inl, inr, refl, sym, ap, ◌∙◌, Bool, true, false, not, ◌&&◌, ◌||◌, Option, none, some,
  List, [], ◌∷◌, ◌++◌, arith, ◌==◌, if◌then◌else◌, select, delete, exists, for_all, exists-append,
  Bool-cases, ==→eq, ==-refl,
}
use book_club_be.Models.{User, SupportType, SupportSubmission, SupportSubmissionLike}
use book_club_be.Database.Unique.{
  unique-select, unique-append, exists-select_none, exists-select_one, unique-delete,
  for_all-delete, for_all-append,
}
use book_club_be.Database.{
  Database, integrity, clubs_integrity, events_integrity, chat_integrity, quizzes_integrity,
  votes_integrity, users_integrity, support_integrity, unique, has_user,
}
use book_club_be.Support.{is_like, like_rows, add_like, remove_like, submission_rows}

-- the constraints on the other tables
core_integrity : Database → Bool
core_integrity db =
    clubs_integrity db
    && events_integrity db
    && chat_integrity db
    && quizzes_integrity db
    && votes_integrity db
    && users_integrity db

core-likes :
    (db : Database) (ls : List SupportSubmissionLike)
    → core_integrity (record db { likes = ls }) ≡ core_integrity db
unfolding core_integrity clubs_integrity events_integrity chat_integrity quizzes_integrity
    votes_integrity users_integrity
core-likes db ls = refl

integrity-core : (db : Database) → integrity db ≡ (core_integrity db && support_integrity db)
unfolding integrity core_integrity
integrity-core db = ground arith

abbrev same_like : SupportSubmissionLike → SupportSubmissionLike → Bool
same_like a b = a.submission_id == b.submission_id && a.user_id == b.user_id

abbrev refers : Database → SupportSubmissionLike → Bool
refers db l = exists (λ s. s.id == l.submission_id) db.submissions && has_user db l.user_id

-- what a change of the likes has to keep
integrity-likes :
    (db : Database) (ls : List SupportSubmissionLike)
    → integrity db ≡ true
    → (unique same_like db.likes ≡ true
        → for_all (refers db) db.likes ≡ true
        → (unique same_like ls ≡ true) × (for_all (refers db) ls ≡ true))
    → integrity (record db { likes = ls }) ≡ true
unfolding support_integrity
integrity-likes db ls h f =
    ground
      (arith, integrity-core db, integrity-core (record db { likes = ls }), core-likes db ls, f)

pub integrity-add_like :
    (submission_id user_id : ℕ) (db : Database)
    → integrity db ≡ true
    → has_user db user_id ≡ true
    → exists (λ s. s.id == submission_id) db.submissions ≡ true
    → exists (is_like submission_id user_id) db.likes ≡ false
    → integrity (add_like submission_id user_id db) ≡ true
integrity-add_like submission_id user_id db h user found free = integrity-likes db _ h λ once all. (
  unique-append same_like (is_like submission_id user_id) db.likes _ once free,
  for_all-append (refers db) db.likes _ all (ground arith),
)

pub integrity-remove_like :
    (submission_id user_id : ℕ) (db : Database)
    → integrity db ≡ true
    → integrity (remove_like submission_id user_id db) ≡ true
integrity-remove_like submission_id user_id db h = integrity-likes db _ h λ once all. (
  unique-delete (is_like submission_id user_id) same_like db.likes once,
  for_all-delete (is_like submission_id user_id) (refers db) db.likes all,
)

pub likes-unique : (db : Database) → integrity db ≡ true → unique same_like db.likes ≡ true
unfolding integrity support_integrity
likes-unique db h = ground arith

pub submissions-unique :
    (db : Database) → integrity db ≡ true → unique (λ a b. a.id == b.id) db.submissions ≡ true
unfolding integrity support_integrity
submissions-unique db h = ground arith

-- the row of a submission is not there or the only one, and so is a like
pub submission_rows-cases :
    (submission_id : ℕ) (db : Database)
    → integrity db ≡ true
    → (submission_rows submission_id db ≡ [])
      ⊎ ((x : SupportSubmission) × (submission_rows submission_id db ≡ x ∷ []))
submission_rows-cases submission_id db h =
    unique-select (λ a b. a.id == b.id) (λ s. s.id == submission_id) (λ x y e f. ground arith)
      db.submissions (submissions-unique db h)

pub like_rows-cases :
    (submission_id user_id : ℕ) (db : Database)
    → integrity db ≡ true
    → (like_rows submission_id user_id db ≡ [])
      ⊎ ((x : SupportSubmissionLike) × (like_rows submission_id user_id db ≡ x ∷ []))
like_rows-cases submission_id user_id db h =
    unique-select same_like (is_like submission_id user_id) (λ x y e f. ground arith) db.likes
      (likes-unique db h)
