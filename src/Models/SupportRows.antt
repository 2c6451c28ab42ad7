-- ===== src/Models/SupportRows.antt =====
-- app/models/support_submission.py and randomizer.py
use book_club_be.Prelude.{ℕ, Option, List}
use book_club_be.Models.ClubRows.{Text}

pub data SupportType : Type 0 where
  complaint suggestion comment : SupportType

pub data SupportStatus : Type 0 where
  open_ pending approved rejected in_progress done : SupportStatus

pub record SupportSubmission : Type 0 where
  pub id : ℕ
  pub author_id : ℕ
  pub type : SupportType
  pub title : Text
  pub body : Text
  pub status : SupportStatus
  pub created_at : ℕ
  pub updated_at : ℕ

pub record SupportSubmissionLike : Type 0 where
  pub submission_id : ℕ
  pub user_id : ℕ

-- the dicts of `CandidateSchema.model_dump()`
pub record Candidate : Type 0 where
  pub id : ℕ
  pub display_name : Text
  pub avatar_url : Option Text

pub record RandomizerSession : Type 0 where
  pub id : ℕ
  pub club_id : ℕ
  pub created_by : ℕ
  pub purpose : Text
  pub candidates : List Candidate
  pub result : Option Candidate
  pub created_at : ℕ
