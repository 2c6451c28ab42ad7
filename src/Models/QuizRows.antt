-- ===== src/Models/QuizRows.antt =====
-- app/models/quiz.py. The index of an answer, an `int` that is only compared for equality, is a number
-- here as an id is.
use book_club_be.Prelude.{ℕ, Bool, Option, List}
use book_club_be.Models.ClubRows.{Text}

pub record Quiz : Type 0 where
  pub id : ℕ
  pub club_id : ℕ
  pub created_by : ℕ
  pub title : Text
  pub description : Option Text
  pub is_active : Bool

pub record QuizQuestion : Type 0 where
  pub id : ℕ
  pub quiz_id : ℕ
  pub question : Text
  pub options : List Text
  pub correct_index : ℕ
  pub position : ℕ

pub record QuizAttempt : Type 0 where
  pub quiz_id : ℕ
  pub user_id : ℕ
  pub score : ℕ
  pub total : ℕ
  pub answers : List ℕ
  pub created_at : ℕ

pub record QuizSession : Type 0 where
  pub id : ℕ
  pub quiz_id : ℕ
  pub event_id : Option ℕ
  pub started_by : ℕ
  pub started_at : ℕ
  pub closed_at : Option ℕ
