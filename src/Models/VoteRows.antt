-- ===== src/Models/VoteRows.antt =====
-- app/models/book_vote.py
use book_club_be.Prelude.{ℕ, Bool, true, false, Option}
use book_club_be.Models.ClubRows.{Text}

pub data RoundStatus : Type 0 where
  opened closed : RoundStatus

pub record BookVoteRound : Type 0 where
  pub id : ℕ
  pub club_id : ℕ
  pub status : RoundStatus
  pub winner_option_id : Option ℕ
  pub closed_at : Option ℕ
  pub created_at : ℕ

pub record BookVoteOption : Type 0 where
  pub id : ℕ
  pub round_id : ℕ
  pub title : Text
  pub author : Option Text
  pub created_at : ℕ

pub record BookVoteVote : Type 0 where
  pub round_id : ℕ
  pub option_id : ℕ
  pub user_id : ℕ

abbrev pub is_opened : RoundStatus → Bool
is_opened opened = true
is_opened closed = false
