-- ===== src/Models/EventRows.antt =====
-- app/models/event.py
use book_club_be.Prelude.{ℕ, Bool, true, false, Option}
use book_club_be.Models.ClubRows.{Text}

pub data EventStatus : Type 0 where
  scheduled active held cancelled rescheduled : EventStatus

pub record Event : Type 0 where
  pub id : ℕ
  pub club_id : ℕ
  pub title : Text
  pub date : ℕ
  pub city : Text
  pub address : Option Text
  pub status : EventStatus
  pub cancelled_at : Option ℕ
  pub has_winner : Bool
  pub winner_id : Option ℕ
  pub winner_name : Option Text

pub record EventAttendee : Type 0 where
  pub event_id : ℕ
  pub user_id : ℕ

abbrev pub is_held : EventStatus → Bool
is_held EventStatus.held = true
is_held _ = false

abbrev pub is_cancelled : EventStatus → Bool
is_cancelled EventStatus.cancelled = true
is_cancelled _ = false
