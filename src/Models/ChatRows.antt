-- ===== src/Models/ChatRows.antt =====
-- app/models/chat.py
use book_club_be.Prelude.{ℕ, Option}
use book_club_be.Models.ClubRows.{Text}

pub record ChatRoom : Type 0 where
  pub id : ℕ
  pub club_id : ℕ
  pub name : Text
  pub event_id : Option ℕ
  pub created_at : ℕ

pub record ChatMessage : Type 0 where
  pub id : ℕ
  pub room_id : ℕ
  pub sender_id : ℕ
  pub text : Text
  pub timestamp : ℕ

pub record ChatRoomBan : Type 0 where
  pub id : ℕ
  pub room_id : ℕ
  pub user_id : ℕ
  pub banned_by : ℕ
  pub banned_until : Option ℕ

pub record MessageRead : Type 0 where
  pub user_id : ℕ
  pub room_id : ℕ
  pub last_read_message_id : Option ℕ
