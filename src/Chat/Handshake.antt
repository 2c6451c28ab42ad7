-- ===== src/Chat/Handshake.antt =====
-- app/routers/chat.py (`_ws_authenticate`): the frame by which a WebSocket says whose it is, with a ticket
-- from app/routers/auth.py that is good once.
pub mod Tickets
use book_club_be.Prelude.{
  ℕ, Bool, true, false, not, Option, none, some, List, select, is_some, if◌then◌else◌,
}
use book_club_be.Models.{Text, User, ChatRoom, ChatRoomBan}
use book_club_be.Database.{Database}
use book_club_be.Session.{Session, Service, Result, ok, pure, rollback, scalar_one_or_none, ◌>>=◌}
use book_club_be.Auth.Redis.{Redis, Value}
use book_club_be.Auth.Users.{Answer, answered, crashed}
use book_club_be.Auth.Flows.{ticket_key}
use book_club_be.Events.Repository.{get_user}
use book_club_be.Chat.Repository.{get_room}
use book_club_be.Chat.Access.{can_access_room, is_active_room_ban}

-- the first frame: nothing in time, no JSON object of type "auth", or one with its fields
pub data Ticket : Type 0 where
  falsy no_text : Ticket
  text : Text → Ticket

pub data Handshake : Type 0 where
  unreadable not_auth : Handshake
  auth : Bool → Ticket → Handshake

-- the socket is closed, or serves a user in a room
pub data Authenticated : Type 0 where
  closed closed_legacy : Authenticated
  authenticated : User → ChatRoom → Authenticated

abbrev pub ban_rows : ℕ → ℕ → ℕ → Database → List ChatRoomBan
ban_rows room_id user_id now db = select (is_active_room_ban room_id user_id now) db.room_bans

unfoldable pub get_active_ban : ℕ → ℕ → ℕ → Service (Option ChatRoomBan)
get_active_ban room_id user_id now = scalar_one_or_none (ban_rows room_id user_id now)

unfoldable pub admit : User → ChatRoom → ℕ → Service Authenticated
admit user room now = do
  allowed ← can_access_room room user.id
  if not allowed
      then pure closed
      else (get_active_ban room.id user.id now >>= λ ban.
          pure (if is_some ban then closed else authenticated user room))

-- `if not room`, `if not user`
abbrev pub enter : User → ℕ → Option ChatRoom → Service Authenticated
enter user now none = pure closed
enter user now (some room) = admit user room now

unfoldable pub find_room : User → ℕ → ℕ → Service Authenticated
find_room user room_id now = do room ← get_room room_id; enter user now room

abbrev pub sign_in : ℕ → ℕ → Option User → Service Authenticated
sign_in room_id now none = pure closed
sign_in room_id now (some user) = find_room user room_id now

unfoldable pub find_user : ℕ → ℕ → ℕ → Service Authenticated
find_user id room_id now = do user ← get_user id; sign_in room_id now user

-- a ticket's value that is no id is refused
abbrev pub redeem :
    Option (Option Value) → ℕ → ℕ → Session → Answer (Result Authenticated × Session)
redeem none room_id now s = crashed
redeem (some (some (Value.user_id id))) room_id now s = answered (find_user id room_id now s)
redeem (some (some (Value.verifier v))) room_id now s = answered (ok closed, s)
redeem (some (some (Value.handoff h))) room_id now s = answered (ok closed, s)
redeem (some none) room_id now s = answered (ok closed, s)

module _ (R : Redis) where
  -- `room_id` is none where `uuid.UUID` refuses it; the session starts a transaction of its own first
  unfoldable pub ws_authenticate :
      Handshake
      → Option ℕ
      → ℕ
      → R.State
      → Session
      → Answer (Result Authenticated × Session) × R.State
  ws_authenticate unreadable room_id now r s = (answered (ok closed, s), r)
  ws_authenticate not_auth room_id now r s = (answered (ok closed, s), r)
  ws_authenticate (auth true falsy) room_id now r s = (answered (ok closed_legacy, s), r)
  ws_authenticate (auth false falsy) room_id now r s = (answered (ok closed, s), r)
  ws_authenticate (auth has_token no_text) room_id now r s = (answered (ok closed, s), r)
  ws_authenticate (auth has_token (text ticket)) none now r s =
      (answered (ok closed, (rollback s).1), r)
  ws_authenticate (auth has_token (text ticket)) (some room_id) now r s =
      let (raw, r') = R.getdel (ticket_key ticket) r in (redeem raw room_id now (rollback s).1, r')
