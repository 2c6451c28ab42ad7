-- ===== src/Chat/Service.antt =====
-- app/services/chat_service.py: rooms, messages, bans from a room and what a user has read. An id that
-- comes as text is `none` where `uuid.UUID` refuses it.
use mathlib.Core.List.{reverse}
use book_club_be.Prelude.{
  ℕ, ◌+◌, ◌*◌, Bool, true, false, not, ◌&&◌, Option, none, some, List, [], ◌∷◌, ◌++◌, ◌==◌, ltb,
  head?, select, exists, count, update, delete, opt_eq, is_some, if◌then◌else◌,
}
use book_club_be.Models.{
  Text, User, ChatRoom, ChatMessage, ChatRoomBan, MessageRead, is_organizer_role,
}
use book_club_be.Database.{Database}
use book_club_be.Session.{
  Service, query, pure, raise, or_raise, raise_if, modify, change_sockets, commit, get_now,
  scalar_one_or_none, when, ◌>>=◌, ◌>>◌, room_not_found, room_name_duplicate, room_banned,
  invalid_cursor, invalid_message_id, message_not_found, forbidden, member_not_found,
}
use book_club_be.Connections.{kick}
use book_club_be.ClubRepository.{get_membership}
use book_club_be.Access.{require_club_organizer, is_club_organizer}
use book_club_be.Clubs.Common.{close_rooms_best_effort}
use book_club_be.Events.Repository.{is_attendance}
use book_club_be.Events.Routes.{without_room}
use book_club_be.Chat.Access.{require_room_member, check_user_ban}
use book_club_be.Chat.Repository.{
  list_rooms, get_room_by_name, get_message, MessageRow, list_messages_paginated,
}

abbrev pub attended_or_club : ℕ → Database → ChatRoom → Bool
attended_or_club user_id db r = elim r.event_id [
  | none ↦ true
  | some e ↦ exists (is_attendance e user_id) db.attendees
]

unfoldable pub list_chat_rooms_service : ℕ → User → Service (List ChatRoom)
list_chat_rooms_service club_id current_user = do
  found ← get_membership club_id current_user.id
  membership ← or_raise found 404 room_not_found
  rooms ← list_rooms club_id
  query (λ db.
      if is_organizer_role membership.role
      then rooms
      else select (attended_or_club current_user.id db) rooms)

abbrev pub new_room : ℕ → ℕ → Text → Option ℕ → ℕ → ChatRoom
new_room room_id club_id name event_id now = record {
  id = room_id;
  club_id = club_id;
  name = name;
  event_id = event_id;
  created_at = now;
}

abbrev pub add_chat_room : ChatRoom → Database → Database
add_chat_room r db = record db { rooms = db.rooms ++ r ∷ [] }

unfoldable pub create_chat_room_service : ℕ → ℕ → Text → User → Service ChatRoom
create_chat_room_service room_id club_id name current_user = do
  _ ← require_club_organizer club_id current_user
  existing ← get_room_by_name club_id name
  raise_if (is_some existing) 409 room_name_duplicate
  now ← get_now
  modify (add_chat_room (new_room room_id club_id name none now))
  commit
  pure (new_room room_id club_id name none now)

-- no cursor, one that is no id, and an id
unfoldable pub read_cursor : Option (Option ℕ) → Service (Option ℕ)
read_cursor none = pure none
read_cursor (some none) = raise 422 invalid_cursor
read_cursor (some (some id)) = pure (some id)

unfoldable pub list_messages_service : ℕ → User → Option (Option ℕ) → ℕ → Service (List MessageRow)
list_messages_service room_id current_user before_id limit = do
  _ ← require_room_member room_id current_user
  banned ← check_user_ban room_id current_user.id
  raise_if banned 403 room_banned
  cursor ← read_cursor before_id
  rows ← list_messages_paginated room_id cursor limit
  pure (reverse rows)

abbrev pub new_message : ℕ → ℕ → ℕ → Text → ℕ → ChatMessage
new_message message_id room_id sender_id text now = record {
  id = message_id;
  room_id = room_id;
  sender_id = sender_id;
  text = text;
  timestamp = now;
}

abbrev pub add_message : ChatMessage → Database → Database
add_message m db = record db { messages = db.messages ++ m ∷ [] }

unfoldable pub send_message_service : ℕ → ℕ → Text → User → Service ChatMessage
send_message_service message_id room_id text current_user = do
  _ ← require_room_member room_id current_user
  banned ← check_user_ban room_id current_user.id
  raise_if banned 403 room_banned
  now ← get_now
  modify (add_message (new_message message_id room_id current_user.id text now))
  commit
  pure (new_message message_id room_id current_user.id text now)

unfoldable pub require_own_message : ChatMessage → ChatRoom → User → Service (Unit {0})
require_own_message msg room current_user = do
  organizer ← is_club_organizer room.club_id current_user.id
  raise_if (not organizer) 403 forbidden

-- DELETE of one message; a read mark that names it is set to NULL
abbrev pub without_message : ℕ → Database → Database
without_message message_id db = record db {
  messages = delete (λ m. m.id == message_id) db.messages;
  message_reads =
      update (λ r. opt_eq r.last_read_message_id (some message_id))
        (λ r. record r { last_read_message_id = none }) db.message_reads;
}

unfoldable pub delete_message_service : ℕ → ℕ → User → Service (Unit {0})
delete_message_service room_id message_id current_user = do
  room ← require_room_member room_id current_user
  found ← get_message message_id room_id
  msg ← or_raise found 404 message_not_found
  when (not (msg.sender_id == current_user.id)) (require_own_message msg room current_user)
  modify (without_message message_id)
  commit

-- `duration_seconds > 0`, with a second of 1000000 microseconds; a negative duration does what 0 does
abbrev pub banned_until : ℕ → ℕ → Option ℕ
banned_until now duration_seconds =
    if ltb 0 duration_seconds then some (now + duration_seconds * 1000000) else none

abbrev pub new_room_ban : ℕ → ℕ → ℕ → ℕ → ℕ → ℕ → ChatRoomBan
new_room_ban ban_id room_id user_id duration_seconds banned_by now = record {
  id = ban_id;
  room_id = room_id;
  user_id = user_id;
  banned_by = banned_by;
  banned_until = banned_until now duration_seconds;
}

abbrev pub add_room_ban : ChatRoomBan → Database → Database
add_room_ban b db = record db { room_bans = db.room_bans ++ b ∷ [] }

unfoldable pub ban_from_room_service : ℕ → ℕ → ℕ → ℕ → User → Service (Unit {0})
ban_from_room_service ban_id room_id user_id duration_seconds current_user = do
  room ← require_room_member room_id current_user
  _ ← require_club_organizer room.club_id current_user
  membership ← get_membership room.club_id user_id
  raise_if (not (is_some membership)) 404 member_not_found
  now ← get_now
  modify (add_room_ban (new_room_ban ban_id room_id user_id duration_seconds current_user.id now))
  commit
  change_sockets (λ _. kick user_id room_id)

unfoldable pub read_message_id : Option ℕ → Service ℕ
read_message_id none = raise 400 invalid_message_id
read_message_id (some id) = pure id

abbrev pub is_read_mark : ℕ → ℕ → MessageRead → Bool
is_read_mark user_id room_id r = r.user_id == user_id && r.room_id == room_id

abbrev pub mark_read : ℕ → ℕ → ℕ → Option MessageRead → Database → Database
mark_read user_id room_id last_read_id none db = record db {
  message_reads =
      db.message_reads
      ++ record { user_id = user_id; room_id = room_id; last_read_message_id = some last_read_id }
        ∷ [];
}
mark_read user_id room_id last_read_id (some r) db = record db {
  message_reads =
      update (is_read_mark user_id room_id)
        (λ m. record m { last_read_message_id = some last_read_id }) db.message_reads;
}

unfoldable pub get_read_mark : ℕ → ℕ → Service (Option MessageRead)
get_read_mark user_id room_id =
    scalar_one_or_none (λ db. select (is_read_mark user_id room_id) db.message_reads)

unfoldable pub mark_room_as_read_service : ℕ → Option ℕ → User → Service (Unit {0})
mark_room_as_read_service room_id last_read_message_id current_user = do
  _ ← require_room_member room_id current_user
  last_read_id ← read_message_id last_read_message_id
  message ← get_message last_read_id room_id
  raise_if (not (is_some message)) 404 message_not_found
  read_row ← get_read_mark current_user.id room_id
  modify (mark_read current_user.id room_id last_read_id read_row)
  commit

-- the message that the user has read last
abbrev pub last_read : Option MessageRead → Option ℕ
last_read none = none
last_read (some r) = r.last_read_message_id

-- `timestamp > (SELECT timestamp …)`, which selects nothing where there is no such message
abbrev pub is_unread : Option ChatMessage → ChatMessage → Bool
is_unread none m = false
is_unread (some seen) m = ltb seen.timestamp m.timestamp

abbrev pub unread : ℕ → Option ℕ → Database → ℕ
unread room_id none db = count (λ m. m.room_id == room_id) db.messages
unread room_id (some id) db =
    count (λ m. m.room_id == room_id && is_unread (head? (select (λ n. n.id == id) db.messages)) m)
      db.messages

-- the count with the message read last
unfoldable pub get_unread_count_service : ℕ → User → Service (ℕ × Option ℕ)
get_unread_count_service room_id current_user = do
  _ ← require_room_member room_id current_user
  read_row ← get_read_mark current_user.id room_id
  query (λ db. (unread room_id (last_read read_row) db, last_read read_row))

unfoldable pub delete_chat_room_service : ℕ → User → Service (Unit {0})
delete_chat_room_service room_id current_user = do
  room ← require_room_member room_id current_user
  _ ← require_club_organizer room.club_id current_user
  modify (without_room room_id)
  commit
  close_rooms_best_effort (room_id ∷ [])
