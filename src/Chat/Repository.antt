-- ===== src/Chat/Repository.antt =====
-- app/repositories/chat.py: the queries of `ChatRepository` that the services use.
use book_club_be.Prelude.{
  ℕ, Bool, ◌&&◌, ◌||◌, Option, none, some, List, [], ◌∷◌, ◌++◌, map, ◌==◌, ltb, head?, take, select,
  if◌then◌else◌,
}
use book_club_be.Models.{Text, User, ChatRoom, ChatMessage}
use book_club_be.Database.{Database, same_text}
use book_club_be.Session.{Service, query, scalar_one_or_none}

abbrev pub room_rows : ℕ → Database → List ChatRoom
room_rows room_id db = select (λ r. r.id == room_id) db.rooms

unfoldable pub get_room : ℕ → Service (Option ChatRoom)
get_room room_id = scalar_one_or_none (room_rows room_id)

unfoldable pub list_rooms : ℕ → Service (List ChatRoom)
list_rooms club_id = query (λ db. select (λ r. r.club_id == club_id) db.rooms)

unfoldable pub get_room_by_name : ℕ → Text → Service (Option ChatRoom)
get_room_by_name club_id name =
    scalar_one_or_none (λ db. select (λ r. r.club_id == club_id && same_text r.name name) db.rooms)

unfoldable pub get_message : ℕ → ℕ → Service (Option ChatMessage)
get_message message_id room_id =
    scalar_one_or_none (λ db. select (λ m. m.id == message_id && m.room_id == room_id) db.messages)

-- a message with its sender's name
pub record MessageRow : Type 0 where
  pub message : ChatMessage
  pub sender_name : Text

-- JOIN users ON messages.sender_id = users.id
abbrev pub join_senders : List User → List ChatMessage → List MessageRow
join_senders users [] = []
join_senders users (m ∷ ms) =
    map (λ u. record { message = m; sender_name = u.display_name })
      (select (λ u. u.id == m.sender_id) users)
    ++ join_senders users ms

-- `timestamp > … OR timestamp = … AND id > …`
abbrev pub is_newer : ChatMessage → ChatMessage → Bool
is_newer m n = ltb n.timestamp m.timestamp || (m.timestamp == n.timestamp && ltb n.id m.id)

-- ORDER BY timestamp DESC, id DESC
abbrev pub insert_message : MessageRow → List MessageRow → List MessageRow
insert_message r [] = r ∷ []
insert_message r (q ∷ qs) =
    let rest = insert_message r qs in if is_newer q.message r.message then q ∷ rest else r ∷ q ∷ qs

abbrev pub by_recency : List MessageRow → List MessageRow
by_recency [] = []
by_recency (r ∷ rs) = insert_message r (by_recency rs)

-- `timestamp < ts OR timestamp = ts AND id < before_id`
abbrev pub is_before : ℕ → ℕ → MessageRow → Bool
is_before ts before_id r =
    ltb r.message.timestamp ts || (r.message.timestamp == ts && ltb r.message.id before_id)

-- the scalar subquery for the cursor's timestamp; a comparison with NULL selects no row
abbrev pub cursor_timestamp : ℕ → Database → Option ChatMessage
cursor_timestamp before_id db = head? (select (λ m. m.id == before_id) db.messages)

abbrev pub before_message : Option ChatMessage → ℕ → List MessageRow → List MessageRow
before_message none before_id rows = []
before_message (some m) before_id rows = select (is_before m.timestamp before_id) rows

abbrev pub before_cursor : Option ℕ → Database → List MessageRow → List MessageRow
before_cursor none db rows = rows
before_cursor (some before_id) db rows =
    before_message (cursor_timestamp before_id db) before_id rows

abbrev pub messages_of : ℕ → Database → List MessageRow
messages_of room_id db = join_senders db.users (select (λ m. m.room_id == room_id) db.messages)

abbrev pub page : ℕ → Option ℕ → ℕ → Database → List MessageRow
page room_id before_id limit db =
    take limit (by_recency (before_cursor before_id db (messages_of room_id db)))

unfoldable pub list_messages_paginated : ℕ → Option ℕ → ℕ → Service (List MessageRow)
list_messages_paginated room_id before_id limit = query (page room_id before_id limit)
