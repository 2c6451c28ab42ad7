-- ===== src/Connections.antt =====
-- app/services/chat_connections.py: the live WebSockets of each chat room and the users present in it.
-- A socket is its identity and the user that `connect` stored on it; the two never part, since a
-- socket is connected once. What a send or a close does on the wire is an argument.
pub mod Loops
pub mod Presence
pub mod Kick
mod Tests
use book_club_be.Prelude.{
  ℕ, ◌≡◌, Bool, true, false, ◌&&◌, Option, none, some, List, [], ◌∷◌, ◌++◌, ◌==◌, if◌then◌else◌,
  opt_eq, exists, delete, Dict, get_list, put_list, insert, not,
}

pub record WebSocket : Type 0 where
  pub socket : ℕ
  pub user_id : Option ℕ

pub record ConnectionManager : Type 0 where
  pub active_connections : Dict (List WebSocket)
  pub room_presence : Dict (List ℕ)

abbrev pub empty_manager : ConnectionManager
empty_manager = record { active_connections = []; room_presence = [] }

abbrev pub same_socket : WebSocket → WebSocket → Bool
same_socket a b = a.socket == b.socket && opt_eq a.user_id b.user_id

-- list.remove: the first equal element
abbrev pub remove_first : WebSocket → List WebSocket → List WebSocket
remove_first ws [] = []
remove_first ws (x ∷ xs) = if same_socket ws x then xs else x ∷ remove_first ws xs

abbrev pub contains_user : ℕ → List ℕ → Bool
contains_user u = exists (λ v. v == u)

-- set.add and set.discard
abbrev pub set_add : ℕ → List ℕ → List ℕ
set_add u us = if contains_user u us then us else u ∷ us

abbrev pub discard : ℕ → List ℕ → List ℕ
discard u = delete (λ v. v == u)

abbrev pub belongs_to : ℕ → WebSocket → Bool
belongs_to u ws = opt_eq ws.user_id (some u)

pub connect : ℕ → ℕ → ℕ → ConnectionManager → ConnectionManager
connect room socket user m = record {
  active_connections =
      insert room
        (get_list room m.active_connections ++ record { socket = socket; user_id = some user } ∷ [])
        m.active_connections;
  room_presence = insert room (set_add user (get_list room m.room_presence)) m.room_presence;
}

-- Presence after the socket has gone: its user stays while another of its sockets is in the room.
abbrev presence_after : Option ℕ → List WebSocket → List ℕ → List ℕ
presence_after none left present = present
presence_after (some uid) left present =
    if exists (belongs_to uid) left then present else discard uid present

pub disconnect : ℕ → WebSocket → ConnectionManager → ConnectionManager
disconnect room ws m =
    let active = get_list room m.active_connections in
    let left : List WebSocket =
      (if exists (same_socket ws) active then remove_first ws active else active) in
    record {
      active_connections = put_list room left m.active_connections;
      room_presence =
          put_list room (presence_after ws.user_id left (get_list room m.room_presence))
            m.room_presence;
    }

pub get_presence_snapshot : ℕ → ConnectionManager → List ℕ
get_presence_snapshot room m = get_list room m.room_presence

-- How `send_json` ends on a socket: both failures disconnect it.
pub data SendOutcome : Type 0 where
  sent web_socket_disconnect runtime_error : SendOutcome

abbrev pub send_failed : SendOutcome → Bool
send_failed sent = false
send_failed web_socket_disconnect = true
send_failed runtime_error = true

pub broadcast_loop :
    List WebSocket → ℕ → (WebSocket → SendOutcome) → ConnectionManager → ConnectionManager
broadcast_loop [] room send_json m = m
broadcast_loop (ws ∷ rest) room send_json m =
    broadcast_loop rest room send_json
      (if send_failed (send_json ws) then disconnect room ws m else m)

-- The loop runs over a copy of the room's sockets.
pub broadcast : ℕ → (WebSocket → SendOutcome) → ConnectionManager → ConnectionManager
unfolding broadcast_loop
broadcast room send_json m = broadcast_loop (get_list room m.active_connections) room send_json m

-- `user_id is not None and ws._user_id != user_id`
abbrev pub is_skipped : Option ℕ → WebSocket → Bool
is_skipped none ws = false
is_skipped (some u) ws = not (belongs_to u ws)

pub close_loop : List WebSocket → ℕ → Option ℕ → ConnectionManager → ConnectionManager
close_loop [] room user m = m
close_loop (ws ∷ rest) room user m =
    close_loop rest room user (if is_skipped user ws then m else disconnect room ws m)

-- `_close_all`; a close that fails is swallowed, so it does not change what is disconnected.
pub close_all : ℕ → Option ℕ → ConnectionManager → ConnectionManager
unfolding close_loop
close_all room user m = close_loop (get_list room m.active_connections) room user m

pub kick : ℕ → ℕ → ConnectionManager → ConnectionManager
unfolding close_all
kick user room m = close_all room (some user) m

pub close_room : ℕ → ConnectionManager → ConnectionManager
unfolding close_all
close_room room m = close_all room none m

-- `kick_user_from_club_rooms` over the ids of the club's rooms
pub kick_from_rooms : List ℕ → ℕ → ConnectionManager → ConnectionManager
unfolding kick
kick_from_rooms [] user m = m
kick_from_rooms (room ∷ rooms) user m = kick_from_rooms rooms user (kick user room m)

-- `close_rooms_best_effort`
pub close_rooms : List ℕ → ConnectionManager → ConnectionManager
unfolding close_room
close_rooms [] m = m
close_rooms (room ∷ rooms) m = close_rooms rooms (close_room room m)
