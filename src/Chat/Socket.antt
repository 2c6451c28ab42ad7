-- ===== src/Chat/Socket.antt =====
-- app/routers/chat.py: the WebSocket of a room, from the frame that authenticates it to its end. What is
-- received, how sends end, readings of clocks and replies of Redis are arguments. Other requests change
-- the stored tables and the connections only between two runs of this code, not inside one.
pub mod Turns
pub mod Ending
use book_club_be.Prelude.{
  ℕ, ◌+◌, ◌*◌, ◌<◌, Bool, true, false, not, ◌&&◌, ◌||◌, Option, none, some, List, [], ◌∷◌, ◌==◌,
  ltb, leb, length, exists, select, is_some, if◌then◌else◌, get_list,
}
use book_club_be.Models.{Text, User, ChatRoom, ChatRoomBan}
use book_club_be.Database.{Database}
use book_club_be.Text.{strip, is_space}
use book_club_be.Connections.{
  WebSocket, ConnectionManager, SendOutcome, belongs_to, connect, disconnect, broadcast,
}
use book_club_be.ChatFlood.Keys.{Key}
use book_club_be.ChatFlood.{ChatFloodLimiter, Reply, acquire, release, is_limited}
use book_club_be.Session.{
  Session, Service, Result, ok, err, pure, modify, commit, rollback, scalar_one_or_none, ◌>>=◌,
  ◌>>◌,
}
use book_club_be.Chat.Handshake.{get_active_ban}
use book_club_be.Auth.Redis.{Redis, Value}
use book_club_be.Auth.Users.{Answer, answered, crashed}
use book_club_be.Auth.Flows.{ticket_key}
use book_club_be.Events.Repository.{get_user}
use book_club_be.Chat.Repository.{get_room}
use book_club_be.Chat.Access.{can_access_room, is_active_room_ban}
use book_club_be.Chat.Service.{new_message, add_message}

-- app/schemas/chat.py: what a text must not hold, and what does not make it visible
abbrev pub is_control : ℕ → Bool
is_control c = leb c 8 || c == 11 || c == 12 || (leb 14 c && leb c 31) || (leb 127 c && leb c 159)

abbrev pub is_invisible : ℕ → Bool
is_invisible c =
    c == 173
    || c == 4447
    || c == 4448
    || c == 6158
    || (leb 8203 c && leb c 8207)
    || c == 8288
    || c == 10240
    || c == 12644
    || c == 65279

-- `none` for a value that is no text
unfoldable pub normalize_message_text : Option Text → Option Text
normalize_message_text none = none
normalize_message_text (some text) =
    if ltb 2000 (length text) || exists is_control text
    then none
    else if exists (λ c. not (is_space c) && not (is_invisible c)) (strip text)
    then some (strip text)
    else none

-- what a frame holds: no JSON object, or one with its `text`
pub data Body : Type 0 where
  not_dict : Body
  dict : Option Text → Body

-- A frame, with the time of day, the limiter's readings and its reply of Redis, the id of its message,
-- whether an error could be sent back, and how the sends of its broadcast end.
pub record Frame : Type 0 where
  pub body : Body
  pub now : ℕ
  pub limited_at : ℕ
  pub redis_at : ℕ
  pub armed_at : ℕ
  pub flood_redis : Option Reply
  pub message_id : ℕ
  pub error_sent : Bool
  pub send_json : WebSocket → SendOutcome

-- `ban_cache_result` and `ban_cache_expires`
pub record Live : Type 0 where
  pub session : Session
  pub limiter : ChatFloodLimiter
  pub ban_cache_result : Option Bool
  pub ban_cache_expires : ℕ

-- five seconds
abbrev pub ban_cache_ttl : ℕ
ban_cache_ttl = 5 * 1000000

abbrev pub cached : ℕ → Live → Option Bool
cached now l = elim l.ban_cache_result [
  | none ↦ none
  | some b ↦ if ltb now l.ban_cache_expires then some b else none
]

abbrev pub remember : ℕ → Live → Result (Option ChatRoomBan) × Session → Result Bool × Live
remember now l (err e, s) = (err e, record l { session = s })
remember now l (ok ban, s) = (
  ok (is_some ban),
  record l {
    session = s;
    ban_cache_result = some (is_some ban);
    ban_cache_expires = now + ban_cache_ttl;
  },
)

unfoldable pub check_ban_cached : ℕ → ℕ → ℕ → Live → Result Bool × Live
check_ban_cached room_id user_id now l = elim (cached now l) [
  | some b ↦ (ok b, l)
  | none ↦ remember now l (get_active_ban room_id user_id now l.session)
]

abbrev pub store_message : ℕ → ℕ → Text → Frame → Service (Unit {0})
store_message room_id user_id text f =
    modify (add_message (new_message f.message_id room_id user_id text f.now)) >>= λ _. commit

-- a message that is stored is broadcast; where the commit raises the loop ends
abbrev pub broadcast_stored : ℕ → Frame → Live → Result (Unit {0}) × Session → Bool × Live
broadcast_stored room_id f l (err e, s) = (false, record l { session = s })
broadcast_stored room_id f l (ok t, s) =
    (true, record l { session = record s { manager = broadcast room_id f.send_json s.manager } })

abbrev pub post : ℕ → ℕ → Text → Frame → Result Bool × Live → Bool × Live
post room_id user_id text f (err e, l) = (false, l)
post room_id user_id text f (ok true, l) = (f.error_sent, l)
post room_id user_id text f (ok false, l) =
    broadcast_stored room_id f l (store_message room_id user_id text f l.session)

abbrev pub receive_text : ℕ → ℕ → Frame → Live → Option Text → Bool × Live
receive_text room_id user_id f l none = (f.error_sent, l)
receive_text room_id user_id f l (some text) =
    post room_id user_id text f (check_ban_cached room_id user_id f.now l)

abbrev pub receive_body : ℕ → ℕ → Frame → Live → Body → Bool × Live
receive_body room_id user_id f l not_dict = (true, l)
receive_body room_id user_id f l (dict t) =
    receive_text room_id user_id f l (normalize_message_text t)

-- one turn of the loop, and whether another follows: an exception ends it
unfoldable pub receive : ℕ → ℕ → Frame → Live → Bool × Live
receive room_id user_id f l =
    let (limited, limiter) =
      is_limited (record { room_id = room_id; user_id = user_id }) f.flood_redis f.limited_at
        f.redis_at f.armed_at l.limiter in
    let l' = record l { limiter = limiter } in
    if limited then (f.error_sent, l') else receive_body room_id user_id f l' f.body

unfoldable pub receive_loop : ℕ → ℕ → List Frame → Live → Live
receive_loop room_id user_id [] l = l
receive_loop room_id user_id (f ∷ fs) l =
    let (goes_on, l') = receive room_id user_id f l in
    if goes_on then receive_loop room_id user_id fs l' else l'

-- what the socket meets: whether the snapshot could be sent, the frames until the client leaves, and how
-- the two broadcasts of presence end
pub record Visit : Type 0 where
  pub socket : ℕ
  pub snapshot_sent : Bool
  pub opened_at : ℕ
  pub frames : List Frame
  pub send_online : WebSocket → SendOutcome
  pub send_offline : WebSocket → SendOutcome

abbrev pub set_manager : (ConnectionManager → ConnectionManager) → Live → Live
set_manager f l = record l { session = record l.session { manager = f l.session.manager } }

-- the user's other sockets in the room
abbrev pub others : ℕ → ℕ → ConnectionManager → List WebSocket
others room_id socket m =
    select (λ ws. not (ws.socket == socket)) (get_list room_id m.active_connections)

-- the `finally` clause
unfoldable pub leave : ℕ → ℕ → Visit → Live → Live
leave room_id user_id v l =
    let will_go_offline =
      not (exists (belongs_to user_id) (others room_id v.socket l.session.manager)) in
    let l1 =
      set_manager (disconnect room_id (record { socket = v.socket; user_id = some user_id })) l in
    let l2 = record l1 {
      limiter = release (record { room_id = room_id; user_id = user_id }) l1.limiter;
    } in
    if will_go_offline then set_manager (broadcast room_id v.send_offline) l2 else l2

abbrev pub joined : User → ChatRoom → Visit → Session → ChatFloodLimiter → Live
joined user room v s limiter = record {
  session = record s { manager = connect room.id v.socket user.id s.manager };
  limiter = limiter;
  ban_cache_result = none;
  ban_cache_expires = v.opened_at;
}

-- the others know that the user is online, and the limiter counts the connection
abbrev pub entered : User → ChatRoom → Visit → Session → ChatFloodLimiter → Live
entered user room v s limiter =
    record (set_manager (broadcast room.id v.send_online) (joined user room v s limiter)) {
      limiter = acquire (record { room_id = room.id; user_id = user.id }) limiter;
    }

-- after the handshake; a snapshot that cannot be sent ends it before the `try`
unfoldable pub serve_socket : User → ChatRoom → Visit → Session → ChatFloodLimiter → Live
serve_socket user room v s limiter =
    if not v.snapshot_sent
    then joined user room v s limiter
    else leave room.id user.id v
        (receive_loop room.id user.id v.frames (entered user room v s limiter))
