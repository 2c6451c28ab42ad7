-- ===== src/Chat/Socket/Ending.antt =====
-- What a visit of a room leaves behind, however it ends.
use book_club_be.Prelude.{
  ℕ, ◌-◌, ◌≤◌, ◌≡◌, refl, ap, Bool, true, false, not, inl, inr, some, List, [], ◌∷◌, arith,
  if◌then◌else◌, Bool-cases, exists, count, count-append, count-select-le, ==-refl,
}
use book_club_be.Models.{User, ChatRoom}
use book_club_be.Connections.{
  WebSocket, same_socket, remove_first, belongs_to, connect, disconnect, broadcast, send_failed,
}
use book_club_be.Connections.Loops.{sockets, disconnect-sockets, broadcast-sockets}
use book_club_be.Connections.Presence.{
  IsConsistent, connect-IsConsistent, connect-sockets, disconnect-IsConsistent,
  broadcast-IsConsistent,
}
use book_club_be.ChatFlood.Keys
use book_club_be.ChatFlood.{or_zero, ChatFloodLimiter, acquire, release}
use book_club_be.ChatFlood.Keys.{Key, Table, same_key}
use book_club_be.ChatFlood.Refs.{connections, connections-acquire, connections-release}
use book_club_be.Session.{Session}
use book_club_be.Chat.Socket.{Live, Visit, leave, serve_socket, set_manager, others, entered}
use book_club_be.Chat.Socket.Turns.{occurs, Stays, broadcast-once, loop-Stays}

count-remove_first :
    (ws : WebSocket) (xs : List WebSocket)
    → count (same_socket ws) (remove_first ws xs) ≡ count (same_socket ws) xs - 1
count-remove_first ws [] = omega arith
count-remove_first ws (x ∷ xs) = ground (arith, count-remove_first ws xs)

same_key→eq : (j k : Key) → same_key j k ≡ true → j ≡ k
same_key→eq j k h = ground arith

-- what the limiter counts for the pair `j`, read off its table
connections-refs :
    (j : Key) (l l' : ChatFloodLimiter) → l.refs ≡ l'.refs → connections j l ≡ connections j l'
connections-refs j l l' e = ap (λ t. or_zero (Keys.lookup j t)) e

release-acquire :
    (k j : Key) (limiter l : ChatFloodLimiter)
    → l.refs ≡ (acquire k limiter).refs
    → connections j (release k l) ≡ connections j limiter
release-acquire k j limiter l e = ground (
  arith,
  connections-release k j l,
  connections-refs j l (acquire k limiter) e,
  connections-refs k l (acquire k limiter) e,
  connections-acquire k j limiter,
  connections-acquire k k limiter,
  λ (s : same_key k j ≡ true). ap (λ i. connections i limiter) (same_key→eq k j s),
)

-- The socket is not in the room, every pair is counted as before, and presence follows the sockets.
pub record IsReleased (ws : WebSocket) (room_id : ℕ) (limiter : ChatFloodLimiter) (l : Live)
    : Type 0 where
  pub gone : occurs ws room_id l.session.manager ≡ 0
  pub counted : (k : Key) → connections k l.limiter ≡ connections k limiter
  pub consistent : IsConsistent l.session.manager

abbrev pub socket_of : User → Visit → WebSocket
socket_of user v = record { socket = v.socket; user_id = some user.id }

module _ (user : User) (room_id : ℕ) (v : Visit) (limiter : ChatFloodLimiter) where
  abbrev k : Key
  k = record { room_id = room_id; user_id = user.id }

  abbrev ws : WebSocket
  ws = socket_of user v

  disconnected :
      (l : Live)
      → Stays (acquire k limiter).refs ws room_id l
      → IsReleased ws room_id limiter
          (record (set_manager (disconnect room_id ws) l) { limiter = release k l.limiter })
  disconnected l h = record {
    gone =
        rw (disconnect-sockets room_id room_id ws l.session.manager, ==-refl room_id)
          (omega (arith, count-remove_first ws (sockets room_id l.session.manager), h.once));
    counted = λ j. release-acquire k j limiter l.limiter h.counted;
    consistent = disconnect-IsConsistent room_id ws l.session.manager h.consistent;
  }

  offline :
      (l : Live)
      → IsReleased ws room_id limiter l
      → IsReleased ws room_id limiter (set_manager (broadcast room_id v.send_offline) l)
  offline l h = record {
    gone =
        rw (broadcast-sockets room_id room_id v.send_offline l.session.manager, ==-refl room_id)
          (omega (
            arith,
            h.gone,
            count-select-le (same_socket ws) (λ w. not (send_failed (v.send_offline w)))
                (sockets room_id l.session.manager),
          ));
    counted = h.counted;
    consistent = broadcast-IsConsistent room_id v.send_offline l.session.manager h.consistent;
  }

  leave-IsReleased :
      (l : Live)
      → Stays (acquire k limiter).refs ws room_id l
      → IsReleased ws room_id limiter (leave room_id user.id v l)
  unfolding leave
  leave-IsReleased l h =
      elim (Bool-cases
        (not (exists (belongs_to user.id) (others room_id v.socket l.session.manager)))) [
          | inl last ↦ rw last (offline _ (disconnected l h))
          | inr others_stay ↦ rw others_stay (disconnected l h)
        ]

when_sent :
    (P : Live → Type 0) (b : Bool) (x y : Live) → b ≡ true → P y → P (if not b then x else y)
when_sent P true x y e h = h
when_sent P false x y e h = cc

entered-Stays :
    (user : User) (room : ChatRoom) (v : Visit) (s : Session) (limiter : ChatFloodLimiter)
    → IsConsistent s.manager
    → occurs (socket_of user v) room.id s.manager ≡ 0
    → Stays
        (acquire (k user room.id v limiter) limiter).refs
        (socket_of user v)
        room.id
        (entered user room v s limiter)
entered-Stays user room v s limiter consistent new =
    let m = connect room.id v.socket user.id s.manager in
    let once : occurs (socket_of user v) room.id m ≤ 1 =
      rw (connect-sockets room.id v.socket user.id s.manager) (
        grind (
          arith,
          new,
          count-append (same_socket (socket_of user v)) (sockets room.id s.manager)
              (socket_of user v ∷ []),
        )) in
    record {
      counted = refl;
      consistent =
          broadcast-IsConsistent room.id v.send_online m
            (connect-IsConsistent room.id v.socket user.id s.manager consistent);
      once =
          broadcast-once (acquire (k user room.id v limiter) limiter).refs (socket_of user v)
            room.id v.send_online m once;
    }

-- After the visit of a room by a new socket, on consistent connections and with a presence snapshot
-- that could be sent, and however its frames, its sends, Redis and the commits of its messages go:
-- the socket is not among the room's, the flood limiter counts every pair's connections as before,
-- and who is present still follows from the sockets.
pub serve_socket-IsReleased :
    (user : User) (room : ChatRoom) (v : Visit) (s : Session) (limiter : ChatFloodLimiter)
    → v.snapshot_sent ≡ true
    → IsConsistent s.manager
    → occurs (socket_of user v) room.id s.manager ≡ 0
    → IsReleased (socket_of user v) room.id limiter (serve_socket user room v s limiter)
unfolding serve_socket
serve_socket-IsReleased user room v s limiter sent consistent new =
    when_sent (IsReleased (socket_of user v) room.id limiter) v.snapshot_sent _ _ sent (
      leave-IsReleased user room.id v limiter _ (
        loop-Stays _ (socket_of user v) room.id user.id v.frames (entered user room v s limiter)
          (entered-Stays user room v s limiter consistent new)))
