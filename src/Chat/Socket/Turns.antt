-- ===== src/Chat/Socket/Turns.antt =====
-- What the turns of the loop of a room's WebSocket keep.
use book_club_be.Prelude.{
  ℕ, ◌≤◌, ◌≡◌, sym, ◌∙◌, subst, Bool, true, false, not, inl, inr, Option, none, some, List, [], ◌∷◌,
  arith, Bool-cases, Option-cases, count, count-select-le, ==-refl,
}
use book_club_be.Models.{Text, ChatRoomBan}
use book_club_be.Connections.{
  WebSocket, ConnectionManager, SendOutcome, same_socket, broadcast, send_failed,
}
use book_club_be.Connections.Loops.{sockets, broadcast-sockets}
use book_club_be.Connections.Presence.{IsConsistent, broadcast-IsConsistent}
use book_club_be.ChatFlood.{is_limited}
use book_club_be.ChatFlood.Keys.{Key, Table}
use book_club_be.ChatFlood.Refs.{is_limited-refs}
use book_club_be.Session.{Session, Result, ok, err, scalar_one_or_none, ◌>>=◌, one_row}
use book_club_be.Chat.Handshake.{get_active_ban, ban_rows}
use book_club_be.Chat.Socket.{
  Frame, Body, not_dict, dict, Live, normalize_message_text, cached, remember, check_ban_cached,
  store_message, broadcast_stored, post, receive_text, receive_body, receive, receive_loop,
  set_manager,
}

-- How often a socket is among those of a room.
abbrev pub occurs : WebSocket → ℕ → ConnectionManager → ℕ
occurs ws room_id m = count (same_socket ws) (sockets room_id m)

module _ (refs : Table ℕ) (ws : WebSocket) (room_id : ℕ) where
  -- no connection is counted or dropped, presence stays right, and the socket is there once at most
  pub record Stays (l : Live) : Type 0 where
    pub counted : l.limiter.refs ≡ refs
    pub consistent : IsConsistent l.session.manager
    pub once : occurs ws room_id l.session.manager ≤ 1

  pub broadcast-once :
      (send_json : WebSocket → SendOutcome) (m : ConnectionManager)
      → occurs ws room_id m ≤ 1
      → occurs ws room_id (broadcast room_id send_json m) ≤ 1
  broadcast-once send_json m h =
      rw (broadcast-sockets room_id room_id send_json m, ==-refl room_id)
        (omega (
          arith,
          h,
          count-select-le (same_socket ws) (λ w. not (send_failed (send_json w)))
              (sockets room_id m),
        ))

  pub broadcast-Stays :
      (send_json : WebSocket → SendOutcome) (l : Live)
      → Stays l
      → Stays (set_manager (broadcast room_id send_json) l)
  broadcast-Stays send_json l h = record {
    counted = h.counted;
    consistent = broadcast-IsConsistent room_id send_json l.session.manager h.consistent;
    once = broadcast-once send_json l.session.manager h.once;
  }

  remember-Stays :
      (now : ℕ) (l : Live) (r : Result (Option ChatRoomBan))
      → Stays l
      → Stays (remember now l (r, l.session)).1
  remember-Stays now l (ok ban) h = record {
    counted = h.counted;
    consistent = h.consistent;
    once = h.once;
  }
  remember-Stays now l (err e) h = record {
    counted = h.counted;
    consistent = h.consistent;
    once = h.once;
  }

  check_ban-Stays :
      (user_id now : ℕ) (l : Live) → Stays l → Stays (check_ban_cached room_id user_id now l).1
  unfolding check_ban_cached get_active_ban scalar_one_or_none
  check_ban-Stays user_id now l h = elim (Option-cases (cached now l)) [
    | inl stale ↦
        rw (stale, check_ban_cached)
          (remember-Stays now l (one_row (ban_rows room_id user_id now l.session.work)) h)
    | inr (b, fresh) ↦ rw (fresh, check_ban_cached) h
  ]

  store-manager :
      (user_id : ℕ) (text : Text) (f : Frame) (s : Session)
      → (store_message room_id user_id text f s).1.manager ≡ s.manager
  unfolding ◌>>=◌
  store-manager user_id text f s = ground arith

  stored-Stays :
      (f : Frame) (l : Live) (r : Result (Unit {0})) (s : Session)
      → s.manager ≡ l.session.manager
      → Stays l
      → Stays (broadcast_stored room_id f l (r, s)).1
  stored-Stays f l (err e) s same h = record {
    counted = h.counted;
    consistent = subst IsConsistent (sym same) h.consistent;
    once = rw same h.once;
  }
  stored-Stays f l (ok t) s same h =
      let b = broadcast-Stays f.send_json l h in
      record { counted = h.counted; consistent = rw same b.consistent; once = rw same b.once }

  post-Stays :
      (user_id : ℕ) (text : Text) (f : Frame) (r : Result Bool) (l : Live)
      → Stays l
      → Stays (post room_id user_id text f (r, l)).1
  post-Stays user_id text f (err e) l h = h
  post-Stays user_id text f (ok true) l h = h
  post-Stays user_id text f (ok false) l h =
      stored-Stays f l (store_message room_id user_id text f l.session).0
        (store_message room_id user_id text f l.session).1 (store-manager user_id text f l.session)
        h

  body-Stays :
      (user_id : ℕ) (f : Frame) (l : Live) (b : Body)
      → Stays l
      → Stays (receive_body room_id user_id f l b).1
  body-Stays user_id f l not_dict h = h
  body-Stays user_id f l (dict t) h = text-Stays (normalize_message_text t)
    where
      text-Stays : (t : Option Text) → Stays (receive_text room_id user_id f l t).1
      text-Stays none = h
      text-Stays (some text) =
          post-Stays user_id text f (check_ban_cached room_id user_id f.now l).0
            (check_ban_cached room_id user_id f.now l).1 (check_ban-Stays user_id f.now l h)

  receive-Stays :
      (user_id : ℕ) (f : Frame) (l : Live) → Stays l → Stays (receive room_id user_id f l).1
  unfolding receive
  receive-Stays user_id f l h =
      let k : Key = record { room_id = room_id; user_id = user_id } in
      let asked = is_limited k f.flood_redis f.limited_at f.redis_at f.armed_at l.limiter in
      let l' : Live = record l { limiter = asked.1 } in
      let h' : Stays l' = record {
        counted =
            is_limited-refs k f.flood_redis f.limited_at f.redis_at f.armed_at l.limiter
            ∙ h.counted;
        consistent = h.consistent;
        once = h.once;
      } in
      elim (Bool-cases asked.0) [
        | inl limited ↦ rw limited h'
        | inr free ↦ rw free (body-Stays user_id f l' f.body h')
      ]

  pub loop-Stays :
      (user_id : ℕ) (fs : List Frame) (l : Live)
      → Stays l
      → Stays (receive_loop room_id user_id fs l)
  unfolding receive_loop
  loop-Stays user_id [] l h = h
  loop-Stays user_id (f ∷ fs) l h = elim (Bool-cases (receive room_id user_id f l).0) [
    | inl goes_on ↦
        rw goes_on
          (loop-Stays user_id fs (receive room_id user_id f l).1 (receive-Stays user_id f l h))
    | inr ends ↦ rw ends (receive-Stays user_id f l h)
  ]
