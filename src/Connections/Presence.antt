-- ===== src/Connections/Presence.antt =====
-- Presence follows the sockets: who is shown as online in a room, and what a kick leaves.
use book_club_be.Prelude.{
  ℕ, ◌≡◌, refl, ap, true, false, inl, inr, List, [], ◌∷◌, ◌++◌, arith, ◌==◌, if◌then◌else◌,
  Bool-cases, exists, exists-append, Option, none, some, get_list, get_list-put_list, ◌||◌,
  IsPruned, put_list-IsPruned, insert-IsPruned, lookup-insert, lookup, is_empty,
}
use book_club_be.Connections.{
  WebSocket, ConnectionManager, empty_manager, same_socket, remove_first, disconnect, connect,
  SendOutcome, contains_user, set_add, discard, broadcast, close_all, kick, close_room, belongs_to,
  presence_after,
}
use book_club_be.Connections.Loops.{
  sockets, remove_first-absent, same_socket→eq, disconnect-sockets, broadcast_keeps,
  close_all_keeps,
}

abbrev pub presence : ℕ → ConnectionManager → List ℕ
presence room m = get_list room m.room_presence

-- A user is present in a room exactly when one of the room's sockets is theirs, and no key is kept
-- for an empty room.
pub record IsConsistent (m : ConnectionManager) : Type 0 where
  pub rooms_pruned : IsPruned m.active_connections
  pub presence_pruned : IsPruned m.room_presence
  pub present :
      (room user : ℕ)
      → contains_user user (presence room m) ≡ exists (belongs_to user) (sockets room m)

contains_user-discard :
    (u v : ℕ) (us : List ℕ)
    → contains_user u (discard v us) ≡ (if v == u then false else contains_user u us)
contains_user-discard u v [] = ground arith
contains_user-discard u v (x ∷ us) = ground (arith, contains_user-discard u v us)

contains_user-set_add :
    (u v : ℕ) (us : List ℕ) → contains_user u (set_add v us) ≡ (v == u || contains_user u us)
contains_user-set_add u v us = ground arith

exists-remove_first_other :
    (u : ℕ) (ws : WebSocket) (xs : List WebSocket)
    → belongs_to u ws ≡ false
    → exists (belongs_to u) (remove_first ws xs) ≡ exists (belongs_to u) xs
exists-remove_first_other u ws [] h = refl
exists-remove_first_other u ws (x ∷ xs) h = ground (
  arith,
  exists-remove_first_other u ws xs,
  same_socket→eq ws x,
  λ (e : ws ≡ x). ap (belongs_to u) e,
)

exists-remove_first_le :
    (u : ℕ) (ws : WebSocket) (xs : List WebSocket)
    → exists (belongs_to u) (remove_first ws xs) ≡ true
    → exists (belongs_to u) xs ≡ true
exists-remove_first_le u ws [] h = h
exists-remove_first_le u ws (x ∷ xs) h = ground (arith, exists-remove_first_le u ws xs)

pub presence-disconnect :
    (room j : ℕ) (ws : WebSocket) (m : ConnectionManager)
    → presence j (disconnect room ws m) ≡ (
        if room == j
        then presence_after ws.user_id (remove_first ws (sockets room m)) (presence room m)
        else presence j m)
unfolding disconnect
presence-disconnect room j ws m = elim (Bool-cases (exists (same_socket ws) (sockets room m))) [
  | inl here ↦ rw here (get_list-put_list room j _ m.room_presence)
  | inr gone ↦
      rw (gone, remove_first-absent ws (sockets room m) gone)
        (get_list-put_list room j _ m.room_presence)
]

presence_after_lem :
    (uid : Option ℕ) (socket u : ℕ) (xs : List WebSocket) (us : List ℕ)
    → contains_user u us ≡ exists (belongs_to u) xs
    → let ws : WebSocket = record { socket = socket; user_id = uid } in
      contains_user u (presence_after uid (remove_first ws xs) us)
      ≡ exists (belongs_to u) (remove_first ws xs)
presence_after_lem none socket u xs us h =
    ground (arith, exists-remove_first_other u (record { socket = socket; user_id = none }) xs)
presence_after_lem (some v) socket u xs us h = ground (
  arith,
  exists-remove_first_other u (record { socket = socket; user_id = some v }) xs,
  exists-remove_first_le u (record { socket = socket; user_id = some v }) xs,
  contains_user-discard u v us,
)

pub disconnect-IsConsistent :
    (room : ℕ) (ws : WebSocket) (m : ConnectionManager)
    → IsConsistent m
    → IsConsistent (disconnect room ws m)
disconnect-IsConsistent room ws m h = record {
  rooms_pruned = unfold disconnect in put_list-IsPruned room _ _ h.rooms_pruned;
  presence_pruned = unfold disconnect in put_list-IsPruned room _ _ h.presence_pruned;
  present = λ j u.
      rw (presence-disconnect room j ws m, disconnect-sockets room j ws m)
        (elim (Bool-cases (room == j)) [
          | inl same ↦ rw same (
              presence_after_lem ws.user_id ws.socket u (sockets room m) (presence room m)
                (h.present room u))
          | inr other ↦ rw other (h.present j u)
        ]);
}

pub connect-sockets :
    (room socket user : ℕ) (m : ConnectionManager)
    → sockets room (connect room socket user m)
      ≡ sockets room m ++ record { socket = socket; user_id = some user } ∷ []
unfolding connect
connect-sockets room socket user m = ground (
  arith,
  lookup-insert room room (sockets room m ++ record { socket = socket; user_id = some user } ∷ [])
      m.active_connections,
)

pub connect-IsConsistent :
    (room socket user : ℕ) (m : ConnectionManager)
    → IsConsistent m
    → IsConsistent (connect room socket user m)
unfolding connect
connect-IsConsistent room socket user m h = record {
  rooms_pruned = insert-IsPruned room _ _ (is_empty-snoc (sockets room m) _) h.rooms_pruned;
  presence_pruned =
      insert-IsPruned room _ _ (is_empty-set_add user (presence room m)) h.presence_pruned;
  present = λ j u.
      rw (lookup-insert room j, lookup-insert room j)
        (elim (Bool-cases (room == j)) [
          | inl same ↦
              rw
                (
                  same,
                  contains_user-set_add u user (presence room m),
                  exists-append,
                  h.present room u,
                )
                (ground arith)
          | inr other ↦ rw other (h.present j u)
        ]);
}
  where
    is_empty-snoc : (xs : List WebSocket) (x : WebSocket) → is_empty (xs ++ x ∷ []) ≡ false
    is_empty-snoc [] x = refl
    is_empty-snoc (y ∷ ys) x = refl

    is_empty-set_add : (u : ℕ) (us : List ℕ) → is_empty (set_add u us) ≡ false
    is_empty-set_add u [] = refl
    is_empty-set_add u (v ∷ us) = ground arith

pub broadcast-IsConsistent :
    (room : ℕ) (send_json : WebSocket → SendOutcome) (m : ConnectionManager)
    → IsConsistent m
    → IsConsistent (broadcast room send_json m)
broadcast-IsConsistent room = broadcast_keeps IsConsistent room (disconnect-IsConsistent room)

pub close_all-IsConsistent :
    (room : ℕ) (user : Option ℕ) (m : ConnectionManager)
    → IsConsistent m
    → IsConsistent (close_all room user m)
close_all-IsConsistent room = close_all_keeps IsConsistent room (disconnect-IsConsistent room)

pub empty_manager-IsConsistent : IsConsistent empty_manager
unfolding lookup
empty_manager-IsConsistent = record {
  rooms_pruned = record { at = λ k xs e. cc };
  presence_pruned = record { at = λ k xs e. cc };
  present = λ room user. refl;
}

-- The calls that the chat router, the services and the cleanup task make.
pub data Call : Type 0 where
  connects : ℕ → ℕ → ℕ → Call
  disconnects : ℕ → WebSocket → Call
  broadcasts : ℕ → (WebSocket → SendOutcome) → Call
  kicks : ℕ → ℕ → Call
  closes : ℕ → Call

pub call : ConnectionManager → Call → ConnectionManager
call m (connects room socket user) = connect room socket user m
call m (disconnects room ws) = disconnect room ws m
call m (broadcasts room send_json) = broadcast room send_json m
call m (kicks user room) = kick user room m
call m (closes room) = close_room room m

pub run : ConnectionManager → List Call → ConnectionManager
unfolding call
run m [] = m
run m (c ∷ cs) = run (call m c) cs

call-IsConsistent : (m : ConnectionManager) (c : Call) → IsConsistent m → IsConsistent (call m c)
unfolding call kick close_room
call-IsConsistent m (connects room socket user) h = connect-IsConsistent room socket user m h
call-IsConsistent m (disconnects room ws) h = disconnect-IsConsistent room ws m h
call-IsConsistent m (broadcasts room send_json) h = broadcast-IsConsistent room send_json m h
call-IsConsistent m (kicks user room) h = close_all-IsConsistent room (some user) m h
call-IsConsistent m (closes room) h = close_all-IsConsistent room none m h

run-IsConsistent :
    (m : ConnectionManager) (cs : List Call) → IsConsistent m → IsConsistent (run m cs)
unfolding run
run-IsConsistent m [] h = h
run-IsConsistent m (c ∷ cs) h = run-IsConsistent (call m c) cs (call-IsConsistent m c h)

-- After any calls from an empty manager, a user is present in a room exactly when one of the room's
-- sockets is theirs, and neither dictionary keeps a key for an empty room.
pub run_empty-IsConsistent : (cs : List Call) → IsConsistent (run empty_manager cs)
run_empty-IsConsistent cs = run-IsConsistent empty_manager cs empty_manager-IsConsistent
