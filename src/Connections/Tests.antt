-- ===== src/Connections/Tests.antt =====
-- Concrete runs of the connection manager.
use book_club_be.Prelude.{ℕ, ◌≡◌, false, ◌==◌, some, List, [], ◌∷◌, if◌then◌else◌, select}
use book_club_be.Connections.{
  WebSocket, ConnectionManager, empty_manager, contains_user, SendOutcome, sent, runtime_error,
  kick, is_skipped,
}
use book_club_be.Connections.Loops.{sockets}
use book_club_be.Connections.Kick.{kick_lem}
use book_club_be.Connections.Presence.{
  IsConsistent, Call, connects, kicks, broadcasts, run, run_empty-IsConsistent, presence,
}

abbrev phone : WebSocket
phone = record { socket = 7; user_id = some 1 }

abbrev laptop : WebSocket
laptop = record { socket = 8; user_id = some 2 }

-- the laptop's connection is broken
abbrev send_json : WebSocket → SendOutcome
send_json ws = if ws.socket == 8 then runtime_error else sent

abbrev calls : List Call
calls =
    connects 3 7 1
    ∷ connects 3 8 2
    ∷ broadcasts 3 send_json
    ∷ kicks 1 3
    ∷ connects 3 7 1
    ∷ connects 3 8 2
    ∷ []

abbrev busy : ConnectionManager
busy = record {
  active_connections = (3, phone ∷ laptop ∷ []) ∷ [];
  room_presence = (3, 2 ∷ 1 ∷ []) ∷ [];
}

run_empty-IsConsistent_example : IsConsistent (run empty_manager calls)
run_empty-IsConsistent_example = run_empty-IsConsistent calls

kick_lem_example :
    let m = run empty_manager calls in
    (sockets 3 (kick 1 3 m) ≡ select (is_skipped (some 1)) (sockets 3 m))
    × (contains_user 1 (presence 3 (kick 1 3 m)) ≡ false)
    × ((v : ℕ)
        → (1 == v) ≡ false
        → contains_user v (presence 3 (kick 1 3 m)) ≡ contains_user v (presence 3 m))
    × ((j : ℕ)
        → (3 == j) ≡ false
        → (sockets j (kick 1 3 m) ≡ sockets j m) × (presence j (kick 1 3 m) ≡ presence j m))
kick_lem_example = kick_lem 1 3 (run empty_manager calls) (run_empty-IsConsistent calls)
