-- ===== src/Connections/Kick.antt =====
-- What a kick does to a room: app/services/chat_connections.py.
use book_club_be.Prelude.{
  ℕ, ◌≡◌, Bool, inl, inr, Bool-cases, if◌then◌else◌, ==→eq, refl, sym, ◌∙◌, ap, false, List, [],
  ◌∷◌, arith, ◌==◌, ==-refl, exists, select, some,
}
use book_club_be.Connections.{
  WebSocket, ConnectionManager, contains_user, close_all, kick, kick_from_rooms, belongs_to,
  is_skipped,
}
use book_club_be.Connections.Loops.{sockets, close_all-sockets, close_all_keeps}
use book_club_be.Connections.Presence.{
  presence, IsConsistent, presence-disconnect, close_all-IsConsistent,
}

exists-select_not :
    (u : ℕ) (xs : List WebSocket) → exists (belongs_to u) (select (is_skipped (some u)) xs) ≡ false
exists-select_not u [] = refl
exists-select_not u (x ∷ xs) = ground (arith, exists-select_not u xs)

exists-select_other :
    (u v : ℕ) (xs : List WebSocket)
    → (u == v) ≡ false
    → exists (belongs_to v) (select (is_skipped (some u)) xs) ≡ exists (belongs_to v) xs
exists-select_other u v [] h = refl
exists-select_other u v (x ∷ xs) h = ground (arith, exists-select_other u v xs)

kick-presence_other :
    (user room j : ℕ) (m : ConnectionManager)
    → (room == j) ≡ false
    → presence j (kick user room m) ≡ presence j m
unfolding kick
kick-presence_other user room j m ne =
    close_all_keeps (λ n. presence j n ≡ presence j m) room
      (λ ws n h. presence-disconnect room j ws n ∙ rw ne h) (some user) m refl

-- A kick on a consistent manager takes exactly the user's sockets out of the room and the user out
-- of its presence; every other user of the room stays present, and every other room keeps its
-- sockets and its presence.
pub kick_lem :
    (user room : ℕ) (m : ConnectionManager)
    → IsConsistent m
    → (sockets room (kick user room m) ≡ select (is_skipped (some user)) (sockets room m))
      × (contains_user user (presence room (kick user room m)) ≡ false)
      × ((v : ℕ)
          → (user == v) ≡ false
          → contains_user v (presence room (kick user room m)) ≡ contains_user v (presence room m))
      × ((j : ℕ)
          → (room == j) ≡ false
          → (sockets j (kick user room m) ≡ sockets j m)
            × (presence j (kick user room m) ≡ presence j m))
unfolding kick
kick_lem user room m h = (
  left,
  after.present room user
      ∙ (ap (exists (belongs_to user)) left ∙ exists-select_not user (sockets room m)),
  (λ v ne.
      after.present room v
      ∙ (ap (exists (belongs_to v)) left
          ∙ (exists-select_other user v (sockets room m) ne ∙ sym (h.present room v)))),
  (λ j ne. (close_all-sockets room j (some user) m ∙ rw ne, kick-presence_other user room j m ne)),
)
  where
    after : IsConsistent (close_all room (some user) m)
    after = close_all-IsConsistent room (some user) m h

    left :
        sockets room (close_all room (some user) m)
        ≡ select (is_skipped (some user)) (sockets room m)
    left = close_all-sockets room room (some user) m ∙ rw (==-refl room)

select_idem : (p : WebSocket → Bool) (xs : List WebSocket) → select p (select p xs) ≡ select p xs
select_idem p [] = refl
select_idem p (x ∷ xs) = ground (arith, select_idem p xs)

kick-sockets :
    (user room j : ℕ) (m : ConnectionManager)
    → sockets j (kick user room m)
      ≡ (if room == j then select (is_skipped (some user)) (sockets j m) else sockets j m)
unfolding kick
kick-sockets user room j m =
    close_all-sockets room j (some user) m ∙ (elim (Bool-cases (room == j)) [
      | inl same ↦ rw (same, ← ==→eq room j same) refl
      | inr other ↦ rw other refl
    ])

-- Kicks from several rooms take the user's sockets out of these and touch no other room.
pub kick_from_rooms-sockets :
    (rooms : List ℕ) (user j : ℕ) (m : ConnectionManager)
    → sockets j (kick_from_rooms rooms user m) ≡ (
        if exists (λ r. r == j) rooms
        then select (is_skipped (some user)) (sockets j m)
        else sockets j m)
unfolding kick_from_rooms
kick_from_rooms-sockets [] user j m = refl
kick_from_rooms-sockets (room ∷ rooms) user j m =
    kick_from_rooms-sockets rooms user j (kick user room m)
    ∙ ground (arith, kick-sockets user room j m, select_idem (is_skipped (some user)) (sockets j m))
