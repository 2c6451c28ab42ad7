-- ===== src/Connections/Loops.antt =====
-- What the loops over a copy of a room's sockets leave in the room, and that no other room changes.
use book_club_be.Prelude.{
  ℕ, ◌≡◌, refl, sym, subst, ◌∙◌, ap, Bool, true, false, not, inl, inr, List, [], ◌∷◌, ◌++◌, arith,
  ◌==◌, if◌then◌else◌, Bool-cases, exists, select, ==-refl, ==→eq, Option, none, some, get_list,
  get_list-put_list, opt_eq, for_all,
}
use mathlib.Core.List.{append_assoc}
use book_club_be.Connections.{
  WebSocket, ConnectionManager, same_socket, remove_first, disconnect, SendOutcome, send_failed,
  broadcast_loop, broadcast, is_skipped, close_loop, close_all,
}

abbrev pub sockets : ℕ → ConnectionManager → List WebSocket
sockets room m = get_list room m.active_connections

opt_eq→eq : (a b : Option ℕ) → opt_eq a b ≡ true → a ≡ b
opt_eq→eq none none h = refl
opt_eq→eq (some a) (some b) h = ground arith
opt_eq→eq none (some b) h = cc
opt_eq→eq (some a) none h = cc

pub same_socket→eq : (a b : WebSocket) → same_socket a b ≡ true → a ≡ b
same_socket→eq a b h = ground (arith, opt_eq→eq a.user_id b.user_id)

same_socket_refl : (a : WebSocket) → same_socket a a ≡ true
same_socket_refl a = ground arith

pub remove_first-absent :
    (ws : WebSocket) (xs : List WebSocket)
    → exists (same_socket ws) xs ≡ false
    → remove_first ws xs ≡ xs
remove_first-absent ws [] h = refl
remove_first-absent ws (x ∷ xs) h = ground (arith, remove_first-absent ws xs)

pub disconnect-sockets :
    (room j : ℕ) (ws : WebSocket) (m : ConnectionManager)
    → sockets j (disconnect room ws m)
      ≡ (if room == j then remove_first ws (sockets room m) else sockets j m)
unfolding disconnect
disconnect-sockets room j ws m = elim (Bool-cases (exists (same_socket ws) (sockets room m))) [
  | inl here ↦ rw here (get_list-put_list room j _ m.active_connections)
  | inr gone ↦
      rw (gone, remove_first-absent ws (sockets room m) gone)
        (get_list-put_list room j _ m.active_connections)
]

module _ (p : WebSocket → Bool) where
  -- one loop for both: disconnect what passes the test
  drop_loop : List WebSocket → ℕ → ConnectionManager → ConnectionManager
  drop_loop [] room m = m
  drop_loop (ws ∷ rest) room m = drop_loop rest room (if p ws then disconnect room ws m else m)

  remove_first-append :
      (kept : List WebSocket) (ws : WebSocket) (rest : List WebSocket)
      → for_all (λ x. not (p x)) kept ≡ true
      → p ws ≡ true
      → remove_first ws (kept ++ ws ∷ rest) ≡ kept ++ rest
  remove_first-append [] ws rest h e = rw (same_socket_refl ws)
  remove_first-append (x ∷ kept) ws rest h e =
      ground (arith, remove_first-append kept ws rest, same_socket→eq ws x, λ (e : ws ≡ x). ap p e)

  for_all-snoc :
      (kept : List WebSocket) (ws : WebSocket)
      → for_all (λ x. not (p x)) kept ≡ true
      → p ws ≡ false
      → for_all (λ x. not (p x)) (kept ++ ws ∷ []) ≡ true
  for_all-snoc [] ws h e = rw e
  for_all-snoc (x ∷ kept) ws h e = ground (arith, for_all-snoc kept ws)

  drop_loop-sockets :
      (kept rest : List WebSocket) (room : ℕ) (m : ConnectionManager)
      → for_all (λ x. not (p x)) kept ≡ true
      → sockets room m ≡ kept ++ rest
      → sockets room (drop_loop rest room m) ≡ kept ++ select (λ x. not (p x)) rest
  unfolding drop_loop
  drop_loop-sockets kept [] room m h e = e
  drop_loop-sockets kept (ws ∷ rest) room m h e = elim (Bool-cases (p ws)) [
    | inl out ↦
        rw (out, drop_loop)
          (drop_loop-sockets kept rest room (disconnect room ws m) h (
            disconnect-sockets room room ws m
            ∙ rw (==-refl room, e) (remove_first-append kept ws rest h out)))
    | inr stays ↦
        rw (stays, drop_loop)
          (drop_loop-sockets (kept ++ ws ∷ []) rest room m (for_all-snoc kept ws h stays)
              (e ∙ sym (append_assoc kept (ws ∷ []) rest))
            ∙ append_assoc kept (ws ∷ []) (select (λ x. not (p x)) rest))
  ]

  drop_loop_others :
      (rest : List WebSocket) (room j : ℕ) (m : ConnectionManager)
      → (room == j) ≡ false
      → sockets j (drop_loop rest room m) ≡ sockets j m
  unfolding drop_loop
  drop_loop_others [] room j m h = refl
  drop_loop_others (ws ∷ rest) room j m h = elim (Bool-cases (p ws)) [
    | inl out ↦
        rw (out, drop_loop)
          (drop_loop_others rest room j (disconnect room ws m) h
            ∙ (disconnect-sockets room j ws m ∙ rw h))
    | inr stays ↦ rw (stays, drop_loop) (drop_loop_others rest room j m h)
  ]

  drop_loop_keeps :
      (P : ConnectionManager → Type 0) (room : ℕ)
      → ((ws : WebSocket) (m : ConnectionManager) → P m → P (disconnect room ws m))
      → (rest : List WebSocket) (m : ConnectionManager) → P m
      → P (drop_loop rest room m)
  unfolding drop_loop
  drop_loop_keeps P room keep [] m h = h
  drop_loop_keeps P room keep (ws ∷ rest) m h = elim (Bool-cases (p ws)) [
    | inl out ↦
        rw (out, drop_loop) (drop_loop_keeps P room keep rest (disconnect room ws m) (keep ws m h))
    | inr stays ↦ rw (stays, drop_loop) (drop_loop_keeps P room keep rest m h)
  ]

  sockets-drop_loop :
      (room j : ℕ) (m : ConnectionManager)
      → sockets j (drop_loop (sockets room m) room m)
        ≡ (if room == j then select (λ x. not (p x)) (sockets room m) else sockets j m)
  sockets-drop_loop room j m = elim (Bool-cases (room == j)) [
    | inl same ↦
        rw (same, ← ==→eq room j same) (drop_loop-sockets [] (sockets room m) room m refl refl)
    | inr other ↦ rw other (drop_loop_others (sockets room m) room j m other)
  ]

close_loop-drop_loop :
    (todo : List WebSocket) (room : ℕ) (user : Option ℕ) (m : ConnectionManager)
    → close_loop todo room user m ≡ drop_loop (λ ws. not (is_skipped user ws)) todo room m
unfolding close_loop drop_loop
close_loop-drop_loop [] room user m = refl
close_loop-drop_loop (ws ∷ rest) room user m = elim (Bool-cases (is_skipped user ws)) [
  | inl skip ↦ rw (skip, close_loop, drop_loop) (close_loop-drop_loop rest room user m)
  | inr drop ↦
      rw (drop, close_loop, drop_loop) (close_loop-drop_loop rest room user (disconnect room ws m))
]

broadcast_loop-drop_loop :
    (todo : List WebSocket) (room : ℕ) (send_json : WebSocket → SendOutcome) (m : ConnectionManager)
    → broadcast_loop todo room send_json m
      ≡ drop_loop (λ ws. send_failed (send_json ws)) todo room m
unfolding broadcast_loop drop_loop
broadcast_loop-drop_loop [] room send_json m = refl
broadcast_loop-drop_loop (ws ∷ rest) room send_json m =
    broadcast_loop-drop_loop rest room send_json _

not-not : (b : Bool) → not (not b) ≡ b
not-not true = refl
not-not false = refl

select-ext {ℓ} :
    {A : Type ℓ} (p q : A → Bool)
    → ((x : A) → p x ≡ q x)
    → (xs : List A) → select p xs ≡ select q xs
select-ext p q e [] = refl
select-ext p q e (x ∷ xs) = rw (e x, select-ext p q e xs)

-- `_close_all` leaves in the room exactly the sockets that it skips, and touches no other room.
pub close_all-sockets :
    (room j : ℕ) (user : Option ℕ) (m : ConnectionManager)
    → sockets j (close_all room user m)
      ≡ (if room == j then select (is_skipped user) (sockets room m) else sockets j m)
unfolding close_all
close_all-sockets room j user m =
    ap (sockets j) (close_loop-drop_loop (sockets room m) room user m)
    ∙ (sockets-drop_loop (λ ws. not (is_skipped user ws)) room j m
        ∙ ap (λ xs. if room == j then xs else sockets j m)
            (select-ext _ _ (λ x. not-not (is_skipped user x)) (sockets room m)))

-- A broadcast leaves in the room exactly the sockets that it could send to.
pub broadcast-sockets :
    (room j : ℕ) (send_json : WebSocket → SendOutcome) (m : ConnectionManager)
    → sockets j (broadcast room send_json m) ≡ (
        if room == j
        then select (λ ws. not (send_failed (send_json ws))) (sockets room m)
        else sockets j m)
unfolding broadcast
broadcast-sockets room j send_json m =
    ap (sockets j) (broadcast_loop-drop_loop (sockets room m) room send_json m)
    ∙ sockets-drop_loop (λ ws. send_failed (send_json ws)) room j m

-- What every disconnect keeps, a broadcast and `_close_all` keep.
module _ (P : ConnectionManager → Type 0) (room : ℕ)
    (keep : (ws : WebSocket) (m : ConnectionManager) → P m → P (disconnect room ws m)) where
  pub broadcast_keeps :
      (send_json : WebSocket → SendOutcome) (m : ConnectionManager)
      → P m
      → P (broadcast room send_json m)
  unfolding broadcast
  broadcast_keeps send_json m h =
      subst P (sym (broadcast_loop-drop_loop (sockets room m) room send_json m))
        (drop_loop_keeps (λ ws. send_failed (send_json ws)) P room keep (sockets room m) m h)

  pub close_all_keeps : (user : Option ℕ) (m : ConnectionManager) → P m → P (close_all room user m)
  unfolding close_all
  close_all_keeps user m h =
      subst P (sym (close_loop-drop_loop (sockets room m) room user m))
        (drop_loop_keeps (λ ws. not (is_skipped user ws)) P room keep (sockets room m) m h)
