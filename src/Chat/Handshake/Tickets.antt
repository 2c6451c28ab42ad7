-- ===== src/Chat/Handshake/Tickets.antt =====
-- Who is let into a room by a ticket: soundness and completeness of the first frame.
use book_club_be.Prelude.{
  select-holds, ℕ, ◌≡◌, refl, sym, ap, ◌∙◌, subst, Bool, true, false, not, inl, inr, Option, none,
  some, List, [], ◌∷◌, ◌==◌, ==→eq, select, is_some, if◌then◌else◌, Bool-cases,
}
use book_club_be.Models.{Text, User, ChatRoom, ChatRoomBan}
use book_club_be.Database.{Database}
use book_club_be.Session.{Session, ok, pure, rollback, scalar_one_or_none, ◌>>=◌}
use book_club_be.Session.Readers.{IsReader, readers, bind-ok, IsReader-scalar}
use book_club_be.Clubs.Inversion.{one_row-some, one_row-none, IsReader-get_membership}
use book_club_be.Auth.Redis.{Redis, Value}
use book_club_be.Auth.Users.{answered}
use book_club_be.Auth.Flows.{ticket_key, create_ws_ticket, ws_ticket_ttl}
use book_club_be.Events.Repository.{get_user}
use book_club_be.Chat.Repository.{get_room, room_rows}
use book_club_be.Chat.Access.{can_access_room}
use book_club_be.Chat.Bans.{IsReader-access_of}
use book_club_be.Chat.Handshake.{
  Handshake, closed, authenticated, auth, text, falsy, no_text, unreadable, not_auth, ban_rows,
  get_active_ban, admit, enter, sign_in, find_room, find_user, redeem, ws_authenticate,
}

abbrev pub user_rows : ℕ → Database → List User
user_rows id db = select (λ u. u.id == id) db.users

-- the room is the user's to use, and no ban is in force
pub record IsAllowed (u : User) (room : ChatRoom) (now : ℕ) (s : Session) : Type 0 where
  pub access : (can_access_room room u.id s).0 ≡ ok true
  pub not_banned : ban_rows room.id u.id now s.work ≡ []

pub record IsLetIn (id room_id now : ℕ) (s : Session) (u : User) (room : ChatRoom) : Type 0 where
  pub user_stored : user_rows id s.work ≡ u ∷ []
  pub room_stored : room_rows room_id s.work ≡ room ∷ []
  pub allowed : IsAllowed u room now s

IsReader-can_access_room : (room : ChatRoom) (id : ℕ) → IsReader (can_access_room room id)
unfolding can_access_room
IsReader-can_access_room room id = search (readers, IsReader-get_membership, IsReader-access_of)

IsReader-get_active_ban : (room_id id now : ℕ) → IsReader (get_active_ban room_id id now)
unfolding get_active_ban
IsReader-get_active_ban room_id id now = search readers

module _ (s : Session) {v : User} {r : ChatRoom} where
  unbanned_ok :
      (u : User) (room : ChatRoom) (now : ℕ) (ban : Option ChatRoomBan)
      → (get_active_ban room.id u.id now s).0 ≡ ok ban
      → (pure (if is_some ban then closed else authenticated u room) s).0 ≡ ok (authenticated v r)
      → (ban_rows room.id u.id now s.work ≡ []) × (u ≡ v) × (room ≡ r)
  unfolding get_active_ban scalar_one_or_none pure
  unbanned_ok u room now none none_there h = (one_row-none _ none_there, cc, cc)
  unbanned_ok u room now (some b) found h = cc

  permitted_ok :
      (u : User) (room : ChatRoom) (now : ℕ) (allowed : Bool)
      → (can_access_room room u.id s).0 ≡ ok allowed
      → ((if not allowed
            then pure closed
            else (get_active_ban room.id u.id now >>= λ ban.
                pure (if is_some ban then closed else authenticated u room)))
          s).0
        ≡ ok (authenticated v r)
      → IsAllowed u room now s × (u ≡ v) × (room ≡ r)
  unfolding pure
  permitted_ok u room now false got h = cc
  permitted_ok u room now true got h =
      let (ban, found, rest) = bind-ok _ _ s (IsReader-get_active_ban room.id u.id now) h in
      let (unbanned, same_user, same_room) = unbanned_ok u room now ban found rest in
      (record { access = got; not_banned = unbanned }, same_user, same_room)

  admit_ok :
      (u : User) (room : ChatRoom) (now : ℕ)
      → (admit u room now s).0 ≡ ok (authenticated v r)
      → IsAllowed u room now s × (u ≡ v) × (room ≡ r)
  unfolding admit
  admit_ok u room now h =
      let (allowed, got, rest) = bind-ok _ _ s (IsReader-can_access_room room u.id) h in
      permitted_ok u room now allowed got rest

  found_room_ok :
      (u : User) (room_id now : ℕ) (room : Option ChatRoom)
      → (get_room room_id s).0 ≡ ok room
      → (enter u now room s).0 ≡ ok (authenticated v r)
      → (room_rows room_id s.work ≡ r ∷ []) × IsAllowed v r now s × (u ≡ v)
  unfolding get_room scalar_one_or_none pure
  found_room_ok u room_id now none got h = cc
  found_room_ok u room_id now (some room) got h =
      let (allowed, same_user, same_room) = admit_ok u room now h in
      (
        one_row-some _ got ∙ ap (λ r'. r' ∷ []) same_room,
        subst (λ w. IsAllowed w r now s) same_user
            (subst (λ r'. IsAllowed u r' now s) same_room allowed),
        same_user,
      )

  found_user_ok :
      (id room_id now : ℕ) (user : Option User)
      → (get_user id s).0 ≡ ok user
      → (sign_in room_id now user s).0 ≡ ok (authenticated v r)
      → IsLetIn id room_id now s v r
  unfolding get_user scalar_one_or_none pure find_room get_room
  found_user_ok id room_id now none got h = cc
  found_user_ok id room_id now (some u) got h =
      let (room, found, rest) = bind-ok _ _ s (IsReader-scalar (room_rows room_id)) h in
      let (room_stored, allowed, same_user) = found_room_ok u room_id now room found rest in
      record {
        user_stored = one_row-some _ got ∙ ap (λ w. w ∷ []) same_user;
        room_stored = room_stored;
        allowed = allowed;
      }

  find_user_ok :
      (id room_id now : ℕ)
      → (find_user id room_id now s).0 ≡ ok (authenticated v r)
      → IsLetIn id room_id now s v r
  unfolding find_user get_user
  find_user_ok id room_id now h =
      let (user, found, rest) = bind-ok _ _ s (IsReader-scalar (user_rows id)) h in
      found_user_ok id room_id now user found rest

enters :
    (u : User) (room : ChatRoom) (now : ℕ) (s : Session)
    → IsAllowed u room now s
    → admit u room now s ≡ (ok (authenticated u room), s)
unfolding admit get_active_ban scalar_one_or_none pure ◌>>=◌
enters u room now s h = rw (h.access, (IsReader-can_access_room room u.id).at s, h.not_banned) refl

finds :
    (id room_id now : ℕ) (s : Session) (u : User) (room : ChatRoom)
    → IsLetIn id room_id now s u room
    → find_user id room_id now s ≡ (ok (authenticated u room), s)
unfolding find_user find_room get_user get_room scalar_one_or_none ◌>>=◌
finds id room_id now s u room h = rw (h.user_stored, h.room_stored) (enters u room now s h.allowed)

module _ (R : Redis) where
  -- the ticket of a frame is a user's, and is used up
  pub record IsAdmitted (frame : Handshake) (room_id : Option ℕ) (now : ℕ) (r : R.State)
      (s : Session) (u : User) (room : ChatRoom) (r' : R.State) : Type 0 where
    pub ticket : Text
    pub sent : (has_token : Bool) × (frame ≡ auth has_token (text ticket))
    pub id_of_room : room_id ≡ some room.id
    pub held : R.holds (ticket_key ticket) r ≡ some (Value.user_id u.id)
    pub spent : R.holds (ticket_key ticket) r' ≡ none
    pub let_in : IsLetIn u.id room.id now (rollback s).1 u room

  redeemed :
      (t : Text) (room_id now : ℕ) (r : R.State) (s s' : Session) {u : User} {room : ChatRoom}
      (raw : Option (Option Value))
      → (R.getdel (ticket_key t) r).0 ≡ raw
      → redeem raw room_id now s ≡ answered (ok (authenticated u room), s')
      → (raw ≡ some (some (Value.user_id u.id))) × IsLetIn u.id room_id now s u room
  redeemed t room_id now r s s' none got h = cc
  redeemed t room_id now r s s' (some none) got h = cc
  redeemed t room_id now r s s' (some (some (Value.verifier w))) got h = cc
  redeemed t room_id now r s s' (some (some (Value.handoff w))) got h = cc
  redeemed t room_id now r s s' {u = u} {room = room} (some (some (Value.user_id id))) got h =
      let found : find_user id room_id now s ≡ (ok (authenticated u room), s') = cc in
      let let_in = find_user_ok s id room_id now (ap (λ p. p.0) found) in
      let same : id ≡ u.id =
        sym (==→eq u.id id (select-holds (λ w. w.id == id) s.work.users let_in.user_stored)) in
      (
        ap (λ i. some (some (Value.user_id i))) same,
        subst (λ i. IsLetIn i room_id now s u room) same let_in,
      )

  -- With a Redis that meets the documented law of GETDEL: the frame that opens a chat socket lets in
  -- a user only by a ticket that was stored for that user and is spent afterwards, if the user and
  -- the room are stored, the user may use the room, and no ban of theirs from it is in force.
  pub ws_authenticate-IsAdmitted :
      (frame : Handshake) (room_id : Option ℕ) (now : ℕ) (r : R.State) (s s' : Session) {u : User}
      {room : ChatRoom}
      → (ws_authenticate R frame room_id now r s).0 ≡ answered (ok (authenticated u room), s')
      → IsAdmitted frame room_id now r s u room (ws_authenticate R frame room_id now r s).1
  unfolding ws_authenticate rollback
  ws_authenticate-IsAdmitted unreadable room_id now r s s' h = cc
  ws_authenticate-IsAdmitted not_auth room_id now r s s' h = cc
  ws_authenticate-IsAdmitted (auth true falsy) room_id now r s s' h = cc
  ws_authenticate-IsAdmitted (auth false falsy) room_id now r s s' h = cc
  ws_authenticate-IsAdmitted (auth b no_text) room_id now r s s' h = cc
  ws_authenticate-IsAdmitted (auth b (text t)) none now r s s' h = cc
  ws_authenticate-IsAdmitted (auth b (text t)) (some room_id) now r s s' {u = u} {room = room} h =
      let (reply, let_in) =
        redeemed t room_id now r (rollback s).1 s' {u = u} {room = room}
          (R.getdel (ticket_key t) r).0 refl h in
      let same : room_id ≡ room.id = sym (
        ==→eq room.id room_id
          (select-holds (λ w. w.id == room_id) s.saved.rooms let_in.room_stored)) in
      record {
        ticket = t;
        sent = (b, refl);
        id_of_room = ap some same;
        held = R.getdel_found (ticket_key t) r (Value.user_id u.id) reply;
        spent = R.getdel_gone (ticket_key t) r (some (Value.user_id u.id)) reply;
        let_in = subst (λ i. IsLetIn u.id i now (rollback s).1 u room) same let_in;
      }

  -- A ticket that was issued to a user, and that Redis still gives back, opens a room to that user
  -- when user and room are each stored once, the user may use the room and no ban of theirs from it
  -- is in force.
  pub ticket-opens_room :
      (t : Text) (u : User) (room : ChatRoom) (has_token : Bool) (now : ℕ) (r : R.State)
      (s : Session)
      → ((v : Value)
          → let stored = R.set (ticket_key t) v ws_ticket_ttl r in
            stored.0 ≡ true → (R.getdel (ticket_key t) stored.1).0 ≡ some (some v))
      → (create_ws_ticket R t u r).0 ≡ answered t
      → IsLetIn u.id room.id now (rollback s).1 u room
      → (ws_authenticate R
          (auth has_token (text t))
          (some room.id)
          now
          (create_ws_ticket R t u r).1
          s).0
        ≡ answered (ok (authenticated u room), (rollback s).1)
  unfolding ws_authenticate create_ws_ticket
  ticket-opens_room t u room has_token now r s stays issued let_in =
      elim (Bool-cases (R.set (ticket_key t) (Value.user_id u.id) ws_ticket_ttl r).0) [
        | inl stored ↦
            rw
              (
                stays (Value.user_id u.id) stored,
                finds u.id room.id now (rollback s).1 u room let_in,
              )
              refl
        | inr failed ↦ cc
      ]
