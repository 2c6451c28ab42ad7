-- ===== src/Chat/Bans.antt =====
-- A user who is banned from a room neither writes nor reads there.
use book_club_be.Prelude.{
  ℕ, ◌≡◌, refl, ◌∙◌, Bool, true, false, Option, none, some, arith, ==-refl, exists, exists-append,
}
use book_club_be.Models.{Text, User}
use book_club_be.Session.{Session, Service, Result, ok, err, begin, change_sockets, ◌>>=◌}
use book_club_be.Session.Readers.{IsReader, readers, IsReader-raise_if}
use book_club_be.Session.Holds.{Holds, Holds-read, Holds-get_now, Holds-modify, Holds-commit}
use book_club_be.Connections.{ConnectionManager, kick}
use book_club_be.ClubRepository.{is_in_force}
use book_club_be.Clubs.Inversion.{
  raise_if-ok, IsReader-get_membership, IsReader-require_club_organizer,
}
use book_club_be.Clubs.Requests.{returns}
use book_club_be.Clubs.Steps.{Holds-returns}
use book_club_be.Events.Inversion.{IsReader-get_attendance}
use book_club_be.Chat.Repository.{get_room}
use book_club_be.Chat.Access.{
  require_room_member, can_access_room, access_of, attends_event, check_user_ban,
  is_active_room_ban,
}
use book_club_be.Chat.Service.{
  send_message_service, list_messages_service, ban_from_room_service, new_room_ban, add_room_ban,
  banned_until,
}

IsReader-attends_event : (e : Option ℕ) (user_id : ℕ) → IsReader (attends_event e user_id)
unfolding attends_event
IsReader-attends_event none user_id = search readers
IsReader-attends_event (some e) user_id = search (readers, IsReader-get_attendance)

pub IsReader-access_of : (room : _) (user_id : ℕ) (m : _) → IsReader (access_of room user_id m)
unfolding access_of
IsReader-access_of room user_id none = search readers
IsReader-access_of room user_id (some m) = search (readers, IsReader-attends_event)

pub IsReader-require_room_member :
    (room_id : ℕ) (u : User) → IsReader (require_room_member room_id u)
unfolding require_room_member can_access_room get_room
IsReader-require_room_member room_id u =
    search (readers, IsReader-get_membership, IsReader-access_of)

pub IsReader-check_user_ban : (room_id user_id : ℕ) → IsReader (check_user_ban room_id user_id)
unfolding check_user_ban
IsReader-check_user_ban room_id user_id = search readers

check_user_ban-ok :
    (room_id user_id : ℕ) (s : Session) {banned : Bool}
    → (check_user_ban room_id user_id s).0 ≡ ok banned
    → exists (is_active_room_ban room_id user_id s.now) s.work.room_bans ≡ banned
unfolding check_user_ban ◌>>=◌
check_user_ban-ok room_id user_id s h = cc

-- the ban is stored, and the user's sockets in the room are closed
pub record HasRoomBan (ban_id room_id user_id duration_seconds : ℕ) (by : User) (s s' : Session)
    : Type 0 where
  pub only_that :
      s'.saved
      ≡ add_room_ban (new_room_ban ban_id room_id user_id duration_seconds by.id s.now) s.work
  pub kicked : s'.manager ≡ kick user_id room_id s.manager

ban-Holds :
    (ban_id room_id user_id duration_seconds : ℕ) (by : User) (s : Session)
    → Holds
        (λ _. Unit)
        (HasRoomBan ban_id room_id user_id duration_seconds by s)
        (ban_from_room_service ban_id room_id user_id duration_seconds by)
        s
unfolding ban_from_room_service change_sockets
ban-Holds ban_id room_id user_id duration_seconds by s =
    Holds-read _ _ s (IsReader-require_room_member _ _) tt λ room _.
      Holds-read _ _ s (IsReader-require_club_organizer _ _) tt λ _ _.
        Holds-read _ _ s (IsReader-get_membership _ _) tt λ m _.
          Holds-read _ _ s (IsReader-raise_if _ _ _) tt λ _ _. Holds-get_now _ s (
            Holds-modify _ _ s
              (Holds-commit _ _ tt λ _. record { at = record { only_that = refl; kicked = refl } }))

-- a service that cannot return
pub never-returns :
    {A : Type 0} (m : Service A) (s : Session)
    → Holds (λ _. Unit) (λ _. true ≡ false) m s
    → returns (m s).0 ≡ false
never-returns m s h = of (m s).0 (λ a e. Holds-returns m s h e)
  where
    of : {A : Type 0} (r : Result A) → ((a : A) → r ≡ ok a → true ≡ false) → returns r ≡ false
    of (ok a) f = f a refl
    of (err e) f = refl

module _ (room_id : ℕ) (u : User) (s : Session)
    (banned : exists (is_active_room_ban room_id u.id s.now) s.work.room_bans ≡ true) where
  send-refused :
      (message_id : ℕ) (text : Text)
      → Holds (λ _. Unit) (λ _. true ≡ false) (send_message_service message_id room_id text u) s
  unfolding send_message_service
  send-refused message_id text = Holds-read _ _ s (IsReader-require_room_member _ _) tt λ _ _.
      Holds-read _ _ s (IsReader-check_user_ban _ _) tt λ b checked.
        Holds-read _ _ s (IsReader-raise_if _ _ _) tt λ _ passed.
          absurd
            (ground (arith, check_user_ban-ok room_id u.id s checked, raise_if-ok b _ _ s _ passed))

  list-refused :
      (before_id : Option (Option ℕ)) (limit : ℕ)
      → Holds (λ _. Unit) (λ _. true ≡ false) (list_messages_service room_id u before_id limit) s
  unfolding list_messages_service
  list-refused before_id limit = Holds-read _ _ s (IsReader-require_room_member _ _) tt λ _ _.
      Holds-read _ _ s (IsReader-check_user_ban _ _) tt λ b checked.
        Holds-read _ _ s (IsReader-raise_if _ _ _) tt λ _ passed.
          absurd
            (ground (arith, check_user_ban-ok room_id u.id s checked, raise_if-ok b _ _ s _ passed))

-- After a ban from a room, and while it is in force, its user can neither send a message to the
-- room nor list its messages: both are answered with an error.
pub ban_from_room-refuses :
    (ban_id room_id user_id duration_seconds : ℕ) (by : User) (s : Session) {t : Unit {0}}
    → (ban_from_room_service ban_id room_id user_id duration_seconds by s).0 ≡ ok t
    → (u : User) (now : ℕ) (manager : ConnectionManager) → u.id ≡ user_id
    → is_in_force now (banned_until s.now duration_seconds) ≡ true
    → let s' =
        begin
          (ban_from_room_service ban_id room_id user_id duration_seconds by s).1.saved
          now
          manager in
      ((message_id : ℕ) (text : Text)
        → returns (send_message_service message_id room_id text u s').0 ≡ false)
      × ((before_id : Option (Option ℕ)) (limit : ℕ)
          → returns (list_messages_service room_id u before_id limit s').0 ≡ false)
ban_from_room-refuses ban_id room_id user_id duration_seconds by s h u now manager same force = (
  λ message_id text. never-returns _ _ (send-refused room_id u _ banned message_id text),
  λ before_id limit. never-returns _ _ (list-refused room_id u _ banned before_id limit),
)
  where
    banned :
        exists
          (is_active_room_ban room_id u.id now)
          (ban_from_room_service ban_id room_id user_id duration_seconds by s).1.saved.room_bans
        ≡ true
    banned =
        rw
          (
            (Holds-returns (ban_from_room_service ban_id room_id user_id duration_seconds by) s
                (ban-Holds ban_id room_id user_id duration_seconds by s) h).only_that,
            same,
          )
          (exists-append (is_active_room_ban room_id user_id now) s.work.room_bans _
            ∙ ground (arith, ==-refl room_id, ==-refl user_id))
