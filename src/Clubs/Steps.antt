-- ===== src/Clubs/Steps.antt =====
-- The steps that the club services end with, as rules for what a service leaves.
use book_club_be.Prelude.{ℕ, ◌≡◌, subst}
use book_club_be.Session.{Session, Service, ok, change_sockets, ◌>>=◌}
use book_club_be.Session.Holds.{Holds, After}
use book_club_be.Connections.{kick_from_rooms}
use book_club_be.ClubRepository.{without_member, remove_member, room_ids_of_club}
use book_club_be.Clubs.Common.{kick_user_from_club_rooms}

module _ {P Q : Session → Type 0} where
  pub Holds-remove_member :
      {B : Type 0} (club_id user_id : ℕ) (f : Unit {0} → Service B) (s : Session)
      → Holds P Q (f tt) (record s { work = without_member club_id user_id s.now s.work })
      → Holds P Q (remove_member club_id user_id >>= f) s
  unfolding remove_member ◌>>=◌
  Holds-remove_member club_id user_id f s k = record { at = k.at }

  pub Holds-kick :
      (club_id user_id : ℕ) (s : Session)
      → Q (record s {
        manager = kick_from_rooms (room_ids_of_club club_id s.work) user_id s.manager;
      })
      → Holds P Q (kick_user_from_club_rooms club_id user_id) s
  unfolding kick_user_from_club_rooms change_sockets
  Holds-kick club_id user_id s h = record { at = h }

  pub Holds-kick_bind :
      {B : Type 0} (club_id user_id : ℕ) (f : Unit {0} → Service B) (s : Session)
      → Holds P Q (f tt) (record s {
        manager = kick_from_rooms (room_ids_of_club club_id s.work) user_id s.manager;
      })
      → Holds P Q (kick_user_from_club_rooms club_id user_id >>= f) s
  unfolding kick_user_from_club_rooms ◌>>=◌
  Holds-kick_bind club_id user_id f s k = record { at = k.at }

  pub Holds-returns :
      {A : Type 0} (m : Service A) (s : Session) {a : A}
      → Holds P Q m s
      → (m s).0 ≡ ok a
      → Q (m s).1
  Holds-returns m s h e = subst (λ r. After P Q r (m s).1) e h.at
