-- ===== src/Clubs/Effects.antt =====
-- What a club service that returns has checked and done: app/services/club_service.py.
pub mod Bans
pub mod Leftovers
use book_club_be.Prelude.{
  ℕ, ◌≡◌, ◌≤◌, ◌<◌, refl, ◌∙◌, Bool, true, false, not, ◌&&◌, ◌||◌, Option, none, some, List, [],
  ◌∷◌, arith, ◌==◌, leb, if◌then◌else◌, select, delete,
}
use book_club_be.Models.{User, Club, ClubMember, is_organizer_role}
use book_club_be.Database.{Database}
use book_club_be.Session.{Session, ok, when, ◌>>=◌}
use book_club_be.Session.Readers.{IsReader-raise_if, IsReader-or_raise, IsReader-when}
use book_club_be.Session.Holds.{Holds, Holds-read, Holds-commit}
use book_club_be.Connections.{kick_from_rooms}
use book_club_be.ClubRepository.{
  is_membership, club_rows, member_rows, without_member, room_ids_of_club,
}
use book_club_be.Clubs.Common.{organizers}
use book_club_be.Clubs.Inversion.{
  lock-ok, recheck-ok, raise_if-ok, or_raise-ok, member-ok, count_organizers-ok, IsReader-lock,
  IsReader-get_member, IsReader-count_organizers, IsReader-require_club_organizer, IsReader-recheck,
}
use book_club_be.Clubs.Removal.{
  IsRemoval, IsKickedOut, without_member-IsRemoval, kick_from_rooms-IsKickedOut,
}
use book_club_be.Clubs.Steps.{Holds-remove_member, Holds-kick, Holds-returns}
use book_club_be.Clubs.Members.{leave_club_service, remove_member_service}

select-delete {ℓ} : {A : Type ℓ} (p : A → Bool) (xs : List A) → select p (delete p xs) ≡ []
select-delete p [] = refl
select-delete p (x ∷ xs) = ground (arith, select-delete p xs)

-- the member `u` has left the club, since nothing kept them, and is out of its rooms
pub record HasLeft (club_id : ℕ) (user_id : ℕ) (s s' : Session) : Type 0 where
  pub club : Club
  pub found : club_rows club_id s.work ≡ club ∷ []
  pub not_owner : (club.organizer_id == user_id) ≡ false
  pub member : ClubMember
  pub was_member : member_rows club_id user_id s.work ≡ member ∷ []
  pub not_last : (is_organizer_role member.role && leb (organizers club_id s.work) 1) ≡ false
  pub is_gone : member_rows club_id user_id s'.saved ≡ []
  pub only_that : s'.saved ≡ without_member club_id user_id s.now s.work
  pub removed : IsRemoval club_id user_id s.now s.work s'.saved
  pub kicked : IsKickedOut club_id user_id s.work s.manager s'.manager

without_member-rows :
    (club_id user_id now : ℕ) (db : Database)
    → member_rows club_id user_id (without_member club_id user_id now db) ≡ []
unfolding without_member
without_member-rows club_id user_id now db =
    select-delete (is_membership club_id user_id) db.members

leave-Holds :
    (club_id : ℕ) (u : User) (s : Session)
    → Holds (λ _. Unit) (HasLeft club_id u.id s) (leave_club_service club_id u) s
unfolding leave_club_service without_member
leave-Holds club_id u s = Holds-read _ _ s (IsReader-lock club_id) tt λ club locked.
    Holds-read _ _ s (IsReader-raise_if _ _ _) tt λ _ other.
      Holds-read _ _ s (IsReader-get_member _ _) tt λ found one.
        Holds-read _ _ s (IsReader-or_raise _ _ _) tt λ member some_row.
          Holds-read _ _ s (IsReader-count_organizers _) tt λ n counted.
            Holds-read _ _ s (IsReader-raise_if _ _ _) tt λ _ others.
              Holds-remove_member club_id u.id _ s (
                Holds-commit _ _ tt λ _. Holds-kick club_id u.id _ record {
                  club = club;
                  found = lock-ok club_id s locked;
                  not_owner = raise_if-ok _ _ _ s _ other;
                  member = member;
                  was_member = member-ok club_id u.id s one (or_raise-ok found _ _ s some_row);
                  not_last =
                      rw (count_organizers-ok club_id s counted) (raise_if-ok _ _ _ s _ others);
                  is_gone = without_member-rows club_id u.id s.now s.work;
                  only_that = refl;
                  removed = without_member-IsRemoval club_id u.id s.now s.work;
                  kicked = kick_from_rooms-IsKickedOut club_id u.id s.work s.manager;
                })

-- A member who leaves, with no error, was no owner and not the only organizer; they are a member no
-- more. Their membership and their attendances of those events of the club that lie ahead are gone,
-- no other row is changed, and every chat room keeps its sockets, except that theirs are gone from
-- the club's rooms.
pub leave-HasLeft :
    (club_id : ℕ) (u : User) (s : Session) {t : Unit {0}}
    → (leave_club_service club_id u s).0 ≡ ok t
    → HasLeft club_id u.id s (leave_club_service club_id u s).1
leave-HasLeft club_id u s = Holds-returns (leave_club_service club_id u) s (leave-Holds club_id u s)
