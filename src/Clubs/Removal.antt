-- ===== src/Clubs/Removal.antt =====
-- What is left when a user is out of a club: the rows of `remove_member` of app/repositories/club.py
-- and the sockets of `kick_user_from_club_rooms`.
use book_club_be.Prelude.{
  ℕ, ◌≡◌, refl, sym, ap, ◌∙◌, Bool, true, not, ◌&&◌, List, [], ◌∷◌, map, arith, ◌==◌, ltb, exists,
  select, inl, inr, Bool-cases,
}
use book_club_be.Models.{EventAttendee}
use book_club_be.Database.{Database}
use book_club_be.Connections.{ConnectionManager, belongs_to, kick_from_rooms}
use book_club_be.Connections.Loops.{sockets}
use book_club_be.Connections.Kick.{kick_from_rooms-sockets}
use book_club_be.ClubRepository.{without_member, room_ids_of_club, in_ids}

abbrev attends_ahead : ℕ → ℕ → ℕ → Database → EventAttendee → Bool
attends_ahead club_id user_id now db a =
    a.user_id == user_id
    && exists (λ e. e.id == a.event_id && (e.club_id == club_id && ltb now e.date)) db.events

-- The user's membership in the club and their attendances of the club's events after `now` are gone,
-- and nothing else is changed.
pub record IsRemoval (club_id user_id now : ℕ) (db db' : Database) : Type 0 where
  pub members :
      db'.members ≡ select (λ m. not (m.club_id == club_id && m.user_id == user_id)) db.members
  pub attendees :
      db'.attendees ≡ select (λ a. not (attends_ahead club_id user_id now db a)) db.attendees
  pub others : db' ≡ record db { members = db'.members; attendees = db'.attendees }

-- Every room keeps its sockets, except that those of the user are gone from the club's rooms.
abbrev pub IsKickedOut : ℕ → ℕ → Database → ConnectionManager → ConnectionManager → Type 0
IsKickedOut club_id user_id db m m' =
    (j : ℕ)
    → sockets j m'
      ≡ select
          (λ ws.
            not (exists (λ r. r.id == j && r.club_id == club_id) db.rooms && belongs_to user_id ws))
          (sockets j m)

in_ids-map-select :
    {A : Type 0} (id : A → ℕ) (p : A → Bool) (j : ℕ) (xs : List A)
    → in_ids (map id (select p xs)) j ≡ exists (λ x. id x == j && p x) xs
in_ids-map-select id p j [] = refl
in_ids-map-select id p j (x ∷ xs) = ground (arith, in_ids-map-select id p j xs)

select_ext :
    {A : Type 0} (p q : A → Bool)
    → ((x : A) → p x ≡ q x)
    → (xs : List A) → select p xs ≡ select q xs
select_ext p q e [] = refl
select_ext p q e (x ∷ xs) = rw (e x, select_ext p q e xs)

pub without_member-IsRemoval :
    (club_id user_id now : ℕ) (db : Database)
    → IsRemoval club_id user_id now db (without_member club_id user_id now db)
unfolding without_member
without_member-IsRemoval club_id user_id now db = record {
  members = refl;
  attendees =
      select_ext _ _
        (λ a.
          ap (λ b. not (a.user_id == user_id && b))
            (in_ids-map-select (λ e. e.id) (λ e. e.club_id == club_id && ltb now e.date) a.event_id
              db.events))
        db.attendees;
  others = refl;
}

is_room_of :
    (club_id j : ℕ) (db : Database)
    → in_ids (room_ids_of_club club_id db) j
      ≡ exists (λ r. r.id == j && r.club_id == club_id) db.rooms
is_room_of club_id j db = in_ids-map-select (λ r. r.id) (λ r. r.club_id == club_id) j db.rooms

select_all : {A : Type 0} (xs : List A) → select (λ x. true) xs ≡ xs
select_all [] = refl
select_all (x ∷ xs) = ap (λ ys. x ∷ ys) (select_all xs)

pub kick_from_rooms-IsKickedOut :
    (club_id user_id : ℕ) (db : Database) (m : ConnectionManager)
    → IsKickedOut club_id user_id db m (kick_from_rooms (room_ids_of_club club_id db) user_id m)
kick_from_rooms-IsKickedOut club_id user_id db m j =
    kick_from_rooms-sockets (room_ids_of_club club_id db) user_id j m
    ∙ (rw (is_room_of club_id j db)
        (elim (Bool-cases (exists (λ r. r.id == j && r.club_id == club_id) db.rooms)) [
          | inl here ↦ rw here refl
          | inr other ↦ rw other (sym (select_all (sockets j m)))
        ]))
