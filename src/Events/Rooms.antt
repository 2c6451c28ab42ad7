-- ===== src/Events/Rooms.antt =====
-- The room that comes with an event: created with it, once, and refused under a name that is taken.
use book_club_be.Prelude.{
  ℕ, ◌≡◌, refl, sym, ap, ◌∙◌, subst, Bool, true, false, ◌&&◌, inl, inr, Option, none, some, List,
  [], ◌∷◌, ◌++◌, arith, ◌==◌, ==-refl, ==→eq, opt_eq, head?, select, exists, for_all, select-append,
  &&-left, &&-right, Bool-cases,
}
use book_club_be.Models.{User, Event, ChatRoom}
use book_club_be.Database.{
  Database, integrity, events_integrity, chat_integrity, unique, has_club, has_event, or_null,
  same_text,
}
use book_club_be.Database.Unique.{unique-snoc}
use book_club_be.Session.{Session, ok, pure, query, flush, commit, get_now, ◌>>=◌}
use book_club_be.Session.Readers.{IsReader-flush}
use book_club_be.Session.Holds.{
  Holds, Holds-read, Holds-modify, Holds-commit, Holds-bind, Holds-pure, Holds-weaken,
}
use book_club_be.Clubs.Steps.{Holds-returns}
use book_club_be.Chat.Bans.{never-returns}
use book_club_be.Clubs.Requests.{returns}
use book_club_be.Clubs.Inversion.{IsReader-require_club_organizer, IsReader-get_club}
use book_club_be.Events.Routes.{rooms_of_event}
use book_club_be.Events.Repository.{add_attendee}
use book_club_be.Events.Creation.{
  CreateEventRequest, new_event, add_event, chat_suffix, room_for, add_chat_room, existing_or_new,
  get_or_create_event_chat_room, create_event_service,
}

event_ids : (db : Database) → integrity db ≡ true → unique (λ a b. a.id == b.id) db.events ≡ true
unfolding integrity events_integrity
event_ids db h = ground (arith, h)

events_of_rooms :
    (db : Database)
    → integrity db ≡ true
    → for_all (λ r. has_club db r.club_id && or_null (has_event db) r.event_id) db.rooms ≡ true
unfolding integrity chat_integrity
events_of_rooms db h = ground (arith, h)

room_names :
    (db : Database)
    → integrity db ≡ true
    → unique (λ a b. a.club_id == b.club_id && same_text a.name b.name) db.rooms ≡ true
unfolding integrity chat_integrity
room_names db h = ground (arith, h)

other_event :
    (p : ℕ → Bool) (id : ℕ) (e : Option ℕ)
    → p id ≡ false
    → or_null p e ≡ true
    → opt_eq e (some id) ≡ false
other_event p id none new h = refl
other_event p id (some a) new h = elim (Bool-cases (a == id)) [
  | inl same ↦ absurd (cc (new, h, ap p (==→eq a id same)))
  | inr other ↦ other
]

no_room :
    (db : Database) (id : ℕ) (rs : List ChatRoom)
    → has_event db id ≡ false
    → for_all (λ r. has_club db r.club_id && or_null (has_event db) r.event_id) rs ≡ true
    → select (λ r. opt_eq r.event_id (some id)) rs ≡ []
no_room db id [] new h = refl
no_room db id (r ∷ rs) new h =
    let first = &&-left (has_club db r.club_id && or_null (has_event db) r.event_id) _ h in
    let rest = &&-right (has_club db r.club_id && or_null (has_event db) r.event_id) _ h in
    rw (other_event (has_event db) id r.event_id new (&&-right (has_club db r.club_id) _ first))
      (no_room db id rs new rest)

-- an event that is new to tables that meet their constraints has no room
new_event-rooms :
    (db : Database) (event : Event) (user_id : ℕ)
    → integrity db ≡ true
    → integrity (add_attendee event.id user_id (add_event event db)) ≡ true
    → rooms_of_event event.id db ≡ []
new_event-rooms db event user_id before after =
    no_room db event.id db.rooms
      (unique-snoc (λ a b. a.id == b.id) db.events event (event_ids _ after))
      (events_of_rooms db before)

head?-nil : {A : Type 0} (xs : List A) → xs ≡ [] → head? xs ≡ none
head?-nil xs h = ap head? h

module _ (room_id : ℕ) (event : Event) (s : Session) where
  abbrev pub with_room : Session
  with_room = record s { work = add_chat_room (room_for room_id event s.now) s.work }

  made-Holds :
      Holds
        (λ _. Unit)
        (λ s'. s' ≡ with_room)
        (existing_or_new (room_for room_id event s.now) none)
        s
  made-Holds =
      Holds-modify _ _ s
        (Holds-read _ _ with_room IsReader-flush tt λ t _. Holds-pure _ with_room refl)

  only_room :
      rooms_of_event event.id s.work ≡ []
      → rooms_of_event event.id with_room.work ≡ room_for room_id event s.now ∷ []
  only_room new =
      select-append (λ r. opt_eq r.event_id (some event.id)) s.work.rooms
        (room_for room_id event s.now ∷ [])
      ∙ rw (new, ==-refl event.id) refl

  create_room-Holds :
      rooms_of_event event.id s.work ≡ []
      → Holds (λ _. Unit) (λ s'. s' ≡ with_room) (get_or_create_event_chat_room room_id event) s
  unfolding get_or_create_event_chat_room query get_now ◌>>=◌
  create_room-Holds new = record { at = rw (head?-nil _ new) made-Holds.at }

-- the new event, attended by its creator, and its room, which is the event's only one
pub record HasCreated (event_id room_id : ℕ) (body : CreateEventRequest) (club_id : ℕ) (by : User)
    (s s' : Session) : Type 0 where
  pub only_these :
      let event = new_event event_id club_id body in
      s'.saved
      ≡ add_chat_room
          (room_for room_id event s.now)
          (add_attendee event_id by.id (add_event event s.work))
  pub its_room :
      rooms_of_event event_id s'.saved
      ≡ room_for room_id (new_event event_id club_id body) s.now ∷ []
  pub meets : integrity s'.saved ≡ true

flush-ok : (s : Session) (t : Unit {0}) → (flush s).0 ≡ ok t → integrity s.work ≡ true
unfolding flush
flush-ok s t h = ground (arith, h)

module _ (event_id room_id : ℕ) (body : CreateEventRequest) (club_id : ℕ) (by : User)
    (s : Session) where
  abbrev added : Session
  added = record s {
    work = add_attendee event_id by.id (add_event (new_event event_id club_id body) s.work);
  }

  abbrev event : Event
  event = new_event event_id club_id body

  stored-Holds :
      (s' : Session)
      → rooms_of_event event_id s.work ≡ []
      → s' ≡ with_room room_id event added
      → Holds
          (λ _. Unit)
          (HasCreated event_id room_id body club_id by s)
          (commit >>= λ _. pure event)
          s'
  stored-Holds s' new same =
      subst
        (λ s'.
          Holds (λ _. Unit) (HasCreated event_id room_id body club_id by s)
            (commit >>= λ _. pure event) s')
        (sym same)
        (Holds-commit (λ _. pure event) (with_room room_id event added) tt
          λ fine. Holds-pure event _ (record {
            only_these = refl;
            its_room = only_room room_id event added new;
            meets = fine;
          }))

  create_event-Holds :
      integrity s.work ≡ true
      → Holds
          (λ _. Unit)
          (HasCreated event_id room_id body club_id by s)
          (create_event_service event_id room_id body club_id by)
          s
  unfolding create_event_service
  create_event-Holds meets = Holds-read _ _ s (IsReader-require_club_organizer club_id by) tt λ m _.
      Holds-read _ _ s (IsReader-get_club club_id) tt λ c _. Holds-modify _ _ s (
        Holds-read _ _ added IsReader-flush tt λ t flushed.
          let new = new_event-rooms s.work event by.id meets (flush-ok added t flushed) in
          Holds-bind _ _ added (create_room-Holds room_id event added new)
            λ r s' same. stored-Holds s' new same)

-- Creating an event from tables that meet their constraints, with no error, adds exactly the event,
-- its creator's attendance and its chat room to them; that room is then the event's only one, and
-- the constraints are met.
pub create_event-HasCreated :
    (event_id room_id : ℕ) (body : CreateEventRequest) (club_id : ℕ) (by : User) (s : Session)
    {e : Event}
    → integrity s.work ≡ true
    → (create_event_service event_id room_id body club_id by s).0 ≡ ok e
    → HasCreated event_id room_id body club_id by s
        (create_event_service event_id room_id body club_id by s).1
create_event-HasCreated event_id room_id body club_id by s meets h =
    Holds-returns (create_event_service event_id room_id body club_id by) s
      (create_event-Holds event_id room_id body club_id by s meets) h

-- A name of a room of the club: the event's room would have it too.
name_taken :
    (db : Database) (room : ChatRoom)
    → exists (λ r. r.club_id == room.club_id && same_text r.name room.name) db.rooms ≡ true
    → integrity (add_chat_room room db) ≡ true
    → true ≡ false
name_taken db room taken fine =
    sym taken
    ∙ unique-snoc (λ a b. a.club_id == b.club_id && same_text a.name b.name) db.rooms room
        (room_names _ fine)

-- Creating an event, from tables that meet their constraints, ends in an error when a room of the
-- club already has the name that its chat room would get, which is its title with a suffix.
pub create_event-refuses :
    (event_id room_id : ℕ) (body : CreateEventRequest) (club_id : ℕ) (by : User) (s : Session)
    → integrity s.work ≡ true
    → exists
        (λ r. r.club_id == club_id && same_text r.name (body.title ++ chat_suffix))
        s.work.rooms
      ≡ true
    → returns (create_event_service event_id room_id body club_id by s).0 ≡ false
create_event-refuses event_id room_id body club_id by s meets taken =
    never-returns (create_event_service event_id room_id body club_id by) s (
      Holds-weaken _ s (create_event-Holds event_id room_id body club_id by s meets) λ s' created.
        name_taken
          (add_attendee event_id by.id (add_event (new_event event_id club_id body) s.work))
          (room_for room_id (new_event event_id club_id body) s.now) taken
          (subst (λ d. integrity d ≡ true) created.only_these created.meets))
