-- ===== src/Events/Bulk.antt =====
-- The responses that are built in bulk are those that are built one by one.
use book_club_be.Prelude.{
  ℕ, ◌≡◌, refl, sym, ap, ◌∙◌, Bool, true, false, ◌&&◌, inl, inr, Option, none, some, List, [], ◌∷◌,
  map, arith, ◌==◌, ==-refl, head?, select, exists, All, All-map, lookup, lookup-insert,
  lookup-group_by, count-select_same, select-select_same, map_congr,
}
use book_club_be.Models.{Text, Club, Event, EventAttendee}
use book_club_be.Database.{Database, integrity}
use book_club_be.Database.Unique.{unique-select}
use book_club_be.Session.{Session, ok, one_row, pure, query, scalar_one_or_none}
use book_club_be.Session.Readers.{IsReader, readers, bind-reads, IsReader-query}
use book_club_be.ClubRepository.{in_ids, club_rows}
use book_club_be.Events.Repository.{
  is_attendance, attendees_of, get_club_for_event, count_attendees,
}
use book_club_be.Events.Inversion.{IsReader-count_attendees, IsReader-get_attendance}
use book_club_be.Events.Responses.{
  EventResponse, assemble_event_response, or_text, or_id, name_in, bulk_attendee_counts,
  bulk_attending, index_clubs, bulk_clubs, club_name_of, organizer_of, bulk_entry,
  build_event_responses_bulk, attends, load_club, build_event_response,
}
use book_club_be.Events.Joins.{club_ids}
use book_club_be.Events.Listing.{get_attendance-is_some, IsReader-attends, ok-injective}

in_ids-attending :
    (ids : List ℕ) (id user_id : ℕ) (xs : List EventAttendee)
    → in_ids ids id ≡ true
    → in_ids
        (map (λ a. a.event_id) (select (λ a. in_ids ids a.event_id && a.user_id == user_id) xs))
        id
      ≡ exists (is_attendance id user_id) xs
in_ids-attending ids id user_id [] h = refl
in_ids-attending ids id user_id (a ∷ xs) h =
    ground (arith, in_ids-attending ids id user_id xs h, λ (e : a.event_id ≡ id). ap (in_ids ids) e)

lookup-index_clubs :
    (k : ℕ) (cs : List Club) → lookup k (index_clubs cs) ≡ head? (select (λ c. c.id == k) cs)
unfolding lookup
lookup-index_clubs k [] = refl
lookup-index_clubs k (c ∷ cs) =
    ground (arith, lookup-insert c.id k c (index_clubs cs), lookup-index_clubs k cs)

-- the club that is loaded for an event
abbrev club_of : Option Text → Option ℕ → Event → Database → Option Club
club_of (some name) (some id) e db = none
club_of (some name) none e db = head? (club_rows e.club_id db)
club_of none organizer_id e db = head? (club_rows e.club_id db)

abbrev attends_of : Option ℕ → ℕ → Database → Bool
attends_of none event_id db = false
attends_of (some user_id) event_id db = exists (is_attendance event_id user_id) db.attendees

-- the response of an event by its own rows
abbrev own : Option ℕ → Option Text → Option ℕ → Database → Event → EventResponse
own user_id name organizer_id db e =
    assemble_event_response e (attendees_of e.id db) (attends_of user_id e.id db)
      (or_text name (name_in (club_name_of (club_of name organizer_id e db))))
      (or_id organizer_id (organizer_of (club_of name organizer_id e db)))

one_row-club_rows :
    (id : ℕ) (db : Database)
    → integrity db ≡ true
    → one_row (club_rows id db) ≡ ok (head? (club_rows id db))
one_row-club_rows id db meets =
    elim (unique-select (λ a b. a.id == b.id) (λ c. c.id == id) (λ x y f g. ground arith) db.clubs
      (club_ids db meets)) [ inl empty ↦ rw empty refl | inr (c, one) ↦ rw one refl ]

attends-ok :
    (s : Session) (user_id : Option ℕ) (id : ℕ)
    → integrity s.work ≡ true
    → (attends id user_id s).0 ≡ ok (attends_of user_id id s.work)
unfolding attends pure
attends-ok s none id meets = refl
attends-ok s (some user_id) id meets =
    let (o, found, known) = get_attendance-is_some id user_id s meets in
    ap (λ r. r.0) (bind-reads _ _ s (IsReader-get_attendance id user_id) found) ∙ ap ok known

load_club-ok :
    (s : Session) (name : Option Text) (organizer_id : Option ℕ) (e : Event)
    → integrity s.work ≡ true
    → (load_club e name organizer_id s).0 ≡ ok (club_of name organizer_id e s.work)
unfolding load_club get_club_for_event scalar_one_or_none pure
load_club-ok s (some name) (some id) e meets = refl
load_club-ok s (some name) none e meets = one_row-club_rows e.club_id s.work meets
load_club-ok s none organizer_id e meets = one_row-club_rows e.club_id s.work meets

IsReader-load_club :
    (e : Event) (name : Option Text) (organizer_id : Option ℕ)
    → IsReader (load_club e name organizer_id)
unfolding load_club get_club_for_event
IsReader-load_club e (some name) (some id) = search readers
IsReader-load_club e (some name) none = search readers
IsReader-load_club e none organizer_id = search readers

lookup-bulk_clubs :
    (name : Option Text) (organizer_id : Option ℕ) (ids : List ℕ) (e : Event) (db : Database)
    → in_ids ids e.club_id ≡ true
    → lookup e.club_id (bulk_clubs name organizer_id ids db) ≡ club_of name organizer_id e db
unfolding lookup
lookup-bulk_clubs (some name) (some id) ids e db h = refl
lookup-bulk_clubs (some name) none ids e db h =
    lookup-index_clubs e.club_id (select (λ c. in_ids ids c.id) db.clubs)
    ∙ ap head? (select-select_same (λ c. c.id) (in_ids ids) e.club_id db.clubs h)
lookup-bulk_clubs none organizer_id ids e db h =
    lookup-index_clubs e.club_id (select (λ c. in_ids ids c.id) db.clubs)
    ∙ ap head? (select-select_same (λ c. c.id) (in_ids ids) e.club_id db.clubs h)

in_ids-bulk_attending :
    (user_id : Option ℕ) (ids : List ℕ) (id : ℕ) (db : Database)
    → in_ids ids id ≡ true
    → in_ids (bulk_attending ids user_id db) id ≡ attends_of user_id id db
in_ids-bulk_attending none ids id db h = refl
in_ids-bulk_attending (some user_id) ids id db h = in_ids-attending ids id user_id db.attendees h

All-keys :
    {A : Type 0} (key : A → ℕ) (xs : List A) → All (λ x. in_ids (map key xs) (key x) ≡ true) xs
All-keys key [] = tt
All-keys key (x ∷ xs) =
    (ground (arith, ==-refl (key x)), All-map _ _ (λ y h. ground (arith, h)) xs (All-keys key xs))

module _ (s : Session) (user_id : Option ℕ) (name : Option Text) (organizer_id : Option ℕ) where
  response-own :
      (e : Event)
      → integrity s.work ≡ true
      → (build_event_response e user_id name organizer_id s).0
        ≡ ok (own user_id name organizer_id s.work e)
  unfolding build_event_response count_attendees query pure
  response-own e meets =
      ap (λ r. r.0)
        (bind-reads _ _ s (IsReader-count_attendees e.id) refl
          ∙ bind-reads _ _ s (IsReader-attends e.id user_id) (attends-ok s user_id e.id meets)
          ∙ bind-reads _ _ s (IsReader-load_club e name organizer_id)
              (load_club-ok s name organizer_id e meets))

  entry-own :
      (event_ids club_ids : List ℕ) (e : Event)
      → in_ids event_ids e.id ≡ true
      → in_ids club_ids e.club_id ≡ true
      → bulk_entry
          (bulk_attendee_counts event_ids s.work)
          (bulk_attending event_ids user_id s.work)
          (bulk_clubs name organizer_id club_ids s.work)
          name
          organizer_id
          e
        ≡ own user_id name organizer_id s.work e
  entry-own event_ids club_ids e h g =
      rw
        (
          lookup-group_by (λ a. a.event_id) e.id
              (select (λ a. in_ids event_ids a.event_id) s.work.attendees),
          count-select_same (λ a. a.event_id) (in_ids event_ids) e.id s.work.attendees h,
          in_ids-bulk_attending user_id event_ids e.id s.work h,
          lookup-bulk_clubs name organizer_id club_ids e s.work g,
        )
        refl

-- The responses that are built in bulk for a list of events, by grouped queries and dictionaries,
-- are those that are built for them one by one, whether or not a club's name and organizer are
-- given, when the tables meet their constraints.
pub build_event_responses_bulk-one_by_one :
    (s : Session) (events : List Event) (user_id : Option ℕ) (name : Option Text)
    (organizer_id : Option ℕ) {responses : List EventResponse}
    → integrity s.work ≡ true
    → (build_event_responses_bulk events user_id name organizer_id s).0 ≡ ok responses
    → map (λ e. (build_event_response e user_id name organizer_id s).0) events ≡ map ok responses
unfolding build_event_responses_bulk query pure
build_event_responses_bulk-one_by_one s events user_id name organizer_id {responses = rs} meets h =
    let ids = map (λ e. e.id) events in
    let cids = map (λ e. e.club_id) events in
    let entry =
      bulk_entry (bulk_attendee_counts ids s.work) (bulk_attending ids user_id s.work)
        (bulk_clubs name organizer_id cids s.work) name organizer_id in
    let built : map entry events ≡ rs = ok-injective (
      ap (λ r. r.0)
        (sym (
          bind-reads _ _ s (IsReader-query (bulk_attendee_counts ids)) refl
          ∙ bind-reads _ _ s (IsReader-query (bulk_attending ids user_id)) refl
          ∙ bind-reads _ _ s (IsReader-query (bulk_clubs name organizer_id cids)) refl))
      ∙ h) in
    map_congr _ _ events (
      All-both events (All-keys (λ e. e.id) events) (All-keys (λ e. e.club_id) events) (λ e f g.
        response-own s user_id name organizer_id e meets
        ∙ ap ok (sym (entry-own s user_id name organizer_id ids cids e f g))))
    ∙ map_ok entry events
    ∙ ap (map ok) built
  where
    All-both :
        {P Q R : Event → Type 0} (es : List Event)
        → All P es
        → All Q es
        → ((e : Event) → P e → Q e → R e)
        → All R es
    All-both [] f g k = tt
    All-both (e ∷ es) f g k = (k e f.0 g.0, All-both es f.1 g.1 k)

    map_ok :
        (f : Event → EventResponse) (es : List Event) → map (λ e. ok (f e)) es ≡ map ok (map f es)
    map_ok f [] = refl
    map_ok f (e ∷ es) = ap (λ r. ok (f e) ∷ r) (map_ok f es)
