-- ===== src/Events/Joins.antt =====
-- The rows that a list of events selects, and what the constraints of the tables give for them.
use book_club_be.Prelude.{
  ℕ, ◌≡◌, refl, Bool, true, ◌&&◌, inl, inr, List, [], ◌∷◌, map, arith, ◌==◌, ==-refl, ltb, take,
  drop, select, All, All-append, All-select, All-Memᴰ, All-take, All-drop, Memᴰ, Bool-cases,
}
use book_club_be.Models.{Club, Event}
use book_club_be.Database.{Database, integrity, clubs_integrity, events_integrity, unique}
use book_club_be.Database.Unique.{unique-select, unique-Memᴰ}
use book_club_be.ClubRepository.{club_rows}
use book_club_be.Access.{event_rows}
use book_club_be.Events.Lists.{join_clubs, insert_row, by_date}

module _ (db : Database) (filter : Event → Bool) where
  -- the row is a stored event's with its club, and passes the filter
  pub record IsJoined (r : Event × Club) : Type 0 where
    pub event_stored : event_rows r.0.id db ≡ r.0 ∷ []
    pub club_stored : club_rows r.0.club_id db ≡ r.1 ∷ []
    pub passes : filter r.0 ≡ true

  record IsPassed (e : Event) : Type 0 where
    stored : event_rows e.id db ≡ e ∷ []
    passes : filter e ≡ true

  joined_with :
      (e : Event) (cs : List Club)
      → IsPassed e
      → club_rows e.club_id db ≡ cs
      → unique (λ a b. a.id == b.id) db.clubs ≡ true
      → All IsJoined (map (λ c. (e, c)) cs)
  joined_with e [] h rows once = tt
  joined_with e (c ∷ []) h rows once =
      (record { event_stored = h.stored; club_stored = rows; passes = h.passes }, tt)
  joined_with e (c ∷ d ∷ cs) h rows once =
      elim (unique-select (λ a b. a.id == b.id) (λ c. c.id == e.club_id) (λ x y f g. ground arith)
        db.clubs once) [ inl empty ↦ cc | inr (b, one) ↦ cc ]

  joined :
      (es : List Event)
      → unique (λ a b. a.id == b.id) db.clubs ≡ true
      → All IsPassed es
      → All IsJoined (join_clubs es db.clubs)
  joined [] once h = tt
  joined (e ∷ es) once h =
      All-append IsJoined _ _ (joined_with e _ h.0 refl once) (joined es once h.1)

All-insert_row :
    (P : Event × Club → Type 0) (r : Event × Club) (rs : List (Event × Club))
    → P r
    → All P rs
    → All P (insert_row r rs)
All-insert_row P r [] h hs = (h, tt)
All-insert_row P r (q ∷ qs) h hs = elim (Bool-cases (ltb q.0.date r.0.date)) [
  | inl before ↦ rw before (hs.0, All-insert_row P r qs h hs.1)
  | inr after ↦ rw after (h, hs)
]

All-by_date : (P : Event × Club → Type 0) (rs : List (Event × Club)) → All P rs → All P (by_date rs)
All-by_date P [] h = tt
All-by_date P (r ∷ rs) h = All-insert_row P r (by_date rs) h.0 (All-by_date P rs h.1)

pub event_ids :
    (db : Database) → integrity db ≡ true → unique (λ a b. a.id == b.id) db.events ≡ true
unfolding integrity events_integrity
event_ids db h = ground arith

pub club_ids : (db : Database) → integrity db ≡ true → unique (λ a b. a.id == b.id) db.clubs ≡ true
unfolding integrity clubs_integrity
club_ids db h = ground arith

pub memberships :
    (db : Database)
    → integrity db ≡ true
    → unique (λ a b. a.club_id == b.club_id && a.user_id == b.user_id) db.members ≡ true
unfolding integrity clubs_integrity
memberships db h = ground arith

pub attendances :
    (db : Database)
    → integrity db ≡ true
    → unique (λ a b. a.event_id == b.event_id && a.user_id == b.user_id) db.attendees ≡ true
unfolding integrity events_integrity
attendances db h = ground arith

-- what the query selects
pub selected :
    (db : Database) (filter : Event → Bool) (skip limit : ℕ)
    → integrity db ≡ true
    → All
        (IsJoined db filter)
        (take limit (drop skip (by_date (join_clubs (select filter db.events) db.clubs))))
selected db filter skip limit meets = All-take _ limit _ (
    All-drop _ skip _ (
      All-by_date _ _ (
        joined db filter (select filter db.events) (club_ids db meets) (
          All-select (λ e. Memᴰ e db.events) (IsPassed db filter) filter db.events
            (λ e pass m. record {
              stored =
                  unique-Memᴰ (λ a b. a.id == b.id) (λ x. x.id == e.id) (λ x y f g. ground arith)
                    db.events e (event_ids db meets) (==-refl e.id) m;
              passes = pass;
            })
            (All-Memᴰ db.events)))))
