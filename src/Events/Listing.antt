-- ===== src/Events/Listing.antt =====
-- An entry of the list of events is what its reader gets for the event alone.
use book_club_be.Prelude.{
  select-holds, ℕ, ◌≡◌, refl, sym, ap, ◌∙◌, subst, Bool, true, false, ◌&&◌, ◌||◌, inl, inr, Option,
  none, some, List, [], ◌∷◌, map, arith, ◌==◌, ==→eq, take, drop, select, exists, is_some, All,
  All-map, All-mapped, exists-select_both, exists-count, Bool-cases,
}
use book_club_be.Models.{EventAttendee, Text, User, is_admin, Club, ClubMember, Event}
use book_club_be.Database.{integrity}
use book_club_be.Database.Unique.{unique-select, exists-select_none, exists-select_one}
use book_club_be.Session.{
  Session, Result, ok, pure, query, scalar_one_or_none, one_row, or_raise, raise_if, get_now,
  event_not_found,
}
use book_club_be.Session.Readers.{
  IsReader, readers, bind-reads, IsReader-scalar, IsReader-get_now, IsReader-raise_if,
}
use book_club_be.ClubRepository.{club_rows, is_membership, get_membership}
use book_club_be.Access.{event_rows}
use book_club_be.Clubs.Common.{get_club_or_404, can_view_club}
use book_club_be.Events.Repository.{
  is_attendance, get_attendance, count_attendees, get_club_for_event, get_event,
}
use book_club_be.ClubRepository.{get_by_id}
use book_club_be.Events.Responses.{
  EventResponse, attends, load_club, build_event_response, user_id_of, get_event_response,
}
use book_club_be.Events.Joins.{IsJoined, memberships, attendances, selected}
use book_club_be.Clubs.Inversion.{IsReader-get_club, IsReader-get_membership}
use book_club_be.Events.Inversion.{
  IsReader-can_view, IsReader-get_event, IsReader-get_attendance, IsReader-count_attendees,
}
use book_club_be.Events.Service.{get_event_or_404}
use book_club_be.Events.Lists.{
  join_clubs, by_date, is_attending_column, enriched, fetch_enriched_event_list, is_upcoming,
  meets_city, meets_club, in_public_club, in_member_club, is_listed_for, list_events,
}

-- the membership of a user in a club is there exactly when one of the rows is theirs
get_membership-is_some :
    (club_id user_id : ℕ) (s : Session)
    → integrity s.work ≡ true
    → exists (λ m. m.club_id == club_id && m.user_id == user_id) s.work.members ≡ true
    → (m : ClubMember) × ((get_membership club_id user_id s).0 ≡ ok (some m))
unfolding get_membership scalar_one_or_none
get_membership-is_some club_id user_id s meets there =
    elim (unique-select (λ a b. a.club_id == b.club_id && a.user_id == b.user_id)
      (is_membership club_id user_id) (λ x y f g. ground arith) s.work.members
      (memberships s.work meets)) [
        | inl empty ↦ absurd (
            ground (
              arith,
              there,
              exists-select_none (is_membership club_id user_id) s.work.members empty,
            ))
        | inr (m, one) ↦ (m, ap one_row one)
      ]

pub get_attendance-is_some :
    (event_id user_id : ℕ) (s : Session)
    → integrity s.work ≡ true
    → (o : Option EventAttendee) × ((get_attendance event_id user_id s).0 ≡ ok o)
      × (is_some o ≡ exists (is_attendance event_id user_id) s.work.attendees)
unfolding get_attendance scalar_one_or_none
get_attendance-is_some event_id user_id s meets =
    let p = is_attendance event_id user_id in
    elim (unique-select (λ a b. a.event_id == b.event_id && a.user_id == b.user_id) p
      (λ x y f g. ground arith) s.work.attendees (attendances s.work meets)) [
        | inl empty ↦ (none, ap one_row empty, sym (exists-select_none p s.work.attendees empty))
        | inr (a, one) ↦ (some a, ap one_row one, sym (exists-select_one p s.work.attendees a one))
      ]

pub IsReader-attends : (event_id : ℕ) (user_id : Option ℕ) → IsReader (attends event_id user_id)
unfolding attends
IsReader-attends event_id none = search readers
IsReader-attends event_id (some user_id) = search (readers, IsReader-get_attendance)

module _ (s : Session) (e : Event) (c : Club) (rows : club_rows e.club_id s.work ≡ c ∷ [])
    (meets : integrity s.work ≡ true) where
  club_id_of : c.id ≡ e.club_id
  club_id_of = ==→eq c.id e.club_id (select-holds (λ x. x.id == e.club_id) s.work.clubs rows)

  public_of : in_public_club s.work e ≡ true → c.is_public ≡ true
  public_of h =
      let both = exists-select_both (λ x. x.id == e.club_id) (λ x. x.is_public) s.work.clubs in
      let one : exists (λ x. x.is_public) (c ∷ []) ≡ true =
        ap (exists (λ x. x.is_public)) (sym rows) ∙ both ∙ h in
      ground (arith, one)

  -- who finds an event in the list may see its club
  listed-can_view :
      (user : Option User)
      → is_listed_for user s.work e ≡ true
      → (can_view_club c user s).0 ≡ ok true
  unfolding can_view_club pure
  listed-can_view none h = rw (public_of h) refl
  listed-can_view (some user) h =
      elim (Bool-cases (c.is_public || is_admin user.role || c.organizer_id == user.id)) [
        | inl open_ ↦ rw open_ refl
        | inr closed ↦
            let member : in_member_club user.id s.work e ≡ true =
              ground (arith, h, closed, public_of) in
            let (m, found) = get_membership-is_some c.id user.id s meets (
              subst
                (λ i. exists (λ m. m.club_id == i && m.user_id == user.id) s.work.members ≡ true)
                (sym club_id_of) member) in
            rw closed
              (ap (λ r. r.0) (bind-reads _ _ s (IsReader-get_membership c.id user.id) found))
      ]

  attends-column :
      (user : Option User)
      → (attends e.id (user_id_of user) s).0
        ≡ ok (is_attending_column e.id (user_id_of user) s.work)
  unfolding attends pure
  attends-column none = refl
  attends-column (some user) =
      let (o, found, known) = get_attendance-is_some e.id user.id s meets in
      ap (λ r. r.0) (bind-reads _ _ s (IsReader-get_attendance e.id user.id) found)
      ∙ ap ok (known ∙ exists-count (is_attendance e.id user.id) s.work.attendees)

  response-enriched :
      (user : Option User)
      → (build_event_response e (user_id_of user) none none s).0
        ≡ ok (enriched (user_id_of user) s.work (e, c))
  unfolding build_event_response load_club get_club_for_event scalar_one_or_none count_attendees
      query pure
  response-enriched user =
      ap (λ r. r.0)
        (bind-reads _ _ s (IsReader-count_attendees e.id) refl
          ∙ bind-reads _ _ s (IsReader-attends e.id (user_id_of user)) (attends-column user)
          ∙ bind-reads _ _ s (IsReader-scalar (club_rows e.club_id)) (ap one_row rows))

  event-found : event_rows e.id s.work ≡ e ∷ [] → (get_event_or_404 e.id s).0 ≡ ok e
  unfolding get_event_or_404 get_event scalar_one_or_none or_raise
  event-found stored =
      ap (λ r. r.0) (bind-reads _ _ s (IsReader-scalar (event_rows e.id)) (ap one_row stored))

  club-found : (get_club_or_404 e.club_id s).0 ≡ ok c
  unfolding get_club_or_404 get_by_id scalar_one_or_none or_raise
  club-found =
      ap (λ r. r.0) (bind-reads _ _ s (IsReader-scalar (club_rows e.club_id)) (ap one_row rows))

  shown :
      (user : Option User)
      → event_rows e.id s.work ≡ e ∷ []
      → is_listed_for user s.work e ≡ true
      → (get_event_response e.id user s).0 ≡ ok (enriched (user_id_of user) s.work (e, c))
  unfolding get_event_response raise_if
  shown user stored listed =
      ap (λ r. r.0)
        (bind-reads _ _ s (IsReader-get_event e.id) (event-found stored)
          ∙ bind-reads _ _ s (IsReader-get_club e.club_id) club-found
          ∙ bind-reads _ _ s (IsReader-can_view c user) (listed-can_view user listed)
          ∙ bind-reads _ _ s (IsReader-raise_if false 404 event_not_found) refl)
      ∙ response-enriched user

pub ok-injective : {A : Type 0} {a b : A} → ◌≡◌ {A = Result A} (ok a) (ok b) → a ≡ b
ok-injective h = cc

-- Each entry of a list of events is exactly the response that its reader, signed in or not, gets
-- when asking for that event alone: the list shows no event whose club the reader may not see, when
-- the tables meet their constraints.
pub list_events-shown :
    (user : Option User) (like : Option (Text → Bool)) (club_id : Option ℕ) (skip limit : ℕ)
    (s : Session) {shown_events : List EventResponse}
    → integrity s.work ≡ true
    → (list_events user like club_id skip limit s).0 ≡ ok shown_events
    → All (λ r. (get_event_response r.event.id user s).0 ≡ ok r) shown_events
unfolding list_events fetch_enriched_event_list query get_now
list_events-shown user like club_id skip limit s {shown_events = shown_events} meets h =
    let filter : Event → Bool = λ e.
      is_upcoming s.now e
      && meets_city like e
      && meets_club club_id e
      && is_listed_for user s.work e in
    let rows =
      take limit (drop skip (by_date (join_clubs (select filter s.work.events) s.work.clubs))) in
    let read : map (enriched (user_id_of user) s.work) rows ≡ shown_events =
      ok-injective (ap (λ r. r.0) (sym (bind-reads _ _ s IsReader-get_now refl)) ∙ h) in
    subst (All (λ r. (get_event_response r.event.id user s).0 ≡ ok r)) read (
      All-mapped _ (enriched (user_id_of user) s.work) rows (
        All-map (IsJoined s.work filter) _
          (λ r j.
            shown s r.0 r.1 j.club_stored meets user j.event_stored (ground (arith, j.passes)))
          rows (selected s.work filter skip limit meets)))
