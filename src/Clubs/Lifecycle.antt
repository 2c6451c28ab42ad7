-- ===== src/Clubs/Lifecycle.antt =====
-- Creating, pausing, cancelling, rescheduling and deleting a club: app/services/club_service.py and
-- app/routers/clubs.py. The ids that `uuid.uuid4` draws are arguments. What a handler does after its
-- commit to build the response and to refresh the frontend's cache changes no row.
use book_club_be.Prelude.{
  ℕ, Bool, true, false, not, Option, none, some, List, [], ◌∷◌, ◌++◌, ◌==◌, select, update,
}
use book_club_be.Models.{Text, User, UserRole, Club, ClubStatus, MemberRole, ChatRoom}
use book_club_be.Database.{Database}
use book_club_be.Session.{
  Service, query, pure, raise_if, modify, commit, flush, get_now, ◌>>=◌, ◌>>◌, forbidden,
  organizer_already_has_club, owner_only,
}
use book_club_be.ClubRepository.{cascade_delete, room_ids_of_club}
use book_club_be.Access.{require_club_organizer}
use book_club_be.Clubs.Common.{get_club_or_404, lock_club_for_update, close_rooms_best_effort}
use book_club_be.Clubs.Joining.{new_member, add_member}
use book_club_be.Text.{codes, strip, non_empty}

pub record CreateClubRequest : Type 0 where
  pub name : Text
  pub description : Option Text
  pub is_public : Bool
  pub cover_url : Option Text
  pub city : Option Text
  pub tags : List Text
  pub meeting_duration_minutes : Option ℕ
  pub after_meeting_venue : Option Text

abbrev pub is_organizer_user : UserRole → Bool
is_organizer_user UserRole.organizer = true
is_organizer_user UserRole.user = false
is_organizer_user UserRole.admin = false

abbrev pub or_blank : Option Text → Text
or_blank none = []
or_blank (some t) = t

abbrev pub new_club : ℕ → CreateClubRequest → ℕ → Club
new_club club_id body owner = record {
  id = club_id;
  name = body.name;
  description = body.description;
  cover_url = body.cover_url;
  organizer_id = owner;
  is_public = body.is_public;
  status = ClubStatus.active;
  city = non_empty (strip (or_blank body.city));
  next_meeting_date = none;
  tags = body.tags;
  meeting_duration_minutes = body.meeting_duration_minutes;
  after_meeting_venue = body.after_meeting_venue;
  cancelled_at = none;
}

abbrev pub add_club : Club → Database → Database
add_club c db = record db { clubs = db.clubs ++ c ∷ [] }

abbrev pub general_room : ℕ → Club → ℕ → ChatRoom
general_room room_id club now = record {
  id = room_id;
  club_id = club.id;
  name = club.name ++ codes " · General";
  event_id = none;
  created_at = now;
}

abbrev pub add_room : ChatRoom → Database → Database
add_room r db = record db { rooms = db.rooms ++ r ∷ [] }

abbrev pub has_rows : List Club → Bool
has_rows [] = false
has_rows (c ∷ cs) = true

-- Returns the new club, from which the response is built.
unfoldable pub create_club_service : ℕ → ℕ → CreateClubRequest → User → Service Club
create_club_service club_id room_id body current_user = do
  raise_if (not (is_organizer_user current_user.role)) 403 forbidden
  existing ← query (λ db. select (λ c. c.organizer_id == current_user.id) db.clubs)
  raise_if (has_rows existing) 409 organizer_already_has_club
  now ← get_now
  modify (add_club (new_club club_id body current_user.id))
  flush
  modify (add_member (new_member club_id current_user.id MemberRole.organizer now))
  modify (add_room (general_room room_id (new_club club_id body current_user.id) now))
  commit
  pure (new_club club_id body current_user.id)

abbrev pub set_club : ℕ → (Club → Club) → Database → Database
set_club club_id f db = record db { clubs = update (λ c. c.id == club_id) f db.clubs }

-- Each of the next three: an organizer's change of the one row of the club.
unfoldable pub change_club : ℕ → User → (Club → Club) → Service (Unit {0})
change_club club_id current_user f = do
  _ ← require_club_organizer club_id current_user
  _ ← get_club_or_404 club_id
  modify (set_club club_id f)
  commit

unfoldable pub pause_club : ℕ → User → Service (Unit {0})
pause_club club_id current_user =
    change_club club_id current_user (λ c. record c { status = ClubStatus.paused })

unfoldable pub cancel_club : ℕ → User → Service (Unit {0})
cancel_club club_id current_user = do
  now ← get_now
  change_club club_id current_user
      (λ c. record c { status = ClubStatus.cancelled; cancelled_at = some now })

unfoldable pub reschedule_club : ℕ → ℕ → User → Service (Unit {0})
reschedule_club club_id new_date current_user =
    change_club club_id current_user
      (λ c. record c { next_meeting_date = some new_date; status = ClubStatus.active })

unfoldable pub delete_club_cascade : ℕ → Service (Unit {0})
delete_club_cascade club_id = do
  room_ids ← query (room_ids_of_club club_id)
  modify (cascade_delete club_id)
  commit
  close_rooms_best_effort room_ids

unfoldable pub delete_club : ℕ → User → Service (Unit {0})
delete_club club_id current_user = do
  _ ← require_club_organizer club_id current_user
  club ← lock_club_for_update club_id
  raise_if (not (club.organizer_id == current_user.id)) 403 owner_only
  delete_club_cascade club_id
