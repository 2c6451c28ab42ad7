-- ===== src/Randomizer/Tests.antt =====
-- Concrete draws.
use book_club_be.Prelude.{◌≡◌, refl, true, false, none, some, [], ◌∷◌}
use book_club_be.Models.{User, UserRole, Club, ClubStatus, MemberRole, RandomizerSession}
use book_club_be.Database.{
  empty_database, integrity, clubs_integrity, events_integrity, chat_integrity, quizzes_integrity,
  votes_integrity, users_integrity, support_integrity, unique,
}
use book_club_be.Session.{Session, begin, ◌>>=◌}
use book_club_be.Connections.{empty_manager}
use book_club_be.Access.{require_club_organizer, fetch_organizer_membership}
use book_club_be.Randomizer.{
  CreateRandomizerSessionRequest, create_session, resolve_candidates, pick, look_up_all, look_up,
  resolve_result, candidate_of,
}
use book_club_be.Randomizer.KeyErrors.{is_key_error}
use book_club_be.Randomizer.Sessions.{
  HasStored, create_session-HasStored, create_session-is_key_error,
}
use book_club_be.Prelude.{lookup, insert}

abbrev owner : User
owner = record {
  id = 1;
  display_name = 65 ∷ [];
  role = UserRole.organizer;
  avatar_url = none;
  supabase_user_id = some 1;
  email = 1 ∷ [];
}

abbrev reader : User
reader = record owner { id = 2; display_name = 66 ∷ []; supabase_user_id = some 2; email = 2 ∷ [] }

abbrev book_club : Club
book_club = record {
  id = 10;
  name = 67 ∷ [];
  description = none;
  cover_url = none;
  organizer_id = 1;
  is_public = true;
  status = ClubStatus.active;
  city = none;
  next_meeting_date = none;
  tags = [];
  meeting_duration_minutes = none;
  after_meeting_venue = none;
  cancelled_at = none;
}

abbrev session : Session
session =
    begin
      (record empty_database {
        users = owner ∷ reader ∷ [];
        clubs = book_club ∷ [];
        members =
            record { club_id = 10; user_id = 1; role = MemberRole.organizer; joined_at = 5 }
            ∷ record { club_id = 10; user_id = 2; role = MemberRole.member; joined_at = 6 }
            ∷ [];
      })
      100 empty_manager

abbrev body : CreateRandomizerSessionRequest
body = record { purpose = 80 ∷ []; candidates = some 2 ∷ some 1 ∷ []; result = some (some 1) }

abbrev drawn : RandomizerSession
drawn = record {
  id = 90;
  club_id = 10;
  created_by = 1;
  purpose = 80 ∷ [];
  candidates = candidate_of reader ∷ candidate_of owner ∷ [];
  result = some (candidate_of owner);
  created_at = 100;
}

create_session-HasStored_example :
    HasStored 10 body owner session (create_session 90 10 body owner session).1 drawn
unfolding create_session resolve_candidates pick look_up_all look_up resolve_result lookup insert
    require_club_organizer fetch_organizer_membership integrity clubs_integrity events_integrity
    chat_integrity quizzes_integrity votes_integrity users_integrity support_integrity unique ◌>>=◌
create_session-HasStored_example = create_session-HasStored 90 10 body owner session refl

create_session-is_key_error_example :
    is_key_error (create_session 90 10 body owner session).0 ≡ false
create_session-is_key_error_example = create_session-is_key_error 90 10 body owner session
