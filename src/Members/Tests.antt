-- ===== src/Members/Tests.antt =====
-- Concrete pages.
use book_club_be.Prelude.{refl, true, none, some, [], ◌∷◌}
use book_club_be.Models.{User, UserRole, Club, ClubStatus, ClubBan, BanDuration, MemberRole}
use book_club_be.Database.{
  empty_database, integrity, clubs_integrity, events_integrity, chat_integrity, quizzes_integrity,
  votes_integrity, users_integrity, support_integrity, unique,
}
use book_club_be.Session.{Session, begin, when, ◌>>=◌}
use book_club_be.Connections.{empty_manager}
use book_club_be.Access.{
  require_club_owner_or_organizer, require_club_organizer, fetch_organizer_membership,
}
use book_club_be.Members.{list_bans, fetch_page_with_total}
use book_club_be.Members.Pages.{IsBanPage, list_bans-IsPage}

abbrev owner : User
owner = record {
  id = 1;
  display_name = 65 ∷ [];
  role = UserRole.organizer;
  avatar_url = none;
  supabase_user_id = some 1;
  email = 1 ∷ [];
}

abbrev banned : User
banned = record owner { id = 2; display_name = 66 ∷ []; supabase_user_id = some 2; email = 2 ∷ [] }

abbrev book_club : Club
book_club = record {
  id = 10;
  name = 67 ∷ [];
  description = none;
  cover_url = none;
  organizer_id = 1;
  is_public = true;
  status = ClubStatus.active;
  city = none;
  next_meeting_date = none;
  tags = [];
  meeting_duration_minutes = none;
  after_meeting_venue = none;
  cancelled_at = none;
}

abbrev ban : ClubBan
ban = record {
  club_id = 10;
  user_id = 2;
  banned_by = 1;
  banned_at = 50;
  duration = BanDuration.permanent;
  expires_at = none;
}

abbrev session : Session
session =
    begin
      (record empty_database {
        users = owner ∷ banned ∷ [];
        clubs = book_club ∷ [];
        members =
            record { club_id = 10; user_id = 1; role = MemberRole.organizer; joined_at = 5 } ∷ [];
        bans = ban ∷ [];
      })
      100 empty_manager

-- a page past the end
list_bans-IsPage_example : IsBanPage 10 3 50 100 session.work ([], 1)
unfolding list_bans fetch_page_with_total require_club_owner_or_organizer when
    require_club_organizer fetch_organizer_membership integrity clubs_integrity events_integrity
    chat_integrity quizzes_integrity votes_integrity users_integrity support_integrity unique ◌>>=◌
list_bans-IsPage_example = list_bans-IsPage 10 owner 3 50 session {r = ([], 1)} refl refl
