-- ===== src/Clubs/Tests.antt =====
-- Concrete runs of the club services.
use book_club_be.Prelude.{ℕ, ◌≡◌, refl, true, none, some, List, [], ◌∷◌, select}
use book_club_be.Models.{
  User, UserRole, Club, ClubStatus, ClubMember, MemberRole, ClubJoinRequest, one_day, manual,
  approved,
}
use book_club_be.Database.{
  Database, empty_database, integrity, clubs_integrity, events_integrity, chat_integrity,
  quizzes_integrity, votes_integrity, users_integrity, support_integrity, unique,
}
use book_club_be.Session.{Session, ok, err, app_error, club_banned, begin, serve, ◌>>=◌, when}
use book_club_be.Connections.{empty_manager}
use book_club_be.ClubRepository.{member_rows, remove_member, without_member}
use book_club_be.Access.{require_club_organizer, fetch_organizer_membership}
use book_club_be.Clubs.Common.{
  lock_club_for_update, lock_club_and_recheck_actor, get_member_fresh, count_organizers,
  kick_user_from_club_rooms,
}
use book_club_be.Clubs.Members.{leave_club_service, ban_user_service, is_ban_of}
use book_club_be.Clubs.Joining.{request_join_club_service, is_member}
use book_club_be.Clubs.Ownership.{IsOwned}
use book_club_be.Clubs.Requests.{
  Request, leave, ban, request_join, World, run, step, answer, handle,
}
use book_club_be.Clubs.Requests.Owners.{run-IsOwned, step-error}
use book_club_be.Clubs.Effects.{HasLeft, leave-HasLeft}
use book_club_be.Clubs.Effects.Bans.{HasBanned, ban_user-HasBanned, ban-blocks_join}
use book_club_be.Clubs.Effects.Leftovers.{leave-request_join, ban_user-first}

abbrev owner : User
owner = record {
  id = 1;
  display_name = 65 ∷ [];
  role = UserRole.organizer;
  avatar_url = none;
  supabase_user_id = some 1;
  email = 1 ∷ [];
}

abbrev reader : User
reader = record {
  id = 2;
  display_name = 66 ∷ [];
  role = UserRole.user;
  avatar_url = none;
  supabase_user_id = some 2;
  email = 2 ∷ [];
}

abbrev book_club : Club
book_club = record {
  id = 10;
  name = 67 ∷ [];
  description = none;
  cover_url = none;
  organizer_id = 1;
  is_public = true;
  status = ClubStatus.active;
  city = none;
  next_meeting_date = none;
  tags = [];
  meeting_duration_minutes = none;
  after_meeting_venue = none;
  cancelled_at = none;
}

abbrev owns : ClubMember
owns = record { club_id = 10; user_id = 1; role = MemberRole.organizer; joined_at = 5 }

abbrev reads : ClubMember
reads = record { club_id = 10; user_id = 2; role = MemberRole.member; joined_at = 6 }

abbrev old_request : ClubJoinRequest
old_request = record {
  club_id = 10;
  user_id = 2;
  status = approved;
  source = manual;
  decided_by = some 1;
  decided_at = some 6;
  created_at = 6;
}

abbrev tables : Database
tables = record empty_database {
  users = owner ∷ reader ∷ [];
  clubs = book_club ∷ [];
  members = owns ∷ reads ∷ [];
  join_requests = old_request ∷ [];
}

abbrev session : Session
session = begin tables 100 empty_manager

abbrev world : World
world = record { database = tables; manager = empty_manager }

-- the owner bans the reader, who asks to join again and is refused; then the owner cannot leave
abbrev history : List (ℕ × Request)
history =
    (100, ban 10 2 one_day owner)
    ∷ (101, request_join 10 reader manual)
    ∷ (102, leave 10 owner)
    ∷ []

run-IsOwned_example : IsOwned (run history world).database
run-IsOwned_example = run-IsOwned history world (refl, tt)

step-error_example : step 100 (leave 10 owner) world ≡ world
unfolding answer handle serve leave_club_service lock_club_for_update ◌>>=◌
step-error_example = step-error 100 (leave 10 owner) world (refl, tt) refl

leave-HasLeft_example : HasLeft 10 2 session (leave_club_service 10 reader session).1
unfolding leave_club_service lock_club_for_update get_member_fresh count_organizers remove_member
    without_member kick_user_from_club_rooms integrity clubs_integrity events_integrity
    chat_integrity quizzes_integrity votes_integrity users_integrity support_integrity unique ◌>>=◌
leave-HasLeft_example = leave-HasLeft 10 reader session refl

ban_user-HasBanned_example :
    HasBanned 10 2 one_day owner session (ban_user_service 10 2 one_day owner session).1
unfolding ban_user_service require_club_organizer fetch_organizer_membership
    lock_club_and_recheck_actor lock_club_for_update get_member_fresh when remove_member
    without_member kick_user_from_club_rooms integrity clubs_integrity events_integrity
    chat_integrity quizzes_integrity votes_integrity users_integrity support_integrity unique ◌>>=◌
ban_user-HasBanned_example = ban_user-HasBanned 10 2 one_day owner session refl

ban-blocks_join_example :
    (request_join_club_service 10 reader manual
      (begin (ban_user_service 10 2 one_day owner session).1.saved 101 empty_manager)).0
    ≡ err (app_error 403 club_banned)
unfolding ban_user_service require_club_organizer fetch_organizer_membership
    lock_club_and_recheck_actor lock_club_for_update get_member_fresh when remove_member
    without_member kick_user_from_club_rooms integrity clubs_integrity events_integrity
    chat_integrity quizzes_integrity votes_integrity users_integrity support_integrity unique ◌>>=◌
ban-blocks_join_example =
    ban-blocks_join 10 2 one_day owner session refl reader manual 101 empty_manager refl refl

ban_user-first_example : select (is_ban_of 10 2) tables.bans ≡ []
unfolding ban_user_service require_club_organizer fetch_organizer_membership
    lock_club_and_recheck_actor lock_club_for_update get_member_fresh when remove_member
    without_member kick_user_from_club_rooms integrity clubs_integrity events_integrity
    chat_integrity quizzes_integrity votes_integrity users_integrity support_integrity unique ◌>>=◌
ban_user-first_example = ban_user-first 10 2 one_day owner session refl

leave-request_join_example :
    let left = (leave_club_service 10 reader session).1.saved in
    (member_rows 10 2 left ≡ [])
    × (request_join_club_service 10 reader manual (begin left 101 empty_manager)
        ≡ (ok is_member, begin left 101 empty_manager))
unfolding leave_club_service lock_club_for_update get_member_fresh count_organizers remove_member
    without_member kick_user_from_club_rooms integrity clubs_integrity events_integrity
    chat_integrity quizzes_integrity votes_integrity users_integrity support_integrity unique ◌>>=◌
leave-request_join_example =
    leave-request_join 10 reader session old_request 101 empty_manager refl refl refl refl
