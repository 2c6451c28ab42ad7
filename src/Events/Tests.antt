-- ===== src/Events/Tests.antt =====
-- Concrete runs on events.
use book_club_be.Prelude.{◌≡◌, ◌*◌, refl, true, false, none, some, [], ◌∷◌}
use book_club_be.Models.{User, UserRole, Club, ClubStatus, MemberRole, Event, EventStatus, ChatRoom}
use book_club_be.Database.{
  Database, empty_database, integrity, clubs_integrity, events_integrity, chat_integrity,
  quizzes_integrity, votes_integrity, users_integrity, support_integrity, unique,
}
use book_club_be.Session.{Session, begin, ◌>>=◌, on_integrity_error}
use book_club_be.Connections.{empty_manager}
use book_club_be.ClubRepository.{get_by_id, get_membership, is_banned, get_join_request}
use book_club_be.Access.{require_club_organizer, fetch_organizer_membership}
use book_club_be.Clubs.Common.{get_club_or_404, can_view_club}
use book_club_be.Clubs.Members.{day}
use book_club_be.Clubs.Joining.{request_join_club_service, join_or_answer, open_request}
use book_club_be.Events.Repository.{get_event, count_attendees, get_attendance, get_membership_id}
use book_club_be.Events.Service.{
  get_event_or_404, require_event_visible, request_membership, resolve_join_request_status,
  attend_event_service,
}
use book_club_be.Clubs.Requests.{returns}
use book_club_be.Events.Creation.{
  CreateEventRequest, chat_suffix, create_event_service, get_or_create_event_chat_room,
}
use book_club_be.Events.Rooms.{HasCreated, create_event-HasCreated, create_event-refuses}
use book_club_be.Prelude.{lookup, insert, All, map}
use book_club_be.Session.{ok}
use book_club_be.Events.Responses.{
  EventResponse, build_event_response, build_event_responses_bulk, get_event_response,
}
use book_club_be.Events.Lists.{list_events, fetch_enriched_event_list}
use book_club_be.Events.Listing.{list_events-shown}
use book_club_be.Events.Bulk.{build_event_responses_bulk-one_by_one}
use book_club_be.Events.Attendance.{Attends, attend-Attends}

abbrev owner : User
owner = record {
  id = 1;
  display_name = 65 ∷ [];
  role = UserRole.organizer;
  avatar_url = none;
  supabase_user_id = some 1;
  email = 1 ∷ [];
}

abbrev guest : User
guest = record {
  id = 4;
  display_name = 71 ∷ [];
  role = UserRole.user;
  avatar_url = none;
  supabase_user_id = some 4;
  email = 4 ∷ [];
}

abbrev book_club : Club
book_club = record {
  id = 10;
  name = 67 ∷ [];
  description = none;
  cover_url = none;
  organizer_id = 1;
  is_public = true;
  status = ClubStatus.active;
  city = none;
  next_meeting_date = none;
  tags = [];
  meeting_duration_minutes = none;
  after_meeting_venue = none;
  cancelled_at = none;
}

abbrev meeting : Event
meeting = record {
  id = 40;
  club_id = 10;
  title = 72 ∷ [];
  date = 9 * day;
  city = 73 ∷ [];
  address = none;
  status = EventStatus.scheduled;
  cancelled_at = none;
  has_winner = false;
  winner_id = none;
  winner_name = none;
}

abbrev room : ChatRoom
room = record { id = 50; club_id = 10; name = 72 ∷ []; event_id = some 40; created_at = 8 }

abbrev tables : Database
tables = record empty_database {
  users = owner ∷ guest ∷ [];
  clubs = book_club ∷ [];
  members = record { club_id = 10; user_id = 1; role = MemberRole.organizer; joined_at = 5 } ∷ [];
  events = meeting ∷ [];
  attendees = record { event_id = 40; user_id = 1 } ∷ [];
  rooms = room ∷ [];
}

abbrev session : Session
session = begin tables 100 empty_manager

-- the same tables with the meeting held
abbrev later : Session
later =
    begin (record tables { events = record meeting { status = EventStatus.held } ∷ [] }) 100
      empty_manager

-- a guest attends and so asks to join the club
attend-Attends_example : Attends 40 4 session (attend_event_service 40 guest session).1
unfolding attend_event_service get_event_or_404 get_event require_event_visible get_club_or_404
    get_by_id can_view_club is_banned get_attendance count_attendees resolve_join_request_status
    get_membership_id request_membership request_join_club_service get_membership join_or_answer
    get_join_request open_request on_integrity_error integrity clubs_integrity events_integrity
    chat_integrity quizzes_integrity votes_integrity users_integrity support_integrity unique ◌>>=◌
attend-Attends_example = attend-Attends 40 guest session refl

abbrev body : CreateEventRequest
body = record { title = 74 ∷ []; date = 20 * day; city = 32 ∷ 73 ∷ []; address = none }

create_event-HasCreated_example :
    HasCreated 41 51 body 10 owner session (create_event_service 41 51 body 10 owner session).1
unfolding create_event_service get_or_create_event_chat_room get_club_or_404 get_by_id
    require_club_organizer fetch_organizer_membership integrity clubs_integrity events_integrity
    chat_integrity quizzes_integrity votes_integrity users_integrity support_integrity unique ◌>>=◌
create_event-HasCreated_example = create_event-HasCreated 41 51 body 10 owner session refl refl

-- a room of the club has the name
abbrev named : Session
named =
    begin (record tables { rooms = record room { name = 74 ∷ chat_suffix } ∷ [] }) 100 empty_manager

create_event-refuses_example : returns (create_event_service 41 51 body 10 owner named).0 ≡ false
unfolding integrity clubs_integrity events_integrity chat_integrity quizzes_integrity
    votes_integrity users_integrity support_integrity unique
create_event-refuses_example = create_event-refuses 41 51 body 10 owner named refl refl

abbrev entry : EventResponse
entry = record {
  event = meeting;
  club_name = 67 ∷ [];
  organizer_id = some 1;
  attendee_count = 1;
  is_attending = false;
}

list_events-shown_example :
    All (λ r. (get_event_response r.event.id (some guest) session).0 ≡ ok r) (entry ∷ [])
unfolding list_events fetch_enriched_event_list integrity clubs_integrity events_integrity
    chat_integrity quizzes_integrity votes_integrity users_integrity support_integrity unique ◌>>=◌
list_events-shown_example =
    list_events-shown (some guest) none (some 10) 0 20 session {shown_events = entry ∷ []} refl refl

build_event_responses_bulk-one_by_one_example :
    map (λ e. (build_event_response e (some 4) none none session).0) (meeting ∷ [])
    ≡ map ok (entry ∷ [])
unfolding build_event_responses_bulk lookup insert integrity clubs_integrity events_integrity
    chat_integrity quizzes_integrity votes_integrity users_integrity support_integrity unique ◌>>=◌
build_event_responses_bulk-one_by_one_example =
    build_event_responses_bulk-one_by_one session (meeting ∷ []) (some 4) none none
      {responses = entry ∷ []} refl refl
