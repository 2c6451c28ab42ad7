-- ===== src/Chat/Tests.antt =====
-- Concrete runs in chat rooms.
use book_club_be.Prelude.{lookup, ℕ, ◌+◌, ◌≡◌, refl, true, false, Option, none, some, [], ◌∷◌, take}
use book_club_be.Models.{Text, User, UserRole, Club, ClubStatus, MemberRole, ChatRoom, ChatMessage}
use book_club_be.Database.{
  Database, empty_database, integrity, clubs_integrity, events_integrity, chat_integrity,
  quizzes_integrity, votes_integrity, users_integrity, support_integrity, unique,
}
use book_club_be.Session.{ok, Session, begin, ◌>>=◌}
use book_club_be.Connections.{empty_manager}
use book_club_be.ClubRepository.{get_membership}
use book_club_be.Access.{require_club_organizer, fetch_organizer_membership}
use book_club_be.Clubs.Requests.{returns}
use book_club_be.Chat.Repository.{MessageRow, page, get_room}
use book_club_be.Chat.Access.{require_room_member, can_access_room, access_of}
use book_club_be.Chat.Service.{send_message_service, list_messages_service, ban_from_room_service}
use book_club_be.Chat.Pages.{page_lem}
use book_club_be.Chat.Bans.{ban_from_room-refuses}
use book_club_be.Connections.{SendOutcome}
use book_club_be.Connections.Presence.{empty_manager-IsConsistent}
use book_club_be.ChatFlood.{new_limiter}
use book_club_be.Auth.Flows.{create_ws_ticket}
use book_club_be.Auth.Users.{answered}
use book_club_be.Auth.Tests.{Cells, cells}
use book_club_be.Chat.Handshake.{auth, text, authenticated, ws_authenticate}
use book_club_be.Chat.Handshake.Tickets.{
  IsAdmitted, IsLetIn, ws_authenticate-IsAdmitted, ticket-opens_room,
}
use book_club_be.Session.{rollback}
use book_club_be.Chat.Socket.{Frame, Body, Visit, not_dict, dict, serve_socket}
use book_club_be.Chat.Socket.Ending.{IsReleased, serve_socket-IsReleased}

abbrev owner : User
owner = record {
  id = 1;
  display_name = 65 ∷ [];
  role = UserRole.organizer;
  avatar_url = none;
  supabase_user_id = some 1;
  email = 1 ∷ [];
}

abbrev reader : User
reader = record {
  id = 2;
  display_name = 66 ∷ [];
  role = UserRole.user;
  avatar_url = none;
  supabase_user_id = some 2;
  email = 2 ∷ [];
}

abbrev book_club : Club
book_club = record {
  id = 10;
  name = 67 ∷ [];
  description = none;
  cover_url = none;
  organizer_id = 1;
  is_public = true;
  status = ClubStatus.active;
  city = none;
  next_meeting_date = none;
  tags = [];
  meeting_duration_minutes = none;
  after_meeting_venue = none;
  cancelled_at = none;
}

abbrev room : ChatRoom
room = record { id = 50; club_id = 10; name = 72 ∷ []; event_id = none; created_at = 8 }

abbrev message : ℕ → ℕ → ChatMessage
message id at = record { id = id; room_id = 50; sender_id = 2; text = 77 ∷ []; timestamp = at }

abbrev row : ℕ → ℕ → MessageRow
row id at = record { message = message id at; sender_name = 66 ∷ [] }

-- two messages of one instant among them
abbrev tables : Database
tables = record empty_database {
  users = owner ∷ reader ∷ [];
  clubs = book_club ∷ [];
  members =
      record { club_id = 10; user_id = 1; role = MemberRole.organizer; joined_at = 5 }
      ∷ record { club_id = 10; user_id = 2; role = MemberRole.member; joined_at = 6 }
      ∷ [];
  rooms = room ∷ [];
  messages = message 81 20 ∷ message 84 30 ∷ message 82 30 ∷ message 83 40 ∷ [];
}

abbrev session : Session
session = begin tables 100 empty_manager

page_lem_example : page 50 (some 84) 5 tables ≡ take 5 (row 82 30 ∷ row 81 20 ∷ [])
page_lem_example =
    page_lem 50 5 tables (row 84 30) (row 83 40 ∷ []) (row 82 30 ∷ row 81 20 ∷ []) refl refl
      (refl, (refl, tt))

ban_from_room-refuses_example :
    let s' = begin (ban_from_room_service 90 50 2 60 owner session).1.saved 200 empty_manager in
    ((message_id : ℕ) (text : Text)
      → returns (send_message_service message_id 50 text reader s').0 ≡ false)
    × ((before_id : Option (Option ℕ)) (limit : ℕ)
        → returns (list_messages_service 50 reader before_id limit s').0 ≡ false)
unfolding ban_from_room_service require_room_member can_access_room access_of get_room
    get_membership require_club_organizer fetch_organizer_membership integrity clubs_integrity
    events_integrity chat_integrity quizzes_integrity votes_integrity users_integrity
    support_integrity unique ◌>>=◌
ban_from_room-refuses_example =
    ban_from_room-refuses 90 50 2 60 owner session refl reader 200 empty_manager refl refl

abbrev frame : ℕ → Body → Frame
frame id body = record {
  body = body;
  now = 200 + id;
  limited_at = id;
  redis_at = id;
  armed_at = id;
  flood_redis = none;
  message_id = id;
  error_sent = true;
  send_json = λ ws. SendOutcome.sent;
}

abbrev visit : Visit
visit = record {
  socket = 7;
  snapshot_sent = true;
  opened_at = 200;
  frames = frame 91 (dict (some (72 ∷ 105 ∷ []))) ∷ frame 92 not_dict ∷ frame 93 (dict none) ∷ [];
  send_online = λ ws. SendOutcome.sent;
  send_offline = λ ws. SendOutcome.runtime_error;
}

serve_socket-IsReleased_example :
    let limiter = new_limiter 20 10000 in
    IsReleased
      (record { socket = 7; user_id = some 2 })
      50
      limiter
      (serve_socket reader room visit session limiter)
unfolding lookup
serve_socket-IsReleased_example =
    serve_socket-IsReleased reader room visit session (new_limiter 20 10000) refl
      empty_manager-IsConsistent refl

abbrev issued : Cells
issued = (create_ws_ticket cells (84 ∷ []) reader []).1

reader-IsLetIn : IsLetIn 2 50 200 (rollback session).1 reader room
unfolding rollback can_access_room access_of get_membership ◌>>=◌
reader-IsLetIn = record {
  user_stored = refl;
  room_stored = refl;
  allowed = record { access = refl; not_banned = refl };
}

ws_authenticate-IsAdmitted_example :
    IsAdmitted cells
      (auth false (text (84 ∷ [])))
      (some 50)
      200
      issued
      session
      reader
      room
      (ws_authenticate cells (auth false (text (84 ∷ []))) (some 50) 200 issued session).1
unfolding create_ws_ticket
ws_authenticate-IsAdmitted_example =
    ws_authenticate-IsAdmitted cells (auth false (text (84 ∷ []))) (some 50) 200 issued session
      (rollback session).1
      (ticket-opens_room cells (84 ∷ []) reader room false 200 [] session (λ v h. refl) refl
        reader-IsLetIn)

ticket-opens_room_example :
    (ws_authenticate cells (auth true (text (84 ∷ []))) (some 50) 200 issued session).0
    ≡ answered (ok (authenticated reader room), (rollback session).1)
unfolding create_ws_ticket
ticket-opens_room_example =
    ticket-opens_room cells (84 ∷ []) reader room true 200 [] session (λ v h. refl) refl
      reader-IsLetIn
