-- ===== src/Cleanup/Tests.antt =====
-- Concrete runs of the passes.
use book_club_be.Prelude.{
  ℕ, ◌*◌, ◌+◌, ◌≡◌, refl, true, false, none, some, List, [], ◌∷◌, arith, map,
}
use book_club_be.Models.{User, UserRole, Club, ClubStatus, Event, EventStatus, ChatRoom}
use book_club_be.Database.{
  empty_database, integrity, clubs_integrity, events_integrity, chat_integrity, quizzes_integrity,
  votes_integrity, users_integrity, support_integrity, unique,
}
use book_club_be.Session.{serve, when, ◌>>=◌}
use book_club_be.Connections.{empty_manager, sent}
use book_club_be.Clubs.Members.{day}
use book_club_be.Cleanup.{
  Bot, countdown_text, post_countdown, lifecycle_loop, delete_rooms, delete_if_any,
  run_event_chat_lifecycle_pass,
}
use book_club_be.Cleanup.Countdown.{World, pass, passes, IsDaily, passes-IsDaily}

abbrev bot_user : User
bot_user = record {
  id = 99;
  display_name = 66 ∷ [];
  role = UserRole.user;
  avatar_url = none;
  supabase_user_id = none;
  email = 9 ∷ [];
}

abbrev owner : User
owner = record bot_user { id = 1; email = 1 ∷ [] }

abbrev book_club : Club
book_club = record {
  id = 10;
  name = 67 ∷ [];
  description = none;
  cover_url = none;
  organizer_id = 1;
  is_public = true;
  status = ClubStatus.active;
  city = none;
  next_meeting_date = none;
  tags = [];
  meeting_duration_minutes = none;
  after_meeting_venue = none;
  cancelled_at = none;
}

abbrev meeting : Event
meeting = record {
  id = 40;
  club_id = 10;
  title = 72 ∷ [];
  date = 9 * day;
  city = 73 ∷ [];
  address = none;
  status = EventStatus.scheduled;
  cancelled_at = none;
  has_winner = false;
  winner_id = none;
  winner_name = none;
}

abbrev room : ChatRoom
room = record { id = 50; club_id = 10; name = 72 ∷ []; event_id = some 40; created_at = 8 }

abbrev world : World
world = record {
  database = record empty_database {
    users = owner ∷ bot_user ∷ [];
    clubs = book_club ∷ [];
    events = meeting ∷ [];
    rooms = room ∷ [];
  };
  manager = empty_manager;
}

abbrev bot : ℕ → Bot
bot id = record { system_user_id = 99; message_id = λ room_id. id; send_json = λ room_id ws. sent }

-- two passes on the day after the event, one on the next day, and one after the grace period
abbrev some_passes : List (ℕ × Bot)
some_passes = (10 * day, bot 1) ∷ (10 * day + 5, bot 2) ∷ (11 * day, bot 3) ∷ []

posted : map (λ m. m.id) (passes 99 some_passes world).database.messages ≡ 1 ∷ 3 ∷ []
unfolding passes pass serve run_event_chat_lifecycle_pass lifecycle_loop post_countdown
    delete_if_any countdown_text when integrity clubs_integrity events_integrity chat_integrity
    quizzes_integrity votes_integrity users_integrity support_integrity unique ◌>>=◌
posted = refl

deleted : (passes 99 ((14 * day, bot 4) ∷ []) (passes 99 some_passes world)).database.rooms ≡ []
unfolding passes pass serve run_event_chat_lifecycle_pass lifecycle_loop post_countdown
    delete_if_any delete_rooms countdown_text when integrity clubs_integrity events_integrity
    chat_integrity quizzes_integrity votes_integrity users_integrity support_integrity unique ◌>>=◌
deleted = refl

passes-IsDaily_example : IsDaily 99 (passes 99 some_passes world).database
passes-IsDaily_example = passes-IsDaily 99 some_passes world (λ d room_id. omega arith)
