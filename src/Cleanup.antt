-- ===== src/Cleanup.antt =====
-- app/tasks/cleanup.py: the passes that post countdowns to the rooms of past events, delete rooms, and
-- drop old reports. A pass runs in a session of its own; what goes wrong in it is logged, and its
-- session is rolled back. The instant that times count from is a midnight in UTC.
pub mod Countdown
mod Tests
use book_club_be.Prelude.{
  ℕ, ◌+◌, ◌-◌, ◌*◌, ◌/◌, ◌%◌, Bool, true, false, not, ◌&&◌, Option, none, some, List, [], ◌∷◌, ◌++◌,
  map, ◌==◌, ltb, leb, opt_eq, is_some, if◌then◌else◌, select, delete, exists, length, is_empty,
}
use book_club_be.Models.{Text, ChatRoom, ChatMessage, Event}
use book_club_be.Database.{Database}
use book_club_be.Text.{codes}
use book_club_be.Connections.{ConnectionManager, WebSocket, SendOutcome, broadcast}
use book_club_be.ClubRepository.{in_ids, without_messages, without_rooms}
use book_club_be.Clubs.Members.{day}
use book_club_be.Chat.Service.{new_message, add_message}
use book_club_be.CspReports.{CspReport}
use book_club_be.Session.{
  Session, Service, query, pure, modify, commit, get_now, change_sockets, when, serve, ◌>>=◌, ◌>>◌,
}

-- `_EVENT_CHAT_GRACE_PERIOD`
abbrev pub grace_period : ℕ
grace_period = 5 * day

-- a number below ten
abbrev pub digit : ℕ → Text
digit n = (b'0' + n) ∷ []

-- The days left are fewer than the grace period's.
unfoldable pub countdown_text : ℕ → Text
countdown_text days_left =
    if days_left == 0
    then codes "Чат події буде видалено сьогодні."
    else if days_left == 1
    then codes "Залишився 1 день до видалення цього чату."
    else if leb days_left 4
    then codes "Залишилось " ++ digit days_left ++ codes " дні до видалення цього чату."
    else codes "Залишилось " ++ digit days_left ++ codes " днів до видалення цього чату."

-- a room of an event with the event's date
pub record EventRoom : Type 0 where
  pub room_id : ℕ
  pub date : ℕ

abbrev pub rooms_of : Event → List ChatRoom → List EventRoom
rooms_of e [] = []
rooms_of e (r ∷ rs) =
    let rest = rooms_of e rs in
    if opt_eq r.event_id (some e.id) then record { room_id = r.id; date = e.date } ∷ rest else rest

-- JOIN events ON events.id = chat_rooms.event_id WHERE events.date < now
abbrev pub past_event_rooms : ℕ → List Event → List ChatRoom → List EventRoom
past_event_rooms now [] rooms = []
past_event_rooms now (e ∷ es) rooms =
    let rest = past_event_rooms now es rooms in
    if ltb e.date now then rooms_of e rooms ++ rest else rest

abbrev pub today_start : ℕ → ℕ
today_start now = now - now % day

-- a message of the bot in the room, from today
abbrev pub is_posted : ℕ → ℕ → ℕ → ChatMessage → Bool
is_posted system_user_id room_id since m =
    m.room_id == room_id && m.sender_id == system_user_id && leb since m.timestamp

-- What a pass is given: the bot's id, the ids of new messages by room, and how sends end.
pub record Bot : Type 0 where
  pub system_user_id : ℕ
  pub message_id : ℕ → ℕ
  pub send_json : ℕ → WebSocket → SendOutcome

abbrev pub countdown_message : Bot → ℕ → EventRoom → ChatMessage
countdown_message bot now r =
    new_message (bot.message_id r.room_id) r.room_id bot.system_user_id
      (countdown_text ((r.date + grace_period - now) / day)) now

unfoldable pub post_countdown : Bot → ℕ → EventRoom → Service (Unit {0})
post_countdown bot now r = do
  already_posted_today ←
      query (λ db. exists (is_posted bot.system_user_id r.room_id (today_start now)) db.messages)
  when (not already_posted_today) (do
    modify (add_message (countdown_message bot now r))
    commit
    change_sockets (λ db. broadcast r.room_id (bot.send_json r.room_id)))

abbrev pub is_expired : ℕ → EventRoom → Bool
is_expired now r = leb (r.date + grace_period) now

-- the ids of the rooms past the grace period, after countdowns in the others
unfoldable pub lifecycle_loop : Bot → ℕ → List EventRoom → Service (List ℕ)
lifecycle_loop bot now [] = pure []
lifecycle_loop bot now (r ∷ rs) =
    let rest = lifecycle_loop bot now rs in
    if is_expired now r
    then (rest >>= λ expired_ids. pure (r.room_id ∷ expired_ids))
    else (post_countdown bot now r >>= λ _. rest)

-- DELETE of read marks, bans, messages and rooms, in this order
unfoldable pub delete_rooms : List ℕ → Database → Database
delete_rooms ids db = without_rooms (in_ids ids) (
    without_messages (in_ids ids) (record db {
      message_reads = delete (λ r. in_ids ids r.room_id) db.message_reads;
      room_bans = delete (λ b. in_ids ids b.room_id) db.room_bans;
    }))

unfoldable pub delete_if_any : List ℕ → Service (Unit {0})
delete_if_any ids = when (not (is_empty ids)) (do modify (delete_rooms ids); commit)

unfoldable pub run_event_chat_lifecycle_pass : Bot → Service (Unit {0})
run_event_chat_lifecycle_pass bot = do
  now ← get_now
  rows ← query (λ db. past_event_rooms now db.events db.rooms)
  expired_ids ← lifecycle_loop bot now rows
  delete_if_any expired_ids

-- the other rooms: no event, created more than 30 days ago, no message since
abbrev pub is_stale : ℕ → List ChatMessage → ChatRoom → Bool
is_stale cutoff messages r =
    not (is_some r.event_id)
    && ltb r.created_at cutoff
    && not (exists (λ m. m.room_id == r.id && leb cutoff m.timestamp) messages)

unfoldable pub cleanup_inactive_chat_rooms : Service (Unit {0})
cleanup_inactive_chat_rooms = do
  now ← get_now
  stale_ids ←
      query (λ db. map (λ r. r.id) (select (is_stale (now - 30 * day) db.messages) db.rooms))
  delete_if_any stale_ids

-- the reports of the days since then, a day being a number of days, and how many are dropped
unfoldable pub run_csp_report_cleanup_pass : ℕ → List CspReport → List CspReport × ℕ
run_csp_report_cleanup_pass today reports = (
  delete (λ r. ltb r.day (today - 30)) reports,
  length (select (λ r. ltb r.day (today - 30)) reports),
)
