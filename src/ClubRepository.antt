-- ===== src/ClubRepository.antt =====
-- app/repositories/club.py: the queries of `ClubRepository` and its two deletions.
use book_club_be.Prelude.{
  ℕ, Bool, true, ◌&&◌, ◌||◌, Option, none, some, List, [], ◌∷◌, map, ◌==◌, ltb, is_some,
  if◌then◌else◌, exists, select, delete, count,
}
use book_club_be.Models.{Club, ClubMember, ClubBan, ClubJoinRequest, MessageRead, is_pending}
use book_club_be.Database.{Database}
use book_club_be.Session.{Service, query, scalar_one_or_none, modify, pure, ◌>>=◌, get_now}

abbrev pub club_rows : ℕ → Database → List Club
club_rows club_id db = select (λ c. c.id == club_id) db.clubs

abbrev pub is_membership : ℕ → ℕ → ClubMember → Bool
is_membership club_id user_id m = m.club_id == club_id && m.user_id == user_id

abbrev pub member_rows : ℕ → ℕ → Database → List ClubMember
member_rows club_id user_id db = select (is_membership club_id user_id) db.members

unfoldable pub get_by_id : ℕ → Service (Option Club)
get_by_id club_id = scalar_one_or_none (club_rows club_id)

unfoldable pub get_membership : ℕ → ℕ → Service (Option ClubMember)
get_membership club_id user_id = scalar_one_or_none (member_rows club_id user_id)

-- a ban without an expiry, or with one that lies ahead
abbrev pub is_in_force : ℕ → Option ℕ → Bool
is_in_force now none = true
is_in_force now (some t) = ltb now t

abbrev pub active_bans : ℕ → ℕ → ℕ → Database → List ClubBan
active_bans club_id user_id now db =
    select (λ b. b.club_id == club_id && b.user_id == user_id && is_in_force now b.expires_at)
      db.bans

unfoldable pub is_banned : ℕ → ℕ → Service Bool
is_banned club_id user_id = do
  now ← get_now
  ban ← scalar_one_or_none (active_bans club_id user_id now)
  pure (is_some ban)

abbrev pub count_members : ℕ → Database → ℕ
count_members club_id db = count (λ m. m.club_id == club_id) db.members

-- ids of the club's events that have not started
abbrev pub future_events : ℕ → ℕ → Database → List ℕ
future_events club_id now db =
    map (λ e. e.id) (select (λ e. e.club_id == club_id && ltb now e.date) db.events)

abbrev pub in_ids : List ℕ → ℕ → Bool
in_ids ids id = exists (λ i. i == id) ids

unfoldable pub without_member : ℕ → ℕ → ℕ → Database → Database
without_member club_id user_id now db = record db {
  members = delete (is_membership club_id user_id) db.members;
  attendees =
      delete (λ a. a.user_id == user_id && in_ids (future_events club_id now db) a.event_id)
        db.attendees;
}

unfoldable pub remove_member : ℕ → ℕ → Service (Unit {0})
remove_member club_id user_id = do now ← get_now; modify (without_member club_id user_id now)

abbrev pub clear_id : (ℕ → Bool) → Option ℕ → Option ℕ
clear_id gone none = none
clear_id gone (some id) = if gone id then none else some id

abbrev pub clear_read : (ℕ → Bool) → MessageRead → MessageRead
clear_read gone r = record r { last_read_message_id = clear_id gone r.last_read_message_id }

-- DELETE FROM chat_messages: message_reads.last_read_message_id is ON DELETE SET NULL.
abbrev pub without_messages : (ℕ → Bool) → Database → Database
without_messages in_room db = record db {
  messages = delete (λ m. in_room m.room_id) db.messages;
  message_reads =
      map (clear_read (λ id. exists (λ m. m.id == id && in_room m.room_id) db.messages))
        db.message_reads;
}

-- DELETE FROM chat_rooms: message_reads.room_id is ON DELETE CASCADE.
abbrev pub without_rooms : (ℕ → Bool) → Database → Database
without_rooms is_room db = record db {
  rooms = delete (λ r. is_room r.id) db.rooms;
  message_reads = delete (λ r. is_room r.room_id) db.message_reads;
}

abbrev pub room_ids_of_club : ℕ → Database → List ℕ
room_ids_of_club club_id db = map (λ r. r.id) (select (λ r. r.club_id == club_id) db.rooms)

abbrev pub event_ids_of_club : ℕ → Database → List ℕ
event_ids_of_club club_id db = map (λ e. e.id) (select (λ e. e.club_id == club_id) db.events)

-- The branches of the code for no rooms and no events skip deletions that would find nothing. That a
-- deleted event takes its rooms along (ON DELETE CASCADE) finds none either: they went before.
unfoldable pub cascade_delete : ℕ → Database → Database
cascade_delete club_id db =
    let room_ids = room_ids_of_club club_id db in
    let db1 = record db { room_bans = delete (λ b. in_ids room_ids b.room_id) db.room_bans } in
    let db2 = without_messages (in_ids room_ids) db1 in
    let db3 = without_rooms (in_ids room_ids) db2 in
    let event_ids = event_ids_of_club club_id db in
    record db3 {
      bans = delete (λ b. b.club_id == club_id) db.bans;
      join_requests = delete (λ r. r.club_id == club_id) db.join_requests;
      members = delete (λ m. m.club_id == club_id) db.members;
      attendees = delete (λ a. in_ids event_ids a.event_id) db.attendees;
      events = delete (λ e. e.club_id == club_id) db.events;
      clubs = delete (λ c. c.id == club_id) db.clubs;
    }

abbrev pub is_request : ℕ → ℕ → ClubJoinRequest → Bool
is_request club_id user_id r = r.club_id == club_id && r.user_id == user_id

abbrev pub request_rows : ℕ → ℕ → Database → List ClubJoinRequest
request_rows club_id user_id db = select (is_request club_id user_id) db.join_requests

unfoldable pub get_join_request : ℕ → ℕ → Service (Option ClubJoinRequest)
get_join_request club_id user_id = scalar_one_or_none (request_rows club_id user_id)

unfoldable pub get_pending_join_request : ℕ → ℕ → Service (Option ClubJoinRequest)
get_pending_join_request club_id user_id =
    scalar_one_or_none
      (λ db. select (λ r. is_request club_id user_id r && is_pending r.status) db.join_requests)

-- ORDER BY created_at DESC LIMIT 1
abbrev pub latest : List ClubJoinRequest → Option ClubJoinRequest
latest [] = none
latest (r ∷ rs) = elim (latest rs) [
  | none ↦ some r
  | some q ↦ if ltb r.created_at q.created_at then some q else some r
]

unfoldable pub get_latest_join_request : ℕ → ℕ → Service (Option ClubJoinRequest)
get_latest_join_request club_id user_id = query (λ db. latest (request_rows club_id user_id db))

-- SELECT … FROM clubs WHERE id IN (the user's clubs) OR organizer_id = user
abbrev pub clubs_of_user : ℕ → Database → List Club
clubs_of_user user_id db =
    select (λ c. exists (is_membership c.id user_id) db.members || c.organizer_id == user_id)
      db.clubs
