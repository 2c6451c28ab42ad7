-- ===== src/Chat/Access.antt =====
-- app/services/chat_service.py: who may use a chat room.
use book_club_be.Prelude.{
  ℕ, Bool, true, false, not, ◌&&◌, ◌||◌, Option, none, some, ◌==◌, exists, is_some, if◌then◌else◌,
}
use book_club_be.Models.{User, ClubMember, ChatRoom, ChatRoomBan, is_organizer_role}
use book_club_be.Session.{
  Service, query, pure, or_raise, raise_if, get_now, ◌>>=◌, ◌>>◌, room_not_found,
}
use book_club_be.ClubRepository.{get_membership, is_in_force}
use book_club_be.Events.Repository.{get_attendance}
use book_club_be.Chat.Repository.{get_room}

unfoldable pub get_room_or_404 : ℕ → Service ChatRoom
get_room_or_404 room_id = do room ← get_room room_id; or_raise room 404 room_not_found

abbrev pub is_club_room : ChatRoom → Bool
is_club_room room = not (is_some room.event_id)

-- the attendance that an event's room asks of a member who is no organizer
unfoldable pub attends_event : Option ℕ → ℕ → Service Bool
attends_event none user_id = pure true
attends_event (some event_id) user_id = do
  attendance ← get_attendance event_id user_id
  pure (is_some attendance)

unfoldable pub access_of : ChatRoom → ℕ → Option ClubMember → Service Bool
access_of room user_id none = pure false
access_of room user_id (some m) =
    if is_club_room room || is_organizer_role m.role
    then pure true
    else attends_event room.event_id user_id

unfoldable pub can_access_room : ChatRoom → ℕ → Service Bool
can_access_room room user_id = do
  membership ← get_membership room.club_id user_id
  access_of room user_id membership

unfoldable pub require_room_member : ℕ → User → Service ChatRoom
require_room_member room_id user = do
  found ← get_room room_id
  room ← or_raise found 404 room_not_found
  allowed ← can_access_room room user.id
  raise_if (not allowed) 404 room_not_found
  pure room

abbrev pub is_active_room_ban : ℕ → ℕ → ℕ → ChatRoomBan → Bool
is_active_room_ban room_id user_id now b =
    b.room_id == room_id && b.user_id == user_id && is_in_force now b.banned_until

unfoldable pub check_user_ban : ℕ → ℕ → Service Bool
check_user_ban room_id user_id = do
  now ← get_now
  query (λ db. exists (is_active_room_ban room_id user_id now) db.room_bans)
