-- ===== src/Clubs/Joining.antt =====
-- app/services/club_service.py: join requests, from the request to its decision. The statement
-- timeout that PostgreSQL is given at the start of a join changes no row and is left out.
use book_club_be.Prelude.{ℕ, Bool, true, false, Option, none, some, [], ◌∷◌, ◌++◌, update, is_some}
use book_club_be.Models.{
  User, ClubMember, MemberRole, ClubJoinRequest, JoinStatus, JoinSource, pending, approved,
  rejected, manual, event,
}
use book_club_be.Database.{Database}
use book_club_be.Session.{
  Service, query, pure, raise, or_raise, raise_if, modify, commit, get_now, on_integrity_error,
  ◌>>=◌, ◌>>◌, club_banned, already_member, join_request_not_found,
}
use book_club_be.ClubRepository.{
  get_membership, is_banned, get_join_request, get_pending_join_request, get_latest_join_request,
  is_request, count_members,
}
use book_club_be.Access.{require_club_organizer}
use book_club_be.Clubs.Common.{get_club_or_404}

-- the literals "pending", "already_requested" and "member"
pub data JoinOutcome : Type 0 where
  now_pending already_requested is_member : JoinOutcome

abbrev pub reopened : JoinSource → ClubJoinRequest → ClubJoinRequest
reopened source r = record r {
  status = pending;
  source = source;
  decided_by = none;
  decided_at = none;
}

abbrev pub decided : JoinStatus → ℕ → ℕ → ClubJoinRequest → ClubJoinRequest
decided status by at r = record r { status = status; decided_by = some by; decided_at = some at }

abbrev pub set_requests : ℕ → ℕ → (ClubJoinRequest → ClubJoinRequest) → Database → Database
set_requests club_id user_id f db = record db {
  join_requests = update (is_request club_id user_id) f db.join_requests;
}

abbrev pub new_request : ℕ → ℕ → JoinSource → ℕ → ClubJoinRequest
new_request club_id user_id source now = record {
  club_id = club_id;
  user_id = user_id;
  status = pending;
  source = source;
  decided_by = none;
  decided_at = none;
  created_at = now;
}

abbrev pub add_request : ClubJoinRequest → Database → Database
add_request r db = record db { join_requests = db.join_requests ++ r ∷ [] }

-- what the service answers to a user who is a member already
unfoldable pub answer_member : JoinSource → Service JoinOutcome
answer_member manual = raise 409 already_member
answer_member event = pure is_member

-- a request that the user has made before
unfoldable pub reopen : ℕ → ℕ → JoinSource → JoinStatus → Service JoinOutcome
reopen club_id user_id source pending = pure already_requested
reopen club_id user_id source approved = pure is_member
reopen club_id user_id source rejected = do
  modify (set_requests club_id user_id (reopened source))
  commit
  pure now_pending

-- the service from the lookup of the user's join request on
unfoldable pub open_request : ℕ → ℕ → JoinSource → Option ClubJoinRequest → Service JoinOutcome
open_request club_id user_id source (some r) = reopen club_id user_id source r.status
open_request club_id user_id source none = do
  now ← get_now
  modify (add_request (new_request club_id user_id source now))
  on_integrity_error (commit >>= λ _. pure now_pending) (pure already_requested)

unfoldable pub join_or_answer : ℕ → ℕ → JoinSource → Option ClubMember → Service JoinOutcome
join_or_answer club_id user_id source (some m) = answer_member source
join_or_answer club_id user_id source none = do
  join_request ← get_join_request club_id user_id
  open_request club_id user_id source join_request

unfoldable pub request_join_club_service : ℕ → User → JoinSource → Service JoinOutcome
request_join_club_service club_id current_user source = do
  _ ← get_club_or_404 club_id
  banned ← is_banned club_id current_user.id
  raise_if banned 403 club_banned
  membership ← get_membership club_id current_user.id
  join_or_answer club_id current_user.id source membership

abbrev pub new_member : ℕ → ℕ → MemberRole → ℕ → ClubMember
new_member club_id user_id role now = record {
  club_id = club_id;
  user_id = user_id;
  role = role;
  joined_at = now;
}

abbrev pub add_member : ClubMember → Database → Database
add_member m db = record db { members = db.members ++ m ∷ [] }

-- the rows of an approval: the request, and a membership if there was none
abbrev pub approve_rows : ℕ → ℕ → ℕ → ℕ → Bool → Database → Database
approve_rows club_id user_id by now true db =
    set_requests club_id user_id (decided approved by now) db
approve_rows club_id user_id by now false db =
    add_member (new_member club_id user_id MemberRole.member now)
      (set_requests club_id user_id (decided approved by now) db)

-- after a lost race for the member row: the approval again, without the insert
unfoldable pub retry_approval : ℕ → ℕ → ℕ → ℕ → Option ClubJoinRequest → Service (Unit {0})
retry_approval club_id user_id by now none = pure tt
retry_approval club_id user_id by now (some r) = do
  modify (set_requests club_id user_id (decided approved by now))
  commit

unfoldable pub approve_join_request_service : ℕ → ℕ → User → Service ℕ
approve_join_request_service club_id user_id current_user = do
  _ ← require_club_organizer club_id current_user
  found ← get_pending_join_request club_id user_id
  _ ← or_raise found 404 join_request_not_found
  membership ← get_membership club_id user_id
  now_utc ← get_now
  modify (approve_rows club_id user_id current_user.id now_utc (is_some membership))
  on_integrity_error commit
      (get_join_request club_id user_id >>= retry_approval club_id user_id current_user.id now_utc)
  query (count_members club_id)

unfoldable pub reject_join_request_service : ℕ → ℕ → User → Service (Unit {0})
reject_join_request_service club_id user_id current_user = do
  _ ← require_club_organizer club_id current_user
  found ← get_pending_join_request club_id user_id
  _ ← or_raise found 404 join_request_not_found
  now_utc ← get_now
  modify (set_requests club_id user_id (decided rejected current_user.id now_utc))
  commit

pub record MyMembership : Type 0 where
  pub is_member : Bool
  pub role : Option MemberRole
  pub join_request_status : Option JoinStatus

-- "none" for no request and for one that was approved
abbrev pub shown_status : Option ClubJoinRequest → Option JoinStatus
shown_status none = none
shown_status (some r) = elim r.status [
  | pending ↦ some pending
  | approved ↦ none
  | rejected ↦ some rejected
]

unfoldable pub membership_answer : ℕ → ℕ → Option ClubMember → Service MyMembership
membership_answer club_id user_id (some m) =
    pure (record { is_member = true; role = some m.role; join_request_status = none })
membership_answer club_id user_id none = do
  join_request ← get_latest_join_request club_id user_id
  pure (record { is_member = false; role = none; join_request_status = shown_status join_request })

unfoldable pub get_my_membership_service : ℕ → User → Service MyMembership
get_my_membership_service club_id current_user = do
  _ ← get_club_or_404 club_id
  membership ← get_membership club_id current_user.id
  membership_answer club_id current_user.id membership
