-- ===== src/Models/ClubRows.antt =====
-- app/models/user.py, club.py, club_member.py, club_ban.py, club_join_request.py
use book_club_be.Prelude.{ℕ, Bool, true, false, Option, List}

abbrev pub Text : Type 0
Text = List ℕ

pub data UserRole : Type 0 where
  user organizer admin : UserRole

pub record User : Type 0 where
  pub id : ℕ
  pub display_name : Text
  pub role : UserRole
  pub avatar_url : Option Text
  pub supabase_user_id : Option ℕ
  pub email : Text

pub data ClubStatus : Type 0 where
  active paused cancelled : ClubStatus

pub record Club : Type 0 where
  pub id : ℕ
  pub name : Text
  pub description : Option Text
  pub cover_url : Option Text
  pub organizer_id : ℕ
  pub is_public : Bool
  pub status : ClubStatus
  pub city : Option Text
  pub next_meeting_date : Option ℕ
  pub tags : List Text
  pub meeting_duration_minutes : Option ℕ
  pub after_meeting_venue : Option Text
  pub cancelled_at : Option ℕ

pub data MemberRole : Type 0 where
  member organizer : MemberRole

pub record ClubMember : Type 0 where
  pub club_id : ℕ
  pub user_id : ℕ
  pub role : MemberRole
  pub joined_at : ℕ

-- the literals of `BanRequest.duration`
pub data BanDuration : Type 0 where
  one_day three_days five_days permanent : BanDuration

pub record ClubBan : Type 0 where
  pub club_id : ℕ
  pub user_id : ℕ
  pub banned_by : ℕ
  pub banned_at : ℕ
  pub duration : BanDuration
  pub expires_at : Option ℕ

pub data JoinStatus : Type 0 where
  pending approved rejected : JoinStatus

pub data JoinSource : Type 0 where
  manual event : JoinSource

pub record ClubJoinRequest : Type 0 where
  pub club_id : ℕ
  pub user_id : ℕ
  pub status : JoinStatus
  pub source : JoinSource
  pub decided_by : Option ℕ
  pub decided_at : Option ℕ
  pub created_at : ℕ

abbrev pub is_organizer_role : MemberRole → Bool
is_organizer_role MemberRole.member = false
is_organizer_role MemberRole.organizer = true

abbrev pub is_admin : UserRole → Bool
is_admin UserRole.admin = true
is_admin UserRole.user = false
is_admin UserRole.organizer = false

abbrev pub is_pending : JoinStatus → Bool
is_pending pending = true
is_pending approved = false
is_pending rejected = false
