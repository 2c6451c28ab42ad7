-- ===== src/Clubs/Requests.antt =====
-- The requests on clubs, each served in a session of its own as app/database.py (`get_db`) does, and
-- the histories of the stored database. A history serves one request after the other: requests whose
-- transactions interleave are not modelled.
pub mod Owners
use book_club_be.Prelude.{ℕ, Bool, true, false, List, [], ◌∷◌}
use book_club_be.Models.{User, MemberRole, BanDuration, JoinSource}
use book_club_be.Database.{Database}
use book_club_be.Connections.{ConnectionManager}
use book_club_be.Session.{Service, Result, ok, err, pure, serve, ◌>>=◌}
use book_club_be.Clubs.Members.{
  leave_club_service, remove_member_service, ban_user_service, unban_user_service,
  change_member_role_service,
}
use book_club_be.Clubs.Joining.{
  request_join_club_service, approve_join_request_service, reject_join_request_service,
  get_my_membership_service,
}
use book_club_be.Clubs.Lifecycle.{
  CreateClubRequest, create_club_service, pause_club, cancel_club, reschedule_club, delete_club,
}

-- The user is the signed-in one; a new club comes with the ids that it and its chat room get.
pub data Request : Type 0 where
  create : ℕ → ℕ → CreateClubRequest → User → Request
  pause cancel remove_club leave my_membership : ℕ → User → Request
  reschedule : ℕ → ℕ → User → Request
  request_join : ℕ → User → JoinSource → Request
  approve reject remove unban : ℕ → ℕ → User → Request
  ban : ℕ → ℕ → BanDuration → User → Request
  change_role : ℕ → ℕ → MemberRole → User → Request

-- a service whose response is of no interest
abbrev pub done : {A : Type 0} → Service A → Service (Unit {0})
done m = m >>= λ _. pure tt

unfoldable pub handle : Request → Service (Unit {0})
handle (create club_id room_id body u) = done (create_club_service club_id room_id body u)
handle (pause club_id u) = pause_club club_id u
handle (cancel club_id u) = cancel_club club_id u
handle (remove_club club_id u) = delete_club club_id u
handle (leave club_id u) = leave_club_service club_id u
handle (my_membership club_id u) = done (get_my_membership_service club_id u)
handle (reschedule club_id new_date u) = reschedule_club club_id new_date u
handle (request_join club_id u source) = done (request_join_club_service club_id u source)
handle (approve club_id user_id u) = done (approve_join_request_service club_id user_id u)
handle (reject club_id user_id u) = reject_join_request_service club_id user_id u
handle (remove club_id user_id u) = remove_member_service club_id user_id u
handle (unban club_id user_id u) = unban_user_service club_id user_id u
handle (ban club_id user_id duration u) = done (ban_user_service club_id user_id duration u)
handle (change_role club_id user_id role u) =
    done (change_member_role_service club_id user_id role u)

-- what outlives a request: the stored tables and the process's chat connections
pub record World : Type 0 where
  pub database : Database
  pub manager : ConnectionManager

-- one request at a time of the clock
unfoldable pub step : ℕ → Request → World → World
step now r w =
    let (_, s) = serve (handle r) w.database now w.manager in
    record { database = s.saved; manager = s.manager }

unfoldable pub run : List (ℕ × Request) → World → World
run [] w = w
run ((now, r) ∷ rs) w = run rs (step now r w)

-- the answer that the request gets
unfoldable pub answer : ℕ → Request → World → Result (Unit {0})
answer now r w = (serve (handle r) w.database now w.manager).0

-- a response other than an error
abbrev pub returns : {A : Type 0} → Result A → Bool
returns (ok a) = true
returns (err e) = false
