-- ===== src/Clubs/Effects/Leftovers.antt =====
-- What stays behind: rows that a later request of the same user meets.
use book_club_be.Prelude.{ℕ, ◌≡◌, refl, subst, true, [], ◌∷◌, arith, select}
use book_club_be.Models.{User, ClubJoinRequest, ClubBan, BanDuration, approved, manual}
use book_club_be.Database.{unique}
use book_club_be.Session.{Session, ok, begin, ◌>>=◌}
use book_club_be.Connections.{ConnectionManager}
use book_club_be.ClubRepository.{
  active_bans, member_rows, request_rows, without_member, get_by_id, is_banned, get_membership,
  get_join_request,
}
use book_club_be.Clubs.Common.{get_club_or_404}
use book_club_be.Clubs.Members.{leave_club_service, ban_user_service, new_ban, is_ban_of}
use book_club_be.Clubs.Joining.{
  request_join_club_service, join_or_answer, open_request, reopen, is_member,
}
use book_club_be.Clubs.Effects.{leave-HasLeft}
use book_club_be.Clubs.Effects.Bans.{ban_user-HasBanned, unique-last, bans-unique, same_pair}

-- A member whose join request was approved and who leaves is no member any more, but their next
-- request to join, when no ban is in force, is answered "member" and changes nothing.
pub leave-request_join :
    (club_id : ℕ) (u : User) (s : Session) {t : Unit {0}} (r : ClubJoinRequest) (now : ℕ)
    (manager : ConnectionManager)
    → (leave_club_service club_id u s).0 ≡ ok t
    → request_rows club_id u.id s.work ≡ r ∷ []
    → r.status ≡ approved
    → active_bans club_id u.id now s.work ≡ []
    → let left = (leave_club_service club_id u s).1.saved in
      (member_rows club_id u.id left ≡ [])
      × (request_join_club_service club_id u manual (begin left now manager)
          ≡ (ok is_member, begin left now manager))
unfolding request_join_club_service get_club_or_404 get_by_id is_banned get_membership
    get_join_request join_or_answer open_request reopen without_member ◌>>=◌
leave-request_join club_id u s r now manager h one status free =
    let e = leave-HasLeft club_id u s h in
    let gone = subst (λ d. member_rows club_id u.id d ≡ []) e.only_that e.is_gone in
    (e.is_gone, rw (e.only_that, e.found, free, gone, one, status) refl)

-- A ban that is stored is the user's first in the club, expired ones included: with any earlier row
-- the service ends in an error.
pub ban_user-first :
    (club_id user_id : ℕ) (duration : BanDuration) (by : User) (s : Session) {ban : ClubBan}
    → (ban_user_service club_id user_id duration by s).0 ≡ ok ban
    → select (is_ban_of club_id user_id) s.work.bans ≡ []
unfolding without_member
ban_user-first club_id user_id duration by s h =
    let b = ban_user-HasBanned club_id user_id duration by s h in
    let fine = subst (λ d. unique same_pair d.bans ≡ true) b.only_that (bans-unique _ b.fine) in
    unique-last same_pair (is_ban_of club_id user_id) (new_ban club_id user_id duration by.id s.now)
      (λ x e. ground arith) s.work.bans fine
