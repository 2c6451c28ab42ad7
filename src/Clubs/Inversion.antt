-- ===== src/Clubs/Inversion.antt =====
-- What the checks of the club services have found when they return, and that they only read.
use book_club_be.Prelude.{
  ℕ, ◌≡◌, refl, ap, ◌∙◌, Bool, true, false, Option, none, some, List, [], ◌∷◌, arith,
}
use book_club_be.Models.{User, Club, ClubMember}
use book_club_be.Session.{
  Session, ok, Code, one_row, raise_if, or_raise, scalar_one_or_none, query, ◌>>=◌,
}
use book_club_be.Session.Readers.{IsReader, readers}
use book_club_be.ClubRepository.{
  club_rows, member_rows, get_by_id, get_membership, is_banned, get_join_request,
  get_pending_join_request, get_latest_join_request,
}
use book_club_be.Access.{require_club_organizer, fetch_organizer_membership}
use book_club_be.Clubs.Joining.{membership_answer}
use book_club_be.Clubs.Members.{
  require_removable_organizer, require_bannable_organizer, require_demotable,
}
use book_club_be.Clubs.Common.{
  get_club_or_404, lock_club_for_update, lock_club_and_recheck_actor, get_member_fresh,
  count_organizers, organizers, require_owner_to_act_on_organizer,
}

pub IsReader-get_by_id : (club_id : ℕ) → IsReader (get_by_id club_id)
unfolding get_by_id
IsReader-get_by_id club_id = search readers

pub IsReader-get_membership : (club_id user_id : ℕ) → IsReader (get_membership club_id user_id)
unfolding get_membership
IsReader-get_membership club_id user_id = search readers

pub IsReader-is_banned : (club_id user_id : ℕ) → IsReader (is_banned club_id user_id)
unfolding is_banned
IsReader-is_banned club_id user_id = search readers

pub IsReader-get_join_request : (club_id user_id : ℕ) → IsReader (get_join_request club_id user_id)
unfolding get_join_request
IsReader-get_join_request club_id user_id = search readers

pub IsReader-get_pending :
    (club_id user_id : ℕ) → IsReader (get_pending_join_request club_id user_id)
unfolding get_pending_join_request
IsReader-get_pending club_id user_id = search readers

pub IsReader-require_club_organizer :
    (club_id : ℕ) (u : User) → IsReader (require_club_organizer club_id u)
unfolding require_club_organizer fetch_organizer_membership
IsReader-require_club_organizer club_id u = search readers

pub IsReader-get_club : (club_id : ℕ) → IsReader (get_club_or_404 club_id)
unfolding get_club_or_404 get_by_id
IsReader-get_club club_id = search readers

pub IsReader-lock : (club_id : ℕ) → IsReader (lock_club_for_update club_id)
unfolding lock_club_for_update
IsReader-lock club_id = search readers

pub IsReader-get_member : (club_id user_id : ℕ) → IsReader (get_member_fresh club_id user_id)
unfolding get_member_fresh
IsReader-get_member club_id user_id = search readers

pub IsReader-recheck : (club_id : ℕ) (u : User) → IsReader (lock_club_and_recheck_actor club_id u)
unfolding lock_club_and_recheck_actor
IsReader-recheck club_id u = search (readers, IsReader-lock, IsReader-get_member)

pub IsReader-count_organizers : (club_id : ℕ) → IsReader (count_organizers club_id)
unfolding count_organizers
IsReader-count_organizers club_id = search readers

pub IsReader-require_owner :
    (club : Club) (u : User) → IsReader (require_owner_to_act_on_organizer club u)
unfolding require_owner_to_act_on_organizer
IsReader-require_owner club u = search readers

pub IsReader-get_latest : (club_id user_id : ℕ) → IsReader (get_latest_join_request club_id user_id)
unfolding get_latest_join_request
IsReader-get_latest club_id user_id = search readers

pub IsReader-membership_answer :
    (club_id user_id : ℕ) (m : Option ClubMember) → IsReader (membership_answer club_id user_id m)
unfolding membership_answer
IsReader-membership_answer club_id user_id (some m) = search readers
IsReader-membership_answer club_id user_id none = search (readers, IsReader-get_latest)

pub ruleset club_readers = (
  readers, IsReader-get_by_id, IsReader-get_membership, IsReader-is_banned,
  IsReader-get_join_request, IsReader-get_pending, IsReader-require_club_organizer,
  IsReader-get_club, IsReader-lock, IsReader-get_member, IsReader-recheck,
  IsReader-count_organizers, IsReader-require_owner,
)

pub IsReader-require_removable :
    (club_id user_id : ℕ) (club : Club) (u : User)
    → IsReader (require_removable_organizer club_id user_id club u)
unfolding require_removable_organizer
IsReader-require_removable club_id user_id club u = search club_readers

pub IsReader-require_bannable :
    (club_id : ℕ) (club : Club) (u : User) → IsReader (require_bannable_organizer club_id club u)
unfolding require_bannable_organizer
IsReader-require_bannable club_id club u = search club_readers

pub IsReader-require_demotable :
    (club_id user_id : ℕ) (club : Club) (u : User)
    → IsReader (require_demotable club_id user_id club u)
unfolding require_demotable
IsReader-require_demotable club_id user_id club u = search club_readers

-- A row that was found is the only one.
pub one_row-some : {A : Type 0} {x : A} (xs : List A) → one_row xs ≡ ok (some x) → xs ≡ x ∷ []
one_row-some [] h = cc
one_row-some (x ∷ []) h = ground arith
one_row-some (x ∷ y ∷ xs) h = cc

pub one_row-none : {A : Type 0} (xs : List A) → one_row xs ≡ ok none → xs ≡ []
one_row-none [] h = refl
one_row-none (x ∷ []) h = cc
one_row-none (x ∷ y ∷ xs) h = cc

pub raise_if-ok :
    (c : Bool) (status : ℕ) (code : Code) (s : Session) (t : Unit {0})
    → (raise_if c status code s).0 ≡ ok t
    → c ≡ false
unfolding raise_if
raise_if-ok true status code s t h = cc
raise_if-ok false status code s t h = refl

pub or_raise-ok :
    {A : Type 0} (o : Option A) (status : ℕ) (code : Code) (s : Session) {a : A}
    → (or_raise o status code s).0 ≡ ok a
    → o ≡ some a
unfolding or_raise
or_raise-ok none status code s h = cc
or_raise-ok (some b) status code s h = cc

pub lock-ok :
    (club_id : ℕ) (s : Session) {club : Club}
    → (lock_club_for_update club_id s).0 ≡ ok club
    → club_rows club_id s.work ≡ club ∷ []
unfolding lock_club_for_update ◌>>=◌
lock-ok club_id s h = ground (arith, λ (c : Club). one_row-some {x = c} (club_rows club_id s.work))

pub recheck-ok :
    (club_id : ℕ) (u : User) (s : Session) {club : Club}
    → (lock_club_and_recheck_actor club_id u s).0 ≡ ok club
    → club_rows club_id s.work ≡ club ∷ []
unfolding lock_club_and_recheck_actor lock_club_for_update get_member_fresh ◌>>=◌
recheck-ok club_id u s h =
    ground (arith, λ (c : Club). one_row-some {x = c} (club_rows club_id s.work))

pub member-ok :
    (club_id user_id : ℕ) (s : Session) {found : Option ClubMember} {member : ClubMember}
    → (get_member_fresh club_id user_id s).0 ≡ ok found
    → found ≡ some member
    → member_rows club_id user_id s.work ≡ member ∷ []
unfolding get_member_fresh scalar_one_or_none
member-ok club_id user_id s {member = member} h e =
    one_row-some (member_rows club_id user_id s.work) (h ∙ ap ok e)

pub count_organizers-ok :
    (club_id : ℕ) (s : Session) {n : ℕ}
    → (count_organizers club_id s).0 ≡ ok n
    → organizers club_id s.work ≡ n
unfolding count_organizers query
count_organizers-ok club_id s h = cc
