-- ===== src/Clubs/Requests/Owners.antt =====
-- No history of requests leaves a club without an organizer.
use book_club_be.Prelude.{ℕ, ◌≡◌, ap₂, false, inl, inr, List, [], ◌∷◌, arith, Bool-cases}
use book_club_be.Database.{integrity}
use book_club_be.Session.{Session, Service, Result, ok, err, begin, finish, serve}
use book_club_be.Session.Holds.{Holds, Holds-bind, Holds-pure, After}
use book_club_be.Clubs.Ownership.{IsOwned, IsUntouched, EndsOwned, IsUntouched-IsOwned}
use book_club_be.Clubs.Ownership.Members.{
  leave-owned, remove_member-owned, ban_user-owned, unban_user-owned, change_member_role-owned,
}
use book_club_be.Clubs.Ownership.Joining.{
  request_join-owned, approve-owned, reject-owned, get_my_membership-owned,
}
use book_club_be.Clubs.Ownership.Lifecycle.{
  create_club-owned, pause_club-owned, cancel_club-owned, reschedule_club-owned, delete_club-owned,
}
use book_club_be.Clubs.Requests.{
  Request, create, pause, cancel, remove_club, leave, my_membership, reschedule, request_join,
  approve, reject, remove, unban, ban, change_role, done, handle, answer, returns, World, step, run,
}

done-owned :
    {A : Type 0} (m : Service A) (s : Session)
    → Holds (IsUntouched s) (EndsOwned s) m s
    → Holds (IsUntouched s) (EndsOwned s) (done m) s
done-owned m s h = Holds-bind m _ s h (λ _ s' e. Holds-pure _ s' e)

handle-owned :
    (r : Request) (s : Session)
    → IsOwned s.saved
    → IsOwned s.work
    → Holds (IsUntouched s) (EndsOwned s) (handle r) s
unfolding handle
handle-owned (create club_id room_id body u) s h w =
    done-owned _ s (create_club-owned club_id room_id body u s h w)
handle-owned (pause club_id u) s h w = pause_club-owned club_id u s h w
handle-owned (cancel club_id u) s h w = cancel_club-owned club_id u s h w
handle-owned (remove_club club_id u) s h w = delete_club-owned club_id u s h w
handle-owned (leave club_id u) s h w = leave-owned club_id u s h w
handle-owned (my_membership club_id u) s h w =
    done-owned _ s (get_my_membership-owned club_id u s h w)
handle-owned (reschedule club_id new_date u) s h w = reschedule_club-owned club_id new_date u s h w
handle-owned (request_join club_id u source) s h w =
    done-owned _ s (request_join-owned club_id u source s h w)
handle-owned (approve club_id user_id u) s h w =
    done-owned _ s (approve-owned club_id user_id u s h w)
handle-owned (reject club_id user_id u) s h w = reject-owned club_id user_id u s h w
handle-owned (remove club_id user_id u) s h w = remove_member-owned club_id user_id u s h w
handle-owned (unban club_id user_id u) s h w = unban_user-owned club_id user_id u s h w
handle-owned (ban club_id user_id duration u) s h w =
    done-owned _ s (ban_user-owned club_id user_id duration u s h w)
handle-owned (change_role club_id user_id role u) s h w =
    done-owned _ s (change_member_role-owned club_id user_id role u s h w)

finish-IsOwned :
    {A : Type 0} (r : Result A) (s s' : Session)
    → IsOwned s.saved
    → After (IsUntouched s) (EndsOwned s) r s'
    → IsOwned (finish (r, s')).1.saved
finish-IsOwned (ok a) s s' h e = elim (Bool-cases (integrity s'.work)) [
  | inl fine ↦ rw fine e.to_store
  | inr broken ↦ rw broken e.stored
]
finish-IsOwned (err e) s s' h same = IsUntouched-IsOwned s s' same h

step-IsOwned :
    (now : ℕ) (r : Request) (w : World) → IsOwned w.database → IsOwned (step now r w).database
unfolding step serve
step-IsOwned now r w h =
    let s = begin w.database now w.manager in
    finish-IsOwned (handle r s).0 s (handle r s).1 h (handle-owned r s h h).at

finish-IsUntouched :
    {A : Type 0} (r : Result A) (s s' : Session)
    → After (IsUntouched s) (EndsOwned s) r s'
    → returns (finish (r, s')).0 ≡ false
    → IsUntouched s (finish (r, s')).1
finish-IsUntouched (ok a) s s' e h = elim e.why [
  | inl same ↦ elim (Bool-cases (integrity s'.work)) [
    | inl fine ↦ ground arith
    | inr broken ↦ rw broken same
  ]
  | inr fine ↦ ground arith
]
finish-IsUntouched (err e) s s' same h = same

-- A request on clubs that is answered with an error, by whichever check or constraint, leaves the
-- stored tables and the chat connections as they were, if every club's owner was one of its
-- organizers.
pub step-error :
    (now : ℕ) (r : Request) (w : World)
    → IsOwned w.database
    → returns (answer now r w) ≡ false
    → step now r w ≡ w
unfolding step answer serve
step-error now r w h e =
    let s = begin w.database now w.manager in
    let same = finish-IsUntouched (handle r s).0 s (handle r s).1 (handle-owned r s h h).at e in
    ap₂ (λ d m. record { database = d; manager = m }) same.0 same.1

-- After any history of requests on clubs, by any users at any times, every club's owner has a
-- membership in the club with the role of organizer, if that was so at the start.
pub run-IsOwned :
    (rs : List (ℕ × Request)) (w : World) → IsOwned w.database → IsOwned (run rs w).database
unfolding run
run-IsOwned [] w h = h
run-IsOwned ((now, r) ∷ rs) w h = run-IsOwned rs (step now r w) (step-IsOwned now r w h)
