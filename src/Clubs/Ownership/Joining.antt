-- ===== src/Clubs/Ownership/Joining.antt =====
-- The join services keep the stored database owned: app/services/club_service.py.
use book_club_be.Prelude.{ℕ, refl, Bool, true, false, Option, none, some, is_some}
use book_club_be.Models.{
  User, ClubMember, ClubJoinRequest, JoinSource, JoinStatus, manual, event, pending, approved,
  rejected,
}
use book_club_be.Session.{Session}
use book_club_be.Session.Readers.{IsReader-raise_if, IsReader-or_raise, IsReader-get_now}
use book_club_be.Session.Holds.{
  Holds, Holds-read, Holds-reader, Holds-pure, Holds-raise, Holds-query, Holds-commit,
  Holds-commit_last, Holds-modify, Holds-bind, Holds-on_integrity_error,
}
use book_club_be.Clubs.Inversion.{
  IsReader-get_club, IsReader-is_banned, IsReader-get_membership, IsReader-get_join_request,
  IsReader-get_pending, IsReader-require_club_organizer, IsReader-membership_answer,
}
use book_club_be.Clubs.Joining.{
  answer_member, reopen, open_request, join_or_answer, request_join_club_service, approve_rows,
  retry_approval, approve_join_request_service, reject_join_request_service,
  get_my_membership_service,
}
use book_club_be.Clubs.Ownership.{
  IsOwned, IsUntouched, EndsOwned, EndsOwned-kept, EndsOwned-committed, IsUntouched-IsOwned,
  add_member-IsOwned,
}

reopen-owned :
    (club_id user_id : ℕ) (source : JoinSource) (status : JoinStatus) (s : Session)
    → IsOwned s.saved
    → IsOwned s.work
    → Holds (IsUntouched s) (EndsOwned s) (reopen club_id user_id source status) s
unfolding reopen
reopen-owned club_id user_id source pending s saved work =
    Holds-pure _ s (EndsOwned-kept s s saved work (refl, refl))
reopen-owned club_id user_id source approved s saved work =
    Holds-pure _ s (EndsOwned-kept s s saved work (refl, refl))
reopen-owned club_id user_id source rejected s saved work =
    Holds-modify _ _ s (
      Holds-commit _ _ (refl, refl) λ fine. Holds-pure _ _ (EndsOwned-committed s _ work refl fine))

open_request-owned :
    (club_id user_id : ℕ) (source : JoinSource) (r : Option ClubJoinRequest) (s : Session)
    → IsOwned s.saved
    → IsOwned s.work
    → Holds (IsUntouched s) (EndsOwned s) (open_request club_id user_id source r) s
unfolding open_request
open_request-owned club_id user_id source (some r) s saved work =
    reopen-owned club_id user_id source r.status s saved work
open_request-owned club_id user_id source none s saved work =
    Holds-read _ _ s IsReader-get_now (refl, refl)
      λ now _. Holds-modify _ _ s (
        Holds-on_integrity_error _ _ _
          (Holds-commit _ _ (refl, refl)
            λ fine. Holds-pure _ _ (EndsOwned-committed s _ work refl fine))
          (λ s' h.
            let stored = IsUntouched-IsOwned s s' h saved in
            Holds-pure _ _ (EndsOwned-kept s _ stored stored h)))

join_or_answer-owned :
    (club_id user_id : ℕ) (source : JoinSource) (m : Option ClubMember) (s : Session)
    → IsOwned s.saved
    → IsOwned s.work
    → Holds (IsUntouched s) (EndsOwned s) (join_or_answer club_id user_id source m) s
unfolding join_or_answer answer_member
join_or_answer-owned club_id user_id manual (some m) s saved work = Holds-raise _ _ s (refl, refl)
join_or_answer-owned club_id user_id event (some m) s saved work =
    Holds-pure _ s (EndsOwned-kept s s saved work (refl, refl))
join_or_answer-owned club_id user_id source none s saved work =
    Holds-read _ _ s (IsReader-get_join_request _ _) (refl, refl)
      λ r _. open_request-owned club_id user_id source r s saved work

pub request_join-owned :
    (club_id : ℕ) (u : User) (source : JoinSource) (s : Session)
    → IsOwned s.saved
    → IsOwned s.work
    → Holds (IsUntouched s) (EndsOwned s) (request_join_club_service club_id u source) s
unfolding request_join_club_service
request_join-owned club_id u source s saved work =
    Holds-read _ _ s (IsReader-get_club _) (refl, refl)
      λ _ _.
        Holds-read _ _ s (IsReader-is_banned _ _) (refl, refl)
          λ _ _.
            Holds-read _ _ s (IsReader-raise_if _ _ _) (refl, refl)
              λ _ _.
                Holds-read _ _ s (IsReader-get_membership _ _) (refl, refl)
                  λ m _. join_or_answer-owned club_id u.id source m s saved work

approve_rows-IsOwned :
    (club_id user_id by now : ℕ) (b : Bool) (s : Session)
    → IsOwned s.work
    → IsOwned (approve_rows club_id user_id by now b s.work)
approve_rows-IsOwned club_id user_id by now true s h = h
approve_rows-IsOwned club_id user_id by now false s h = add_member-IsOwned _ s.work h

retry-owned :
    (club_id user_id by now : ℕ) (r : Option ClubJoinRequest) (s s' : Session)
    → IsUntouched s s'
    → IsOwned s'.saved
    → IsOwned s'.work
    → Holds (IsUntouched s) (EndsOwned s) (retry_approval club_id user_id by now r) s'
unfolding retry_approval
retry-owned club_id user_id by now none s s' same saved work =
    Holds-pure _ s' (EndsOwned-kept s s' saved work same)
retry-owned club_id user_id by now (some r) s s' same saved work =
    Holds-modify _ _ s' (Holds-commit_last _ same (EndsOwned-committed s _ work refl))

pub approve-owned :
    (club_id user_id : ℕ) (u : User) (s : Session)
    → IsOwned s.saved
    → IsOwned s.work
    → Holds (IsUntouched s) (EndsOwned s) (approve_join_request_service club_id user_id u) s
unfolding approve_join_request_service
approve-owned club_id user_id u s saved work =
    Holds-read _ _ s (IsReader-require_club_organizer _ _) (refl, refl)
      λ _ _.
        Holds-read _ _ s (IsReader-get_pending _ _) (refl, refl)
          λ found _.
            Holds-read _ _ s (IsReader-or_raise _ _ _) (refl, refl)
              λ _ _.
                Holds-read _ _ s (IsReader-get_membership _ _) (refl, refl)
                  λ m _.
                    Holds-read _ _ s IsReader-get_now (refl, refl)
                      λ now _. Holds-modify _ _ s (
                        Holds-bind _ _ _
                          (Holds-on_integrity_error _ _ _
                            (Holds-commit_last _ (refl, refl)
                              (EndsOwned-committed s _
                                (approve_rows-IsOwned club_id user_id u.id now (is_some m) s work)
                                refl))
                            (λ s' h.
                              let stored = IsUntouched-IsOwned s s' h saved in
                              Holds-read _ _ _ (IsReader-get_join_request _ _) h
                                λ r _. retry-owned club_id user_id u.id now r s _ h stored stored))
                          (λ _ s' h. Holds-query _ s' h))

pub reject-owned :
    (club_id user_id : ℕ) (u : User) (s : Session)
    → IsOwned s.saved
    → IsOwned s.work
    → Holds (IsUntouched s) (EndsOwned s) (reject_join_request_service club_id user_id u) s
unfolding reject_join_request_service
reject-owned club_id user_id u s saved work =
    Holds-read _ _ s (IsReader-require_club_organizer _ _) (refl, refl)
      λ _ _.
        Holds-read _ _ s (IsReader-get_pending _ _) (refl, refl)
          λ found _.
            Holds-read _ _ s (IsReader-or_raise _ _ _) (refl, refl)
              λ _ _.
                Holds-read _ _ s IsReader-get_now (refl, refl)
                  λ now _.
                    Holds-modify _ _ s
                      (Holds-commit_last _ (refl, refl) (EndsOwned-committed s _ work refl))

pub get_my_membership-owned :
    (club_id : ℕ) (u : User) (s : Session)
    → IsOwned s.saved
    → IsOwned s.work
    → Holds (IsUntouched s) (EndsOwned s) (get_my_membership_service club_id u) s
unfolding get_my_membership_service
get_my_membership-owned club_id u s saved work =
    Holds-read _ _ s (IsReader-get_club _) (refl, refl)
      λ _ _.
        Holds-read _ _ s (IsReader-get_membership _ _) (refl, refl)
          λ m _.
            Holds-reader _ s (IsReader-membership_answer _ _ m) (refl, refl)
              (EndsOwned-kept s s saved work (refl, refl))
