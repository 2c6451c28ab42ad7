-- ===== src/Clubs/Ownership/Members.antt =====
-- The member services keep the stored database owned: app/services/club_service.py.
use book_club_be.Prelude.{ℕ, ◌≡◌, refl, true, not, ◌||◌, [], ◌∷◌, arith, ◌==◌}
use book_club_be.Models.{User, Club, ClubMember, MemberRole, BanDuration, is_organizer_role}
use book_club_be.Session.{Session, ok, pure, when, ◌>>=◌}
use book_club_be.Session.Readers.{
  IsReader-query, IsReader-scalar, IsReader-raise_if, IsReader-or_raise, IsReader-get_now,
  IsReader-when,
}
use book_club_be.Session.Holds.{
  Holds, Holds-read, Holds-if, Holds-pure, Holds-commit, Holds-commit_last, Holds-modify,
}
use book_club_be.ClubRepository.{club_rows}
use book_club_be.Clubs.Inversion.{
  lock-ok, recheck-ok, raise_if-ok, IsReader-lock, IsReader-get_member, IsReader-count_organizers,
  IsReader-require_club_organizer, IsReader-recheck, IsReader-require_removable,
  IsReader-require_bannable, IsReader-require_demotable,
}
use book_club_be.Clubs.Members.{
  leave_club_service, same_role, remove_member_service, ban_user_service, unban_user_service,
  change_member_role_service, store_role, require_demotable, add_ban, new_ban,
}
use book_club_be.Clubs.Steps.{Holds-remove_member, Holds-kick, Holds-kick_bind}
use book_club_be.Clubs.Ownership.{
  IsOwned, IsUntouched, EndsOwned, EndsOwned-kept, EndsOwned-committed, without_member-IsOwned,
  with_role-IsOwned,
}

pub leave-owned :
    (club_id : ℕ) (u : User) (s : Session)
    → IsOwned s.saved
    → IsOwned s.work
    → Holds (IsUntouched s) (EndsOwned s) (leave_club_service club_id u) s
unfolding leave_club_service
leave-owned club_id u s saved work =
    Holds-read _ _ s (IsReader-lock club_id) (refl, refl)
      λ club locked.
        Holds-read _ _ s (IsReader-raise_if _ _ _) (refl, refl)
          λ _ other.
            Holds-read _ _ s (IsReader-get_member _ _) (refl, refl)
              λ found _.
                Holds-read _ _ s (IsReader-or_raise _ _ _) (refl, refl)
                  λ member _.
                    Holds-read _ _ s (IsReader-count_organizers _) (refl, refl)
                      λ n _.
                        Holds-read _ _ s (IsReader-raise_if _ _ _) (refl, refl)
                          λ _ _. Holds-remove_member club_id u.id _ s (
                            Holds-commit _ _ (refl, refl)
                              λ fine. Holds-kick club_id u.id _ (
                                EndsOwned-committed s _
                                  (without_member-IsOwned club_id u.id s.now s.work club
                                    (lock-ok club_id s locked) (raise_if-ok _ _ _ s _ other) work)
                                  refl fine))

-- A demotion that passes its checks is not of the owner.
demotion-ok :
    (club_id user_id : ℕ) (role : MemberRole) (club : Club) (u : User) (s : Session) (t : Unit {0})
    → (when (same_role role MemberRole.member) (require_demotable club_id user_id club u) s).0
      ≡ ok t
    → (is_organizer_role role || not (club.organizer_id == user_id)) ≡ true
unfolding when require_demotable ◌>>=◌
demotion-ok club_id user_id MemberRole.organizer club u s t h = refl
demotion-ok club_id user_id MemberRole.member club u s t h = ground arith

store_role-owned :
    (club_id user_id : ℕ) (role : MemberRole) (club : Club) (u : User) (member : ClubMember)
    (s : Session)
    → IsOwned s.saved
    → IsOwned s.work
    → club_rows club_id s.work ≡ club ∷ []
    → Holds (IsUntouched s) (EndsOwned s) (store_role club_id user_id role club u member) s
unfolding store_role
store_role-owned club_id user_id role club u member s saved work one =
    Holds-read _ _ s (IsReader-when _ _ (IsReader-require_demotable _ _ _ _)) (refl, refl)
      λ t fair. Holds-modify _ _ s (
        Holds-commit _ _ (refl, refl)
          λ fine. Holds-pure _ _ (
            EndsOwned-committed s _
              (with_role-IsOwned club_id user_id role s.work club one
                (demotion-ok club_id user_id role club u s t fair) work)
              refl fine))

pub remove_member-owned :
    (club_id user_id : ℕ) (u : User) (s : Session)
    → IsOwned s.saved
    → IsOwned s.work
    → Holds (IsUntouched s) (EndsOwned s) (remove_member_service club_id user_id u) s
unfolding remove_member_service
remove_member-owned club_id user_id u s saved work =
    Holds-read _ _ s (IsReader-require_club_organizer _ _) (refl, refl)
      λ _ _.
        Holds-read _ _ s (IsReader-recheck _ _) (refl, refl)
          λ club locked.
            Holds-read _ _ s (IsReader-get_member _ _) (refl, refl)
              λ found _.
                Holds-read _ _ s (IsReader-or_raise _ _ _) (refl, refl)
                  λ member _.
                    Holds-read _ _ s (IsReader-raise_if _ _ _) (refl, refl)
                      λ _ other.
                        Holds-read _ _ s (IsReader-when _ _ (IsReader-require_removable _ _ _ _))
                          (refl, refl)
                          λ _ _. Holds-remove_member club_id user_id _ s (
                            Holds-commit _ _ (refl, refl)
                              λ fine. Holds-kick club_id user_id _ (
                                EndsOwned-committed s _
                                  (without_member-IsOwned club_id user_id s.now s.work club
                                    (recheck-ok club_id u s locked) (raise_if-ok _ _ _ s _ other)
                                    work)
                                  refl fine))

pub ban_user-owned :
    (club_id user_id : ℕ) (duration : BanDuration) (u : User) (s : Session)
    → IsOwned s.saved
    → IsOwned s.work
    → Holds (IsUntouched s) (EndsOwned s) (ban_user_service club_id user_id duration u) s
unfolding ban_user_service
ban_user-owned club_id user_id duration u s saved work =
    Holds-read _ _ s (IsReader-require_club_organizer _ _) (refl, refl)
      λ _ _.
        Holds-read _ _ s (IsReader-recheck _ _) (refl, refl)
          λ club locked.
            Holds-read _ _ s (IsReader-scalar _) (refl, refl)
              λ target _.
                Holds-read _ _ s (IsReader-or_raise _ _ _) (refl, refl)
                  λ _ _.
                    Holds-read _ _ s (IsReader-raise_if _ _ _) (refl, refl)
                      λ _ other.
                        Holds-read _ _ s (IsReader-raise_if _ _ _) (refl, refl)
                          λ _ _.
                            Holds-read _ _ s (IsReader-get_member _ _) (refl, refl)
                              λ target_member _.
                                Holds-read _ _ s
                                  (IsReader-when _ _ (IsReader-require_bannable _ _ _)) (refl, refl)
                                  λ _ _.
                                    Holds-read _ _ s IsReader-get_now (refl, refl)
                                      λ now _. Holds-modify _ _ s (
                                        Holds-remove_member club_id user_id _ _ (
                                          Holds-commit _ _ (refl, refl)
                                            λ fine. Holds-kick_bind club_id user_id _ _ (
                                              Holds-pure _ _ (
                                                EndsOwned-committed s _
                                                  (without_member-IsOwned club_id user_id s.now
                                                    (add_ban
                                                      (new_ban club_id user_id duration u.id now)
                                                      s.work)
                                                    club (recheck-ok club_id u s locked)
                                                    (raise_if-ok _ _ _ s _ other) work)
                                                  refl fine))))

pub unban_user-owned :
    (club_id user_id : ℕ) (u : User) (s : Session)
    → IsOwned s.saved
    → IsOwned s.work
    → Holds (IsUntouched s) (EndsOwned s) (unban_user_service club_id user_id u) s
unfolding unban_user_service
unban_user-owned club_id user_id u s saved work =
    Holds-read _ _ s (IsReader-require_club_organizer _ _) (refl, refl)
      λ _ _.
        Holds-read _ _ s (IsReader-query _) (refl, refl)
          λ _ _.
            Holds-read _ _ s (IsReader-raise_if _ _ _) (refl, refl)
              λ _ _.
                Holds-modify _ _ s
                  (Holds-commit_last _ (refl, refl) (EndsOwned-committed s _ work refl))

pub change_member_role-owned :
    (club_id user_id : ℕ) (role : MemberRole) (u : User) (s : Session)
    → IsOwned s.saved
    → IsOwned s.work
    → Holds (IsUntouched s) (EndsOwned s) (change_member_role_service club_id user_id role u) s
unfolding change_member_role_service
change_member_role-owned club_id user_id role u s saved work =
    Holds-read _ _ s (IsReader-require_club_organizer _ _) (refl, refl)
      λ _ _.
        Holds-read _ _ s (IsReader-recheck _ _) (refl, refl)
          λ club locked.
            Holds-read _ _ s (IsReader-get_member _ _) (refl, refl)
              λ found _.
                Holds-read _ _ s (IsReader-or_raise _ _ _) (refl, refl)
                  λ member _.
                    Holds-if (same_role member.role role) (pure member) _ s
                      (λ _. Holds-pure member s (EndsOwned-kept s s saved work (refl, refl)))
                      (λ _.
                        store_role-owned club_id user_id role club u member s saved work
                          (recheck-ok club_id u s locked))
