-- ===== src/Clubs/Ownership/Lifecycle.antt =====
-- Creating, changing and deleting clubs keeps the stored database owned.
use book_club_be.Prelude.{ℕ, ◌≡◌, refl, arith}
use book_club_be.Models.{User, Club}
use book_club_be.Session.{Session, change_sockets}
use book_club_be.Session.Readers.{
  IsReader-raise_if, IsReader-get_now, IsReader-query, IsReader-flush,
}
use book_club_be.Session.Holds.{
  Holds, Holds-read, Holds-pure, Holds-commit, Holds-commit_last, Holds-modify,
}
use book_club_be.Clubs.Common.{close_rooms_best_effort}
use book_club_be.Clubs.Inversion.{IsReader-get_club, IsReader-lock, IsReader-require_club_organizer}
use book_club_be.Clubs.Lifecycle.{
  CreateClubRequest, new_club, create_club_service, change_club, pause_club, cancel_club,
  reschedule_club, delete_club_cascade, delete_club,
}
use book_club_be.Clubs.Ownership.{
  IsOwned, IsUntouched, EndsOwned, EndsOwned-committed, is_owner_row, set_club-IsOwned,
  cascade_delete-IsOwned, new_club-IsOwned,
}

pub create_club-owned :
    (club_id room_id : ℕ) (body : CreateClubRequest) (u : User) (s : Session)
    → IsOwned s.saved
    → IsOwned s.work
    → Holds (IsUntouched s) (EndsOwned s) (create_club_service club_id room_id body u) s
unfolding create_club_service
create_club-owned club_id room_id body u s saved work =
    Holds-read _ _ s (IsReader-raise_if _ _ _) (refl, refl)
      λ _ _.
        Holds-read _ _ s (IsReader-query _) (refl, refl)
          λ _ _.
            Holds-read _ _ s (IsReader-raise_if _ _ _) (refl, refl)
              λ _ _.
                Holds-read _ _ s IsReader-get_now (refl, refl)
                  λ now _. Holds-modify _ _ s (
                    Holds-read _ _ _ IsReader-flush (refl, refl)
                      λ _ _. Holds-modify _ _ _ (
                        Holds-modify _ _ _ (
                          Holds-commit _ _ (refl, refl)
                            λ fine. Holds-pure _ _ (
                              EndsOwned-committed s _
                                (new_club-IsOwned (new_club club_id body u.id) _ s.work
                                  (ground arith) work)
                                refl fine))))

change_club-owned :
    (club_id : ℕ) (u : User) (f : Club → Club) (s : Session)
    → ((c : Club) → is_owner_row (f c) ≡ is_owner_row c)
    → IsOwned s.saved
    → IsOwned s.work
    → Holds (IsUntouched s) (EndsOwned s) (change_club club_id u f) s
unfolding change_club
change_club-owned club_id u f s same saved work =
    Holds-read _ _ s (IsReader-require_club_organizer _ _) (refl, refl)
      λ _ _.
        Holds-read _ _ s (IsReader-get_club _) (refl, refl)
          λ _ _. Holds-modify _ _ s (
            Holds-commit_last _ (refl, refl)
              (EndsOwned-committed s _ (set_club-IsOwned club_id f s.work same work) refl))

pub pause_club-owned :
    (club_id : ℕ) (u : User) (s : Session)
    → IsOwned s.saved
    → IsOwned s.work
    → Holds (IsUntouched s) (EndsOwned s) (pause_club club_id u) s
unfolding pause_club
pause_club-owned club_id u s = change_club-owned club_id u _ s (λ c. refl)

pub cancel_club-owned :
    (club_id : ℕ) (u : User) (s : Session)
    → IsOwned s.saved
    → IsOwned s.work
    → Holds (IsUntouched s) (EndsOwned s) (cancel_club club_id u) s
unfolding cancel_club
cancel_club-owned club_id u s saved work =
    Holds-read _ _ s IsReader-get_now (refl, refl)
      λ now _. change_club-owned club_id u _ s (λ c. refl) saved work

pub reschedule_club-owned :
    (club_id new_date : ℕ) (u : User) (s : Session)
    → IsOwned s.saved
    → IsOwned s.work
    → Holds (IsUntouched s) (EndsOwned s) (reschedule_club club_id new_date u) s
unfolding reschedule_club
reschedule_club-owned club_id new_date u s = change_club-owned club_id u _ s (λ c. refl)

pub delete_club-owned :
    (club_id : ℕ) (u : User) (s : Session)
    → IsOwned s.saved
    → IsOwned s.work
    → Holds (IsUntouched s) (EndsOwned s) (delete_club club_id u) s
unfolding delete_club delete_club_cascade close_rooms_best_effort change_sockets
delete_club-owned club_id u s saved work =
    Holds-read _ _ s (IsReader-require_club_organizer _ _) (refl, refl)
      λ _ _.
        Holds-read _ _ s (IsReader-lock _) (refl, refl)
          λ club _.
            Holds-read _ _ s (IsReader-raise_if _ _ _) (refl, refl)
              λ _ _.
                Holds-read _ _ s (IsReader-query _) (refl, refl)
                  λ room_ids _. Holds-modify _ _ s (
                    Holds-commit _ _ (refl, refl)
                      λ fine. record {
                        at =
                            EndsOwned-committed s _ (cascade_delete-IsOwned club_id s.work work)
                              refl fine;
                      })
