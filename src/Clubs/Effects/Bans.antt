-- ===== src/Clubs/Effects/Bans.antt =====
-- What a ban does: the user is out of the club and cannot ask to join while the ban is in force.
use book_club_be.Prelude.{
  ℕ, ◌+◌, Option, some, none, ap, ◌≡◌, refl, subst, ◌∙◌, Bool, true, false, ◌&&◌, List, [], ◌∷◌,
  ◌++◌, arith, ◌==◌, select, select-append, exists-append,
}
use book_club_be.Models.{
  User, Club, ClubBan, BanDuration, one_day, three_days, five_days, permanent, JoinSource,
}
use book_club_be.Database.{Database, integrity, clubs_integrity, unique}
use book_club_be.Session.{Session, ok, err, app_error, club_banned, begin, ◌>>=◌}
use book_club_be.Session.Readers.{
  IsReader-raise_if, IsReader-or_raise, IsReader-when, IsReader-scalar,
}
use book_club_be.Session.Holds.{
  Holds, Holds-read, Holds-commit, Holds-modify, Holds-pure, Holds-get_now,
}
use book_club_be.Connections.{ConnectionManager}
use book_club_be.ClubRepository.{
  is_in_force, active_bans, club_rows, member_rows, without_member, get_by_id, is_banned,
}
use book_club_be.Clubs.Common.{get_club_or_404}
use book_club_be.Clubs.Inversion.{
  recheck-ok, raise_if-ok, IsReader-get_member, IsReader-require_club_organizer, IsReader-recheck,
  IsReader-require_bannable,
}
use book_club_be.Clubs.Removal.{
  IsRemoval, IsKickedOut, without_member-IsRemoval, kick_from_rooms-IsKickedOut,
}
use book_club_be.Clubs.Steps.{Holds-remove_member, Holds-kick_bind, Holds-returns}
use book_club_be.Clubs.Members.{ban_user_service, add_ban, new_ban, expiry}
use book_club_be.Clubs.Joining.{request_join_club_service}
use book_club_be.Clubs.Effects.{without_member-rows}

-- a unique last row shares its key with no other
pub unique-last {ℓ} :
    {A : Type ℓ} (same : A → A → Bool) (p : A → Bool) (b : A)
    → ((x : A) → p x ≡ true → same x b ≡ true)
    → (xs : List A) → unique same (xs ++ b ∷ []) ≡ true
    → select p xs ≡ []
unfolding unique
unique-last same p b f [] h = refl
unique-last same p b f (x ∷ xs) h =
    ground (arith, f x, unique-last same p b f xs, exists-append (same x) xs (b ∷ []))

-- When a ban ends: 24 hours are 86400000000 microseconds.
abbrev ends_at : ℕ → BanDuration → Option ℕ
ends_at now one_day = some (now + 86400000000)
ends_at now three_days = some (now + 259200000000)
ends_at now five_days = some (now + 432000000000)
ends_at now permanent = none

expiry_lem : (now : ℕ) (d : BanDuration) → expiry now d ≡ ends_at now d
expiry_lem now one_day = refl
expiry_lem now three_days = refl
expiry_lem now five_days = refl
expiry_lem now permanent = refl

-- the one row that a ban adds
abbrev pub ban_row : ℕ → ℕ → BanDuration → ℕ → ℕ → ClubBan
ban_row club_id user_id duration banned_by now = record {
  club_id = club_id;
  user_id = user_id;
  banned_by = banned_by;
  banned_at = now;
  duration = duration;
  expires_at = ends_at now duration;
}

-- the user has been banned from the club
pub record HasBanned (club_id user_id : ℕ) (duration : BanDuration) (by : User) (s s' : Session)
    : Type 0 where
  pub club : Club
  pub found : club_rows club_id s.work ≡ club ∷ []
  pub not_owner : (club.organizer_id == user_id) ≡ false
  pub not_self : (user_id == by.id) ≡ false
  pub is_gone : member_rows club_id user_id s'.saved ≡ []
  pub only_that :
      s'.saved
      ≡ without_member club_id user_id s.now
          (add_ban (new_ban club_id user_id duration by.id s.now) s.work)
  pub bans : s'.saved.bans ≡ s.work.bans ++ ban_row club_id user_id duration by.id s.now ∷ []
  pub removed : IsRemoval club_id user_id s.now (record s.work { bans = s'.saved.bans }) s'.saved
  pub kicked : IsKickedOut club_id user_id s.work s.manager s'.manager
  pub fine : integrity s'.saved ≡ true

ban-Holds :
    (club_id user_id : ℕ) (duration : BanDuration) (u : User) (s : Session)
    → Holds
        (λ _. Unit)
        (HasBanned club_id user_id duration u s)
        (ban_user_service club_id user_id duration u)
        s
unfolding ban_user_service without_member
ban-Holds club_id user_id duration u s =
    Holds-read _ _ s (IsReader-require_club_organizer _ _) tt λ _ _.
      Holds-read _ _ s (IsReader-recheck _ _) tt λ club locked.
        Holds-read _ _ s (IsReader-scalar _) tt λ target _.
          Holds-read _ _ s (IsReader-or_raise _ _ _) tt λ _ _.
            Holds-read _ _ s (IsReader-raise_if _ _ _) tt λ _ other.
              Holds-read _ _ s (IsReader-raise_if _ _ _) tt λ _ another.
                Holds-read _ _ s (IsReader-get_member _ _) tt λ target_member _.
                  Holds-read _ _ s (IsReader-when _ _ (IsReader-require_bannable _ _ _)) tt λ _ _.
                    Holds-get_now _ s (
                      Holds-modify _ _ s (
                        Holds-remove_member club_id user_id _ _ (
                          Holds-commit _ _ tt λ fine. Holds-kick_bind club_id user_id _ _ (
                            Holds-pure _ _ record {
                              club = club;
                              found = recheck-ok club_id u s locked;
                              not_owner = raise_if-ok _ _ _ s _ other;
                              not_self = raise_if-ok _ _ _ s _ another;
                              is_gone =
                                  without_member-rows club_id user_id s.now
                                    (add_ban (new_ban club_id user_id duration u.id s.now) s.work);
                              only_that = refl;
                              bans =
                                  ap
                                    (λ e.
                                      s.work.bans
                                      ++ (record (new_ban club_id user_id duration u.id s.now) {
                                        expires_at = e;
                                      })
                                        ∷ [])
                                    (expiry_lem s.now duration);
                              removed =
                                  without_member-IsRemoval club_id user_id s.now
                                    (add_ban (new_ban club_id user_id duration u.id s.now) s.work);
                              kicked = kick_from_rooms-IsKickedOut club_id user_id s.work s.manager;
                              fine = fine;
                            }))))

-- A ban, with no error, is of neither the club's owner nor the banning user; the banned user is no
-- member any more. One ban row is added, by the banning user and at the time of the request, which
-- ends 24, 72 or 120 hours later or never. Otherwise only the banned user's membership and
-- attendances of those events of the club that lie ahead are gone, every chat room keeps its
-- sockets, except that theirs are gone from the club's rooms, and the tables meet their
-- constraints.
pub ban_user-HasBanned :
    (club_id user_id : ℕ) (duration : BanDuration) (by : User) (s : Session) {ban : ClubBan}
    → (ban_user_service club_id user_id duration by s).0 ≡ ok ban
    → HasBanned club_id user_id duration by s (ban_user_service club_id user_id duration by s).1
ban_user-HasBanned club_id user_id duration by s =
    Holds-returns (ban_user_service club_id user_id duration by) s
      (ban-Holds club_id user_id duration by s)

abbrev pub same_pair : ClubBan → ClubBan → Bool
same_pair a b = a.club_id == b.club_id && a.user_id == b.user_id

abbrev is_active_ban : ℕ → ℕ → ℕ → ClubBan → Bool
is_active_ban club_id user_id t b =
    b.club_id == club_id && b.user_id == user_id && is_in_force t b.expires_at

pub bans-unique : (db : Database) → integrity db ≡ true → unique same_pair db.bans ≡ true
unfolding integrity clubs_integrity
bans-unique db h = ground arith

-- the one ban of the user that is in force
banned-active :
    (club_id user_id t : ℕ) (db : Database) (b : ClubBan)
    → unique same_pair (db.bans ++ b ∷ []) ≡ true
    → b.club_id ≡ club_id
    → b.user_id ≡ user_id
    → is_in_force t b.expires_at ≡ true
    → active_bans club_id user_id t (add_ban b db) ≡ b ∷ []
banned-active club_id user_id t db b fine ec eu force =
    select-append (is_active_ban club_id user_id t) db.bans (b ∷ [])
    ∙ rw
        (unique-last same_pair (is_active_ban club_id user_id t) b (λ x h. ground arith) db.bans
          fine)
        (ground arith)

-- A request to join that follows a ban of its user, while that ban is in force, is refused as
-- banned.
pub ban-blocks_join :
    (club_id user_id : ℕ) (duration : BanDuration) (by : User) (s : Session) {ban : ClubBan}
    → (ban_user_service club_id user_id duration by s).0 ≡ ok ban
    → (u : User) (source : JoinSource) (t : ℕ) (manager : ConnectionManager) → u.id ≡ user_id
    → is_in_force t (expiry s.now duration) ≡ true
    → (request_join_club_service club_id u source
        (begin (ban_user_service club_id user_id duration by s).1.saved t manager)).0
      ≡ err (app_error 403 club_banned)
unfolding request_join_club_service get_club_or_404 get_by_id is_banned without_member ◌>>=◌
ban-blocks_join club_id user_id duration by s h u source t manager same force =
    let b = ban_user-HasBanned club_id user_id duration by s h in
    let fine = subst (λ d. unique same_pair d.bans ≡ true) b.only_that (bans-unique _ b.fine) in
    rw
      (
        b.only_that,
        b.found,
        same,
        banned-active club_id user_id t s.work (new_ban club_id user_id duration by.id s.now) fine
            refl refl force,
      )
      refl
