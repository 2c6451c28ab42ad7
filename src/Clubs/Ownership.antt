-- ===== src/Clubs/Ownership.antt =====
-- The owner of a club stays one of its organizers.
pub mod Members
pub mod Joining
pub mod Lifecycle
use book_club_be.Prelude.{
  ℕ, ◌≡◌, refl, sym, subst, ◌∙◌, Bool, true, false, not, ◌&&◌, ◌||◌, ◌⊎◌, inl, inr, Option, none,
  some, List, [], ◌∷◌, ◌++◌, arith, ◌==◌, leb, if◌then◌else◌, exists, select, delete, update, All,
  All-split, All-map, All-append, All-select, exists-append, Bool-cases,
}
use book_club_be.Models.{User, Club, ClubMember, MemberRole, BanDuration, is_organizer_role}
use book_club_be.Database.{Database, integrity}
use book_club_be.Session.{Session, Service, ok, when, change_sockets, ◌>>=◌}
use book_club_be.Session.Readers.{
  readers, IsReader, IsReader-query, IsReader-pure, IsReader-scalar, IsReader-raise_if,
  IsReader-or_raise, IsReader-get_now, IsReader-when,
}
use book_club_be.Session.Holds.{
  Holds, Holds-read, Holds-if, Holds-reader, Holds-commit, Holds-commit_last, Holds-modify,
}
use book_club_be.ClubRepository.{
  cascade_delete, is_membership, club_rows, without_member, remove_member,
}
use book_club_be.Clubs.Common.{kick_user_from_club_rooms}
use book_club_be.Clubs.Inversion.{
  lock-ok, recheck-ok, raise_if-ok, club_readers, IsReader-lock, IsReader-get_member,
  IsReader-count_organizers, IsReader-require_club_organizer, IsReader-recheck,
}
use book_club_be.Clubs.Joining.{add_member}
use book_club_be.Clubs.Lifecycle.{set_club, add_club}
use book_club_be.Clubs.Members.{
  leave_club_service, with_role, set_role, same_role, remove_member_service, ban_user_service,
  unban_user_service, change_member_role_service, store_role, require_demotable,
  require_removable_organizer,
}

abbrev pub is_owner_row : Club → ClubMember → Bool
is_owner_row c m = is_membership c.id c.organizer_id m && is_organizer_role m.role

-- Every club's owner has a membership in it with the role of organizer.
abbrev pub IsOwned : Database → Type 0
IsOwned db = All (λ c. exists (is_owner_row c) db.members ≡ true) db.clubs

exists-delete :
    (c : Club) (club_id user_id : ℕ) (ms : List ClubMember)
    → (c.id == club_id && c.organizer_id == user_id) ≡ false
    → exists (is_owner_row c) ms ≡ true
    → exists (is_owner_row c) (delete (is_membership club_id user_id) ms) ≡ true
exists-delete c club_id user_id [] h e = e
exists-delete c club_id user_id (m ∷ ms) h e = ground (arith, exists-delete c club_id user_id ms)

pub without_member-IsOwned :
    (club_id user_id now : ℕ) (db : Database) (club : Club)
    → club_rows club_id db ≡ club ∷ []
    → (club.organizer_id == user_id) ≡ false
    → IsOwned db
    → IsOwned (without_member club_id user_id now db)
unfolding without_member
without_member-IsOwned club_id user_id now db club one other h =
    All-split _ _ (λ c. c.id == club_id) db.clubs
      (λ c ne. exists-delete c club_id user_id db.members (ground arith))
      (rw one ((λ e. exists-delete club club_id user_id db.members (ground arith) e), tt)) h

exists-update :
    (c : Club) (club_id user_id : ℕ) (role : MemberRole) (ms : List ClubMember)
    → (is_organizer_role role || not (c.id == club_id && c.organizer_id == user_id)) ≡ true
    → exists (is_owner_row c) ms ≡ true
    → exists (is_owner_row c) (update (is_membership club_id user_id) (set_role role) ms) ≡ true
exists-update c club_id user_id role [] h e = e
exists-update c club_id user_id role (m ∷ ms) h e =
    ground (arith, exists-update c club_id user_id role ms)

pub with_role-IsOwned :
    (club_id user_id : ℕ) (role : MemberRole) (db : Database) (club : Club)
    → club_rows club_id db ≡ club ∷ []
    → (is_organizer_role role || not (club.organizer_id == user_id)) ≡ true
    → IsOwned db
    → IsOwned (with_role club_id user_id role db)
unfolding with_role
with_role-IsOwned club_id user_id role db club one fair h =
    All-split _ _ (λ c. c.id == club_id) db.clubs
      (λ c ne. exists-update c club_id user_id role db.members (ground arith))
      (rw one ((λ e. exists-update club club_id user_id role db.members (ground arith) e), tt)) h

pub add_member-IsOwned : (m : ClubMember) (db : Database) → IsOwned db → IsOwned (add_member m db)
add_member-IsOwned m db h =
    All-map _ _ (λ c e. exists-append (is_owner_row c) db.members (m ∷ []) ∙ rw e) db.clubs h

-- A change of a club's row that leaves its id and owner alone.
pub set_club-IsOwned :
    (club_id : ℕ) (f : Club → Club) (db : Database)
    → ((c : Club) → is_owner_row (f c) ≡ is_owner_row c)
    → IsOwned db
    → IsOwned (set_club club_id f db)
set_club-IsOwned club_id f db same h = go db.clubs h
  where
    go :
        (cs : List Club)
        → All (λ c. exists (is_owner_row c) db.members ≡ true) cs
        → All (λ c. exists (is_owner_row c) db.members ≡ true) (update (λ c. c.id == club_id) f cs)
    go [] h = tt
    go (c ∷ cs) h = (
      elim (Bool-cases (c.id == club_id)) [
        | inl here ↦ rw (here, same c) h.0
        | inr other ↦ rw other h.0
      ],
      go cs h.1,
    )

exists-delete_club :
    (c : Club) (club_id : ℕ) (ms : List ClubMember)
    → (c.id == club_id) ≡ false
    → exists (is_owner_row c) ms ≡ true
    → exists (is_owner_row c) (delete (λ m. m.club_id == club_id) ms) ≡ true
exists-delete_club c club_id [] ne e = e
exists-delete_club c club_id (m ∷ ms) ne e = ground (arith, exists-delete_club c club_id ms)

pub cascade_delete-IsOwned :
    (club_id : ℕ) (db : Database) → IsOwned db → IsOwned (cascade_delete club_id db)
unfolding cascade_delete
cascade_delete-IsOwned club_id db h =
    All-select _ _ (λ c. not (c.id == club_id)) db.clubs
      (λ c ne. exists-delete_club c club_id db.members (ground arith)) h

-- A new club with its owner's membership.
pub new_club-IsOwned :
    (c : Club) (m : ClubMember) (db : Database)
    → is_owner_row c m ≡ true
    → IsOwned db
    → IsOwned (add_member m (add_club c db))
new_club-IsOwned c m db own h =
    All-append _ db.clubs (c ∷ []) (add_member-IsOwned m db h)
      (exists-append (is_owner_row c) db.members (m ∷ []) ∙ rw own (ground arith), tt)

-- The session has stored nothing and sent nothing since `s`.
abbrev pub IsUntouched : Session → Session → Type 0
IsUntouched s s' = (s'.saved ≡ s.saved) × (s'.manager ≡ s.manager)

-- How a service that returns leaves the session: the stored tables and those that `get_db` is about
-- to store are owned, and there is something new only when it meets the constraints.
pub record EndsOwned (s s' : Session) : Type 0 where
  pub stored : IsOwned s'.saved
  pub to_store : IsOwned s'.work
  pub why : IsUntouched s s' ⊎ (integrity s'.work ≡ true)

pub EndsOwned-kept :
    (s s' : Session) → IsOwned s'.saved → IsOwned s'.work → IsUntouched s s' → EndsOwned s s'
EndsOwned-kept s s' saved work same = record { stored = saved; to_store = work; why = inl same }

pub EndsOwned-committed :
    (s s' : Session)
    → IsOwned s'.work
    → s'.saved ≡ s'.work
    → integrity s'.work ≡ true
    → EndsOwned s s'
EndsOwned-committed s s' work e fine = record {
  stored = subst IsOwned (sym e) work;
  to_store = work;
  why = inr fine;
}

pub IsUntouched-IsOwned : (s s' : Session) → IsUntouched s s' → IsOwned s.saved → IsOwned s'.saved
IsUntouched-IsOwned s s' same h = subst IsOwned (sym same.0) h
