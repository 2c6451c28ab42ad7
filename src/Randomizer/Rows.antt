-- ===== src/Randomizer/Rows.antt =====
-- The rows that the ids of a draw select: users that are members of the club.
use book_club_be.Prelude.{
  ℕ, ◌≡◌, refl, sym, true, inl, inr, List, [], ◌∷◌, ◌==◌, ==→eq, select, All, All-append,
  All-select, All-Memᴰ, Memᴰ, Bool-cases,
}
use book_club_be.Models.{User, ClubMember, Candidate}
use book_club_be.Database.{Database}
use book_club_be.ClubRepository.{in_ids}
use book_club_be.Randomizer.{candidate_of, candidates_of, join_members, candidate_rows}

-- the row is a stored user's, who has a stored membership in the club
pub record IsMemberRow (club_id : ℕ) (db : Database) (c : Candidate) : Type 0 where
  pub user : User
  pub membership : ClubMember
  pub row : c ≡ candidate_of user
  pub user_stored : Memᴰ user db.users
  pub member_stored : Memᴰ membership db.members
  pub of_user : membership.user_id ≡ user.id
  pub of_club : membership.club_id ≡ club_id

All-candidates_of :
    (P : Candidate → Type 0) (us : List User)
    → All (λ u. P (candidate_of u)) us
    → All P (candidates_of us)
All-candidates_of P [] h = tt
All-candidates_of P (u ∷ us) h = (h.0, All-candidates_of P us h.1)

module _ (club_id : ℕ) (ids : List ℕ) (db : Database) where
  abbrev pub IsAsked : Candidate → Type 0
  IsAsked c = IsMemberRow club_id db c × (in_ids ids c.id ≡ true)

  rows_of_member :
      (m : ClubMember)
      → Memᴰ m db.members
      → (m.club_id == club_id) ≡ true
      → All IsAsked
          (candidates_of (select (λ u. u.id == m.user_id) (select (λ u. in_ids ids u.id) db.users)))
  rows_of_member m stored here = All-candidates_of _ _ (
      All-select (λ u. Memᴰ u db.users × (in_ids ids u.id ≡ true)) _ _ _
        (λ u same h. (
          record {
            user = u;
            membership = m;
            row = refl;
            user_stored = h.0;
            member_stored = stored;
            of_user = sym (==→eq u.id m.user_id same);
            of_club = ==→eq m.club_id club_id here;
          },
          h.1,
        ))
        (All-select (λ u. Memᴰ u db.users) _ _ _ (λ u asked h. (h, asked)) (All-Memᴰ db.users)))

  join-IsAsked :
      (ms : List ClubMember)
      → All (λ m. Memᴰ m db.members) ms
      → All IsAsked (join_members club_id (select (λ u. in_ids ids u.id) db.users) ms)
  join-IsAsked [] h = tt
  join-IsAsked (m ∷ ms) h = elim (Bool-cases (m.club_id == club_id)) [
    | inl here ↦ rw here (All-append IsAsked _ _ (rows_of_member m h.0 here) (join-IsAsked ms h.1))
    | inr other ↦ rw other (join-IsAsked ms h.1)
  ]

  pub candidate_rows-IsAsked : All IsAsked (candidate_rows club_id ids db)
  candidate_rows-IsAsked = join-IsAsked db.members (All-Memᴰ db.members)
