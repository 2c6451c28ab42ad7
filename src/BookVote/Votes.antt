-- ===== src/BookVote/Votes.antt =====
-- One vote of each member in a round: what voting and withdrawing a vote leave.
use book_club_be.Prelude.{
  ℕ, ◌≡◌, refl, sym, ap, ap₂, ◌∙◌, Bool, true, false, inl, inr, Option, none, some, List, [], ◌∷◌,
  ◌++◌, arith, not, ◌==◌, ==→eq, select, delete, subst, All, Bool-cases, &&-left, &&-right,
}
use book_club_be.Models.{BookVoteRound, BookVoteVote}
use book_club_be.Database.{Database, integrity}
use book_club_be.Session.{Session, Service, ok, scalar_one_or_none, ◌>>=◌, when, pure}
use book_club_be.Session.Readers.{IsReader, IsReader-pure}
use book_club_be.Session.Holds.{
  Holds, Holds-read, Holds-reader, Holds-modify, Holds-commit, Holds-commit_last,
}
use book_club_be.Clubs.Inversion.{one_row-some, one_row-none}
use book_club_be.BookVote.Repository.{is_vote_of, get_user_vote, add_vote, remove_vote}
use book_club_be.BookVote.Service.{cast_vote, remove_existing, votes_for, withdraw_vote}
use book_club_be.BookVote.Inversion.{select-one, IsReader-build}

select_twice {ℓ} : {A : Type ℓ} (p : A → Bool) (xs : List A) → select p (delete p xs) ≡ []
select_twice p [] = refl
select_twice p (x ∷ xs) = ground (arith, select_twice p xs)

delete_twice {ℓ} : {A : Type ℓ} (p : A → Bool) (xs : List A) → delete p (delete p xs) ≡ delete p xs
delete_twice p [] = refl
delete_twice p (x ∷ xs) = ground (arith, delete_twice p xs)

delete-append_one {ℓ} :
    {A : Type ℓ} (p : A → Bool) (xs : List A) (x : A)
    → p x ≡ true
    → delete p (xs ++ x ∷ []) ≡ delete p xs
delete-append_one p [] x h = ground arith
delete-append_one p (y ∷ ys) x h = ground (arith, delete-append_one p ys x)

select-append_one {ℓ} :
    {A : Type ℓ} (p : A → Bool) (xs : List A) (x : A)
    → p x ≡ true
    → select p (xs ++ x ∷ []) ≡ select p xs ++ x ∷ []
select-append_one p [] x h = ground arith
select-append_one p (y ∷ ys) x h = ground (arith, select-append_one p ys x)

abbrev pub the_vote : ℕ → ℕ → ℕ → BookVoteVote
the_vote round_id option_id user_id = record {
  round_id = round_id;
  option_id = option_id;
  user_id = user_id;
}

is_vote_of-the_vote : (r o u : ℕ) → is_vote_of r u (the_vote r o u) ≡ true
is_vote_of-the_vote r o u = ground arith

-- The user has the votes `mine` in the round, and all other votes are as they were.
pub record HasVoted (round_id user_id : ℕ) (mine : List BookVoteVote) (db db' : Database)
    : Type 0 where
  pub own : select (is_vote_of round_id user_id) db'.votes ≡ mine
  pub others :
      delete (is_vote_of round_id user_id) db'.votes ≡ delete (is_vote_of round_id user_id) db.votes

-- the vote that a lookup finds
module _ (round_id user_id : ℕ) (s : Session) where
  found-none :
      {o : Option BookVoteVote}
      → (get_user_vote round_id user_id s).0 ≡ ok o
      → o ≡ none
      → select (is_vote_of round_id user_id) s.work.votes ≡ []
  unfolding get_user_vote scalar_one_or_none
  found-none h e = one_row-none (select (is_vote_of round_id user_id) s.work.votes) (h ∙ ap ok e)

  found-some :
      {o : Option BookVoteVote} (v : BookVoteVote)
      → (get_user_vote round_id user_id s).0 ≡ ok o
      → o ≡ some v
      → select (is_vote_of round_id user_id) s.work.votes ≡ v ∷ []
  unfolding get_user_vote scalar_one_or_none
  found-some v h e = one_row-some (select (is_vote_of round_id user_id) s.work.votes) (h ∙ ap ok e)

  found-own :
      (v : BookVoteVote)
      → select (is_vote_of round_id user_id) s.work.votes ≡ v ∷ []
      → v ≡ the_vote round_id v.option_id user_id
  found-own v h =
      let mine = select-one (is_vote_of round_id user_id) s.work.votes v h in
      ap₂ (λ r u. the_vote r v.option_id u)
        (==→eq v.round_id round_id (&&-left (v.round_id == round_id) _ mine))
        (==→eq v.user_id user_id (&&-right (v.round_id == round_id) _ mine))

HasVoted-add :
    (round_id option_id user_id : ℕ) (db : Database)
    → select (is_vote_of round_id user_id) db.votes ≡ []
    → HasVoted round_id user_id
        (the_vote round_id option_id user_id ∷ [])
        db
        (add_vote round_id option_id user_id db)
HasVoted-add round_id option_id user_id db none_yet = record {
  own =
      select-append_one (is_vote_of round_id user_id) db.votes _
        (is_vote_of-the_vote round_id option_id user_id)
      ∙ ap (λ vs. vs ++ the_vote round_id option_id user_id ∷ []) none_yet;
  others =
      delete-append_one (is_vote_of round_id user_id) db.votes _
        (is_vote_of-the_vote round_id option_id user_id);
}

-- a removal of the user's vote in the round
HasVoted-remove :
    (round_id user_id : ℕ) (v : BookVoteVote) (db : Database)
    → v ≡ the_vote round_id v.option_id user_id
    → HasVoted round_id user_id [] db (remove_vote v db)
HasVoted-remove round_id user_id v db e =
    subst (λ w. HasVoted round_id user_id [] db (remove_vote w db)) (sym e)
      record {
        own = select_twice (is_vote_of round_id user_id) db.votes;
        others = delete_twice (is_vote_of round_id user_id) db.votes;
      }

HasVoted-trans :
    (round_id user_id : ℕ) (mine : List BookVoteVote) {none_yet : List BookVoteVote}
    (a b c : Database)
    → HasVoted round_id user_id none_yet a b
    → HasVoted round_id user_id mine b c
    → HasVoted round_id user_id mine a c
HasVoted-trans round_id user_id mine a b c h k = record {
  own = k.own;
  others = k.others ∙ h.others;
}

IsReader-remove_none : IsReader (remove_existing none)
unfolding remove_existing
IsReader-remove_none = IsReader-pure tt

Holds-remove_existing :
    {B : Type 0} {Q : Session → Type 0} (v : BookVoteVote) (f : Unit {0} → Service B) (s : Session)
    → Holds (λ _. Unit) Q (f tt) (record s { work = remove_vote v s.work })
    → Holds (λ _. Unit) Q (remove_existing (some v) >>= f) s
unfolding remove_existing ◌>>=◌
Holds-remove_existing v f s k = elim (Bool-cases (integrity (remove_vote v s.work))) [
  | inl fine ↦ record { at = rw (fine, ◌>>=◌) k.at }
  | inr broken ↦ record { at = rw (broken, ◌>>=◌) tt }
]

module _ (round : BookVoteRound) (option_id user_id : ℕ) (s : Session) where
  abbrev pub Voted : List BookVoteVote → Session → Type 0
  Voted mine s' = HasVoted round.id user_id mine s.work s'.work

  pub cast_vote-Holds :
      (o : Option BookVoteVote)
      → (get_user_vote round.id user_id s).0 ≡ ok o
      → Holds
          (λ _. Unit)
          (Voted (the_vote round.id option_id user_id ∷ []))
          (cast_vote round option_id user_id o)
          s
  unfolding cast_vote
  cast_vote-Holds none h = Holds-read _ _ s IsReader-remove_none tt λ _ _. Holds-modify _ _ s (
      Holds-commit _ _ tt λ _.
        Holds-reader _ _ (IsReader-build _ _) tt
          (HasVoted-add round.id option_id user_id s.work (found-none round.id user_id s h refl)))
  cast_vote-Holds (some v) h =
      let e = found-own round.id user_id s v (found-some round.id user_id s v h refl) in
      let removed = HasVoted-remove round.id user_id v s.work e in
      Holds-remove_existing v _ s (
        Holds-modify _ _ _ (
          Holds-commit _ _ tt λ _. Holds-reader _ _ (IsReader-build _ _) tt (
            HasVoted-trans round.id user_id (the_vote round.id option_id user_id ∷ []) s.work
              (remove_vote v s.work) _ removed
              (HasVoted-add round.id option_id user_id (remove_vote v s.work) removed.own))))

  -- a vote for the option that is there already
  pub votes_for-Voted :
      (o : Option BookVoteVote)
      → (get_user_vote round.id user_id s).0 ≡ ok o
      → votes_for option_id o ≡ true
      → Voted (the_vote round.id option_id user_id ∷ []) s
  votes_for-Voted none h e = absurd (ground arith)
  votes_for-Voted (some v) h e = record {
    own =
        found-some round.id user_id s v h refl
        ∙ ap (λ w. w ∷ [])
            (found-own round.id user_id s v (found-some round.id user_id s v h refl)
              ∙ ap (λ o. the_vote round.id o user_id) (==→eq v.option_id option_id e));
    others = refl;
  }

  -- of the user's votes those for other options are left, and all other votes are as they were
  abbrev pub Withdrawn : Session → Type 0
  Withdrawn s' =
      All (λ v. (v.option_id == option_id) ≡ false)
        (select (is_vote_of round.id user_id) s'.work.votes)
      × (select (is_vote_of round.id user_id) s'.work.votes
          ≡ select (λ v. not (v.option_id == option_id))
              (select (is_vote_of round.id user_id) s.work.votes))
      × (delete (is_vote_of round.id user_id) s'.work.votes
          ≡ delete (is_vote_of round.id user_id) s.work.votes)

  pub withdraw-Holds :
      (o : Option BookVoteVote)
      → (get_user_vote round.id user_id s).0 ≡ ok o
      → Holds (λ _. Unit) Withdrawn (withdraw_vote option_id o) s
  unfolding withdraw_vote when pure
  withdraw-Holds none h = record {
    at = (rw (found-none round.id user_id s h refl) (tt, refl, refl));
  }
  withdraw-Holds (some v) h = elim (Bool-cases (v.option_id == option_id)) [
    | inl same ↦
        let removed =
          HasVoted-remove round.id user_id v s.work
            (found-own round.id user_id s v (found-some round.id user_id s v h refl)) in
        rw same (
          Holds-modify _ _ s (
            Holds-commit_last _ tt (λ _. (
              rw (removed.own) tt,
              removed.own ∙ rw (found-some round.id user_id s v h refl, same) refl,
              removed.others,
            ))))
    | inr other ↦ rw other record {
      at = (
        rw (found-some round.id user_id s v h refl) (other, tt),
        rw (found-some round.id user_id s v h refl, other) refl,
        refl,
      );
    }
  ]
