-- ===== src/BookVote/Inversion.antt =====
-- What the checks of the vote services have found when they return, and that they only read.
use book_club_be.Prelude.{
  ℕ, ◌≡◌, refl, sym, ap, subst, ◌∙◌, inl, inr, Bool-cases, Bool, true, List, [], ◌∷◌, arith, ◌==◌,
  ==→eq, select,
}
use book_club_be.Models.{User, BookVoteRound, BookVoteOption}
use book_club_be.Session.{Session, ok, scalar_one_or_none, ◌>>=◌}
use book_club_be.Session.Readers.{IsReader, IsReader-scalar, IsReader-or_raise, bind-ok, readers}
use book_club_be.Clubs.Inversion.{one_row-some, or_raise-ok, IsReader-get_membership}
use book_club_be.BookVote.Repository.{
  get_round, get_option, get_options, get_vote_counts, get_user_vote, count_votes_for_option,
  get_latest_round, round_rows, option_rows,
}
use book_club_be.BookVote.Service.{
  require_club_member, get_round_for_club_or_404, get_option_for_club_or_404, build_round_response,
}

pub IsReader-get_round : (id : ℕ) → IsReader (get_round id)
unfolding get_round
IsReader-get_round id = search readers

pub IsReader-get_options : (id : ℕ) → IsReader (get_options id)
unfolding get_options
IsReader-get_options id = search readers

pub IsReader-get_vote_counts : (id : ℕ) → IsReader (get_vote_counts id)
unfolding get_vote_counts
IsReader-get_vote_counts id = search readers

pub IsReader-count_votes : (id : ℕ) → IsReader (count_votes_for_option id)
unfolding count_votes_for_option
IsReader-count_votes id = search readers

pub IsReader-get_user_vote : (round_id user_id : ℕ) → IsReader (get_user_vote round_id user_id)
unfolding get_user_vote
IsReader-get_user_vote round_id user_id = search readers

pub IsReader-get_latest_round : (club_id : ℕ) → IsReader (get_latest_round club_id)
unfolding get_latest_round
IsReader-get_latest_round club_id = search readers

pub IsReader-require_club_member :
    (club_id : ℕ) (u : User) → IsReader (require_club_member club_id u)
unfolding require_club_member
IsReader-require_club_member club_id u = search (readers, IsReader-get_membership)

pub IsReader-round_for_club :
    (round_id club_id : ℕ) → IsReader (get_round_for_club_or_404 round_id club_id)
unfolding get_round_for_club_or_404
IsReader-round_for_club round_id club_id = search (readers, IsReader-get_round)

pub IsReader-option_for_club :
    (option_id club_id : ℕ) → IsReader (get_option_for_club_or_404 option_id club_id)
unfolding get_option_for_club_or_404 get_option
IsReader-option_for_club option_id club_id = search (readers, IsReader-round_for_club)

pub IsReader-build :
    (round : BookVoteRound) (user_id : ℕ) → IsReader (build_round_response round user_id)
unfolding build_round_response
IsReader-build round user_id =
    search (readers, IsReader-get_options, IsReader-get_vote_counts, IsReader-get_user_vote)

pub round_for_club-ok :
    (round_id club_id : ℕ) (s : Session) {round : BookVoteRound}
    → (get_round_for_club_or_404 round_id club_id s).0 ≡ ok round
    → round_rows round_id s.work ≡ round ∷ []
unfolding get_round_for_club_or_404 get_round ◌>>=◌
round_for_club-ok round_id club_id s h =
    ground (arith, λ (r : BookVoteRound). one_row-some {x = r} (round_rows round_id s.work))

-- a selected row passes the test
pub select-one {ℓ} :
    {A : Type ℓ} (p : A → Bool) (xs : List A) (x : A) → select p xs ≡ x ∷ [] → p x ≡ true
select-one p [] x h = cc
select-one p (y ∷ ys) x h = elim (Bool-cases (p y)) [
  | inl here ↦ ground arith
  | inr other ↦ select-one p ys x (sym (rw other refl) ∙ h)
]

pub round_for_club-id :
    (round_id club_id : ℕ) (s : Session) {round : BookVoteRound}
    → (get_round_for_club_or_404 round_id club_id s).0 ≡ ok round
    → round.id ≡ round_id
round_for_club-id round_id club_id s {round = round} h = ==→eq round.id round_id (
    select-one (λ r. r.id == round_id) s.work.rounds round (round_for_club-ok round_id club_id s h))

round_for_club-own :
    (round_id club_id : ℕ) (s : Session) {round : BookVoteRound}
    → (get_round_for_club_or_404 round_id club_id s).0 ≡ ok round
    → round_rows round.id s.work ≡ round ∷ []
round_for_club-own round_id club_id s {round = round} h =
    subst (λ id. round_rows id s.work ≡ round ∷ []) (sym (round_for_club-id round_id club_id s h))
      (round_for_club-ok round_id club_id s h)

-- the round of an option is stored under its id
pub option_for_club-ok :
    (option_id club_id : ℕ) (s : Session) {round : BookVoteRound}
    → (get_option_for_club_or_404 option_id club_id s).0 ≡ ok round
    → round_rows round.id s.work ≡ round ∷ []
unfolding get_option_for_club_or_404 get_option
option_for_club-ok option_id club_id s {round = round} h =
    let found = bind-ok _ _ s (IsReader-scalar _) h in
    let kept = bind-ok _ _ s (IsReader-or_raise _ _ _) found.2 in
    round_for_club-own kept.0.round_id club_id s kept.2

-- and the option is one of the round's
pub option_for_club-option :
    (option_id club_id : ℕ) (s : Session) {round : BookVoteRound}
    → (get_option_for_club_or_404 option_id club_id s).0 ≡ ok round
    → (option : BookVoteOption) × (option_rows option_id s.work ≡ option ∷ [])
      × (option.round_id ≡ round.id)
unfolding get_option_for_club_or_404 get_option scalar_one_or_none
option_for_club-option option_id club_id s {round = round} h =
    let found = bind-ok _ _ s (IsReader-scalar _) h in
    let kept = bind-ok _ _ s (IsReader-or_raise _ _ _) found.2 in
    (
      kept.0,
      one_row-some (option_rows option_id s.work)
          (found.1 ∙ ap ok (or_raise-ok found.0 _ _ s kept.1)),
      sym (round_for_club-id kept.0.round_id club_id s kept.2),
    )
