-- ===== src/BookVote/Winner.antt =====
-- The winner of a round: the first of the options, in the order of their creation, with the most votes.
use book_club_be.Prelude.{
  ℕ, ◌+◌, ◌≤◌, ◌<◌, ◌≡◌, refl, subst, true, false, ◌⊎◌, inl, inr, Option, none, some, List, [], ◌∷◌,
  ◌++◌, arith, ◌==◌, ltb, Bool-cases, All, All-append, All-map, count, length, Dict, lookup, insert,
  lookup-insert,
}
use mathlib.Core.List.{append_assoc}
use book_club_be.Models.{BookVoteRound, BookVoteOption, BookVoteVote, is_opened}
use book_club_be.Session.{Session}
use book_club_be.Session.Holds.{Holds}
use book_club_be.BookVote.Repository.{group_counts, or_no_votes, options_of, votes_of, round_rows}
use book_club_be.BookVote.Service.{
  sum_values, max_option, winner, close_open_round, close_open_round, closing, set_round,
}

-- how many of the votes are for the option
abbrev pub votes_for_option : List BookVoteVote → BookVoteOption → ℕ
votes_for_option vs o = count (λ v. v.option_id == o.id) vs

-- The dictionary that GROUP BY gives holds each option's number of votes.
pub lookup-group_counts :
    (id : ℕ) (vs : List BookVoteVote)
    → or_no_votes (lookup id (group_counts vs)) ≡ count (λ v. v.option_id == id) vs
unfolding lookup
lookup-group_counts id [] = refl
lookup-group_counts id (v ∷ vs) = ground (
  arith,
  lookup-insert v.option_id id (or_no_votes (lookup v.option_id (group_counts vs)) + 1)
      (group_counts vs),
  lookup-group_counts id vs,
  lookup-group_counts v.option_id vs,
)

sum_values-insert :
    (k n : ℕ) (d : Dict ℕ) → sum_values (insert k n d) + or_no_votes (lookup k d) ≡ sum_values d + n
unfolding insert lookup
sum_values-insert k n [] = omega arith
sum_values-insert k n ((j, m) ∷ d) = ground (arith, sum_values-insert k n d)

-- The total that a round's response shows, the sum of the grouped counts, is its number of votes.
pub sum_values-group_counts : (vs : List BookVoteVote) → sum_values (group_counts vs) ≡ length vs
sum_values-group_counts [] = refl
sum_values-group_counts (v ∷ vs) = omega (
  arith,
  sum_values-insert v.option_id (or_no_votes (lookup v.option_id (group_counts vs)) + 1)
      (group_counts vs),
  sum_values-group_counts vs,
)

-- The option has more votes than every one before it, and no fewer than any after it.
pub record IsWinner (vs : List BookVoteVote) (options : List BookVoteOption) (id : ℕ) : Type 0 where
  pub before : List BookVoteOption
  pub best : BookVoteOption
  pub rest : List BookVoteOption
  pub among : options ≡ before ++ best ∷ rest
  pub named : best.id ≡ id
  pub above : All (λ o. votes_for_option vs o < votes_for_option vs best) before
  pub not_below : All (λ o. votes_for_option vs o ≤ votes_for_option vs best) rest

-- the loop of `max` with the options that it has passed
max_option-IsWinner :
    (vs : List BookVoteVote) (before : List BookVoteOption) (best : BookVoteOption)
    (passed os : List BookVoteOption)
    → All (λ o. votes_for_option vs o < votes_for_option vs best) before
    → All (λ o. votes_for_option vs o ≤ votes_for_option vs best) passed
    → IsWinner vs (before ++ best ∷ (passed ++ os)) (max_option (group_counts vs) best os).id
unfolding max_option
max_option-IsWinner vs before best passed [] hb hp = record {
  before = before;
  best = best;
  rest = passed ++ [];
  among = refl;
  named = refl;
  above = hb;
  not_below = All-append _ passed [] hp tt;
}
max_option-IsWinner vs before best passed (o ∷ os) hb hp =
    elim (Bool-cases (
      ltb (or_no_votes (lookup best.id (group_counts vs)))
        (or_no_votes (lookup o.id (group_counts vs))))) [
          | inl more ↦
              rw (more, max_option)
                (subst (λ l. IsWinner vs l (max_option (group_counts vs) o os).id)
                  (append_assoc before (best ∷ passed) (o ∷ os))
                  (max_option-IsWinner vs (before ++ best ∷ passed) o [] os
                    (All-append _ before (best ∷ passed)
                      (All-map _ _
                        (λ x h.
                          ground
                            (arith, lookup-group_counts best.id vs, lookup-group_counts o.id vs))
                        before hb)
                      (
                        ground (arith, lookup-group_counts best.id vs, lookup-group_counts o.id vs),
                        All-map _ _
                            (λ x h.
                              ground (
                                arith,
                                lookup-group_counts best.id vs,
                                lookup-group_counts o.id vs,
                              ))
                            passed hp,
                      ))
                    tt))
          | inr less ↦
              rw (less, max_option)
                (subst
                  (λ l. IsWinner vs (before ++ best ∷ l) (max_option (group_counts vs) best os).id)
                  (append_assoc passed (o ∷ []) os)
                  (max_option-IsWinner vs before best (passed ++ o ∷ []) os hb (
                    All-append _ passed (o ∷ []) hp (
                      ground (arith, lookup-group_counts best.id vs, lookup-group_counts o.id vs),
                      tt,
                    ))))
        ]

-- The winner of a list of options, if there is one, is the first of those with the most votes, and
-- there is none only when there are no options.
pub winner_lem :
    (vs : List BookVoteVote) (options : List BookVoteOption)
    → ((options ≡ []) × (winner (group_counts vs) options ≡ none))
      ⊎ ((id : ℕ) × (winner (group_counts vs) options ≡ some id) × IsWinner vs options id)
unfolding winner
winner_lem vs [] = inl (refl, refl)
winner_lem vs (o ∷ os) =
    inr ((max_option (group_counts vs) o os).id, refl, max_option-IsWinner vs [] o [] os tt tt)

-- what closing the round has stored
pub record HasClosed (round_id : ℕ) (s s' : Session) : Type 0 where
  pub round : BookVoteRound
  pub found : round_rows round_id s.work ≡ round ∷ []
  pub winner_id : Option ℕ
  pub was_open :
      is_opened round.status ≡ true
      → (s'.saved ≡ set_round round_id (closing winner_id s.now) s.work)
        × (((options_of round_id s.work ≡ []) × (winner_id ≡ none))
            ⊎ ((id : ℕ) × (winner_id ≡ some id)
                × IsWinner (votes_of round_id s.work) (options_of round_id s.work) id))
  pub was_closed : is_opened round.status ≡ false → s' ≡ s
