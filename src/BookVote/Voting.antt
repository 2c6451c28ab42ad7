-- ===== src/BookVote/Voting.antt =====
-- What a member's vote and its withdrawal leave, from the request to the stored votes.
use book_club_be.Prelude.{ℕ, ◌≡◌, true, [], ◌∷◌, arith}
use book_club_be.Models.{User, BookVoteRound, BookVoteOption, is_opened}
use book_club_be.Session.{Session, ok}
use book_club_be.Session.Readers.{IsReader-raise_if}
use book_club_be.Session.Holds.{Holds, Holds-read, Holds-reader, Holds-if, Holds-bind, Holds-weaken}
use book_club_be.Clubs.Inversion.{raise_if-ok}
use book_club_be.Clubs.Steps.{Holds-returns}
use book_club_be.BookVote.Repository.{round_rows, option_rows}
use book_club_be.BookVote.Service.{
  BookVoteRoundResponse, build_round_response, vote_service, unvote_service, cast_vote, votes_for,
}
use book_club_be.BookVote.Inversion.{
  option_for_club-ok, option_for_club-option, IsReader-require_club_member,
  IsReader-option_for_club, IsReader-get_user_vote, IsReader-build,
}
use book_club_be.BookVote.Votes.{
  the_vote, Voted, cast_vote-Holds, votes_for-Voted, Withdrawn, withdraw-Holds,
}

-- the round of an option, with what a service leaves of it
pub record InRound (option_id : ℕ) (P : BookVoteRound → Type 0) (s : Session) : Type 0 where
  pub round : BookVoteRound
  pub option : BookVoteOption
  pub is_option : option_rows option_id s.work ≡ option ∷ []
  pub of_round : option.round_id ≡ round.id
  pub is_round : round_rows round.id s.work ≡ round ∷ []
  pub holds : P round

-- the vote is the user's only one in a round that is open, and all other votes are as they were
abbrev pub VotedIn : ℕ → ℕ → Session → Session → BookVoteRound → Type 0
VotedIn option_id user_id s s' round =
    (is_opened round.status ≡ true)
    × Voted round option_id user_id s (the_vote round.id option_id user_id ∷ []) s'

vote-Holds :
    (club_id option_id : ℕ) (u : User) (s : Session)
    → Holds
        (λ _. Unit)
        (λ s'. InRound option_id (VotedIn option_id u.id s s') s)
        (vote_service club_id option_id u)
        s
unfolding vote_service
vote-Holds club_id option_id u s = Holds-read _ _ s (IsReader-require_club_member _ _) tt λ _ _.
    Holds-read _ _ s (IsReader-option_for_club _ _) tt λ round found.
      Holds-read _ _ s (IsReader-raise_if _ _ _) tt λ _ not_closed.
        Holds-read _ _ s (IsReader-get_user_vote _ _) tt λ existing mine.
          let option = option_for_club-option option_id club_id s found in
          let ends : (s' : Session)
              → Voted round option_id u.id s (the_vote round.id option_id u.id ∷ []) s'
              → InRound option_id (VotedIn option_id u.id s s') s =
            (λ s' h. record {
              round = round;
              option = option.0;
              is_option = option.1;
              of_round = option.2;
              is_round = option_for_club-ok option_id club_id s found;
              holds = (ground (arith, raise_if-ok _ _ _ s _ not_closed), h);
            }) in
          Holds-if (votes_for option_id existing) (build_round_response round u.id)
            (cast_vote round option_id u.id existing) s
            (λ same.
              Holds-reader _ s (IsReader-build _ _) tt
                (ends s (votes_for-Voted round option_id u.id s existing mine same)))
            (λ other. Holds-weaken _ s (cast_vote-Holds round option_id u.id s existing mine) ends)

-- A vote, with no error, is for an option of a round that is open, and is then the member's only
-- vote in that round; all votes of others and in other rounds are as they were.
pub vote-VotedIn :
    (club_id option_id : ℕ) (u : User) (s : Session) {response : BookVoteRoundResponse}
    → (vote_service club_id option_id u s).0 ≡ ok response
    → InRound option_id (VotedIn option_id u.id s (vote_service club_id option_id u s).1) s
vote-VotedIn club_id option_id u s =
    Holds-returns (vote_service club_id option_id u) s (vote-Holds club_id option_id u s)

unvote-Holds :
    (club_id option_id : ℕ) (u : User) (s : Session)
    → Holds
        (λ _. Unit)
        (λ s'. InRound option_id (λ round. Withdrawn round option_id u.id s s') s)
        (unvote_service club_id option_id u)
        s
unfolding unvote_service
unvote-Holds club_id option_id u s = Holds-read _ _ s (IsReader-require_club_member _ _) tt λ _ _.
    Holds-read _ _ s (IsReader-option_for_club _ _) tt λ round found.
      Holds-read _ _ s (IsReader-get_user_vote _ _) tt λ existing mine.
        let option = option_for_club-option option_id club_id s found in
        Holds-bind _ _ s
          (Holds-weaken _ s (withdraw-Holds round option_id u.id s existing mine) (λ s' h. record {
            round = round;
            option = option.0;
            is_option = option.1;
            of_round = option.2;
            is_round = option_for_club-ok option_id club_id s found;
            holds = h;
          }))
          (λ _ s' h. Holds-reader _ s' (IsReader-build _ _) tt h)

-- After a withdrawal, with no error, the member has no vote for the option in its round, whether
-- the round is open or closed; their votes there for other options stay, and all votes of others
-- and in other rounds are as they were.
pub unvote-Withdrawn :
    (club_id option_id : ℕ) (u : User) (s : Session) {response : BookVoteRoundResponse}
    → (unvote_service club_id option_id u s).0 ≡ ok response
    → InRound option_id
        (λ round. Withdrawn round option_id u.id s (unvote_service club_id option_id u s).1)
        s
unvote-Withdrawn club_id option_id u s =
    Holds-returns (unvote_service club_id option_id u) s (unvote-Holds club_id option_id u s)
