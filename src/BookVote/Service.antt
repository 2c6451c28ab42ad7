-- ===== src/BookVote/Service.antt =====
-- app/services/book_vote_service.py. The ids that `uuid.uuid4` draws are arguments; a `refresh` after a
-- commit reads back what was written.
use book_club_be.Prelude.{
  ℕ, ◌+◌, Bool, not, Option, none, some, List, [], ◌∷◌, map, ◌==◌, ltb, opt_eq, Dict, lookup,
  update, is_some, if◌then◌else◌,
}
use book_club_be.Models.{
  Text, User, BookVoteRound, BookVoteOption, BookVoteVote, RoundStatus, closed, is_opened,
}
use book_club_be.Database.{Database}
use book_club_be.Session.{
  Service, pure, or_raise, raise_if, modify, commit, flush, get_now, when, ◌>>=◌, ◌>>◌, forbidden,
  round_not_found, option_not_found, round_closed, option_has_votes,
}
use book_club_be.Text.{strip}
use book_club_be.ClubRepository.{get_membership}
use book_club_be.Access.{require_club_organizer}
use book_club_be.BookVote.Repository.{
  get_latest_round, get_round, new_round, add_round, get_option, get_options, new_option,
  add_option, delete_option, get_vote_counts, count_votes_for_option, get_user_vote, add_vote,
  remove_vote, or_no_votes,
}

pub record BookOptionResponse : Type 0 where
  pub id : ℕ
  pub title : Text
  pub author : Text
  pub votes : ℕ
  pub has_voted : Bool

pub record BookVoteRoundResponse : Type 0 where
  pub id : ℕ
  pub club_id : ℕ
  pub status : RoundStatus
  pub total_votes : ℕ
  pub winner_id : Option ℕ
  pub options : List BookOptionResponse

unfoldable pub require_club_member : ℕ → User → Service (Unit {0})
require_club_member club_id current_user = do
  membership ← get_membership club_id current_user.id
  raise_if (not (is_some membership)) 403 forbidden

unfoldable pub get_round_for_club_or_404 : ℕ → ℕ → Service BookVoteRound
get_round_for_club_or_404 round_id club_id = do
  found ← get_round round_id
  round ← or_raise found 404 round_not_found
  raise_if (not (round.club_id == club_id)) 404 round_not_found
  pure round

-- the round of the option; no caller uses the option itself but for its id
unfoldable pub get_option_for_club_or_404 : ℕ → ℕ → Service BookVoteRound
get_option_for_club_or_404 option_id club_id = do
  found ← get_option option_id
  option ← or_raise found 404 option_not_found
  get_round_for_club_or_404 option.round_id club_id

abbrev pub sum_values : Dict ℕ → ℕ
sum_values [] = 0
sum_values ((k, n) ∷ d) = n + sum_values d

abbrev pub or_empty : Option Text → Text
or_empty none = []
or_empty (some t) = t

abbrev pub voted_option : Option BookVoteVote → Option ℕ
voted_option none = none
voted_option (some v) = some v.option_id

abbrev pub option_response : Dict ℕ → Option ℕ → BookVoteOption → BookOptionResponse
option_response vote_counts voted_option_id o = record {
  id = o.id;
  title = o.title;
  author = or_empty o.author;
  votes = or_no_votes (lookup o.id vote_counts);
  has_voted = opt_eq (some o.id) voted_option_id;
}

unfoldable pub build_round_response : BookVoteRound → ℕ → Service BookVoteRoundResponse
build_round_response round user_id = do
  options ← get_options round.id
  vote_counts ← get_vote_counts round.id
  user_vote ← get_user_vote round.id user_id
  pure (record {
    id = round.id;
    club_id = round.club_id;
    status = round.status;
    total_votes = sum_values vote_counts;
    winner_id = round.winner_option_id;
    options = map (option_response vote_counts (voted_option user_vote)) options;
  })

unfoldable pub current_round : Option BookVoteRound → ℕ → Service (Option BookVoteRoundResponse)
current_round none user_id = pure none
current_round (some round) user_id = do
  response ← build_round_response round user_id
  pure (some response)

unfoldable pub get_current_round_service : ℕ → User → Service (Option BookVoteRoundResponse)
get_current_round_service club_id current_user = do
  require_club_member club_id current_user
  round ← get_latest_round club_id
  current_round round current_user.id

unfoldable pub create_round_service : ℕ → ℕ → User → Service BookVoteRoundResponse
create_round_service round_id club_id current_user = do
  _ ← require_club_organizer club_id current_user
  now ← get_now
  modify (add_round (new_round round_id club_id now))
  commit
  build_round_response (new_round round_id club_id now) current_user.id

unfoldable pub add_option_service : ℕ → ℕ → ℕ → Text → Text → User → Service BookVoteRoundResponse
add_option_service option_id club_id round_id title author current_user = do
  _ ← require_club_organizer club_id current_user
  round ← get_round_for_club_or_404 round_id club_id
  raise_if (not (is_opened round.status)) 409 round_closed
  now ← get_now
  modify (add_option (new_option option_id round_id (strip title) (strip author) now))
  commit
  build_round_response round current_user.id

unfoldable pub remove_option_service : ℕ → ℕ → User → Service BookVoteRoundResponse
remove_option_service club_id option_id current_user = do
  _ ← require_club_organizer club_id current_user
  round ← get_option_for_club_or_404 option_id club_id
  raise_if (not (is_opened round.status)) 409 round_closed
  votes ← count_votes_for_option option_id
  raise_if (ltb 0 votes) 409 option_has_votes
  modify (delete_option option_id)
  commit
  build_round_response round current_user.id

abbrev pub votes_for : ℕ → Option BookVoteVote → Bool
votes_for option_id existing = opt_eq (voted_option existing) (some option_id)

-- the deletion of an earlier vote for another option
unfoldable pub remove_existing : Option BookVoteVote → Service (Unit {0})
remove_existing none = pure tt
remove_existing (some existing) = do modify (remove_vote existing); flush

unfoldable pub cast_vote :
    BookVoteRound → ℕ → ℕ → Option BookVoteVote → Service BookVoteRoundResponse
cast_vote round option_id user_id existing = do
  remove_existing existing
  modify (add_vote round.id option_id user_id)
  commit
  build_round_response round user_id

unfoldable pub vote_service : ℕ → ℕ → User → Service BookVoteRoundResponse
vote_service club_id option_id current_user = do
  require_club_member club_id current_user
  round ← get_option_for_club_or_404 option_id club_id
  raise_if (not (is_opened round.status)) 409 round_closed
  existing ← get_user_vote round.id current_user.id
  if votes_for option_id existing
      then build_round_response round current_user.id
      else cast_vote round option_id current_user.id existing

unfoldable pub withdraw_vote : ℕ → Option BookVoteVote → Service (Unit {0})
withdraw_vote option_id none = pure tt
withdraw_vote option_id (some existing) =
    when (existing.option_id == option_id) (modify (remove_vote existing) >> commit)

unfoldable pub unvote_service : ℕ → ℕ → User → Service BookVoteRoundResponse
unvote_service club_id option_id current_user = do
  require_club_member club_id current_user
  round ← get_option_for_club_or_404 option_id club_id
  existing ← get_user_vote round.id current_user.id
  withdraw_vote option_id existing
  build_round_response round current_user.id

-- max(options, key=…): the first of the options with the most votes
unfoldable pub max_option : Dict ℕ → BookVoteOption → List BookVoteOption → BookVoteOption
max_option vote_counts best [] = best
max_option vote_counts best (o ∷ os) =
    max_option vote_counts
      (if ltb (or_no_votes (lookup best.id vote_counts)) (or_no_votes (lookup o.id vote_counts))
        then o
        else best)
      os

unfoldable pub winner : Dict ℕ → List BookVoteOption → Option ℕ
winner vote_counts [] = none
winner vote_counts (o ∷ os) = some (max_option vote_counts o os).id

abbrev pub closing : Option ℕ → ℕ → BookVoteRound → BookVoteRound
closing winner_id now r = record r {
  status = closed;
  winner_option_id = winner_id;
  closed_at = some now;
}

abbrev pub set_round : ℕ → (BookVoteRound → BookVoteRound) → Database → Database
set_round round_id f db = record db { rounds = update (λ r. r.id == round_id) f db.rounds }

-- the branch for a round that is open; returns the round as it is then
unfoldable pub close_open_round : BookVoteRound → Service BookVoteRound
close_open_round round = do
  options ← get_options round.id
  vote_counts ← get_vote_counts round.id
  now ← get_now
  modify (set_round round.id (closing (winner vote_counts options) now))
  commit
  pure (closing (winner vote_counts options) now round)

unfoldable pub close_round_service : ℕ → ℕ → User → Service BookVoteRoundResponse
close_round_service club_id round_id current_user = do
  _ ← require_club_organizer club_id current_user
  round ← get_round_for_club_or_404 round_id club_id
  after ← if is_opened round.status then close_open_round round else pure round
  build_round_response after current_user.id
