-- ===== src/BookVote/Tests.antt =====
-- Concrete runs of the votes on a book.
use book_club_be.Prelude.{refl, true, none, some, List, [], ◌∷◌, lookup, insert}
use book_club_be.Models.{
  User, UserRole, Club, ClubStatus, MemberRole, BookVoteRound, BookVoteOption, BookVoteVote, opened,
  closed,
}
use book_club_be.Database.{
  Database, empty_database, integrity, clubs_integrity, events_integrity, chat_integrity,
  quizzes_integrity, votes_integrity, users_integrity, support_integrity, unique,
}
use book_club_be.Session.{Session, begin, ◌>>=◌, when}
use book_club_be.Connections.{empty_manager}
use book_club_be.ClubRepository.{get_membership}
use book_club_be.BookVote.Repository.{
  get_round, get_option, get_options, get_vote_counts, get_user_vote,
}
use book_club_be.BookVote.Service.{
  require_club_member, get_round_for_club_or_404, get_option_for_club_or_404, build_round_response,
  remove_existing, cast_vote, vote_service, withdraw_vote, unvote_service,
}
use book_club_be.BookVote.Votes.{Withdrawn}
use book_club_be.BookVote.Voting.{InRound, VotedIn, vote-VotedIn, unvote-Withdrawn}

abbrev owner : User
owner = record {
  id = 1;
  display_name = 65 ∷ [];
  role = UserRole.organizer;
  avatar_url = none;
  supabase_user_id = some 1;
  email = 1 ∷ [];
}

abbrev reader : User
reader = record {
  id = 2;
  display_name = 66 ∷ [];
  role = UserRole.user;
  avatar_url = none;
  supabase_user_id = some 2;
  email = 2 ∷ [];
}

abbrev book_club : Club
book_club = record {
  id = 10;
  name = 67 ∷ [];
  description = none;
  cover_url = none;
  organizer_id = 1;
  is_public = true;
  status = ClubStatus.active;
  city = none;
  next_meeting_date = none;
  tags = [];
  meeting_duration_minutes = none;
  after_meeting_venue = none;
  cancelled_at = none;
}

abbrev round : BookVoteRound
round = record {
  id = 20;
  club_id = 10;
  status = opened;
  winner_option_id = none;
  closed_at = none;
  created_at = 7;
}

abbrev decided : BookVoteRound
decided = record round { status = closed; winner_option_id = some 31; closed_at = some 50 }

abbrev dune : BookVoteOption
dune = record { id = 30; round_id = 20; title = 68 ∷ []; author = none; created_at = 8 }

abbrev emma : BookVoteOption
emma = record { id = 31; round_id = 20; title = 69 ∷ []; author = none; created_at = 9 }

abbrev votes : List BookVoteVote
votes =
    record { round_id = 20; option_id = 31; user_id = 1 }
    ∷ record { round_id = 20; option_id = 31; user_id = 2 }
    ∷ []

abbrev tables : Database
tables = record empty_database {
  users = owner ∷ reader ∷ [];
  clubs = book_club ∷ [];
  members =
      record { club_id = 10; user_id = 1; role = MemberRole.organizer; joined_at = 5 }
      ∷ record { club_id = 10; user_id = 2; role = MemberRole.member; joined_at = 6 }
      ∷ [];
  rounds = round ∷ [];
  options = dune ∷ emma ∷ [];
  votes = votes;
}

abbrev session : Session
session = begin tables 100 empty_manager

-- the same tables after the round has been closed
abbrev later : Session
later = begin (record tables { rounds = decided ∷ [] }) 100 empty_manager

-- the reader changes their vote
vote-VotedIn_example :
    InRound 30 (VotedIn 30 2 session (vote_service 10 30 reader session).1) session
unfolding vote_service cast_vote remove_existing require_club_member get_membership
    get_option_for_club_or_404 get_option get_round_for_club_or_404 get_round get_options
    get_vote_counts get_user_vote build_round_response lookup insert integrity clubs_integrity
    events_integrity chat_integrity quizzes_integrity votes_integrity users_integrity
    support_integrity unique ◌>>=◌
vote-VotedIn_example = vote-VotedIn 10 30 reader session refl

-- the reader withdraws their vote for the winner of the round that has been closed
unvote-Withdrawn_example :
    InRound 31 (λ r. Withdrawn r 31 2 later (unvote_service 10 31 reader later).1) later
unfolding unvote_service withdraw_vote when require_club_member get_membership
    get_option_for_club_or_404 get_option get_round_for_club_or_404 get_round get_options
    get_vote_counts get_user_vote build_round_response lookup insert integrity clubs_integrity
    events_integrity chat_integrity quizzes_integrity votes_integrity users_integrity
    support_integrity unique ◌>>=◌
unvote-Withdrawn_example = unvote-Withdrawn 10 31 reader later refl
