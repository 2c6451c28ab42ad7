-- ===== src/BookVote/Repository.antt =====
-- app/repositories/book_vote.py: the queries of `BookVoteRepository`.
use book_club_be.Prelude.{
  ℕ, ◌+◌, Bool, ◌&&◌, Option, none, some, List, [], ◌∷◌, ◌++◌, ◌==◌, ltb, leb, select, delete,
  count, Dict, lookup, insert, if◌then◌else◌,
}
use book_club_be.Models.{Text, BookVoteRound, BookVoteOption, BookVoteVote, opened}
use book_club_be.Database.{Database}
use book_club_be.Session.{Service, query, scalar_one_or_none}
use book_club_be.Text.{non_empty}

-- ORDER BY created_at; rows of one instant stay as they were inserted
abbrev pub insert_option : BookVoteOption → List BookVoteOption → List BookVoteOption
insert_option o [] = o ∷ []
insert_option o (p ∷ ps) =
    let rest = insert_option o ps in if leb o.created_at p.created_at then o ∷ p ∷ ps else p ∷ rest

abbrev pub by_created_at : List BookVoteOption → List BookVoteOption
by_created_at [] = []
by_created_at (o ∷ os) = insert_option o (by_created_at os)

-- ORDER BY created_at DESC LIMIT 1
abbrev pub latest_round : List BookVoteRound → Option BookVoteRound
latest_round [] = none
latest_round (r ∷ rs) = elim (latest_round rs) [
  | none ↦ some r
  | some q ↦ if ltb r.created_at q.created_at then some q else some r
]

unfoldable pub get_latest_round : ℕ → Service (Option BookVoteRound)
get_latest_round club_id = query (λ db. latest_round (select (λ r. r.club_id == club_id) db.rounds))

abbrev pub round_rows : ℕ → Database → List BookVoteRound
round_rows round_id db = select (λ r. r.id == round_id) db.rounds

unfoldable pub get_round : ℕ → Service (Option BookVoteRound)
get_round round_id = scalar_one_or_none (round_rows round_id)

-- what `create_round` adds; `created_at` is the server's time
abbrev pub new_round : ℕ → ℕ → ℕ → BookVoteRound
new_round round_id club_id now = record {
  id = round_id;
  club_id = club_id;
  status = opened;
  winner_option_id = none;
  closed_at = none;
  created_at = now;
}

abbrev pub add_round : BookVoteRound → Database → Database
add_round r db = record db { rounds = db.rounds ++ r ∷ [] }

abbrev pub option_rows : ℕ → Database → List BookVoteOption
option_rows option_id db = select (λ o. o.id == option_id) db.options

unfoldable pub get_option : ℕ → Service (Option BookVoteOption)
get_option option_id = scalar_one_or_none (option_rows option_id)

abbrev pub options_of : ℕ → Database → List BookVoteOption
options_of round_id db = by_created_at (select (λ o. o.round_id == round_id) db.options)

unfoldable pub get_options : ℕ → Service (List BookVoteOption)
get_options round_id = query (options_of round_id)

abbrev pub new_option : ℕ → ℕ → Text → Text → ℕ → BookVoteOption
new_option option_id round_id title author now = record {
  id = option_id;
  round_id = round_id;
  title = title;
  author = non_empty author;
  created_at = now;
}

abbrev pub add_option : BookVoteOption → Database → Database
add_option o db = record db { options = db.options ++ o ∷ [] }

abbrev pub delete_option : ℕ → Database → Database
delete_option option_id db = record db { options = delete (λ o. o.id == option_id) db.options }

abbrev pub or_no_votes : Option ℕ → ℕ
or_no_votes none = 0
or_no_votes (some n) = n

-- `SELECT option_id, count(*) … GROUP BY option_id`, as a dictionary
abbrev pub group_counts : List BookVoteVote → Dict ℕ
group_counts [] = []
group_counts (v ∷ vs) =
    let rest = group_counts vs in
    insert v.option_id (or_no_votes (lookup v.option_id rest) + 1) rest

abbrev pub votes_of : ℕ → Database → List BookVoteVote
votes_of round_id db = select (λ v. v.round_id == round_id) db.votes

unfoldable pub get_vote_counts : ℕ → Service (Dict ℕ)
get_vote_counts round_id = query (λ db. group_counts (votes_of round_id db))

unfoldable pub count_votes_for_option : ℕ → Service ℕ
count_votes_for_option option_id = query (λ db. count (λ v. v.option_id == option_id) db.votes)

abbrev pub is_vote_of : ℕ → ℕ → BookVoteVote → Bool
is_vote_of round_id user_id v = v.round_id == round_id && v.user_id == user_id

unfoldable pub get_user_vote : ℕ → ℕ → Service (Option BookVoteVote)
get_user_vote round_id user_id =
    scalar_one_or_none (λ db. select (is_vote_of round_id user_id) db.votes)

abbrev pub add_vote : ℕ → ℕ → ℕ → Database → Database
add_vote round_id option_id user_id db = record db {
  votes = db.votes ++ record { round_id = round_id; option_id = option_id; user_id = user_id } ∷ [];
}

-- the row is the only one of its round and user
abbrev pub remove_vote : BookVoteVote → Database → Database
remove_vote vote db = record db { votes = delete (is_vote_of vote.round_id vote.user_id) db.votes }
