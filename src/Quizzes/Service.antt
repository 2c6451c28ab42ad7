-- ===== src/Quizzes/Service.antt =====
-- app/services/quiz_service.py: attempts and the leaderboard. Its HTTPExceptions carry a status and a
-- code, as an AppError does.
use book_club_be.Prelude.{
  ℕ, ◌+◌, zero, suc, Bool, true, false, not, Option, List, [], ◌∷◌, ◌++◌, ◌==◌, length, exists,
  if◌then◌else◌,
}
use book_club_be.Models.{Text, User, Quiz, QuizQuestion, QuizAttempt, QuizSession}
use book_club_be.Database.{Database}
use book_club_be.Session.{
  Service, pure, or_raise, raise_if, modify, flush, commit, get_now, ◌>>=◌, ◌>>◌, quiz_not_found,
  quiz_not_active, session_not_found,
}
use book_club_be.Quizzes.Repository.{
  get_quiz, get_questions, count_questions, get_active_session, get_session, count_attempts_since,
  AttemptRow, get_attempts_with_users_since,
}

unfoldable pub get_quiz_or_404 : ℕ → Service Quiz
get_quiz_or_404 quiz_id = do quiz ← get_quiz quiz_id; or_raise quiz 404 quiz_not_found

unfoldable pub get_active_session_service : ℕ → Service (QuizSession × ℕ)
get_active_session_service quiz_id = do
  found ← get_active_session quiz_id
  session ← or_raise found 404 session_not_found
  participant_count ← count_attempts_since quiz_id session.started_at
  pure (session, participant_count)

unfoldable pub get_session_or_404 : ℕ → ℕ → Service QuizSession
get_session_or_404 session_id quiz_id = do
  session ← get_session session_id quiz_id
  or_raise session 404 session_not_found

-- `i < len(answers) and answers[i] == correct`
abbrev pub answers_correctly : List ℕ → ℕ → ℕ → Bool
answers_correctly [] i correct = false
answers_correctly (a ∷ as_) zero correct = a == correct
answers_correctly (a ∷ as_) (suc i) correct = answers_correctly as_ i correct

-- the sum over `enumerate(questions)` from the index `i` on
unfoldable pub score_from : ℕ → List ℕ → List QuizQuestion → ℕ
score_from i answers [] = 0
score_from i answers (q ∷ qs) =
    let rest = score_from (suc i) answers qs in
    if answers_correctly answers i q.correct_index then 1 + rest else rest

abbrev pub new_attempt : ℕ → ℕ → List QuizQuestion → List ℕ → ℕ → QuizAttempt
new_attempt quiz_id user_id questions answers now = record {
  quiz_id = quiz_id;
  user_id = user_id;
  score = score_from 0 answers questions;
  total = length questions;
  answers = answers;
  created_at = now;
}

abbrev pub add_attempt : QuizAttempt → Database → Database
add_attempt a db = record db { attempts = db.attempts ++ a ∷ [] }

-- Returns the attempt, from which the response is built.
unfoldable pub submit_quiz_attempt : ℕ → User → List ℕ → Service QuizAttempt
submit_quiz_attempt quiz_id current_user answers = do
  quiz ← get_quiz_or_404 quiz_id
  raise_if (not quiz.is_active) 403 quiz_not_active
  questions ← get_questions quiz_id
  now ← get_now
  modify (add_attempt (new_attempt quiz_id current_user.id questions answers now))
  flush
  commit
  pure (new_attempt quiz_id current_user.id questions answers now)

pub record LeaderboardEntry : Type 0 where
  pub rank : ℕ
  pub user_id : ℕ
  pub display_name : Text
  pub avatar_url : Option Text
  pub score : ℕ
  pub total_questions : ℕ
  pub has_attempted : Bool

abbrev pub entry_of : ℕ → ℕ → AttemptRow → LeaderboardEntry
entry_of total_questions rank r = record {
  rank = rank;
  user_id = r.attempt.user_id;
  display_name = r.display_name;
  avatar_url = r.avatar_url;
  score = r.attempt.score;
  total_questions = total_questions;
  has_attempted = true;
}

abbrev pub is_seen : ℕ → List LeaderboardEntry → Bool
is_seen user_id = exists (λ e. e.user_id == user_id)

-- The loop with `seen_users`, whose values are in the order of insertion, and `rank`.
unfoldable pub leaderboard_loop :
    ℕ → List AttemptRow → List LeaderboardEntry → ℕ → List LeaderboardEntry
leaderboard_loop total_questions [] seen_users rank = seen_users
leaderboard_loop total_questions (r ∷ rs) seen_users rank =
    let seen = is_seen r.attempt.user_id seen_users in
    leaderboard_loop total_questions rs
      (if seen then seen_users else seen_users ++ entry_of total_questions rank r ∷ [])
      (if seen then rank else rank + 1)

unfoldable pub get_quiz_leaderboard : ℕ → ℕ → Service (List LeaderboardEntry)
get_quiz_leaderboard quiz_id session_id = do
  _ ← get_quiz_or_404 quiz_id
  found ← get_session session_id quiz_id
  session ← or_raise found 404 session_not_found
  total_questions ← count_questions quiz_id
  rows ← get_attempts_with_users_since quiz_id session.started_at
  pure (leaderboard_loop total_questions rows [] 1)
