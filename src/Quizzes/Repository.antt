-- ===== src/Quizzes/Repository.antt =====
-- app/repositories/quiz.py: the queries of `QuizRepository` that the services use.
use book_club_be.Prelude.{
  ℕ, Bool, true, false, ◌&&◌, ◌||◌, Option, none, some, List, [], ◌∷◌, ◌++◌, map, ◌==◌, ltb, leb,
  select, count, if◌then◌else◌,
}
use book_club_be.Models.{Text, User, Quiz, QuizQuestion, QuizAttempt, QuizSession}
use book_club_be.Database.{Database}
use book_club_be.Session.{Service, query, scalar_one_or_none}

abbrev pub quiz_rows : ℕ → Database → List Quiz
quiz_rows quiz_id db = select (λ q. q.id == quiz_id) db.quizzes

unfoldable pub get_quiz : ℕ → Service (Option Quiz)
get_quiz quiz_id = scalar_one_or_none (quiz_rows quiz_id)

-- ORDER BY position; rows of one position stay as they were inserted
abbrev pub insert_question : QuizQuestion → List QuizQuestion → List QuizQuestion
insert_question q [] = q ∷ []
insert_question q (p ∷ ps) =
    let rest = insert_question q ps in if leb q.position p.position then q ∷ p ∷ ps else p ∷ rest

abbrev pub by_position : List QuizQuestion → List QuizQuestion
by_position [] = []
by_position (q ∷ qs) = insert_question q (by_position qs)

abbrev pub questions_of : ℕ → Database → List QuizQuestion
questions_of quiz_id db = by_position (select (λ q. q.quiz_id == quiz_id) db.questions)

unfoldable pub get_questions : ℕ → Service (List QuizQuestion)
get_questions quiz_id = query (questions_of quiz_id)

unfoldable pub get_question : ℕ → ℕ → Service (Option QuizQuestion)
get_question question_id quiz_id =
    scalar_one_or_none
      (λ db. select (λ q. q.id == question_id && q.quiz_id == quiz_id) db.questions)

unfoldable pub count_questions : ℕ → Service ℕ
count_questions quiz_id = query (λ db. count (λ q. q.quiz_id == quiz_id) db.questions)

abbrev pub is_open_session : QuizSession → Bool
is_open_session s = elim s.closed_at [ none ↦ true | some t ↦ false ]

-- ORDER BY started_at DESC LIMIT 1
abbrev pub latest_session : List QuizSession → Option QuizSession
latest_session [] = none
latest_session (s ∷ ss) = elim (latest_session ss) [
  | none ↦ some s
  | some t ↦ if ltb s.started_at t.started_at then some t else some s
]

unfoldable pub get_active_session : ℕ → Service (Option QuizSession)
get_active_session quiz_id = query (λ db.
    latest_session (select (λ s. s.quiz_id == quiz_id && is_open_session s) db.quiz_sessions))

unfoldable pub get_session : ℕ → ℕ → Service (Option QuizSession)
get_session session_id quiz_id =
    scalar_one_or_none
      (λ db. select (λ s. s.id == session_id && s.quiz_id == quiz_id) db.quiz_sessions)

unfoldable pub count_attempts_since : ℕ → ℕ → Service ℕ
count_attempts_since quiz_id since =
    query (λ db. count (λ a. a.quiz_id == quiz_id && leb since a.created_at) db.attempts)

-- an attempt with its user's name and picture
pub record AttemptRow : Type 0 where
  pub attempt : QuizAttempt
  pub display_name : Text
  pub avatar_url : Option Text

-- JOIN users ON attempts.user_id = users.id
abbrev pub join_users : List User → List QuizAttempt → List AttemptRow
join_users users [] = []
join_users users (a ∷ as_) =
    map (λ u. record { attempt = a; display_name = u.display_name; avatar_url = u.avatar_url })
      (select (λ u. u.id == a.user_id) users)
    ++ join_users users as_

-- ORDER BY score DESC, created_at ASC
abbrev pub ranks_before : AttemptRow → AttemptRow → Bool
ranks_before r q =
    ltb q.attempt.score r.attempt.score
    || (r.attempt.score == q.attempt.score && leb r.attempt.created_at q.attempt.created_at)

abbrev pub insert_attempt : AttemptRow → List AttemptRow → List AttemptRow
insert_attempt r [] = r ∷ []
insert_attempt r (q ∷ qs) =
    let rest = insert_attempt r qs in if ranks_before r q then r ∷ q ∷ qs else q ∷ rest

abbrev pub by_score : List AttemptRow → List AttemptRow
by_score [] = []
by_score (r ∷ rs) = insert_attempt r (by_score rs)

abbrev pub attempts_since : ℕ → ℕ → Database → List AttemptRow
attempts_since quiz_id since db =
    by_score (
      join_users db.users
        (select (λ a. a.quiz_id == quiz_id && leb since a.created_at) db.attempts))

unfoldable pub get_attempts_with_users_since : ℕ → ℕ → Service (List AttemptRow)
get_attempts_with_users_since quiz_id since = query (attempts_since quiz_id since)
