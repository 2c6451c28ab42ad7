-- ===== src/Quizzes/Routes.antt =====
-- app/routers/quizzes.py: an organizer's changes of a quiz, its questions and its sessions.
use book_club_be.Prelude.{
  ℕ, suc, Bool, false, not, ◌&&◌, Option, none, some, List, [], ◌∷◌, ◌++◌, map, ◌==◌, update,
  delete, if◌then◌else◌,
}
use book_club_be.Models.{Text, User, Quiz, QuizQuestion, QuizSession}
use book_club_be.Database.{Database}
use book_club_be.Session.{
  Service, pure, or_raise, raise_if, modify, flush, commit, get_now, ◌>>=◌, ◌>>◌,
  question_not_found, event_not_found,
}
use book_club_be.Access.{require_club_organizer, is_club_organizer}
use book_club_be.Events.Service.{get_event_or_404}
use book_club_be.Quizzes.Repository.{get_questions, get_question, count_questions}
use book_club_be.Quizzes.Service.{get_quiz_or_404, get_session_or_404}

abbrev pub new_quiz : ℕ → ℕ → ℕ → Text → Option Text → Quiz
new_quiz quiz_id club_id created_by title description = record {
  id = quiz_id;
  club_id = club_id;
  created_by = created_by;
  title = title;
  description = description;
  is_active = false;
}

unfoldable pub create_quiz : ℕ → ℕ → Text → Option Text → User → Service Quiz
create_quiz quiz_id club_id title description current_user = do
  _ ← require_club_organizer club_id current_user
  let quiz = new_quiz quiz_id club_id current_user.id title description
  modify (λ db. record db { quizzes = db.quizzes ++ quiz ∷ [] })
  flush
  commit
  pure quiz

-- the quiz, for an organizer of its club
unfoldable pub get_own_quiz : ℕ → User → Service Quiz
get_own_quiz quiz_id current_user = do
  quiz ← get_quiz_or_404 quiz_id
  _ ← require_club_organizer quiz.club_id current_user
  pure quiz

abbrev pub set_quiz : ℕ → (Quiz → Quiz) → Database → Database
set_quiz quiz_id f db = record db { quizzes = update (λ q. q.id == quiz_id) f db.quizzes }

unfoldable pub update_quiz : ℕ → Text → Option Text → User → Service (Unit {0})
update_quiz quiz_id title description current_user = do
  _ ← get_own_quiz quiz_id current_user
  modify (set_quiz quiz_id (λ q. record q { title = title; description = description }))
  commit

unfoldable pub set_active : ℕ → Bool → User → Service (Unit {0})
set_active quiz_id is_active current_user = do
  _ ← get_own_quiz quiz_id current_user
  modify (set_quiz quiz_id (λ q. record q { is_active = is_active }))
  flush
  commit

-- the index of the right answer is for organizers only
abbrev pub shown_index : Bool → QuizQuestion → Option ℕ
shown_index organizer q = if organizer then some q.correct_index else none

-- each question with the index that is shown with it
unfoldable pub list_questions : ℕ → User → Service (List (QuizQuestion × Option ℕ))
list_questions quiz_id current_user = do
  quiz ← get_quiz_or_404 quiz_id
  organizer ← is_club_organizer quiz.club_id current_user.id
  questions ← get_questions quiz_id
  pure (map (λ q. (q, shown_index organizer q)) questions)

abbrev pub new_question : ℕ → ℕ → Text → List Text → ℕ → ℕ → QuizQuestion
new_question question_id quiz_id question options correct_index position = record {
  id = question_id;
  quiz_id = quiz_id;
  question = question;
  options = options;
  correct_index = correct_index;
  position = position;
}

unfoldable pub add_question : ℕ → ℕ → Text → List Text → ℕ → User → Service QuizQuestion
add_question question_id quiz_id question options correct_index current_user = do
  _ ← get_own_quiz quiz_id current_user
  position ← count_questions quiz_id
  modify (λ db. record db {
    questions =
        db.questions
        ++ new_question question_id quiz_id question options correct_index position ∷ [];
  })
  flush
  commit
  pure (new_question question_id quiz_id question options correct_index position)

pub record UpdateQuestionRequest : Type 0 where
  pub question : Option Text
  pub options : Option (List Text)
  pub correct_index : Option ℕ

abbrev pub or_unchanged {ℓ} : {A : Type ℓ} → Option A → A → A
or_unchanged none old = old
or_unchanged (some new) old = new

abbrev pub revised : UpdateQuestionRequest → QuizQuestion → QuizQuestion
revised req q = record q {
  question = or_unchanged req.question q.question;
  options = or_unchanged req.options q.options;
  correct_index = or_unchanged req.correct_index q.correct_index;
}

abbrev pub is_question : ℕ → ℕ → QuizQuestion → Bool
is_question question_id quiz_id q = q.id == question_id && q.quiz_id == quiz_id

abbrev pub set_question : ℕ → ℕ → (QuizQuestion → QuizQuestion) → Database → Database
set_question question_id quiz_id f db = record db {
  questions = update (is_question question_id quiz_id) f db.questions;
}

unfoldable pub update_question : ℕ → ℕ → UpdateQuestionRequest → User → Service QuizQuestion
update_question quiz_id question_id req current_user = do
  _ ← get_own_quiz quiz_id current_user
  found ← get_question question_id quiz_id
  question ← or_raise found 404 question_not_found
  modify (set_question question_id quiz_id (revised req))
  commit
  pure (revised req question)

unfoldable pub delete_question : ℕ → ℕ → User → Service (Unit {0})
delete_question quiz_id question_id current_user = do
  _ ← get_own_quiz quiz_id current_user
  found ← get_question question_id quiz_id
  _ ← or_raise found 404 question_not_found
  modify (λ db. record db { questions = delete (is_question question_id quiz_id) db.questions })
  commit

abbrev pub at_position : ℕ → QuizQuestion → QuizQuestion
at_position position q = record q { position = position }

-- The loop over `enumerate(ordered_ids)`; an id that is no question of the quiz is passed over.
unfoldable pub set_positions : ℕ → ℕ → List ℕ → Database → Database
set_positions quiz_id position [] db = db
set_positions quiz_id position (id ∷ ids) db =
    set_positions quiz_id (suc position) ids (set_question id quiz_id (at_position position) db)

unfoldable pub reorder_questions : ℕ → List ℕ → User → Service (Unit {0})
reorder_questions quiz_id ordered_ids current_user = do
  _ ← get_own_quiz quiz_id current_user
  modify (set_positions quiz_id 0 ordered_ids)
  commit

-- `if req.eventId is not None`: an event of the quiz's club
unfoldable pub require_own_event : Option ℕ → ℕ → Service (Unit {0})
require_own_event none club_id = pure tt
require_own_event (some event_id) club_id = do
  e ← get_event_or_404 event_id
  raise_if (not (e.club_id == club_id)) 404 event_not_found

abbrev pub new_session : ℕ → ℕ → Option ℕ → ℕ → ℕ → QuizSession
new_session session_id quiz_id event_id started_by now = record {
  id = session_id;
  quiz_id = quiz_id;
  event_id = event_id;
  started_by = started_by;
  started_at = now;
  closed_at = none;
}

unfoldable pub create_session : ℕ → ℕ → Option ℕ → User → Service QuizSession
create_session session_id quiz_id event_id current_user = do
  quiz ← get_own_quiz quiz_id current_user
  require_own_event event_id quiz.club_id
  now ← get_now
  modify (λ db. record db {
    quiz_sessions =
        db.quiz_sessions ++ new_session session_id quiz_id event_id current_user.id now ∷ [];
  })
  commit
  pure (new_session session_id quiz_id event_id current_user.id now)

abbrev pub closed_session : ℕ → QuizSession → QuizSession
closed_session now s = record s { closed_at = some now }

unfoldable pub close_session : ℕ → ℕ → User → Service (Unit {0})
close_session quiz_id session_id current_user = do
  _ ← get_own_quiz quiz_id current_user
  _ ← get_session_or_404 session_id quiz_id
  now ← get_now
  modify (λ db. record db {
    quiz_sessions = update (λ s. s.id == session_id) (closed_session now) db.quiz_sessions;
  })
  commit
