-- ===== src/Quizzes/Attempts.antt =====
-- The score of an attempt, and that there is one attempt of each user.
use book_club_be.Prelude.{
  ℕ, zero, suc, ◌+◌, ◌≤◌, ◌≡◌, refl, sym, Bool, true, false, ◌&&◌, List, [], ◌∷◌, arith, ◌==◌,
  if◌then◌else◌, drop, select, length,
}
use book_club_be.Models.{Quiz, QuizQuestion, QuizAttempt}
use book_club_be.Database.{Database}
use book_club_be.Session.{Session}
use book_club_be.Session.Holds.{Holds}
use book_club_be.Quizzes.Repository.{quiz_rows, questions_of}
use book_club_be.Quizzes.Service.{answers_correctly, score_from, add_attempt}

-- how many questions the answers, taken side by side with them, get right
abbrev pub correct : List ℕ → List QuizQuestion → ℕ
correct answers [] = 0
correct [] (q ∷ qs) = 0
correct (a ∷ as_) (q ∷ qs) =
    let rest = correct as_ qs in if a == q.correct_index then suc rest else rest

abbrev head_is : ℕ → List ℕ → Bool
head_is c [] = false
head_is c (a ∷ as_) = a == c

abbrev tail : List ℕ → List ℕ
tail [] = []
tail (a ∷ as_) = as_

answers_correctly-drop :
    (answers : List ℕ) (i c : ℕ) → answers_correctly answers i c ≡ head_is c (drop i answers)
answers_correctly-drop [] zero c = refl
answers_correctly-drop [] (suc i) c = refl
answers_correctly-drop (a ∷ as_) zero c = refl
answers_correctly-drop (a ∷ as_) (suc i) c = answers_correctly-drop as_ i c

drop-suc : (i : ℕ) (answers : List ℕ) → drop (suc i) answers ≡ tail (drop i answers)
drop-suc zero [] = refl
drop-suc zero (a ∷ as_) = refl
drop-suc (suc i) [] = refl
drop-suc (suc i) (a ∷ as_) = drop-suc i as_

correct_none : (qs : List QuizQuestion) → correct [] qs ≡ 0
correct_none [] = refl
correct_none (q ∷ qs) = refl

correct_cons :
    (answers : List ℕ) (q : QuizQuestion) (qs : List QuizQuestion)
    → correct answers (q ∷ qs) ≡ (
        if head_is q.correct_index answers
        then 1 + correct (tail answers) qs
        else correct (tail answers) qs)
correct_cons [] q qs = sym (correct_none qs)
correct_cons (a ∷ as_) q qs = ground arith

-- The score, which the code sums over the questions' indices, is the number of questions that the
-- answer at the same place gets right, from any index on.
pub score_from-correct :
    (i : ℕ) (answers : List ℕ) (qs : List QuizQuestion)
    → score_from i answers qs ≡ correct (drop i answers) qs
unfolding score_from
score_from-correct i answers [] = refl
score_from-correct i answers (q ∷ qs) =
    rw
      (
        answers_correctly-drop answers i q.correct_index,
        score_from-correct (suc i) answers qs,
        drop-suc i answers,
        correct_cons (drop i answers) q qs,
      )
      refl

abbrev pub same_attempt : QuizAttempt → QuizAttempt → Bool
same_attempt a b = a.quiz_id == b.quiz_id && a.user_id == b.user_id

abbrev pub attempt_rows : ℕ → ℕ → Database → List QuizAttempt
attempt_rows quiz_id user_id db =
    select (λ a. a.quiz_id == quiz_id && a.user_id == user_id) db.attempts

-- the user's one attempt of an active quiz has been stored
pub record HasSubmitted (quiz_id user_id : ℕ) (answers : List ℕ) (s s' : Session) : Type 0 where
  pub quiz : Quiz
  pub found : quiz_rows quiz_id s.work ≡ quiz ∷ []
  pub active : quiz.is_active ≡ true
  pub first : attempt_rows quiz_id user_id s.work ≡ []
  pub attempt : QuizAttempt
  pub only_that : s'.saved ≡ add_attempt attempt s.work
  pub score : attempt.score ≡ correct answers (questions_of quiz_id s.work)
  pub total : attempt.total ≡ length (questions_of quiz_id s.work)
  pub at_most : attempt.score ≤ attempt.total
