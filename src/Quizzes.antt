-- ===== src/Quizzes.antt =====
-- The quizzes of a club: app/repositories/quiz.py, app/services/quiz_service.py, app/routers/quizzes.py.
pub mod Repository
pub mod Service
pub mod Routes
pub mod Attempts
pub mod Leaderboard
mod Tests
