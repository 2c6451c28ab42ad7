-- ===== src/Quizzes/Tests.antt =====
-- Concrete runs on quizzes.
use book_club_be.Prelude.{some, ℕ, true, List, All, ◌≡◌, none, [], ◌∷◌}
use book_club_be.Models.{User, UserRole, Club, ClubStatus, Quiz, QuizQuestion}
use book_club_be.Database.{Database, empty_database}
use book_club_be.Session.{Session, begin}
use book_club_be.Connections.{empty_manager}
use book_club_be.Quizzes.Repository.{AttemptRow, by_score}
use book_club_be.Quizzes.Service.{leaderboard_loop}
use book_club_be.Quizzes.Leaderboard.{IsRanked, is_covered, is_scored, leaderboard-IsRanked}

abbrev owner : User
owner = record {
  id = 1;
  display_name = 65 ∷ [];
  role = UserRole.organizer;
  avatar_url = none;
  supabase_user_id = some 1;
  email = 1 ∷ [];
}

abbrev reader : User
reader = record {
  id = 2;
  display_name = 66 ∷ [];
  role = UserRole.user;
  avatar_url = none;
  supabase_user_id = some 2;
  email = 2 ∷ [];
}

abbrev book_club : Club
book_club = record {
  id = 10;
  name = 67 ∷ [];
  description = none;
  cover_url = none;
  organizer_id = 1;
  is_public = true;
  status = ClubStatus.active;
  city = none;
  next_meeting_date = none;
  tags = [];
  meeting_duration_minutes = none;
  after_meeting_venue = none;
  cancelled_at = none;
}

abbrev quiz : Quiz
quiz = record {
  id = 60;
  club_id = 10;
  created_by = 1;
  title = 74 ∷ [];
  description = none;
  is_active = true;
}

abbrev who : QuizQuestion
who = record {
  id = 61;
  quiz_id = 60;
  question = 75 ∷ [];
  options = [];
  correct_index = 2;
  position = 1;
}

abbrev where_to : QuizQuestion
where_to = record {
  id = 62;
  quiz_id = 60;
  question = 76 ∷ [];
  options = [];
  correct_index = 0;
  position = 0;
}

abbrev tables : Database
tables = record empty_database {
  users = owner ∷ reader ∷ [];
  clubs = book_club ∷ [];
  quizzes = quiz ∷ [];
  questions = who ∷ where_to ∷ [];
}

abbrev session : Session
session = begin tables 100 empty_manager

abbrev row : ℕ → ℕ → ℕ → AttemptRow
row user_id score at = record {
  attempt = record {
    quiz_id = 60;
    user_id = user_id;
    score = score;
    total = 3;
    answers = [];
    created_at = at;
  };
  display_name = [];
  avatar_url = none;
}

abbrev four_rows : List AttemptRow
four_rows = row 2 1 5 ∷ row 3 3 6 ∷ row 2 2 7 ∷ row 4 1 4 ∷ []

leaderboard-IsRanked_example :
    let board = leaderboard_loop 3 (by_score four_rows) [] 1 in
    IsRanked 1 board
    × All (λ r. is_covered board r ≡ true) four_rows
    × All (λ e. is_scored four_rows e ≡ true) board
leaderboard-IsRanked_example = leaderboard-IsRanked 3 four_rows
