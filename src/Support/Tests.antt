-- ===== src/Support/Tests.antt =====
-- Concrete runs on the board.
use book_club_be.Prelude.{ℕ, ◌≡◌, refl, true, none, some, List, [], ◌∷◌, map}
use book_club_be.Models.{User, UserRole, SupportType, SupportStatus, SupportSubmission}
use book_club_be.Database.{
  Database, empty_database, integrity, clubs_integrity, events_integrity, chat_integrity,
  quizzes_integrity, votes_integrity, users_integrity, support_integrity, unique,
}
use book_club_be.Session.{
  ok, begin, serve, when, on_integrity_error, ◌>>=◌, already_liked, cannot_like_suggestion,
}
use book_club_be.Connections.{empty_manager}
use book_club_be.Support.{
  list_submissions, listed, get_submission, has_liked, count_likes, like_submission,
  unlike_submission,
}
use book_club_be.Support.Board.{own_entry, list_submissions-own}
use book_club_be.Support.Likes.Abstract.{
  done, refused, Request, like, unlike, spec_run, kinds, liked, step, run,
}
use book_club_be.Support.Likes.Refinement.{run-refines}

abbrev reader : User
reader = record {
  id = 2;
  display_name = 66 ∷ [];
  role = UserRole.user;
  avatar_url = none;
  supabase_user_id = some 2;
  email = 2 ∷ [];
}

abbrev complaint : SupportSubmission
complaint = record {
  id = 70;
  author_id = 2;
  type = SupportType.complaint;
  title = 72 ∷ [];
  body = 73 ∷ [];
  status = SupportStatus.open_;
  created_at = 5;
  updated_at = 5;
}

abbrev suggestion : SupportSubmission
suggestion = record complaint {
  id = 71;
  type = SupportType.suggestion;
  status = SupportStatus.pending;
}

abbrev tables : Database
tables = record empty_database { users = reader ∷ []; submissions = complaint ∷ suggestion ∷ [] }

abbrev requests : List (ℕ × Request)
requests =
    (10, like 70 reader)
    ∷ (11, like 70 reader)
    ∷ (12, like 71 reader)
    ∷ (13, unlike 70 reader)
    ∷ (14, like 70 reader)
    ∷ []

answers :
    (run requests tables empty_manager).0
    ≡ done ∷ refused already_liked ∷ refused cannot_like_suggestion ∷ done ∷ done ∷ []
unfolding run step serve like_submission unlike_submission get_submission has_liked count_likes when
    on_integrity_error integrity clubs_integrity events_integrity chat_integrity quizzes_integrity
    votes_integrity users_integrity support_integrity unique ◌>>=◌
answers = refl

run-refines_example :
    let end = run requests tables empty_manager in
    let abstract = spec_run (kinds tables) (map (λ r. r.1) requests) (liked tables) in
    (end.0 ≡ abstract.0) × ((s u : ℕ) → liked end.1 s u ≡ abstract.1 s u) × (integrity end.1 ≡ true)
unfolding integrity clubs_integrity events_integrity chat_integrity quizzes_integrity
    votes_integrity users_integrity support_integrity unique
run-refines_example =
    run-refines requests tables empty_manager refl (refl, (refl, (refl, (refl, (refl, tt)))))

list_submissions-own_example :
    let s = begin tables 20 empty_manager in
    (list_submissions reader none none s).0
    ≡ ok (map (own_entry s.work reader) (listed none none s.work))
list_submissions-own_example = list_submissions-own reader none none (begin tables 20 empty_manager)
