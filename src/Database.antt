-- ===== src/Database.antt =====
-- The tables of the database, and the constraints that a commit checks: primary keys, unique
-- constraints and foreign keys of app/models.
pub mod Unique
use book_club_be.Prelude.{
  ℕ, ◌≡◌, refl, arith, Bool, true, false, not, ◌&&◌, Option, none, some, List, [], ◌∷◌, ◌==◌,
  exists, for_all,
}
use book_club_be.Models.{
  User, Club, ClubMember, ClubBan, ClubJoinRequest, Event, EventAttendee, ChatRoom, ChatMessage,
  ChatRoomBan, MessageRead, Quiz, QuizQuestion, QuizAttempt, QuizSession, BookVoteRound,
  BookVoteOption, BookVoteVote, SupportSubmission, SupportSubmissionLike, RandomizerSession,
}

pub record Database : Type 0 where
  pub users : List User
  pub clubs : List Club
  pub members : List ClubMember
  pub bans : List ClubBan
  pub join_requests : List ClubJoinRequest
  pub events : List Event
  pub attendees : List EventAttendee
  pub rooms : List ChatRoom
  pub messages : List ChatMessage
  pub room_bans : List ChatRoomBan
  pub message_reads : List MessageRead
  pub quizzes : List Quiz
  pub questions : List QuizQuestion
  pub attempts : List QuizAttempt
  pub quiz_sessions : List QuizSession
  pub rounds : List BookVoteRound
  pub options : List BookVoteOption
  pub votes : List BookVoteVote
  pub submissions : List SupportSubmission
  pub likes : List SupportSubmissionLike
  pub randomizer_sessions : List RandomizerSession

abbrev pub empty_database : Database
empty_database = record {
  users = [];
  clubs = [];
  members = [];
  bans = [];
  join_requests = [];
  events = [];
  attendees = [];
  rooms = [];
  messages = [];
  room_bans = [];
  message_reads = [];
  quizzes = [];
  questions = [];
  attempts = [];
  quiz_sessions = [];
  rounds = [];
  options = [];
  votes = [];
  submissions = [];
  likes = [];
  randomizer_sessions = [];
}

-- No two rows of the table are the same in the columns that `same` compares.
unfoldable pub unique {ℓ} : {A : Type ℓ} → (A → A → Bool) → List A → Bool
unique same [] = true
unique same (x ∷ xs) = not (exists (same x) xs) && unique same xs

abbrev pub has_user : Database → ℕ → Bool
has_user db id = exists (λ u. u.id == id) db.users

abbrev pub has_club : Database → ℕ → Bool
has_club db id = exists (λ c. c.id == id) db.clubs

abbrev pub has_event : Database → ℕ → Bool
has_event db id = exists (λ e. e.id == id) db.events

abbrev pub has_room : Database → ℕ → Bool
has_room db id = exists (λ r. r.id == id) db.rooms

abbrev pub has_quiz : Database → ℕ → Bool
has_quiz db id = exists (λ q. q.id == id) db.quizzes

abbrev pub has_round : Database → ℕ → Bool
has_round db id = exists (λ r. r.id == id) db.rounds

abbrev pub or_null : (ℕ → Bool) → Option ℕ → Bool
or_null p none = true
or_null p (some id) = p id

abbrev pub same_text : List ℕ → List ℕ → Bool
same_text [] [] = true
same_text (a ∷ as_) (b ∷ bs) = a == b && same_text as_ bs
same_text _ _ = false

pub same_text→eq : (a b : List ℕ) → same_text a b ≡ true → a ≡ b
same_text→eq [] [] h = refl
same_text→eq [] (b ∷ bs) h = cc
same_text→eq (a ∷ as_) [] h = cc
same_text→eq (a ∷ as_) (b ∷ bs) h = ground (arith, same_text→eq as_ bs)

-- uq_club_member, uq_club_bans_club_user, uq_club_join_request and the keys they refer to
unfoldable pub clubs_integrity : Database → Bool
clubs_integrity db =
    unique (λ a b. a.id == b.id) db.users
    && unique (λ a b. a.id == b.id) db.clubs
    && unique (λ a b. a.club_id == b.club_id && a.user_id == b.user_id) db.members
    && unique (λ a b. a.club_id == b.club_id && a.user_id == b.user_id) db.bans
    && unique (λ a b. a.club_id == b.club_id && a.user_id == b.user_id) db.join_requests
    && for_all (λ c. has_user db c.organizer_id) db.clubs
    && for_all (λ m. has_club db m.club_id && has_user db m.user_id) db.members
    && for_all (λ b. has_club db b.club_id && has_user db b.user_id && has_user db b.banned_by)
        db.bans
    && for_all
        (λ r. has_club db r.club_id && has_user db r.user_id && or_null (has_user db) r.decided_by)
        db.join_requests

unfoldable pub events_integrity : Database → Bool
events_integrity db =
    unique (λ a b. a.id == b.id) db.events
    && unique (λ a b. a.event_id == b.event_id && a.user_id == b.user_id) db.attendees
    && for_all (λ e. has_club db e.club_id && or_null (has_user db) e.winner_id) db.events
    && for_all (λ a. has_event db a.event_id && has_user db a.user_id) db.attendees

-- uq_chat_rooms_club_name, uq_message_reads_user_room
unfoldable pub chat_integrity : Database → Bool
chat_integrity db =
    unique (λ a b. a.id == b.id) db.rooms
    && unique (λ a b. a.club_id == b.club_id && same_text a.name b.name) db.rooms
    && unique (λ a b. a.id == b.id) db.messages
    && unique (λ a b. a.id == b.id) db.room_bans
    && unique (λ a b. a.user_id == b.user_id && a.room_id == b.room_id) db.message_reads
    && for_all (λ r. has_club db r.club_id && or_null (has_event db) r.event_id) db.rooms
    && for_all (λ m. has_room db m.room_id && has_user db m.sender_id) db.messages
    && for_all (λ b. has_room db b.room_id && has_user db b.user_id && has_user db b.banned_by)
        db.room_bans
    && for_all
        (λ r.
          has_user db r.user_id
          && has_room db r.room_id
          && or_null (λ id. exists (λ m. m.id == id) db.messages) r.last_read_message_id)
        db.message_reads

-- uq_quiz_attempts_quiz_user
unfoldable pub quizzes_integrity : Database → Bool
quizzes_integrity db =
    unique (λ a b. a.id == b.id) db.quizzes
    && unique (λ a b. a.id == b.id) db.questions
    && unique (λ a b. a.quiz_id == b.quiz_id && a.user_id == b.user_id) db.attempts
    && unique (λ a b. a.id == b.id) db.quiz_sessions
    && for_all (λ q. has_club db q.club_id && has_user db q.created_by) db.quizzes
    && for_all (λ q. has_quiz db q.quiz_id) db.questions
    && for_all (λ a. has_quiz db a.quiz_id && has_user db a.user_id) db.attempts
    && for_all
        (λ s.
          has_quiz db s.quiz_id && or_null (has_event db) s.event_id && has_user db s.started_by)
        db.quiz_sessions

-- uq_book_vote_round_user
unfoldable pub votes_integrity : Database → Bool
votes_integrity db =
    unique (λ a b. a.id == b.id) db.rounds
    && unique (λ a b. a.id == b.id) db.options
    && unique (λ a b. a.round_id == b.round_id && a.user_id == b.user_id) db.votes
    && for_all (λ r. has_club db r.club_id) db.rounds
    && for_all (λ o. has_round db o.round_id) db.options
    && for_all
        (λ v.
          has_round db v.round_id
          && exists (λ o. o.id == v.option_id) db.options
          && has_user db v.user_id)
        db.votes

-- equal in a nullable column: two nulls are not
abbrev pub same_some : Option ℕ → Option ℕ → Bool
same_some none b = false
same_some (some a) none = false
same_some (some a) (some b) = a == b

-- the unique columns of users
unfoldable pub users_integrity : Database → Bool
users_integrity db =
    unique (λ a b. same_text a.email b.email) db.users
    && unique (λ a b. same_some a.supabase_user_id b.supabase_user_id) db.users

unfoldable pub support_integrity : Database → Bool
support_integrity db =
    unique (λ a b. a.id == b.id) db.submissions
    && unique (λ a b. a.submission_id == b.submission_id && a.user_id == b.user_id) db.likes
    && unique (λ a b. a.id == b.id) db.randomizer_sessions
    && for_all (λ s. has_user db s.author_id) db.submissions
    && for_all (λ l. exists (λ s. s.id == l.submission_id) db.submissions && has_user db l.user_id)
        db.likes
    && for_all (λ s. has_club db s.club_id && has_user db s.created_by) db.randomizer_sessions

unfoldable pub integrity : Database → Bool
integrity db =
    clubs_integrity db
    && events_integrity db
    && chat_integrity db
    && quizzes_integrity db
    && votes_integrity db
    && users_integrity db
    && support_integrity db
