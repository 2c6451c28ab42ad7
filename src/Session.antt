-- ===== src/Session.antt =====
-- A request's work on the database: app/database.py (`get_db`), app/exceptions.py, and what the
-- services use of SQLAlchemy's AsyncSession. A session works on a copy of the tables; a commit checks
-- the constraints and makes the copy the database, a rollback drops it. The database's answer to a
-- select is the list of rows in insertion order, and an added row is there for the next statement
-- (no modelled service selects from a table between an add to it and the next flush or commit).
pub mod Readers
pub mod Holds
use book_club_be.Prelude.{ℕ, Bool, true, false, Option, none, some, List, [], ◌∷◌, if◌then◌else◌}
use book_club_be.Database.{Database, integrity}
use book_club_be.Connections.{ConnectionManager}

-- The machine-readable codes of `AppError`; the messages for people are left out.
pub data Code : Type 0 where
  club_not_found club_banned already_member forbidden owner_cannot_leave not_a_member : Code
  last_organizer organizer_already_has_club join_request_not_found owner_only member_not_found :
      Code
  cannot_remove_owner cannot_ban_self user_not_found ban_not_found cannot_demote_owner : Code
  event_not_found event_cancelled registration_closed already_attending event_not_held : Code
  winner_not_attendee room_not_found room_name_duplicate room_banned message_not_found : Code
  event_chat_not_found quiz_not_found quiz_not_active session_not_found question_not_found : Code
  round_not_found option_not_found round_closed option_has_votes invalid_cursor invalid_message_id :
      Code
  submission_not_found cannot_like_suggestion already_liked duplicate_candidate : Code
  candidate_not_member result_not_candidate invalid_candidate : Code
  oauth_init_error invalid_oauth_code email_exists invalid_display_name auth_service_error : Code
  supabase_auth_error : Code
  invalid_credentials missing_refresh_token invalid_refresh_token : Code

-- `scalar_one_or_none` over several rows raises too; what is no AppError is answered by a 500.
pub data Failure : Type 0 where
  app_error : ℕ → Code → Failure
  integrity_error multiple_results key_error : Failure

pub data Result (A : Type 0) : Type 0 where
  ok : A → Result A
  err : Failure → Result A

-- `now` is what `datetime.now(UTC)` and the server's `now()` read during the request, and
-- `manager` the process's chat connections, which no rollback touches.
pub record Session : Type 0 where
  pub saved : Database
  pub work : Database
  pub now : ℕ
  pub manager : ConnectionManager

abbrev pub Service : Type 0 → Type 0
Service A = Session → Result A × Session

module _ {A : Type 0} where
  unfoldable pub pure : A → Service A
  pure a s = (ok a, s)

  unfoldable pub raise : ℕ → Code → Service A
  raise status code s = (err (app_error status code), s)

  unfoldable pub query : (Database → A) → Service A
  query f s = (ok (f s.work), s)

  abbrev pub one_row : List A → Result (Option A)
  one_row [] = ok none
  one_row (x ∷ []) = ok (some x)
  one_row (x ∷ y ∷ rest) = err multiple_results

  -- result.scalar_one_or_none()
  unfoldable pub scalar_one_or_none : (Database → List A) → Service (Option A)
  scalar_one_or_none rows s = (one_row (rows s.work), s)

  -- `if row is None: raise AppError(status, …, code)`
  unfoldable pub or_raise : Option A → ℕ → Code → Service A
  or_raise none status code s = (err (app_error status code), s)
  or_raise (some a) status code s = (ok a, s)

unfoldable pub raise_if : Bool → ℕ → Code → Service (Unit {0})
raise_if c status code s = (if c then err (app_error status code) else ok tt, s)

unfoldable pub get_now : Service ℕ
get_now s = (ok s.now, s)

unfoldable pub modify : (Database → Database) → Service (Unit {0})
modify f s = (ok tt, record s { work = f s.work })

unfoldable pub change_sockets :
    (Database → ConnectionManager → ConnectionManager) → Service (Unit {0})
change_sockets f s = (ok tt, record s { manager = f s.work s.manager })

unfoldable pub flush : Service (Unit {0})
flush s = (if integrity s.work then ok tt else err integrity_error, s)

unfoldable pub commit : Service (Unit {0})
commit s =
    if integrity s.work then (ok tt, record s { saved = s.work }) else (err integrity_error, s)

unfoldable pub rollback : Service (Unit {0})
rollback s = (ok tt, record s { work = s.saved })

module _ {A B : Type 0} where
  abbrev pub continue : Result A → (A → Service B) → Service B
  continue (ok a) f s = f a s
  continue (err e) f s = (err e, s)

  infixl 5 ◌>>=◌
  -- opening this opens the operations above
  unfoldable pub ◌>>=◌ : Service A → (A → Service B) → Service B
  unfolding pure raise query scalar_one_or_none or_raise raise_if get_now modify change_sockets
      flush commit rollback
  ◌>>=◌ m f s = let (r, s') = m s in continue r f s'

infixl 5 ◌>>◌
abbrev pub ◌>>◌ : {B : Type 0} → Service (Unit {0}) → Service B → Service B
m >> k = m >>= λ _. k

-- an `if` with no else branch
unfoldable pub when : Bool → Service (Unit {0}) → Service (Unit {0})
when true m s = m s
when false m s = (ok tt, s)

abbrev pub handled : {A : Type 0} → Result A → Service A → Service A
handled (ok a) handler s = (ok a, s)
handled (err integrity_error) handler s = handler (record s { work = s.saved })
handled (err (app_error status code)) handler s = (err (app_error status code), s)
handled (err multiple_results) handler s = (err multiple_results, s)
handled (err key_error) handler s = (err key_error, s)

-- try: m  except IntegrityError: rollback, then the handler
unfoldable pub on_integrity_error : {A : Type 0} → Service A → Service A → Service A
on_integrity_error m handler s = let (r, s') = m s in handled r handler s'

abbrev pub begin : Database → ℕ → ConnectionManager → Session
begin db now manager = record { saved = db; work = db; now = now; manager = manager }

-- `get_db`: the session commits after a request that returns, and rolls back after one that raises.
abbrev pub finish : {A : Type 0} → Result A × Session → Result A × Session
finish (ok a, s) =
    if integrity s.work
    then (ok a, record s { saved = s.work })
    else (err integrity_error, record s { work = s.saved })
finish (err e, s) = (err e, record s { work = s.saved })

unfoldable pub serve :
    {A : Type 0} → Service A → Database → ℕ → ConnectionManager → Result A × Session
serve m db now manager = finish (m (begin db now manager))
