-- ===== src/Auth/Users.antt =====
-- app/routers/auth.py and app/services/auth_service.py: signing up and in, and the local user of a
-- Supabase user. What a call of the Supabase client answers is an argument, and so are the id and the
-- random name that a new user may get.
use book_club_be.Prelude.{
  ℕ, Bool, true, false, not, ◌&&◌, ◌||◌, Option, none, some, List, [], ◌∷◌, ◌++◌, ◌==◌, exists,
  is_some, if◌then◌else◌, select, update, opt_eq,
}
use book_club_be.Models.{Text, User, UserRole}
use book_club_be.Database.{Database, same_text}
use book_club_be.Text.{codes, strip}
use book_club_be.Session.{
  Service, pure, raise, raise_if, modify, flush, commit, scalar_one_or_none, ◌>>=◌, ◌>>◌,
  email_exists, invalid_display_name, auth_service_error, supabase_auth_error, invalid_credentials,
  missing_refresh_token, invalid_refresh_token,
}
use book_club_be.Auth.{
  Settings, Request, CookieChange, Tokens, or_else, present, set_session_cookies, body_tokens,
  is_blank,
}

-- `user_metadata`, each key a text that may be missing
pub record Metadata : Type 0 where
  pub display_name : Option Text
  pub full_name : Option Text
  pub name : Option Text
  pub role : Option Text

pub record SupabaseUser : Type 0 where
  pub id : ℕ
  pub email : Option Text
  pub user_metadata : Metadata

pub record AuthResponse : Type 0 where
  pub user : Option SupabaseUser
  pub session : Option Tokens

-- How a call of the client ends: with a response, an AuthApiError, whose message may say that the
-- email is registered, or another exception.
pub data Reply : Type 0 where
  response : AuthResponse → Reply
  auth_api_error : Bool → Reply
  raised : Reply

-- what follows the first "@" of a text, with what stands before it
abbrev pub partition_at : Text → Option (Text × Text)
partition_at [] = none
partition_at (c ∷ cs) =
    let rest = partition_at cs in
    if c == b'@'
    then some ([], cs)
    else elim rest [ none ↦ none | some (local, domain) ↦ some (c ∷ local, domain) ]

abbrev pub has_dot : Text → Bool
has_dot = exists (λ c. c == b'.')

unfoldable pub looks_like_email : Text → Bool
looks_like_email text = elim (partition_at text) [
  | none ↦ false
  | some (local, domain) ↦ not (is_blank local) && has_dot domain
]

-- `random_name` is what `_random_display_name` draws
unfoldable pub sanitize_display_name : Text → Text → Text
sanitize_display_name random_name display_name =
    if is_blank display_name || looks_like_email (strip display_name)
    then random_name
    else display_name

abbrev pub or_text : Option Text → Text → Text
or_text none t = t
or_text (some []) t = t
or_text (some (c ∷ cs)) t = c ∷ cs

abbrev pub raw_name : Metadata → Text → Text
raw_name m email = or_text (or_else m.display_name (or_else m.full_name m.name)) email

-- only "user" and "organizer" are taken over
abbrev pub role_of : Option Text → UserRole
role_of none = UserRole.user
role_of (some t) = if same_text t (codes "organizer") then UserRole.organizer else UserRole.user

abbrev pub linked_rows : ℕ → Database → List User
linked_rows supabase_user_id db =
    select (λ u. opt_eq u.supabase_user_id (some supabase_user_id)) db.users

abbrev pub email_rows : Text → Database → List User
email_rows email db = select (λ u. same_text u.email email) db.users

abbrev pub link : ℕ → User → User
link supabase_user_id u = record u { supabase_user_id = some supabase_user_id }

abbrev pub relink : ℕ → User → Database → Database
relink supabase_user_id user db = record db {
  users = update (λ u. u.id == user.id) (link supabase_user_id) db.users;
}

abbrev pub add_user : User → Database → Database
add_user u db = record db { users = db.users ++ u ∷ [] }

abbrev pub new_user : ℕ → ℕ → Text → Text → UserRole → User
new_user id supabase_user_id email display_name role = record {
  id = id;
  display_name = display_name;
  role = role;
  avatar_url = none;
  supabase_user_id = some supabase_user_id;
  email = email;
}

unfoldable pub create_user : User → Service User
create_user user = do modify (add_user user); flush; commit; pure user

abbrev pub first_user : ℕ → Text → SupabaseUser → Text → User
first_user id random_name sb_user email =
    new_user id sb_user.id email
      (sanitize_display_name random_name (raw_name sb_user.user_metadata email))
      (role_of sb_user.user_metadata.role)

-- the row with the email: it gets the identity that has just signed in
unfoldable pub link_or_create : ℕ → Text → SupabaseUser → Text → Option User → Service User
link_or_create id random_name sb_user email none =
    create_user (first_user id random_name sb_user email)
link_or_create id random_name sb_user email (some user) =
    if opt_eq user.supabase_user_id (some sb_user.id)
    then pure user
    else do modify (relink sb_user.id user); commit; pure (link sb_user.id user)

unfoldable pub find_by_email : ℕ → Text → SupabaseUser → Text → Service User
find_by_email id random_name sb_user email = do
  existing ← scalar_one_or_none (email_rows email)
  link_or_create id random_name sb_user email existing

unfoldable pub user_or_search : ℕ → Text → SupabaseUser → Text → Option User → Service User
user_or_search id random_name sb_user email none = find_by_email id random_name sb_user email
user_or_search id random_name sb_user email (some user) = pure user

unfoldable pub get_or_create_user : ℕ → Text → SupabaseUser → Text → Service User
get_or_create_user id random_name sb_user email = do
  linked ← scalar_one_or_none (linked_rows sb_user.id)
  user_or_search id random_name sb_user email linked

-- Where an exception other than those of the program comes from outside, the request ends in a 500.
pub data Answer (A : Type 0) : Type 0 where
  answered : A → Answer A
  crashed : Answer A

-- `supabase_sign_up`
unfoldable pub supabase_sign_up : Reply → Service (Answer AuthResponse)
supabase_sign_up (response r) = pure (answered r)
supabase_sign_up (auth_api_error true) = raise 409 email_exists
supabase_sign_up (auth_api_error false) = raise 400 supabase_auth_error
supabase_sign_up raised = pure crashed

unfoldable pub supabase_sign_in : Reply → Service (Answer AuthResponse)
supabase_sign_in (response r) = pure (answered r)
supabase_sign_in (auth_api_error registered) = raise 401 invalid_credentials
supabase_sign_in raised = pure crashed

-- An empty token is refused before the client sees it.
unfoldable pub supabase_refresh : (Text → Reply) → Text → Service (Answer AuthResponse)
supabase_refresh refresh_session token =
    if is_blank (strip token)
    then raise 401 invalid_refresh_token
    else elim (refresh_session token) [
      | response r ↦ pure (answered r)
      | auth_api_error registered ↦ raise 401 invalid_refresh_token
      | raised ↦ pure crashed
    ]

-- the body's tokens and the cookies of a sign-in; `none` tokens where the cookies carry them
pub record SignedIn : Type 0 where
  pub user : User
  pub tokens : Option Tokens
  pub cookies : List CookieChange

abbrev pub signed_in : Settings → Request → User → Tokens → SignedIn
signed_in settings request user tokens = record {
  user = user;
  tokens = body_tokens settings request tokens;
  cookies = set_session_cookies settings request tokens;
}

-- `user is None or session is None`
unfoldable pub complete_login :
    Settings → Request → ℕ → Text → Text → Option SupabaseUser → Option Tokens → Service SignedIn
complete_login settings request id random_name email none session = raise 401 invalid_credentials
complete_login settings request id random_name email (some sb_user) none =
    raise 401 invalid_credentials
complete_login settings request id random_name email (some sb_user) (some tokens) = do
  user ← get_or_create_user id random_name sb_user email
  pure (signed_in settings request user tokens)

unfoldable pub continue_login :
    Settings → Request → ℕ → Text → Text → Answer AuthResponse → Service (Answer SignedIn)
continue_login settings request id random_name email crashed = pure crashed
continue_login settings request id random_name email (answered r) = do
  done ← complete_login settings request id random_name email r.user r.session
  pure (answered done)

unfoldable pub login : Settings → Request → ℕ → Text → Text → Reply → Service (Answer SignedIn)
login settings request id random_name email reply = do
  auth_response ← supabase_sign_in reply
  continue_login settings request id random_name email auth_response

-- 201 with the user and tokens, or 202 where the email has to be confirmed
pub data Registered : Type 0 where
  created : SignedIn → Registered
  confirmation_required : Registered

abbrev pub registered : Settings → Request → User → Option Tokens → Registered
registered settings request user none = confirmation_required
registered settings request user (some tokens) = created (signed_in settings request user tokens)

-- Literal["user", "organizer"]
pub data SignUpRole : Type 0 where
  as_user as_organizer : SignUpRole

abbrev pub user_role : SignUpRole → UserRole
user_role as_user = UserRole.user
user_role as_organizer = UserRole.organizer

pub record RegisterBody : Type 0 where
  pub email : Text
  pub display_name : Text
  pub role : SignUpRole

unfoldable pub complete_register :
    Settings → Request → ℕ → RegisterBody → Option SupabaseUser → Option Tokens → Service Registered
complete_register settings request id body none session = raise 503 auth_service_error
complete_register settings request id body (some sb_user) session = do
  user ← create_user (new_user id sb_user.id body.email body.display_name (user_role body.role))
  pure (registered settings request user session)

unfoldable pub continue_register :
    Settings → Request → ℕ → RegisterBody → Answer AuthResponse → Service (Answer Registered)
continue_register settings request id body crashed = pure crashed
continue_register settings request id body (answered r) = do
  done ← complete_register settings request id body r.user r.session
  pure (answered done)

unfoldable pub register :
    Settings → Request → ℕ → RegisterBody → Reply → Service (Answer Registered)
register settings request id body reply = do
  existing ← scalar_one_or_none (email_rows body.email)
  raise_if (is_some existing) 409 email_exists
  raise_if (looks_like_email (strip body.display_name)) 422 invalid_display_name
  auth_response ← supabase_sign_up reply
  continue_register settings request id body auth_response

pub record Refreshed : Type 0 where
  pub tokens : Option Tokens
  pub cookies : List CookieChange

unfoldable pub complete_refresh :
    Settings → Request → Answer AuthResponse → Service (Answer Refreshed)
complete_refresh settings request crashed = pure crashed
complete_refresh settings request (answered r) = elim r.session [
  | none ↦ raise 401 invalid_refresh_token
  | some tokens ↦ pure (
      answered (record {
        tokens = body_tokens settings request tokens;
        cookies = set_session_cookies settings request tokens;
      }))
]

unfoldable pub refresh_with :
    Settings → Request → (Text → Reply) → Option Text → Service (Answer Refreshed)
refresh_with settings request refresh_session none = raise 401 missing_refresh_token
refresh_with settings request refresh_session (some token) = do
  auth_response ← supabase_refresh refresh_session token
  complete_refresh settings request auth_response

-- the cookie wins over the body
unfoldable pub refresh_token :
    Settings → Request → Option Text → Option Text → (Text → Reply) → Service (Answer Refreshed)
refresh_token settings request cookie body refresh_session =
    refresh_with settings request refresh_session (present (or_else cookie body))
