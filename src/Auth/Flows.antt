-- ===== src/Auth/Flows.antt =====
-- app/routers/auth.py: the OAuth flow with its one-time codes, tickets for WebSockets, and logging out.
-- Drawn tokens (`secrets.token_urlsafe`), the verifier of a flow and what the Supabase client answers are
-- arguments.
use book_club_be.Prelude.{
  ℕ, Bool, true, false, not, ◌&&◌, ◌||◌, Option, none, some, List, [], ◌∷◌, ◌++◌, ◌==◌, is_some,
  if◌then◌else◌,
}
use book_club_be.Models.{Text, User}
use book_club_be.Database.{same_text}
use book_club_be.Text.{codes, non_empty, strip}
use book_club_be.Session.{
  Session, Result, ok, err, app_error, rollback, invalid_oauth_code, oauth_init_error,
}
use book_club_be.Auth.{
  Settings, Request, refresh_token, access_token, fe_origin, oauth_challenge, oauth_flow,
  CookieChange, set_cookie, delete_cookie, Tokens, present, or_else, only_if, is_pkce_challenge,
  valid_challenge_cookie, resolve_frontend_origin, set_session_cookies, body_tokens,
  clear_session_cookies, is_blank,
}
use book_club_be.Auth.Redis.{Redis, Value, verifier, handoff, user_id, Handoff}
use book_club_be.Auth.Users.{
  SupabaseUser, Reply, response, auth_api_error, raised, Answer, answered, crashed,
  get_or_create_user,
}

abbrev pub flow_key : Text → Text
flow_key id = codes "oauth:flow:" ++ id

abbrev pub handoff_key : Text → Text
handoff_key code = codes "oauth:handoff:" ++ code

abbrev pub ticket_key : Text → Text
ticket_key ticket = codes "ws:ticket:" ++ ticket

abbrev pub handoff_ttl : ℕ
handoff_ttl = 60

abbrev pub ws_ticket_ttl : ℕ
ws_ticket_ttl = 60

-- `/login?oauth=failed`, or the page that is handed the code
pub data Landing : Type 0 where
  oauth_failed : Landing
  with_code : Text → Landing

pub record Redirect : Type 0 where
  pub frontend : Text
  pub path : Landing

-- every redirect of the callback deletes these
abbrev pub redirect_cookies : List CookieChange
redirect_cookies =
    delete_cookie fe_origin ∷ delete_cookie oauth_challenge ∷ delete_cookie oauth_flow ∷ []

-- a GETDEL that is no verifier's value: `none` where it raised, found nothing or found an empty one
abbrev pub as_verifier : Option (Option Value) → Option Text
as_verifier (some (some (verifier v))) = non_empty v
as_verifier _ = none

abbrev pub as_handoff : Option Value → Option Handoff
as_handoff (some (handoff h)) = some h
as_handoff _ = none

abbrev pub challenge_cookie : Option Text → List CookieChange
challenge_cookie none = delete_cookie oauth_challenge ∷ []
challenge_cookie (some challenge) = set_cookie oauth_challenge challenge 600 ∷ []

abbrev pub origin_cookie : Option Text → List CookieChange
origin_cookie none = []
origin_cookie (some origin) = set_cookie fe_origin origin 600 ∷ []

-- str(email)
abbrev pub str_email : Option Text → Text
str_email none = codes "None"
str_email (some e) = e

-- where the callback redirects to
abbrev pub callback_frontend : Settings → Request → Text
callback_frontend settings request =
    elim (resolve_frontend_origin settings (request.cookies fe_origin)) [
      | none ↦ settings.frontend_url
      | some origin ↦ origin
    ]

-- the challenge's test: `challenge and code_verifier and compare_digest(…)`
abbrev pub answers_challenge : Settings → Option Text → Option Text → Bool
answers_challenge settings none v = false
answers_challenge settings (some challenge) none = false
answers_challenge settings (some challenge) (some v) =
    same_text (settings.pkce_challenge v) challenge

abbrev pub may_exchange : Settings → Option Text → Option Text → Bool
may_exchange settings challenge v =
    if is_some challenge || settings.oauth_require_pkce
    then answers_challenge settings challenge v
    else true

pub record Exchanged : Type 0 where
  pub tokens : Option Tokens
  pub cookies : List CookieChange

abbrev pub exchange_handoff :
    Settings → Request → Option Text → Option Handoff → Answer (Result Exchanged)
exchange_handoff settings request code_verifier none =
    answered (err (app_error 400 invalid_oauth_code))
exchange_handoff settings request code_verifier (some h) =
    if not (may_exchange settings (present h.challenge) (present code_verifier))
    then answered (err (app_error 400 invalid_oauth_code))
    else answered (
        ok (record {
          tokens = body_tokens settings request h.tokens;
          cookies = set_session_cookies settings request h.tokens;
        }))

abbrev pub answer_exchange :
    Settings → Request → Option Text → Option (Option Value) → Answer (Result Exchanged)
answer_exchange settings request code_verifier none = crashed
answer_exchange settings request code_verifier (some raw) =
    exchange_handoff settings request code_verifier (as_handoff raw)

-- "Bearer " and the token, or none
abbrev pub without_prefix : Text → Text → Option Text
without_prefix [] t = some t
without_prefix (p ∷ ps) [] = none
without_prefix (p ∷ ps) (c ∷ cs) = if p == c then without_prefix ps cs else none

-- the header wins over the cookie
abbrev pub access_token_of : Text → Request → Option Text
access_token_of authorization request = elim (without_prefix (codes "Bearer ") authorization) [
  | none ↦ request.cookies access_token
  | some token ↦ some token
]

-- the session that a refresh gives is the one signed out; the calls of `sign_out` are what it returns
abbrev pub sign_out_refreshed : (Text → Reply) → Text → List Text
sign_out_refreshed refresh_session token =
    if is_blank (strip token) then [] else elim (refresh_session token) [
      | response r ↦ elim r.session [ none ↦ [] | some tokens ↦ tokens.access ∷ [] ]
      | auth_api_error registered ↦ []
      | raised ↦ []
    ]

abbrev pub sign_out_by_refresh : (Text → Reply) → Option Text → List Text
sign_out_by_refresh refresh_session none = []
sign_out_by_refresh refresh_session (some token) = sign_out_refreshed refresh_session token

-- `_revoke_session`, whose exceptions are swallowed: the access tokens that `sign_out` is called with
unfoldable pub revoke_session :
    (Text → Bool) → (Text → Reply) → Option Text → Option Text → List Text
revoke_session sign_out refresh_session none refresh = sign_out_by_refresh refresh_session refresh
revoke_session sign_out refresh_session (some access) refresh =
    access ∷ (if sign_out access then [] else sign_out_by_refresh refresh_session refresh)

-- The cookies' changes, and the sessions that are signed out. `body_token` is what
-- `_optional_body_refresh_token` reads.
unfoldable pub logout :
    Text → Request → Option Text → (Text → Bool) → (Text → Reply) → List CookieChange × List Text
logout authorization request body_token sign_out refresh_session = (
  clear_session_cookies,
  revoke_session sign_out refresh_session (present (access_token_of authorization request))
      (present (or_else (request.cookies refresh_token) body_token)),
)

module _ (R : Redis) where
  -- The query's `challenge` has been matched by its pattern. The answer is the cookies of the redirect to
  -- the provider, whose URL carries the challenge of `flow_verifier`.
  unfoldable pub oauth_google :
      Settings
      → Request
      → Option Text
      → Option Text
      → Text
      → Text
      → R.State
      → Result (List CookieChange) × R.State
  oauth_google settings request origin challenge flow_id flow_verifier s =
      let (stored, s') =
        R.set (flow_key flow_id) (verifier flow_verifier) settings.oauth_flow_ttl s in
      if not stored then (err (app_error 503 oauth_init_error), s') else (
        ok (
            set_cookie oauth_flow flow_id settings.oauth_flow_ttl
              ∷ origin_cookie (resolve_frontend_origin settings (or_else origin request.referer))
            ++ challenge_cookie (present challenge)),
        s',
      )

  -- `flow_id and _PKCE_CHALLENGE_RE.fullmatch(flow_id)`
  unfoldable pub drop_abandoned_flow : Option Text → R.State → R.State
  drop_abandoned_flow flow_id s = elim (only_if is_pkce_challenge flow_id) [
    | none ↦ s
    | some id ↦ (R.getdel (flow_key id) s).1
  ]

  unfoldable pub take_flow_verifier : Option Text → R.State → Option Text × R.State
  take_flow_verifier flow_id s = elim (only_if is_pkce_challenge flow_id) [
    | none ↦ (none, s)
    | some id ↦ let (raw, s') = R.getdel (flow_key id) s in (as_verifier raw, s')
  ]

  -- none where Redis raised
  unfoldable pub store_handoff_code :
      Text → Tokens → SupabaseUser → Option Text → R.State → Option Text × R.State
  store_handoff_code handoff_code session user challenge s =
      let value = handoff (record { tokens = session; user_id = user.id; challenge = challenge }) in
      let (stored, s') = R.set (handoff_key handoff_code) value handoff_ttl s in
      (if stored then some handoff_code else none, s')

  pub record Callback : Type 0 where
    pub path : Landing
    pub redis : R.State
    pub session : Session

  abbrev pub failed : R.State → Session → Callback
  failed s db = record { path = oauth_failed; redis = s; session = db }

  abbrev pub hand_over : Option Text × R.State → Session → Callback
  hand_over (none, s) db = failed s db
  hand_over (some code, s) db = record { path = with_code code; redis = s; session = db }

  -- what an earlier failure leaves is rolled back
  abbrev pub provisioned :
      Text → Tokens → SupabaseUser → Option Text → R.State → Result User × Session → Callback
  provisioned handoff_code session user challenge s (ok u, db) =
      hand_over (store_handoff_code handoff_code session user challenge s) db
  provisioned handoff_code session user challenge s (err e, db) = failed s (rollback db).1

  abbrev pub exchanged :
      Text
      → ℕ
      → Text
      → Option Text
      → R.State
      → Session
      → Option SupabaseUser
      → Option Tokens
      → Callback
  exchanged handoff_code id random_name challenge s db none session = failed s db
  exchanged handoff_code id random_name challenge s db (some user) none = failed s db
  exchanged handoff_code id random_name challenge s db (some user) (some session) =
      provisioned handoff_code session user challenge s
        (get_or_create_user id random_name user (str_email user.email) db)

  abbrev pub replied : Text → ℕ → Text → Option Text → R.State → Session → Reply → Callback
  replied handoff_code id random_name challenge s db (response r) =
      exchanged handoff_code id random_name challenge s db r.user r.session
  replied handoff_code id random_name challenge s db (auth_api_error registered) = failed s db
  replied handoff_code id random_name challenge s db raised = failed s db

  -- with the verifier of the flow, or without
  abbrev pub verified :
      Settings
      → Request
      → Text
      → (Text → Text → Reply)
      → Text
      → ℕ
      → Text
      → Session
      → Option Text × R.State
      → Callback
  verified settings request code exchange_code handoff_code id random_name db (none, s) =
      failed s db
  verified settings request code exchange_code handoff_code id random_name db (some v, s) =
      let challenge = valid_challenge_cookie request in
      if settings.oauth_require_pkce && not (is_some challenge)
      then failed s db
      else replied handoff_code id random_name challenge s db (exchange_code code v)

  unfoldable pub oauth_callback :
      Settings
      → Request
      → Option Text
      → (Text → Text → Reply)
      → Text
      → ℕ
      → Text
      → R.State
      → Session
      → Callback
  oauth_callback settings request code exchange_code handoff_code id random_name s db =
      elim (present code) [
        | none ↦ failed (drop_abandoned_flow (request.cookies oauth_flow) s) db
        | some c ↦
            verified settings request c exchange_code handoff_code id random_name db
              (take_flow_verifier (request.cookies oauth_flow) s)
      ]

  unfoldable pub oauth_exchange :
      Settings → Request → Text → Option Text → R.State → Answer (Result Exchanged) × R.State
  oauth_exchange settings request code code_verifier s =
      let (raw, s') = R.getdel (handoff_key code) s in
      (answer_exchange settings request code_verifier raw, s')

  -- the ticket; an exception of Redis is a 500
  unfoldable pub create_ws_ticket : Text → User → R.State → Answer Text × R.State
  create_ws_ticket ticket current_user s =
      let (stored, s') = R.set (ticket_key ticket) (user_id current_user.id) ws_ticket_ttl s in
      (if stored then answered ticket else crashed, s')
