-- ===== src/Auth.antt =====
-- app/routers/auth.py: who gets cookies and tokens. What a response does to the browser's cookies is a
-- list of changes; every cookie is set and deleted on one path of its own, always `httponly` and
-- `samesite="lax"`, and `secure` exactly in production. `urlparse` is a parameter of the settings, as
-- are the regular expression for origins and the hash of a PKCE verifier.
pub mod Redis
pub mod Users
pub mod Flows
pub mod Codes
pub mod Linking
pub mod Tests
use book_club_be.Prelude.{
  ℕ, ◌*◌, Bool, true, false, not, ◌&&◌, ◌||◌, Option, none, some, List, [], ◌∷◌, ◌++◌, ◌==◌, leb,
  length, for_all, exists, is_some, if◌then◌else◌,
}
use book_club_be.Models.{Text}
use book_club_be.Database.{same_text}
use book_club_be.Text.{codes, non_empty}

-- what `urlparse` gives of a URL
pub record Url : Type 0 where
  pub scheme : Text
  pub netloc : Text

pub record Settings : Type 0 where
  pub allowed_origins : List Text
  pub matches_cors : Text → Bool
  pub frontend_url : Text
  pub oauth_require_pkce : Bool
  pub web_tokens_in_body : Bool
  pub oauth_flow_ttl : ℕ
  pub refresh_token_expire_days : ℕ
  pub access_token_expire_minutes : ℕ
  pub urlparse : Text → Url
  pub pkce_challenge : Text → Text

pub data Cookie : Type 0 where
  refresh_token access_token fe_origin oauth_challenge oauth_flow : Cookie

-- with its value and `max_age`
pub data CookieChange : Type 0 where
  set_cookie : Cookie → Text → ℕ → CookieChange
  delete_cookie : Cookie → CookieChange

-- the parts of a request that the handlers read
pub record Request : Type 0 where
  pub origin : Option Text
  pub referer : Option Text
  pub cookies : Cookie → Option Text

-- `a or b` on texts that may be missing
abbrev pub or_else : Option Text → Option Text → Option Text
or_else none b = b
or_else (some []) b = b
or_else (some (c ∷ cs)) b = some (c ∷ cs)

-- a text that is there and not empty
abbrev pub present : Option Text → Option Text
present none = none
present (some t) = non_empty t

abbrev pub is_blank : Text → Bool
is_blank t = not (is_some (non_empty t))

-- f"{parsed.scheme}://{parsed.netloc}", or none where one of the two is missing
abbrev pub origin_of : Url → Option Text
origin_of url =
    if is_blank url.scheme || is_blank url.netloc
    then none
    else some (url.scheme ++ codes "://" ++ url.netloc)

abbrev pub if_allowed : (Text → Bool) → Option Text → Option Text
if_allowed allowed none = none
if_allowed allowed (some origin) = if allowed origin then some origin else none

abbrev pub is_frontend : Settings → Text → Bool
is_frontend settings origin =
    settings.matches_cors origin
    || same_text origin settings.frontend_url
    || same_text origin (codes "http://localhost:4200")

unfoldable pub resolve_frontend_origin : Settings → Option Text → Option Text
resolve_frontend_origin settings candidate = elim (present candidate) [
  | none ↦ none
  | some url ↦ if_allowed (is_frontend settings) (origin_of (settings.urlparse url))
]

abbrev pub is_web_origin : Settings → Text → Bool
is_web_origin settings origin =
    exists (same_text origin) settings.allowed_origins || settings.matches_cors origin

unfoldable pub is_trusted_web_origin : Settings → Request → Bool
is_trusted_web_origin settings request = elim (present (or_else request.origin request.referer)) [
  | none ↦ false
  | some url ↦ is_some (if_allowed (is_web_origin settings) (origin_of (settings.urlparse url)))
]

pub record Tokens : Type 0 where
  pub access : Text
  pub refresh : Text

-- `_set_session_cookies`
unfoldable pub set_session_cookies : Settings → Request → Tokens → List CookieChange
set_session_cookies settings request tokens =
    if not (is_trusted_web_origin settings request)
    then []
    else set_cookie refresh_token tokens.refresh (settings.refresh_token_expire_days * 86400)
      ∷ set_cookie access_token tokens.access (settings.access_token_expire_minutes * 60)
      ∷ []

-- `_body_tokens`: no tokens for the web where the cookies carry them
unfoldable pub body_tokens : Settings → Request → Tokens → Option Tokens
body_tokens settings request tokens =
    if not settings.web_tokens_in_body && is_trusted_web_origin settings request
    then none
    else some tokens

abbrev pub clear_session_cookies : List CookieChange
clear_session_cookies = delete_cookie refresh_token ∷ delete_cookie access_token ∷ []

-- [A-Za-z0-9_-]
abbrev pub is_url_safe : ℕ → Bool
is_url_safe c =
    (leb b'A' c && leb c b'Z')
    || (leb b'a' c && leb c b'z')
    || (leb b'0' c && leb c b'9')
    || c == b'_'
    || c == b'-'

-- `_PKCE_CHALLENGE_RE`, of 43 characters
abbrev pub is_pkce_challenge : Text → Bool
is_pkce_challenge t = length t == 43 && for_all is_url_safe t

abbrev pub only_if {ℓ} : {A : Type ℓ} → (A → Bool) → Option A → Option A
only_if p none = none
only_if p (some a) = if p a then some a else none

unfoldable pub valid_challenge_cookie : Request → Option Text
valid_challenge_cookie request = only_if is_pkce_challenge (request.cookies oauth_challenge)

abbrev pub session_status : Request → Bool
session_status request = is_some (present (request.cookies refresh_token))
