-- ===== src/Auth/Tests.antt =====
-- Concrete runs of signing in, over a store of codes that never fails and expires nothing.
use book_club_be.Prelude.{
  ◌≡◌, refl, true, false, Option, none, some, List, [], ◌∷◌, arith, if◌then◌else◌,
}
use book_club_be.Models.{Text, User, UserRole}
use book_club_be.Database.{
  Database, empty_database, integrity, clubs_integrity, events_integrity, chat_integrity,
  quizzes_integrity, votes_integrity, users_integrity, support_integrity, unique, same_text,
}
use book_club_be.Text.{codes}
use book_club_be.Session.{Session, begin, ◌>>=◌}
use book_club_be.Connections.{empty_manager}
use book_club_be.Auth.{
  Settings, Request, Tokens, is_trusted_web_origin, set_session_cookies, body_tokens,
}
use book_club_be.Auth.Redis.{Redis, Value, handoff}
use book_club_be.Auth.Users.{
  SupabaseUser, get_or_create_user, user_or_search, find_by_email, link_or_create, create_user,
}
use book_club_be.Auth.Flows.{handoff_key, oauth_exchange}
use book_club_be.Auth.Codes.{gives_tokens, is_answered, IsAuthorized, Reach, exchange-once}
use book_club_be.Auth.Linking.{IsLinked, get_or_create-IsLinked}

abbrev pub Cells : Type 0
Cells = List (Text × Value)

abbrev pub get : Text → Cells → Option Value
get k [] = none
get k ((j, v) ∷ s) = if same_text j k then some v else get k s

abbrev pub without : Text → Cells → Cells
without k [] = []
without k ((j, v) ∷ s) = let rest = without k s in if same_text j k then rest else (j, v) ∷ rest

pub get-without : (k : Text) (s : Cells) → get k (without k s) ≡ none
get-without k [] = refl
get-without k ((j, v) ∷ s) = ground (arith, get-without k s)

pub get-without_other : (k j : Text) (s : Cells) → get j s ≡ none → get j (without k s) ≡ none
get-without_other k j [] h = refl
get-without_other k j ((i, v) ∷ s) h = ground (arith, get-without_other k j s)

pub get-set :
    (k j : Text) (v : Value) (s : Cells)
    → same_text k j ≡ false
    → get j s ≡ none
    → get j ((k, v) ∷ without k s) ≡ none
get-set k j v s apart h = rw apart (get-without_other k j s h)

pub found-get :
    (k : Text) (s : Cells) (v : Value)
    → ◌≡◌ {A = Option (Option Value)} (some (get k s)) (some (some v))
    → get k s ≡ some v
found-get k s v e = cc e

abbrev pub cells : Redis
cells = record {
  State = Cells;
  set = λ k v ttl s. (true, (k, v) ∷ without k s);
  getdel = λ k s. (some (get k s), without k s);
  holds = get;
  getdel_found = found-get;
  getdel_gone = λ k s o e. get-without k s;
  getdel_frame = get-without_other;
  set_frame = λ k j v ttl s. get-set k j v s;
}

abbrev settings : Settings
settings = record {
  allowed_origins = [];
  matches_cors = λ origin. false;
  frontend_url = codes "https://books";
  oauth_require_pkce = true;
  web_tokens_in_body = true;
  oauth_flow_ttl = 600;
  refresh_token_expire_days = 30;
  access_token_expire_minutes = 15;
  urlparse = λ url. record { scheme = []; netloc = url };
  pkce_challenge = λ v. 1 ∷ v;
}

abbrev request : Request
request = record { origin = none; referer = none; cookies = λ c. none }

abbrev tokens : Tokens
tokens = record { access = codes "a"; refresh = codes "r" }

abbrev stored : Cells
stored =
    (
      handoff_key (codes "code"),
      handoff (record { tokens = tokens; user_id = 2; challenge = some (1 ∷ 5 ∷ []) }),
    )
    ∷ []

exchange-once_example :
    let result = oauth_exchange cells settings request (codes "code") (some (5 ∷ [])) stored in
    (gives_tokens result.0 ≡ true
      → IsAuthorized cells settings (codes "code") (some (5 ∷ [])) stored)
    × (is_answered result.0 ≡ true
        → (s' : Cells) → Reach cells (codes "code") result.1 s'
        → (settings' : Settings) (request' : Request) (v' : Option Text)
        → gives_tokens (oauth_exchange cells settings' request' (codes "code") v' s').0 ≡ false)
exchange-once_example = exchange-once cells settings request (codes "code") (some (5 ∷ [])) stored

gives_first :
    gives_tokens (oauth_exchange cells settings request (codes "code") (some (5 ∷ [])) stored).0
    ≡ true
unfolding oauth_exchange is_trusted_web_origin set_session_cookies body_tokens
gives_first = refl

abbrev reader : User
reader = record {
  id = 2;
  display_name = 66 ∷ [];
  role = UserRole.user;
  avatar_url = none;
  supabase_user_id = some 2;
  email = 2 ∷ [];
}

abbrev tables : Database
tables = record empty_database { users = reader ∷ [] }

abbrev sb_user : SupabaseUser
sb_user = record {
  id = 9;
  email = some (2 ∷ []);
  user_metadata = record { display_name = none; full_name = none; name = none; role = none };
}

abbrev session : Session
session = begin tables 100 empty_manager

-- the reader signs in under another identity
get_or_create-IsLinked_example :
    IsLinked sb_user
      (2 ∷ [])
      session
      (get_or_create_user 5 (7 ∷ []) sb_user (2 ∷ []) session).1
      (record reader { supabase_user_id = some 9 })
unfolding get_or_create_user user_or_search find_by_email link_or_create create_user integrity
    clubs_integrity events_integrity chat_integrity quizzes_integrity votes_integrity
    users_integrity support_integrity unique ◌>>=◌
get_or_create-IsLinked_example =
    get_or_create-IsLinked 5 (7 ∷ []) sb_user (2 ∷ []) session
      (record reader { supabase_user_id = some 9 }) refl
