-- ===== src/Auth/Redis.antt =====
-- The store of one-time codes: what app/routers/auth.py and chat.py use of Redis, as an interface. A
-- call that raises gives `false` or `none`. The laws are the documented behaviour of SET with an expiry
-- and of GETDEL, on what a key holds at a moment.
use book_club_be.Prelude.{ℕ, ◌≡◌, Bool, false, Option, none, some}
use book_club_be.Models.{Text}
use book_club_be.Database.{same_text}
use book_club_be.Auth.{Tokens}

-- the JSON object of a handoff; `challenge` may be null
pub record Handoff : Type 0 where
  pub tokens : Tokens
  pub user_id : ℕ
  pub challenge : Option Text

pub data Value : Type 0 where
  verifier : Text → Value
  handoff : Handoff → Value
  user_id : ℕ → Value

pub record Redis : Type 1 where
  pub State : Type 0
  pub set : Text → Value → ℕ → State → Bool × State
  pub getdel : Text → State → Option (Option Value) × State
  pub holds : Text → State → Option Value
  -- GETDEL answers with what the key holds, and the key then holds nothing
  pub getdel_found :
      (k : Text) (s : State) (v : Value) → (getdel k s).0 ≡ some (some v) → holds k s ≡ some v
  pub getdel_gone :
      (k : Text) (s : State) (o : Option Value)
      → (getdel k s).0 ≡ some o
      → holds k (getdel k s).1 ≡ none
  -- neither call gives another key a value
  pub getdel_frame : (k j : Text) (s : State) → holds j s ≡ none → holds j (getdel k s).1 ≡ none
  pub set_frame :
      (k j : Text) (v : Value) (ttl : ℕ) (s : State)
      → same_text k j ≡ false
      → holds j s ≡ none
      → holds j (set k v ttl s).1 ≡ none
