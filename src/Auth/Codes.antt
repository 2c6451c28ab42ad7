-- ===== src/Auth/Codes.antt =====
-- That the code of a handoff is good for one exchange, by whoever can answer its challenge.
use book_club_be.Prelude.{
  ◌≡◌, refl, ◌∙◌, Bool, true, false, inl, inr, Option, none, some, arith, is_some, Bool-cases,
  Option-cases,
}
use book_club_be.Models.{Text, User}
use book_club_be.Database.{same_text, same_text→eq}
use book_club_be.Session.{Result, ok, err}
use book_club_be.Auth.{Settings, Request, Tokens, present, only_if, is_pkce_challenge}
use book_club_be.Auth.Redis.{Redis, Value, verifier, handoff, user_id, Handoff}
use book_club_be.Auth.Users.{Answer, answered, crashed, SupabaseUser}
use book_club_be.Auth.Flows.{
  flow_key, handoff_key, ticket_key, handoff_ttl, may_exchange, Exchanged, answer_exchange,
  oauth_google, drop_abandoned_flow, take_flow_verifier, store_handoff_code, oauth_exchange,
  create_ws_ticket,
}

-- the exchange has given tokens
abbrev pub gives_tokens : Answer (Result Exchanged) → Bool
gives_tokens crashed = false
gives_tokens (answered (ok e)) = true
gives_tokens (answered (err e)) = false

-- the exchange has been answered, with tokens or with an error
abbrev pub is_answered : Answer (Result Exchanged) → Bool
is_answered crashed = false
is_answered (answered r) = true

module _ (R : Redis) where
  -- One request's use of Redis, or time that passes, in which what is stored may expire. None stores a
  -- handoff under the code.
  pub data Step (code : Text) : R.State → R.State → Type 0 where
    start :
        (settings : Settings) (request : Request) (origin challenge : Option Text) (id v : Text)
        (s : R.State)
        → Step code s (oauth_google R settings request origin challenge id v s).1
    drop_flow : (id : Option Text) (s : R.State) → Step code s (drop_abandoned_flow R id s)
    take_flow : (id : Option Text) (s : R.State) → Step code s (take_flow_verifier R id s).1
    store :
        (other : Text) (session : Tokens) (user : SupabaseUser) (challenge : Option Text)
        (s : R.State)
        → same_text (handoff_key other) (handoff_key code) ≡ false
        → Step code s (store_handoff_code R other session user challenge s).1
    exchange :
        (settings : Settings) (request : Request) (other : Text) (v : Option Text) (s : R.State)
        → Step code s (oauth_exchange R settings request other v s).1
    ticket : (t : Text) (u : User) (s : R.State) → Step code s (create_ws_ticket R t u s).1
    expire :
        (s s' : R.State) → ((k : Text) → R.holds k s ≡ none → R.holds k s' ≡ none) → Step code s s'

  pub data Reach (code : Text) (s : R.State) : R.State → Type 0 where
    here : Reach code s s
    next : {t u : R.State} → Reach code s t → Step code t u → Reach code s u

  drop_keeps :
      (code : Text) (id : Option Text) (s : R.State)
      → R.holds (handoff_key code) s ≡ none
      → R.holds (handoff_key code) (drop_abandoned_flow R id s) ≡ none
  unfolding drop_abandoned_flow
  drop_keeps code id s h = elim (Option-cases (only_if is_pkce_challenge id)) [
    | inl no_flow ↦ rw (no_flow, drop_abandoned_flow) h
    | inr (i, flow) ↦
        rw (flow, drop_abandoned_flow) (R.getdel_frame (flow_key i) (handoff_key code) s h)
  ]

  take_keeps :
      (code : Text) (id : Option Text) (s : R.State)
      → R.holds (handoff_key code) s ≡ none
      → R.holds (handoff_key code) (take_flow_verifier R id s).1 ≡ none
  unfolding take_flow_verifier
  take_keeps code id s h = elim (Option-cases (only_if is_pkce_challenge id)) [
    | inl no_flow ↦ rw (no_flow, take_flow_verifier) h
    | inr (i, flow) ↦
        rw (flow, take_flow_verifier) (R.getdel_frame (flow_key i) (handoff_key code) s h)
  ]

  start_keeps :
      (settings : Settings) (request : Request) (origin challenge : Option Text) (id v : Text)
      (s : R.State)
      → (oauth_google R settings request origin challenge id v s).1
        ≡ (R.set (flow_key id) (verifier v) settings.oauth_flow_ttl s).1
  unfolding oauth_google
  start_keeps settings request origin challenge id v s =
      elim (Bool-cases (R.set (flow_key id) (verifier v) settings.oauth_flow_ttl s).0) [
        | inl stored ↦ rw (stored, oauth_google) refl
        | inr failed ↦ rw (failed, oauth_google) refl
      ]

  Step-keeps :
      (code : Text) {s s' : R.State}
      → Step code s s'
      → R.holds (handoff_key code) s ≡ none
      → R.holds (handoff_key code) s' ≡ none
  unfolding store_handoff_code oauth_exchange create_ws_ticket
  Step-keeps code (start settings request origin challenge id v s) h =
      rw (start_keeps settings request origin challenge id v s)
        (R.set_frame (flow_key id) (handoff_key code) (verifier v) settings.oauth_flow_ttl s refl h)
  Step-keeps code (drop_flow id s) h = drop_keeps code id s h
  Step-keeps code (take_flow id s) h = take_keeps code id s h
  Step-keeps code (store other session user challenge s apart) h =
      R.set_frame (handoff_key other) (handoff_key code) _ handoff_ttl s apart h
  Step-keeps code (exchange settings request other v s) h =
      R.getdel_frame (handoff_key other) (handoff_key code) s h
  Step-keeps code (ticket t u s) h = R.set_frame (ticket_key t) (handoff_key code) _ _ s refl h
  Step-keeps code (expire s s' f) h = f (handoff_key code) h

  Reach-keeps :
      (code : Text) {s s' : R.State}
      → Reach code s s'
      → R.holds (handoff_key code) s ≡ none
      → R.holds (handoff_key code) s' ≡ none
  Reach-keeps code here h = h
  Reach-keeps code (next r st) h = Step-keeps code st (Reach-keeps code r h)

  -- whoever exchanged the code could answer its challenge
  pub record IsAuthorized (settings : Settings) (code : Text) (v : Option Text) (s : R.State)
      : Type 0 where
    pub stored : Handoff
    pub held : R.holds (handoff_key code) s ≡ some (handoff stored)
    pub challenged :
        (challenge : Text)
        → present stored.challenge ≡ some challenge
        → (w : Text) × (present v ≡ some w) × (settings.pkce_challenge w ≡ challenge)
    pub required : settings.oauth_require_pkce ≡ true → is_some (present stored.challenge) ≡ true

  answers-challenge :
      (settings : Settings) (c v : Option Text)
      → may_exchange settings c v ≡ true
      → (challenge : Text) → c ≡ some challenge
      → (w : Text) × (v ≡ some w) × (settings.pkce_challenge w ≡ challenge)
  answers-challenge settings none v h challenge e = cc
  answers-challenge settings (some c) none h challenge e = cc
  answers-challenge settings (some c) (some w) h challenge e =
      (w, refl, same_text→eq (settings.pkce_challenge w) c h ∙ ground arith)

  requires-challenge :
      (settings : Settings) (c v : Option Text)
      → may_exchange settings c v ≡ true
      → settings.oauth_require_pkce ≡ true
      → is_some c ≡ true
  requires-challenge settings (some c) v h e = refl
  requires-challenge settings none v h e = ground arith

  handoff-IsAuthorized :
      (settings : Settings) (request : Request) (code : Text) (v : Option Text) (s : R.State)
      (raw : Option (Option Value))
      → (R.getdel (handoff_key code) s).0 ≡ raw
      → gives_tokens (answer_exchange settings request v raw) ≡ true
      → IsAuthorized settings code v s
  handoff-IsAuthorized settings request code v s none e h = cc
  handoff-IsAuthorized settings request code v s (some none) e h = cc
  handoff-IsAuthorized settings request code v s (some (some (verifier w))) e h = cc
  handoff-IsAuthorized settings request code v s (some (some (user_id w))) e h = cc
  handoff-IsAuthorized settings request code v s (some (some (handoff w))) e h =
      elim (Bool-cases (may_exchange settings (present w.challenge) (present v))) [
        | inl may ↦ record {
          stored = w;
          held = R.getdel_found (handoff_key code) s (handoff w) e;
          challenged = answers-challenge settings _ _ may;
          required = requires-challenge settings _ _ may;
        }
        | inr may_not ↦ absurd (ground (arith, h, may_not))
      ]

  -- no tokens for a code that is not held
  absent-gives_none :
      (settings : Settings) (request : Request) (code : Text) (v : Option Text) (s : R.State)
      (raw : Option (Option Value))
      → (R.getdel (handoff_key code) s).0 ≡ raw
      → R.holds (handoff_key code) s ≡ none
      → gives_tokens (answer_exchange settings request v raw) ≡ false
  absent-gives_none settings request code v s none e h = refl
  absent-gives_none settings request code v s (some none) e h = refl
  absent-gives_none settings request code v s (some (some w)) e h =
      cc (R.getdel_found (handoff_key code) s w e)

  answered-gone :
      (settings : Settings) (request : Request) (code : Text) (v : Option Text) (s : R.State)
      (raw : Option (Option Value))
      → (R.getdel (handoff_key code) s).0 ≡ raw
      → is_answered (answer_exchange settings request v raw) ≡ true
      → R.holds (handoff_key code) (R.getdel (handoff_key code) s).1 ≡ none
  answered-gone settings request code v s none e h = cc
  answered-gone settings request code v s (some o) e h = R.getdel_gone (handoff_key code) s o e

  -- With a Redis that meets the documented laws of SET and GETDEL: tokens are given for a code only
  -- if a handoff is stored under it, to a verifier that hashes to its challenge if it has one, and it
  -- has one if PKCE is required; and once an exchange of a code has been answered, by tokens or by an
  -- error, no later exchange of it gives tokens, whatever requests on other codes and expiries come
  -- between.
  pub exchange-once :
      (settings : Settings) (request : Request) (code : Text) (v : Option Text) (s : R.State)
      → let result = oauth_exchange R settings request code v s in
        (gives_tokens result.0 ≡ true → IsAuthorized settings code v s)
        × (is_answered result.0 ≡ true
            → (s' : R.State) → Reach code result.1 s'
            → (settings' : Settings) (request' : Request) (v' : Option Text)
            → gives_tokens (oauth_exchange R settings' request' code v' s').0 ≡ false)
  unfolding oauth_exchange
  exchange-once settings request code v s = (
    handoff-IsAuthorized settings request code v s (R.getdel (handoff_key code) s).0 refl,
    λ h s' later settings' request' v'.
        absent-gives_none settings' request' code v' s' (R.getdel (handoff_key code) s').0 refl (
          Reach-keeps code later
            (answered-gone settings request code v s (R.getdel (handoff_key code) s).0 refl h)),
  )
