-- ===== src/Limiter.antt =====
-- app/limiter.py: the rate limiter that falls back to counters in memory while Redis fails. The
-- counting is slowapi's `_check_request_limit`, a parameter: it is given what its reads of
-- `self.limiter` answer, and the counters. Times are milliseconds; each call has its own readings.
pub mod Answers
mod Tests
use book_club_be.Prelude.{
  ℕ, ◌+◌, Bool, true, false, ◌&&◌, List, [], ◌∷◌, Option, some, none, ltb, leb, map, if◌then◌else◌,
}

abbrev pub breaker_cooldown : ℕ
breaker_cooldown = 15000

-- the strategy that counts hits
pub data Strategy : Type 0 where
  fallback_strategy : Strategy
  storage_strategy : Strategy

pub record ResilientLimiter : Type 0 where
  pub open_until : Option ℕ
  pub degraded : Bool

abbrev pub new_breaker : ResilientLimiter
new_breaker = record { open_until = none; degraded = false }

unfoldable pub is_open_at : ℕ → Option ℕ → Bool
is_open_at now none = false
is_open_at now (some until) = ltb now until

unfoldable pub is_past : ℕ → Option ℕ → Bool
is_past now none = false
is_past now (some until) = leb until now

-- the property `limiter` at a reading of the clock
unfoldable pub limiter : ResilientLimiter → ℕ → Strategy
limiter l now = if is_open_at now l.open_until then fallback_strategy else storage_strategy

-- RateLimitExceeded, or any other exception
pub data Outcome : Type 0 where
  passed : Outcome
  limit_exceeded : Outcome
  storage_failed : Outcome

-- the readings of the clock in one call: those of the check, of the handler, of the check on retry,
-- and of the `else` clause
pub record Clocks : Type 0 where
  pub first : List ℕ
  pub failure : ℕ
  pub retry : List ℕ
  pub success : ℕ

abbrev pub opened : ℕ → ResilientLimiter
opened now = record { open_until = some (now + breaker_cooldown); degraded = true }

unfoldable pub recovered : ℕ → ResilientLimiter → ResilientLimiter
recovered now l = if l.degraded && is_past now l.open_until then new_breaker else l

pub record State (Counters : Type 0) : Type 0 where
  pub breaker : ResilientLimiter
  pub counters : Counters

module _ {Request Counters : Type 0}
    (super_check : List Strategy → Request → Counters → Outcome × Counters) where
  unfoldable pub settle :
      Clocks → Request → ResilientLimiter → Outcome → Counters → Outcome × State Counters
  settle clocks request l passed counters =
      (passed, record { breaker = recovered clocks.success l; counters = counters })
  settle clocks request l limit_exceeded counters =
      (limit_exceeded, record { breaker = l; counters = counters })
  settle clocks request l storage_failed counters =
      let again =
        super_check (map (limiter (opened clocks.failure)) clocks.retry) request counters in
      (again.0, record { breaker = opened clocks.failure; counters = again.1 })

  unfoldable pub check_request_limit : Clocks → Request → State Counters → Outcome × State Counters
  check_request_limit clocks request s =
      let checked = super_check (map (limiter s.breaker) clocks.first) request s.counters in
      settle clocks request s.breaker checked.0 checked.1
