-- ===== src/ChatFlood.antt =====
-- app/services/chat_flood.py: the flood limiter of a (room, user) pair. Times are readings of
-- `time.monotonic`, each an argument, in one unit throughout; the reply of the Redis script, which
-- is no part of the program, is an argument too.
pub mod Keys
pub mod Window
pub mod Registry
pub mod Breaker
pub mod Refs
mod Tests
use book_club_be.Prelude.{
  ℕ, zero, suc, ◌+◌, ◌-◌, Bool, true, false, ◌&&◌, Option, none, some, List, [], ◌∷◌, ◌++◌, ◌==◌,
  ltb, leb, if◌then◌else◌, length, drop,
}
use Keys.{Key, Table, lookup, insert, erase}

abbrev pub flood_max_messages : ℕ
flood_max_messages = 10

-- FLOOD_WINDOW_SECONDS and _REDIS_BACKOFF_SECONDS, in milliseconds
abbrev pub flood_window : ℕ
flood_window = 10000

abbrev pub redis_backoff : ℕ
redis_backoff = 30000

pub record ChatFloodLimiter : Type 0 where
  pub max : ℕ
  pub window : ℕ
  pub stamps : Table (List ℕ)
  pub refs : Table ℕ
  pub redis_retry_at : ℕ

abbrev pub new_limiter : ℕ → ℕ → ChatFloodLimiter
new_limiter max window = record {
  max = max;
  window = window;
  stamps = [];
  refs = [];
  redis_retry_at = 0;
}

abbrev pub or_zero : Option ℕ → ℕ
or_zero none = 0
or_zero (some n) = n

-- dict.setdefault
abbrev pub set_default {ℓ} : {V : Type ℓ} → Key → V → Table V → Table V
set_default k v d = elim (lookup k d) [ none ↦ insert k v d | some _ ↦ d ]

pub acquire : Key → ChatFloodLimiter → ChatFloodLimiter
acquire k l = record l {
  refs = insert k (or_zero (lookup k l.refs) + 1) l.refs;
  stamps = set_default k [] l.stamps;
}

-- `refs.get(key, 0) - 1` is at most 0 for a missing key, and `-` stops at 0: the test reads the same.
pub release : Key → ChatFloodLimiter → ChatFloodLimiter
release k l =
    let remaining : ℕ = or_zero (lookup k l.refs) - 1 in
    if ltb 0 remaining
    then record l { refs = insert k remaining l.refs }
    else record l { refs = erase k l.refs; stamps = erase k l.stamps }

-- deque(maxlen=max).append: the oldest entry falls out of a full deque
abbrev pub deque_append : ℕ → List ℕ → ℕ → List ℕ
deque_append max stamps now =
    let grown = stamps ++ now ∷ [] in if ltb max (length grown) then drop 1 grown else grown

-- `now - stamps[0] < window`; the code reads `stamps[0]` only of a full deque, and `max` is positive.
abbrev pub oldest_is_recent : ℕ → ℕ → List ℕ → Bool
oldest_is_recent window now [] = false
oldest_is_recent window now (t ∷ ts) = ltb now (t + window)

pub local_limited : Key → ℕ → ChatFloodLimiter → Bool × ChatFloodLimiter
local_limited k now l = elim (lookup k l.stamps) [
  | none ↦ (false, l)
  | some old ↦
      let new = deque_append l.max old now in
      (
        length new == l.max && oldest_is_recent l.window now new,
        record l { stamps = insert k new l.stamps },
      )
]

-- How `redis.eval` ends: an integer count, some other value, or an exception or timeout.
pub data Reply : Type 0 where
  count : ℕ → Reply
  not_int failed : Reply

-- after the breaker's test: the call is made and its reply read
answered : Reply → ℕ → ChatFloodLimiter → Bool × ChatFloodLimiter
answered failed armed l = (false, record l { redis_retry_at = armed + redis_backoff })
answered (count c) armed l = (leb l.max c, record l { redis_retry_at = 0 })
answered not_int armed l = (false, record l { redis_retry_at = 0 })

-- `now` is read for the circuit breaker's test, `armed` when it is armed before the call.
pub redis_limited : Reply → ℕ → ℕ → ChatFloodLimiter → Bool × ChatFloodLimiter
unfolding answered
redis_limited reply now armed l =
    if ltb now l.redis_retry_at then (false, l) else answered reply armed l

-- `none` for no Redis
pub is_limited : Key → Option Reply → ℕ → ℕ → ℕ → ChatFloodLimiter → Bool × ChatFloodLimiter
is_limited k none at now armed l = local_limited k at l
is_limited k (some reply) at now armed l =
    let (limited, l') = local_limited k at l in
    let (shared, l'') = redis_limited reply now armed l' in (if shared then true else limited, l'')
