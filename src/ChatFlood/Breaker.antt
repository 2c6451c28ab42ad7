-- ===== src/ChatFlood/Breaker.antt =====
-- The shared Redis counter behind its circuit breaker.
use book_club_be.Prelude.{
  ℕ, ◌+◌, ◌<◌, ◌≡◌, Bool, true, false, not, ◌&&◌, ◌||◌, Option, none, some, arith, ltb, leb,
}
use book_club_be.ChatFlood.{
  ChatFloodLimiter, redis_backoff, local_limited, redis_limited, answered, is_limited, Reply, count,
  not_int, failed,
}
use book_club_be.ChatFlood.Keys.{Key}

local_limited-fields :
    (k : Key) (now : ℕ) (l : ChatFloodLimiter)
    → ((local_limited k now l).1.redis_retry_at ≡ l.redis_retry_at)
      × ((local_limited k now l).1.max ≡ l.max)
unfolding local_limited
local_limited-fields k now l = ground arith

-- whether the shared counter is asked and reports the budget used up
abbrev pub shared_exceeds : ℕ → ℕ → ℕ → Option Reply → Bool
shared_exceeds max retry_at now none = false
shared_exceeds max retry_at now (some failed) = false
shared_exceeds max retry_at now (some not_int) = false
shared_exceeds max retry_at now (some (count c)) = not (ltb now retry_at) && leb max c

-- A frame is limited exactly when the local window or the shared counter says so; a failing, an
-- absent and a skipped Redis leave the answer to the local window.
pub is_limited_lem :
    (k : Key) (reply : Option Reply) (at now armed : ℕ) (l : ChatFloodLimiter)
    → (is_limited k reply at now armed l).0
      ≡ ((local_limited k at l).0 || shared_exceeds l.max l.redis_retry_at now reply)
unfolding is_limited redis_limited answered
is_limited_lem k none at now armed l = ground arith
is_limited_lem k (some failed) at now armed l = ground (arith, local_limited-fields k at l)
is_limited_lem k (some not_int) at now armed l = ground (arith, local_limited-fields k at l)
is_limited_lem k (some (count c)) at now armed l = ground (arith, local_limited-fields k at l)

skipped_lem :
    (k : Key) (reply : Reply) (at now armed : ℕ) (l : ChatFloodLimiter)
    → ltb now l.redis_retry_at ≡ true
    → is_limited k (some reply) at now armed l ≡ local_limited k at l
unfolding is_limited redis_limited
skipped_lem k reply at now armed l h = ground (arith, local_limited-fields k at l)

retry_at_failed :
    (k : Key) (at now armed : ℕ) (l : ChatFloodLimiter)
    → ltb now l.redis_retry_at ≡ false
    → (is_limited k (some failed) at now armed l).1.redis_retry_at ≡ armed + redis_backoff
unfolding is_limited redis_limited answered
retry_at_failed k at now armed l h = ground (arith, local_limited-fields k at l)

-- After a failure of a call that was made, Redis is not asked for `redis_backoff`: whatever it
-- would reply to a check in that time, the answer and the new state are those of the local window
-- alone.
pub breaker_skips_redis :
    (k k' : Key) (reply : Reply) (at at' now now' armed armed' : ℕ) (l : ChatFloodLimiter)
    → ltb now l.redis_retry_at ≡ false
    → now' < armed + redis_backoff
    → let l' = (is_limited k (some failed) at now armed l).1 in
      is_limited k' (some reply) at' now' armed' l' ≡ local_limited k' at' l'
breaker_skips_redis k k' reply at at' now now' armed armed' l asked soon =
    skipped_lem k' reply at' now' armed' _ (ground (arith, retry_at_failed k at now armed l asked))
