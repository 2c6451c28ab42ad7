-- ===== src/ChatFlood/Refs.antt =====
-- The count of a pair's connections: only `acquire` and `release` change it.
use book_club_be.Prelude.{
  ℕ, ◌+◌, ◌-◌, ◌≡◌, refl, ◌∙◌, inl, inr, Option, none, some, arith, if◌then◌else◌, ltb, Bool-cases,
  Option-cases,
}
use book_club_be.ChatFlood.{
  ChatFloodLimiter, Reply, count, not_int, failed, or_zero, acquire, release, is_limited,
  local_limited, redis_limited, answered,
}
use book_club_be.ChatFlood.Keys.{Key, same_key, lookup, lookup-insert, lookup-erase}

abbrev pub connections : Key → ChatFloodLimiter → ℕ
connections k l = or_zero (lookup k l.refs)

local_limited-refs :
    (k : Key) (now : ℕ) (l : ChatFloodLimiter) → (local_limited k now l).1.refs ≡ l.refs
unfolding local_limited
local_limited-refs k now l = elim (Option-cases (lookup k l.stamps)) [
  | inl none_there ↦ rw (none_there, local_limited) refl
  | inr (old, found) ↦ rw (found, local_limited) refl
]

answered-refs :
    (reply : Reply) (armed : ℕ) (l : ChatFloodLimiter) → (answered reply armed l).1.refs ≡ l.refs
unfolding answered
answered-refs failed armed l = refl
answered-refs (count c) armed l = refl
answered-refs not_int armed l = refl

redis_limited-refs :
    (reply : Reply) (now armed : ℕ) (l : ChatFloodLimiter)
    → (redis_limited reply now armed l).1.refs ≡ l.refs
unfolding redis_limited
redis_limited-refs reply now armed l = elim (Bool-cases (ltb now l.redis_retry_at)) [
  | inl waits ↦ rw waits refl
  | inr asks ↦ rw asks (answered-refs reply armed l)
]

pub is_limited-refs :
    (k : Key) (reply : Option Reply) (at now armed : ℕ) (l : ChatFloodLimiter)
    → (is_limited k reply at now armed l).1.refs ≡ l.refs
unfolding is_limited
is_limited-refs k none at now armed l = local_limited-refs k at l
is_limited-refs k (some reply) at now armed l =
    redis_limited-refs reply now armed (local_limited k at l).1 ∙ local_limited-refs k at l

pub connections-acquire :
    (k j : Key) (l : ChatFloodLimiter)
    → connections j (acquire k l) ≡ (if same_key k j then connections k l + 1 else connections j l)
unfolding acquire
connections-acquire k j l = ground (arith, lookup-insert k j (or_zero (lookup k l.refs) + 1) l.refs)

pub connections-release :
    (k j : Key) (l : ChatFloodLimiter)
    → connections j (release k l) ≡ (if same_key k j then connections k l - 1 else connections j l)
unfolding release
connections-release k j l =
    ground
      (arith, lookup-insert k j (or_zero (lookup k l.refs) - 1) l.refs, lookup-erase k j l.refs)
