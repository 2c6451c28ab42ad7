-- ===== src/ChatFlood/Registry.antt =====
-- Which pairs the limiter keeps state for, over any calls of the chat sockets.
use book_club_be.Prelude.{
  ℕ, ◌+◌, ◌-◌, ◌≤◌, ◌<◌, ◌≡◌, refl, true, false, Option, none, some, List, [], ◌∷◌, ◌++◌, arith,
  ltb, if◌then◌else◌, length, drop, length-append, Bool-cases, is_some, Option-cases, inl, inr,
}
use book_club_be.ChatFlood.{
  ChatFloodLimiter, new_limiter, acquire, release, local_limited, redis_limited, answered,
  is_limited, Reply, count, not_int, failed, deque_append, or_zero, set_default,
}
use book_club_be.ChatFlood.Keys.{Key, Table, same_key, lookup, lookup-insert, lookup-erase}

-- A pair has a window exactly when it has a count of open connections, which is positive, and no
-- window is longer than the budget.
pub record IsRegistered (l : ChatFloodLimiter) : Type 0 where
  pub paired : (k : Key) → is_some (lookup k l.stamps) ≡ is_some (lookup k l.refs)
  pub positive : (k : Key) (n : ℕ) → lookup k l.refs ≡ some n → 0 < n
  pub fits : (k : Key) (ts : List ℕ) → lookup k l.stamps ≡ some ts → length ts ≤ l.max

same_key→eq : (a b : Key) → same_key a b ≡ true → a ≡ b
same_key→eq a b h = ground arith

lookup-set_default :
    (k j : Key) (d : Table (List ℕ))
    → lookup j (set_default k [] d) ≡ (
        if same_key k j then (if is_some (lookup k d) then lookup k d else some []) else lookup j d)
lookup-set_default k j d = ground (arith, lookup-insert k j [] d, same_key→eq k j)

acquire-IsRegistered :
    (k : Key) (l : ChatFloodLimiter) → IsRegistered l → IsRegistered (acquire k l)
unfolding acquire
acquire-IsRegistered k l h = record {
  paired = λ j. ground (
    arith,
    h.paired j,
    h.paired k,
    lookup-set_default k j l.stamps,
    lookup-insert k j (or_zero (lookup k l.refs) + 1) l.refs,
  );
  positive = λ j n e.
      ground (arith, h.positive j n, lookup-insert k j (or_zero (lookup k l.refs) + 1) l.refs);
  fits = λ j ts e. ground (arith, h.fits j ts, h.fits k ts, lookup-set_default k j l.stamps);
}

release-IsRegistered :
    (k : Key) (l : ChatFloodLimiter) → IsRegistered l → IsRegistered (release k l)
unfolding release
release-IsRegistered k l h = elim (Bool-cases (ltb 0 (or_zero (lookup k l.refs) - 1))) [
  | inl others ↦ rw others record {
    paired = λ j. ground (
      arith,
      h.paired j,
      h.paired k,
      same_key→eq k j,
      lookup-insert k j (or_zero (lookup k l.refs) - 1) l.refs,
    );
    positive = λ j n e.
        ground (arith, h.positive j n, lookup-insert k j (or_zero (lookup k l.refs) - 1) l.refs);
    fits = h.fits;
  }
  | inr last ↦ rw last record {
    paired = λ j. ground (arith, h.paired j, lookup-erase k j l.refs, lookup-erase k j l.stamps);
    positive = λ j n e. ground (arith, h.positive j n, lookup-erase k j l.refs);
    fits = λ j ts e. ground (arith, h.fits j ts, lookup-erase k j l.stamps);
  }
]

drop_one-le : (ts : List ℕ) (n : ℕ) → length ts ≤ n + 1 → length (drop 1 ts) ≤ n
drop_one-le [] n h = omega arith
drop_one-le (t ∷ ts) n h = omega arith

length-deque_append :
    (max : ℕ) (ts : List ℕ) (now : ℕ) → length ts ≤ max → length (deque_append max ts now) ≤ max
length-deque_append max ts now h =
    ground (arith, length-append ts (now ∷ []), drop_one-le (ts ++ now ∷ []) max)

local_limited-IsRegistered :
    (k : Key) (now : ℕ) (l : ChatFloodLimiter)
    → IsRegistered l
    → IsRegistered (local_limited k now l).1
unfolding local_limited
local_limited-IsRegistered k now l h = elim (Option-cases (lookup k l.stamps)) [
  | inl out ↦ rw (out, local_limited) h
  | inr (old, e) ↦
      rw (e, local_limited)
        record {
          paired = λ j. ground (
            arith,
            h.paired j,
            h.paired k,
            same_key→eq k j,
            lookup-insert k j (deque_append l.max old now) l.stamps,
          );
          positive = h.positive;
          fits = λ j ts p. ground (
            arith,
            h.fits j ts,
            h.fits k old,
            length-deque_append l.max old now,
            lookup-insert k j (deque_append l.max old now) l.stamps,
          );
        }
]

answered-IsRegistered :
    (reply : Reply) (armed : ℕ) (l : ChatFloodLimiter)
    → IsRegistered l
    → IsRegistered (answered reply armed l).1
unfolding answered
answered-IsRegistered failed armed l h = record {
  paired = h.paired;
  positive = h.positive;
  fits = h.fits;
}
answered-IsRegistered (count c) armed l h = record {
  paired = h.paired;
  positive = h.positive;
  fits = h.fits;
}
answered-IsRegistered not_int armed l h = record {
  paired = h.paired;
  positive = h.positive;
  fits = h.fits;
}

redis_limited-IsRegistered :
    (reply : Reply) (now armed : ℕ) (l : ChatFloodLimiter)
    → IsRegistered l
    → IsRegistered (redis_limited reply now armed l).1
unfolding redis_limited
redis_limited-IsRegistered reply now armed l h = elim (Bool-cases (ltb now l.redis_retry_at)) [
  | inl skipped ↦ rw skipped h
  | inr asked ↦ rw asked (answered-IsRegistered reply armed l h)
]

-- What the chat sockets call.
pub data Call : Type 0 where
  acquires releases : Key → Call
  frames : Key → Option Reply → ℕ → ℕ → ℕ → Call

pub call : ChatFloodLimiter → Call → ChatFloodLimiter
call l (acquires k) = acquire k l
call l (releases k) = release k l
call l (frames k reply at now armed) = (is_limited k reply at now armed l).1

pub run : ChatFloodLimiter → List Call → ChatFloodLimiter
unfolding call
run l [] = l
run l (c ∷ cs) = run (call l c) cs

call-IsRegistered : (l : ChatFloodLimiter) (c : Call) → IsRegistered l → IsRegistered (call l c)
unfolding call is_limited
call-IsRegistered l (acquires k) h = acquire-IsRegistered k l h
call-IsRegistered l (releases k) h = release-IsRegistered k l h
call-IsRegistered l (frames k none at now armed) h = local_limited-IsRegistered k at l h
call-IsRegistered l (frames k (some reply) at now armed) h =
    redis_limited-IsRegistered reply now armed _ (local_limited-IsRegistered k at l h)

run-IsRegistered :
    (l : ChatFloodLimiter) (cs : List Call) → IsRegistered l → IsRegistered (run l cs)
unfolding run
run-IsRegistered l [] h = h
run-IsRegistered l (c ∷ cs) h = run-IsRegistered (call l c) cs (call-IsRegistered l c h)

-- Over any calls on a new limiter: a pair has a window exactly when it has a count of open
-- connections, which is positive, and no window holds more than the budget.
pub run_new-IsRegistered :
    (max window : ℕ) (cs : List Call) → IsRegistered (run (new_limiter max window) cs)
unfolding lookup
run_new-IsRegistered max window cs =
    run-IsRegistered (new_limiter max window) cs
      (record { paired = λ k. refl; positive = λ k n e. cc; fits = λ k ts e. cc })

-- A release of a pair in a registered state lowers its count by one and keeps its window while
-- another connection is open; the last one drops both. Other pairs keep their windows.
pub release_lem :
    (k j : Key) (l : ChatFloodLimiter)
    → IsRegistered l
    → (or_zero (lookup k (release k l).refs) ≡ or_zero (lookup k l.refs) - 1)
      × (lookup k (release k l).stamps
          ≡ (if ltb 1 (or_zero (lookup k l.refs)) then lookup k l.stamps else none))
      × (same_key k j ≡ false → lookup j (release k l).stamps ≡ lookup j l.stamps)
unfolding release
release_lem k j l h = elim (Bool-cases (ltb 0 (or_zero (lookup k l.refs) - 1))) [
  | inl others ↦ rw others (
    ground (arith, lookup-insert k k (or_zero (lookup k l.refs) - 1) l.refs),
    ground arith,
    λ ne. refl,
  )
  | inr last ↦ rw last (
    ground (arith, lookup-erase k k l.refs),
    ground (arith, lookup-erase k k l.stamps),
    λ ne. ground (arith, lookup-erase k j l.stamps),
  )
]
