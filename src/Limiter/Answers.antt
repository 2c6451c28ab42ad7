-- ===== src/Limiter/Answers.antt =====
-- That a request is answered whatever the storage does, and when the storage is left alone.
use book_club_be.Prelude.{
  ℕ, ◌+◌, ◌≡◌, refl, ap, All, Bool, true, false, ◌&&◌, inl, inr, List, [], ◌∷◌, ltb, map,
  Bool-cases, is_some,
}
use book_club_be.Limiter.{
  breaker_cooldown, Strategy, fallback_strategy, storage_strategy, ResilientLimiter, is_open_at,
  is_past, limiter, Outcome, passed, limit_exceeded, storage_failed, Clocks, opened, recovered,
  State, settle, check_request_limit,
}

-- the caller gets the response or the refusal of its limit
unfoldable pub is_answer : Outcome → Bool
is_answer passed = true
is_answer limit_exceeded = true
is_answer storage_failed = false

unfoldable pub is_fallback : Strategy → Bool
is_fallback fallback_strategy = true
is_fallback storage_strategy = false

-- the retry reads the clock before the cooldown that starts at the failure is over
abbrev pub IsPrompt : Clocks → Type 0
IsPrompt clocks = All (λ now. ltb now (clocks.failure + breaker_cooldown) ≡ true) clocks.retry

-- the breaker is marked exactly while it has a time to wait for
abbrev pub IsMarked : ResilientLimiter → Type 0
IsMarked l = l.degraded ≡ is_some l.open_until

fallback-open :
    (failure : ℕ) (clocks : List ℕ)
    → All (λ now. ltb now (failure + breaker_cooldown) ≡ true) clocks
    → All (λ s. is_fallback s ≡ true) (map (limiter (opened failure)) clocks)
unfolding limiter is_open_at is_fallback
fallback-open failure [] prompt = tt
fallback-open failure (now ∷ clocks) prompt =
    (rw (prompt.0) refl, fallback-open failure clocks prompt.1)

map-fallback :
    (failure : ℕ) (clocks : List ℕ)
    → All (λ now. ltb now (failure + breaker_cooldown) ≡ true) clocks
    → map (limiter (opened failure)) clocks ≡ map (λ _. fallback_strategy) clocks
unfolding limiter is_open_at
map-fallback failure [] prompt = refl
map-fallback failure (now ∷ clocks) prompt =
    rw (prompt.0) (ap (λ ss. fallback_strategy ∷ ss) (map-fallback failure clocks prompt.1))

recovered-IsMarked : (now : ℕ) (l : ResilientLimiter) → IsMarked l → IsMarked (recovered now l)
unfolding recovered
recovered-IsMarked now l marked = elim (Bool-cases (l.degraded && is_past now l.open_until)) [
  | inl over ↦ rw (over) refl
  | inr waits ↦ rw (waits) marked
]

module _ {Request Counters : Type 0}
    (super_check : List Strategy → Request → Counters → Outcome × Counters)
    (memory_answers : (read : List Strategy) (request : Request) (counters : Counters)
      → All (λ s. is_fallback s ≡ true) read
      → is_answer (super_check read request counters).0 ≡ true) where
  settle-answers :
      (clocks : Clocks) (request : Request) (l : ResilientLimiter) (o : Outcome)
      (counters : Counters)
      → IsPrompt clocks
      → IsMarked l
      → (is_answer (settle super_check clocks request l o counters).0 ≡ true)
        × IsMarked (settle super_check clocks request l o counters).1.breaker
  unfolding settle is_answer
  settle-answers clocks request l passed counters prompt marked =
      (refl, recovered-IsMarked clocks.success l marked)
  settle-answers clocks request l limit_exceeded counters prompt marked = (refl, marked)
  settle-answers clocks request l storage_failed counters prompt marked = (
    memory_answers (map (limiter (opened clocks.failure)) clocks.retry) request counters
        (fallback-open clocks.failure clocks.retry prompt),
    refl,
  )

-- a request with the readings of the clock while it is checked
pub record Call (Request : Type 0) : Type 0 where
  pub clocks : Clocks
  pub request : Request

module _ {Request Counters : Type 0}
    (super_check : List Strategy → Request → Counters → Outcome × Counters) where
  unfoldable pub outcomes : List (Call Request) → State Counters → List Outcome
  outcomes [] s = []
  outcomes (c ∷ cs) s =
      let checked = check_request_limit super_check c.clocks c.request s in
      checked.0 ∷ outcomes cs checked.1

  unfoldable pub after : List (Call Request) → State Counters → State Counters
  after [] s = s
  after (c ∷ cs) s = after cs (check_request_limit super_check c.clocks c.request s).1

  -- If counting in memory does not fail, and each retry reads the clock before the breaker's cooldown
  -- is over, then over any requests every one is answered, by its response or the refusal of its
  -- limit, however the storage fails, and the breaker stays marked as degraded exactly while it has
  -- an end, if it was so at first.
  pub outcomes-answers :
      ((read : List Strategy) (request : Request) (counters : Counters)
        → All (λ s. is_fallback s ≡ true) read
        → is_answer (super_check read request counters).0 ≡ true)
      → (cs : List (Call Request)) (s : State Counters) → All (λ c. IsPrompt c.clocks) cs
      → IsMarked s.breaker
      → All (λ o. is_answer o ≡ true) (outcomes cs s) × IsMarked (after cs s).breaker
  unfolding outcomes after check_request_limit
  outcomes-answers memory [] s prompt marked = (tt, marked)
  outcomes-answers memory (c ∷ cs) s prompt marked =
      let checked = super_check (map (limiter s.breaker) c.clocks.first) c.request s.counters in
      let one =
        settle-answers super_check memory c.clocks c.request s.breaker checked.0 checked.1 prompt.0
          marked in
      let rest =
        outcomes-answers memory cs (check_request_limit super_check c.clocks c.request s).1 prompt.1
          one.1 in
      ((one.0, rest.0), rest.1)

  -- After a request on which the storage failed, the next one, if its check reads the clock before
  -- the cooldown is over, is checked in memory only: no read of `limiter` in that check gives the
  -- storage.
  pub failure-skips_storage :
      (clocks later : Clocks) (request next : Request) (s : State Counters)
      → (super_check (map (limiter s.breaker) clocks.first) request s.counters).0 ≡ storage_failed
      → All (λ now. ltb now (clocks.failure + breaker_cooldown) ≡ true) later.first
      → let s' = (check_request_limit super_check clocks request s).1 in
        let counted = super_check (map (λ _. fallback_strategy) later.first) next s'.counters in
        check_request_limit super_check later next s'
        ≡ settle super_check later next (opened clocks.failure) counted.0 counted.1
  unfolding check_request_limit settle
  failure-skips_storage clocks later request next s failed early =
      rw (failed, map-fallback clocks.failure later.first early) refl
