-- ===== src/Limiter/Tests.antt =====
-- Concrete runs of the limiter, over one counter in memory and a storage that fails from 20 s on.
use book_club_be.Prelude.{
  ℕ, ◌+◌, ◌≡◌, refl, All, true, arith, List, [], ◌∷◌, ltb, map, if◌then◌else◌,
}
use book_club_be.Limiter.{
  Strategy, fallback_strategy, storage_strategy, new_breaker, limiter, is_open_at, is_past, opened,
  recovered, Outcome, passed, limit_exceeded, storage_failed, Clocks, State, settle,
  check_request_limit,
}
use book_club_be.Limiter.Answers.{
  IsMarked, after, Call, is_answer, is_fallback, outcomes, outcomes-answers, failure-skips_storage,
}

-- a request is its limit
unfoldable count_hit : List Strategy → ℕ → ℕ → Outcome × ℕ
count_hit [] limit hits = (passed, hits)
count_hit (fallback_strategy ∷ _) limit hits =
    if ltb hits limit then (passed, hits + 1) else (limit_exceeded, hits)
count_hit (storage_strategy ∷ _) limit hits = (storage_failed, hits)

abbrev clocks_at : ℕ → Clocks
clocks_at now = record {
  first = now ∷ [];
  failure = now + 1;
  retry = (now + 2) ∷ [];
  success = now + 3;
}

abbrev start : State ℕ
start = record { breaker = new_breaker; counters = 0 }

abbrev calls : List (Call ℕ)
calls =
    record { clocks = clocks_at 20000; request = 2 }
    ∷ record { clocks = clocks_at 21000; request = 2 }
    ∷ record { clocks = clocks_at 22000; request = 2 }
    ∷ []

third_is_limited : outcomes count_hit calls start ≡ passed ∷ passed ∷ limit_exceeded ∷ []
unfolding outcomes check_request_limit settle count_hit limiter is_open_at recovered is_past
third_is_limited = refl

count_hit-answers :
    (read : List Strategy) (limit hits : ℕ)
    → All (λ s. is_fallback s ≡ true) read
    → is_answer (count_hit read limit hits).0 ≡ true
unfolding count_hit is_answer is_fallback
count_hit-answers [] limit hits h = refl
count_hit-answers (fallback_strategy ∷ _) limit hits h = ground arith
count_hit-answers (storage_strategy ∷ _) limit hits h = ground arith

outcomes-answers_example :
    All (λ o. is_answer o ≡ true) (outcomes count_hit calls start)
    × IsMarked (after count_hit calls start).breaker
outcomes-answers_example =
    outcomes-answers count_hit count_hit-answers calls start
      ((refl, tt), ((refl, tt), ((refl, tt), tt))) refl

failure-skips_storage_example :
    let s' = (check_request_limit count_hit (clocks_at 20000) 2 start).1 in
    let counted = count_hit (map (λ _. fallback_strategy) (clocks_at 21000).first) 2 s'.counters in
    check_request_limit count_hit (clocks_at 21000) 2 s'
    ≡ settle count_hit (clocks_at 21000) 2 (opened 20001) counted.0 counted.1
unfolding count_hit limiter is_open_at
failure-skips_storage_example =
    failure-skips_storage count_hit (clocks_at 20000) (clocks_at 21000) 2 2 start refl (refl, tt)
