-- ===== src/ChatFlood/Tests.antt =====
-- Concrete runs of the flood limiter.
use book_club_be.Prelude.{ℕ, ◌≡◌, refl, some, List, [], ◌∷◌, ◌++◌, arith}
use book_club_be.ChatFlood.{
  ChatFloodLimiter, new_limiter, local_limited, is_limited, count, failed, flood_max_messages,
  flood_window,
}
use book_club_be.ChatFlood.Keys.{Key, lookup}
use book_club_be.ChatFlood.Window.{last_n, exceeds, local_limited_lem}
use book_club_be.ChatFlood.Registry.{
  IsRegistered, Call, acquires, frames, releases, run, run_new-IsRegistered,
}
use book_club_be.ChatFlood.Breaker.{breaker_skips_redis}

abbrev key : Key
key = record { room_id = 3; user_id = 1 }

-- three of a budget of three frames
abbrev limiter : ChatFloodLimiter
limiter = record (new_limiter 3 10) { stamps = (key, 5 ∷ 8 ∷ 9 ∷ []) ∷ []; refs = (key, 1) ∷ [] }

abbrev history : List ℕ
history = 1 ∷ 5 ∷ 8 ∷ 9 ∷ []

local_limited_lem_example :
    ((local_limited key 12 limiter).0 ≡ exceeds 3 10 history 12)
    × (lookup key (local_limited key 12 limiter).1.stamps ≡ some (last_n 3 (history ++ 12 ∷ [])))
unfolding lookup
local_limited_lem_example =
    local_limited_lem key 12 limiter history (omega arith) (ground arith) refl

abbrev calls : List Call
calls =
    acquires key
    ∷ frames key (some (count 4)) 5 5 5
    ∷ frames key (some failed) 6 6 6
    ∷ acquires key
    ∷ releases key
    ∷ []

run_new-IsRegistered_example :
    IsRegistered (run (new_limiter flood_max_messages flood_window) calls)
run_new-IsRegistered_example = run_new-IsRegistered flood_max_messages flood_window calls

breaker_skips_redis_example :
    let l' = (is_limited key (some failed) 12 12 12 limiter).1 in
    is_limited key (some (count 9)) 13 13 13 l' ≡ local_limited key 13 l'
breaker_skips_redis_example =
    breaker_skips_redis key key (count 9) 12 13 12 13 12 13 limiter refl (omega arith)
