-- ===== src/ChatFlood/Window.antt =====
-- The deque of the last `max` stamps decides the sliding window over the whole history of frames.
use book_club_be.Prelude.{
  ℕ, zero, suc, ◌+◌, ◌-◌, ◌≤◌, ◌<◌, ◌≡◌, refl, subst, ◌∙◌, ap, Bool, true, false, ◌&&◌, inl, inr,
  some, List, [], ◌∷◌, ◌++◌, arith, ◌==◌, ltb, leb, if◌then◌else◌, length, drop, All, length-append,
  Bool-cases,
}
use book_club_be.ChatFlood.{ChatFloodLimiter, local_limited, deque_append, oldest_is_recent}
use book_club_be.ChatFlood.Keys.{Key, lookup, lookup-insert}

-- the last `n` entries
abbrev pub last_n : ℕ → List ℕ → List ℕ
last_n n xs = drop (length xs - n) xs

-- Times in the order in which a monotonic clock gives them.
abbrev pub IsSorted : List ℕ → Type 0
IsSorted [] = Unit
IsSorted (t ∷ ts) = All (λ u. t ≤ u) ts × IsSorted ts

-- how many of the frames are younger than the window
abbrev pub count_recent : ℕ → ℕ → List ℕ → ℕ
count_recent window now [] = 0
count_recent window now (t ∷ ts) =
    let rest = count_recent window now ts in if ltb now (t + window) then suc rest else rest

-- The budget read off the whole history: at least `max` frames, this one included, in the window.
abbrev pub exceeds : ℕ → ℕ → List ℕ → ℕ → Bool
exceeds max window history now = leb max (count_recent window now (history ++ now ∷ []))

count_recent-le : (w now : ℕ) (ts : List ℕ) → count_recent w now ts ≤ length ts
count_recent-le w now [] = omega arith
count_recent-le w now (t ∷ ts) = ground (arith, count_recent-le w now ts)

-- Of a sorted list whose first entry is recent all are.
count_recent-All :
    (w now t : ℕ) (ts : List ℕ)
    → All (λ u. t ≤ u) ts
    → ltb now (t + w) ≡ true
    → count_recent w now ts ≡ length ts
count_recent-All w now t [] h e = refl
count_recent-All w now t (u ∷ ts) h e = ground (arith, count_recent-All w now t ts)

-- In a sorted list the entries before one that is not recent are not recent.
count_recent-drop :
    (w now k : ℕ) (ts : List ℕ)
    → IsSorted ts
    → (d : ℕ) (ds : List ℕ) → drop k ts ≡ d ∷ ds
    → ltb now (d + w) ≡ false
    → count_recent w now ts ≡ count_recent w now (d ∷ ds)
count_recent-drop w now zero ts s d ds e h = rw e
count_recent-drop w now (suc k) [] s d ds e h = cc
count_recent-drop w now (suc k) (t ∷ ts) s d ds e h =
    ground (arith, count_recent-drop w now k ts s.1 d ds e, All-drop t k ts s.0 d ds e)
  where
    All-drop :
        (t k : ℕ) (ts : List ℕ)
        → All (λ u. t ≤ u) ts
        → (d : ℕ) (ds : List ℕ) → drop k ts ≡ d ∷ ds
        → t ≤ d
    All-drop t zero [] a d ds e = cc
    All-drop t zero (u ∷ ts) a d ds e = ground arith
    All-drop t (suc k) [] a d ds e = cc
    All-drop t (suc k) (u ∷ ts) a d ds e = All-drop t k ts a.1 d ds e

count_recent-drop-le :
    (w now k : ℕ) (ts : List ℕ) → count_recent w now (drop k ts) ≤ count_recent w now ts
count_recent-drop-le w now zero ts = omega arith
count_recent-drop-le w now (suc k) [] = omega arith
count_recent-drop-le w now (suc k) (t ∷ ts) = ground (arith, count_recent-drop-le w now k ts)

length-drop : (k : ℕ) (ts : List ℕ) → length (drop k ts) ≡ length ts - k
length-drop zero ts = omega arith
length-drop (suc k) [] = omega arith
length-drop (suc k) (t ∷ ts) = omega (arith, length-drop k ts)

drop-append : (k : ℕ) (xs ys : List ℕ) → k ≤ length xs → drop k (xs ++ ys) ≡ drop k xs ++ ys
drop-append zero xs ys h = refl
drop-append (suc k) [] ys h = absurd (omega arith)
drop-append (suc k) (x ∷ xs) ys h = drop-append k xs ys (omega arith)

drop_one : (k : ℕ) (xs : List ℕ) → drop 1 (drop k xs) ≡ drop (suc k) xs
drop_one zero xs = refl
drop_one (suc k) [] = refl
drop_one (suc k) (x ∷ xs) = drop_one k xs

IsSorted-drop : (k : ℕ) (ts : List ℕ) → IsSorted ts → IsSorted (drop k ts)
IsSorted-drop zero ts s = s
IsSorted-drop (suc k) [] s = tt
IsSorted-drop (suc k) (t ∷ ts) s = IsSorted-drop k ts s.1

deque_append_short :
    (max : ℕ) (history : List ℕ) (now : ℕ)
    → length history < max
    → deque_append max (last_n max history) now ≡ last_n max (history ++ now ∷ [])
deque_append_short max history now h = rw (few, more, fits)
  where
    few : length history - max ≡ 0
    few = omega arith

    more : length (history ++ now ∷ []) - max ≡ 0
    more = omega (arith, length-append history (now ∷ []))

    fits : ltb max (length (history ++ now ∷ [])) ≡ false
    fits = ground (arith, length-append history (now ∷ []))

deque_append_full :
    (max : ℕ) (history : List ℕ) (now : ℕ)
    → max ≤ length history
    → deque_append max (last_n max history) now ≡ last_n max (history ++ now ∷ [])
deque_append_full max history now h =
    rw (over, ← drop-append (length history - max) history (now ∷ []) (omega arith), one_more)
      (drop_one (length history - max) (history ++ now ∷ []))
  where
    over : ltb max (length (drop (length history - max) history ++ now ∷ [])) ≡ true
    over = ground (
      arith,
      length-append (drop (length history - max) history) (now ∷ []),
      length-drop (length history - max) history,
    )

    one_more : length (history ++ now ∷ []) - max ≡ suc (length history - max)
    one_more = omega (arith, length-append history (now ∷ []))

-- Appending to the deque of the last `max` entries gives the last `max` entries.
deque_append-last_n :
    (max : ℕ) (history : List ℕ) (now : ℕ)
    → deque_append max (last_n max history) now ≡ last_n max (history ++ now ∷ [])
deque_append-last_n max history now = elim (Bool-cases (ltb (length history) max)) [
  | inl short ↦ deque_append_short max history now (ground arith)
  | inr full ↦ deque_append_full max history now (ground arith)
]

-- The test of the full deque is the test of the count.
full_deque-exceeds :
    (max w now : ℕ) (all d : List ℕ)
    → 1 ≤ max
    → IsSorted all
    → last_n max all ≡ d
    → (length d == max && oldest_is_recent w now d) ≡ leb max (count_recent w now all)
full_deque-exceeds max w now all [] pos s e =
    ground
      (arith, count_recent-le w now all, length-drop (length all - max) all, ap (length {A = ℕ}) e)
full_deque-exceeds max w now all (t ∷ ts) pos s e = elim (Bool-cases (ltb now (t + w))) [
  | inl recent ↦ ground (
    arith,
    count_recent-le w now all,
    length-drop (length all - max) all,
    ap (length {A = ℕ}) e,
    count_recent-All w now t ts,
    subst IsSorted e (IsSorted-drop (length all - max) all s),
    count_recent-drop-le w now (length all - max) all,
    ap (count_recent w now) e,
  )
  | inr old ↦ ground (
    arith,
    length-drop (length all - max) all,
    ap (length {A = ℕ}) e,
    count_recent-le w now all,
    count_recent-le w now ts,
    count_recent-drop w now (length all - max) all s t ts e,
  )
]

-- A frame for a registered pair, under a positive budget and at a time not before the pair's
-- earlier frames: the limiter answers by the whole history of the pair's frames (exactly when at
-- least `max` of them, this one included, are younger than the window), and keeps the last `max` of
-- them.
pub local_limited_lem :
    (k : Key) (now : ℕ) (l : ChatFloodLimiter) (history : List ℕ)
    → 1 ≤ l.max
    → IsSorted (history ++ now ∷ [])
    → lookup k l.stamps ≡ some (last_n l.max history)
    → ((local_limited k now l).0 ≡ exceeds l.max l.window history now)
      × (lookup k (local_limited k now l).1.stamps ≡ some (last_n l.max (history ++ now ∷ [])))
unfolding local_limited
local_limited_lem k now l history pos s e =
    rw (e, local_limited)
      (rw (deque_append-last_n l.max history now) (
        full_deque-exceeds l.max l.window now (history ++ now ∷ []) _ pos s refl,
        lookup-insert k k _ l.stamps ∙ ground arith,
      ))
