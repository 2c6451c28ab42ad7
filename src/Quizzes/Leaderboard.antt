-- ===== src/Quizzes/Leaderboard.antt =====
-- What the leaderboard of a session shows: each user once, ranked from 1 on by falling score.
use book_club_be.Prelude.{
  ℕ, ◌+◌, ◌≤◌, ◌≡◌, refl, sym, subst, ◌∙◌, Bool, true, false, ◌&&◌, exists, leb, inl, inr, List, [],
  ◌∷◌, ◌++◌, arith, ◌==◌, exists-append, All, All-append, All-map, length, length-append,
  Bool-cases,
}
use book_club_be.Quizzes.Repository.{AttemptRow, ranks_before, insert_attempt, by_score}
use book_club_be.Quizzes.Service.{LeaderboardEntry, entry_of, is_seen, leaderboard_loop}

-- rows by falling score
abbrev pub IsFalling : List AttemptRow → Type 0
IsFalling [] = Unit
IsFalling (r ∷ rs) = All (λ q. q.attempt.score ≤ r.attempt.score) rs × IsFalling rs

All-insert :
    (P : AttemptRow → Type 0) (r : AttemptRow) (rs : List AttemptRow)
    → P r
    → All P rs
    → All P (insert_attempt r rs)
All-insert P r [] p h = (p, tt)
All-insert P r (q ∷ qs) p h = elim (Bool-cases (ranks_before r q)) [
  | inl first ↦ rw first (p, h)
  | inr later ↦ rw later (h.0, All-insert P r qs p h.1)
]

IsFalling-insert :
    (r : AttemptRow) (rs : List AttemptRow) → IsFalling rs → IsFalling (insert_attempt r rs)
IsFalling-insert r [] h = (tt, tt)
IsFalling-insert r (q ∷ qs) h = elim (Bool-cases (ranks_before r q)) [
  | inl first ↦ rw first ((ground arith, All-map _ _ (λ x k. ground arith) qs h.0), h)
  | inr later ↦ rw later (
    All-insert (λ x. x.attempt.score ≤ q.attempt.score) r qs (ground arith) h.0,
    IsFalling-insert r qs h.1,
  )
]

pub by_score-IsFalling : (rs : List AttemptRow) → IsFalling (by_score rs)
by_score-IsFalling [] = tt
by_score-IsFalling (r ∷ rs) = IsFalling-insert r (by_score rs) (by_score-IsFalling rs)

-- Entries with the ranks from `n` on, each user once, and no score above the one before it.
abbrev pub IsRanked : ℕ → List LeaderboardEntry → Type 0
IsRanked n [] = Unit
IsRanked n (e ∷ es) =
    (e.rank ≡ n)
    × (is_seen e.user_id es ≡ false)
    × All (λ d. d.score ≤ e.score) es
    × IsRanked (n + 1) es

is_seen-All :
    (u : ℕ) (es : List LeaderboardEntry)
    → is_seen u es ≡ false
    → All (λ e. (e.user_id == u) ≡ false) es
is_seen-All u [] h = tt
is_seen-All u (e ∷ es) h = (ground arith, is_seen-All u es (ground arith))

IsRanked-append :
    (n : ℕ) (es : List LeaderboardEntry) (e : LeaderboardEntry)
    → IsRanked n es
    → e.rank ≡ n + length es
    → is_seen e.user_id es ≡ false
    → All (λ d. e.score ≤ d.score) es
    → IsRanked n (es ++ e ∷ [])
IsRanked-append n [] e h rank fresh low = (omega arith, refl, tt, tt)
IsRanked-append n (d ∷ ds) e h rank fresh low = (
  h.0,
  exists-append (λ x. x.user_id == d.user_id) ds (e ∷ []) ∙ ground arith,
  All-append _ ds (e ∷ []) h.2 (low.0, tt),
  IsRanked-append (n + 1) ds e h.3 (omega arith) (ground arith) low.1,
)

loop-IsRanked :
    (total : ℕ) (rs : List AttemptRow) (seen : List LeaderboardEntry) (rank : ℕ)
    → IsFalling rs
    → IsRanked 1 seen
    → rank ≡ 1 + length seen
    → All (λ e. All (λ r. r.attempt.score ≤ e.score) rs) seen
    → IsRanked 1 (leaderboard_loop total rs seen rank)
unfolding leaderboard_loop
loop-IsRanked total [] seen rank falls ranked next low = ranked
loop-IsRanked total (r ∷ rs) seen rank falls ranked next low =
    elim (Bool-cases (is_seen r.attempt.user_id seen)) [
      | inl again ↦
          rw (again, leaderboard_loop)
            (loop-IsRanked total rs seen rank falls.1 ranked next
              (All-map _ _ (λ e k. k.1) seen low))
      | inr fresh ↦
          rw (fresh, leaderboard_loop)
            (loop-IsRanked total rs (seen ++ entry_of total rank r ∷ []) (rank + 1) falls.1
              (IsRanked-append 1 seen (entry_of total rank r) ranked next fresh
                (All-map _ _ (λ e k. k.0) seen low))
              (omega (arith, length-append seen (entry_of total rank r ∷ [])))
              (All-append _ seen (entry_of total rank r ∷ []) (All-map _ _ (λ e k. k.1) seen low)
                (falls.0, tt)))
    ]

-- the board has an entry of the row's user, with at least its score
abbrev pub is_covered : List LeaderboardEntry → AttemptRow → Bool
is_covered board r =
    exists (λ e. e.user_id == r.attempt.user_id && leb r.attempt.score e.score) board

-- the user has an attempt of that score
abbrev pub is_scored : List AttemptRow → LeaderboardEntry → Bool
is_scored rs e = exists (λ r. r.attempt.user_id == e.user_id && r.attempt.score == e.score) rs

seen-best :
    (u n : ℕ) (es : List LeaderboardEntry)
    → is_seen u es ≡ true
    → All (λ e. n ≤ e.score) es
    → exists (λ e. e.user_id == u && leb n e.score) es ≡ true
seen-best u n [] h low = absurd (ground arith)
seen-best u n (e ∷ es) h low =
    ground (arith, low.0, λ (k : is_seen u es ≡ true). seen-best u n es k low.1)

loop_keeps :
    (p : LeaderboardEntry → Bool) (total : ℕ) (rs : List AttemptRow) (seen : List LeaderboardEntry)
    (rank : ℕ)
    → exists p seen ≡ true
    → exists p (leaderboard_loop total rs seen rank) ≡ true
unfolding leaderboard_loop
loop_keeps p total [] seen rank h = h
loop_keeps p total (r ∷ rs) seen rank h = elim (Bool-cases (is_seen r.attempt.user_id seen)) [
  | inl again ↦ rw (again, leaderboard_loop) (loop_keeps p total rs seen rank h)
  | inr fresh ↦
      rw (fresh, leaderboard_loop)
        (loop_keeps p total rs (seen ++ entry_of total rank r ∷ []) (rank + 1)
          (exists-append p seen (entry_of total rank r ∷ []) ∙ ground arith))
]

module _ (total : ℕ) (r : AttemptRow) (rs : List AttemptRow) (seen : List LeaderboardEntry)
    (rank : ℕ) where
  loop-seen :
      is_seen r.attempt.user_id seen ≡ true
      → leaderboard_loop total (r ∷ rs) seen rank ≡ leaderboard_loop total rs seen rank
  unfolding leaderboard_loop
  loop-seen again = rw (again, leaderboard_loop) refl

  loop-fresh :
      is_seen r.attempt.user_id seen ≡ false
      → leaderboard_loop total (r ∷ rs) seen rank
        ≡ leaderboard_loop total rs (seen ++ entry_of total rank r ∷ []) (rank + 1)
  unfolding leaderboard_loop
  loop-fresh fresh = rw (fresh, leaderboard_loop) refl

loop-covers :
    (total : ℕ) (rs : List AttemptRow) (seen : List LeaderboardEntry) (rank : ℕ)
    → IsFalling rs
    → All (λ e. All (λ r. r.attempt.score ≤ e.score) rs) seen
    → All (λ r. is_covered (leaderboard_loop total rs seen rank) r ≡ true) rs
loop-covers total [] seen rank falls low = tt
loop-covers total (r ∷ rs) seen rank falls low =
    elim (Bool-cases (is_seen r.attempt.user_id seen)) [
      | inl again ↦
          subst (λ board. All (λ q. is_covered board q ≡ true) (r ∷ rs))
            (sym (loop-seen total r rs seen rank again))
            (
              loop_keeps _ total rs seen rank (
                  seen-best r.attempt.user_id r.attempt.score seen again
                    (All-map _ _ (λ e k. k.0) seen low)),
              loop-covers total rs seen rank falls.1 (All-map _ _ (λ e k. k.1) seen low),
            )
      | inr fresh ↦
          let grown = seen ++ entry_of total rank r ∷ [] in
          subst (λ board. All (λ q. is_covered board q ≡ true) (r ∷ rs))
            (sym (loop-fresh total r rs seen rank fresh))
            (
              loop_keeps _ total rs grown (rank + 1)
                  (exists-append _ seen (entry_of total rank r ∷ []) ∙ ground arith),
              loop-covers total rs grown (rank + 1) falls.1 (
                  All-append _ seen (entry_of total rank r ∷ []) (All-map _ _ (λ e k. k.1) seen low)
                    (falls.0, tt)),
            )
    ]

loop-is_scored :
    (all : List AttemptRow) (total : ℕ) (rs : List AttemptRow) (seen : List LeaderboardEntry)
    (rank : ℕ)
    → All (λ r. is_scored all (entry_of total 1 r) ≡ true) rs
    → All (λ e. is_scored all e ≡ true) seen
    → All (λ e. is_scored all e ≡ true) (leaderboard_loop total rs seen rank)
unfolding leaderboard_loop
loop-is_scored all total [] seen rank rows h = h
loop-is_scored all total (r ∷ rs) seen rank rows h =
    elim (Bool-cases (is_seen r.attempt.user_id seen)) [
      | inl again ↦ rw (again, leaderboard_loop) (loop-is_scored all total rs seen rank rows.1 h)
      | inr fresh ↦
          rw (fresh, leaderboard_loop)
            (loop-is_scored all total rs (seen ++ entry_of total rank r ∷ []) (rank + 1) rows.1
              (All-append _ seen (entry_of total rank r ∷ []) h (rows.0, tt)))
    ]

insert-All :
    (P : AttemptRow → Type 0) (r : AttemptRow) (rs : List AttemptRow)
    → All P (insert_attempt r rs)
    → P r × All P rs
insert-All P r [] = λ h. h
insert-All P r (q ∷ qs) = elim (Bool-cases (ranks_before r q)) [
  | inl first ↦ rw first (λ h. h)
  | inr later ↦ rw later (λ h. let rest = insert-All P r qs h.1 in (rest.0, (h.0, rest.1)))
]

by_score-All : (P : AttemptRow → Type 0) (rs : List AttemptRow) → All P (by_score rs) → All P rs
by_score-All P [] h = tt
by_score-All P (r ∷ rs) h =
    let rest = insert-All P r (by_score rs) h in (rest.0, by_score-All P rs rest.1)

All-by_score : (P : AttemptRow → Type 0) (rs : List AttemptRow) → All P rs → All P (by_score rs)
All-by_score P [] h = tt
All-by_score P (r ∷ rs) h = All-insert P r (by_score rs) h.0 (All-by_score P rs h.1)

rows-is_scored :
    (total : ℕ) (rs : List AttemptRow) → All (λ r. is_scored rs (entry_of total 1 r) ≡ true) rs
rows-is_scored total [] = tt
rows-is_scored total (r ∷ rs) =
    (ground arith, All-map _ _ (λ x h. ground arith) rs (rows-is_scored total rs))

-- The leaderboard of any attempts, in the order in which the database gives them: the ranks are 1,
-- 2 and so on, no user is there twice and the scores do not rise; the user of each attempt is there
-- with at least its score, and each score on the board is that of an attempt of its user.
pub leaderboard-IsRanked :
    (total : ℕ) (rs : List AttemptRow)
    → let board = leaderboard_loop total (by_score rs) [] 1 in
      IsRanked 1 board
      × All (λ r. is_covered board r ≡ true) rs
      × All (λ e. is_scored rs e ≡ true) board
leaderboard-IsRanked total rs = (
  loop-IsRanked total (by_score rs) [] 1 (by_score-IsFalling rs) tt refl tt,
  by_score-All _ rs (loop-covers total (by_score rs) [] 1 (by_score-IsFalling rs) tt),
  loop-is_scored rs total (by_score rs) [] 1 (All-by_score _ rs (rows-is_scored total rs)) tt,
)
