-- ===== src/CspReports/Counts.antt =====
-- What the counters add up to, and that an hour's upserts stay in the budget.
use book_club_be.Prelude.{
  ℕ, ◌+◌, ◌/◌, ◌≤◌, ◌≡◌, refl, sym, ap, subst, All, Bool, true, false, ◌∙◌, Option, none, some, inl,
  inr, List, [], ◌∷◌, arith, ◌==◌, ltb, leb, zero, suc, length, if◌then◌else◌, Bool-cases,
}
use book_club_be.CspReports.{
  hourly_upsert_cap, Budget, take_budget, ReportRow, CspReport, has_key, upsert, upsert_all,
  CspState, store, raises, after_one, record_csp_report,
}

abbrev pub total : List CspReport → ℕ
total [] = 0
total (r ∷ rs) = r.count + total rs

total-upsert :
    (day : ℕ) (row : ReportRow) (rs : List CspReport) → total (upsert day row rs) ≡ 1 + total rs
unfolding upsert
total-upsert day row [] = refl
total-upsert day row (r ∷ rs) = elim (Bool-cases (has_key day row r)) [
  | inl here ↦ rw (here, upsert) (omega arith)
  | inr other ↦ rw (other, upsert) (omega (arith, total-upsert day row rs))
]

-- whether one of the statements for `n` rows, the commit included, raises
abbrev pub fails_within : Option ℕ → ℕ → Bool
fails_within none n = false
fails_within (some k) n = leb k n

upsert_all-none :
    (day : ℕ) (rows : List ReportRow) (s : CspState) → (upsert_all day none rows s).0 ≡ false
unfolding upsert_all
upsert_all-none day [] s = refl
upsert_all-none day (row ∷ rows) s = upsert_all-none day rows _

upsert_all-raises :
    (day : ℕ) (failure : Option ℕ) (rows : List ReportRow) (s : CspState)
    → (upsert_all day failure rows s).0 ≡ fails_within failure (length rows)
unfolding upsert_all
upsert_all-raises day none rows s = upsert_all-none day rows s
upsert_all-raises day (some zero) [] s = refl
upsert_all-raises day (some zero) (row ∷ rows) s = ground arith
upsert_all-raises day (some (suc n)) [] s = ground arith
upsert_all-raises day (some (suc n)) (row ∷ rows) s =
    upsert_all-raises day (some n) rows _ ∙ ground arith

-- what a batch of upserts leaves: nothing stored when a statement raises, else all of it
record IsStored (rows : List ReportRow) (s : CspState) (r : Bool × CspState) : Type 0 where
  budget : r.1.budget ≡ s.budget
  nothing : r.0 ≡ true → r.1.saved ≡ s.saved
  counted : r.0 ≡ false → total r.1.saved ≡ length rows + total s.reports
  clean : r.0 ≡ false → r.1.reports ≡ r.1.saved

upsert_all-IsStored :
    (day : ℕ) (failure : Option ℕ) (rows : List ReportRow) (s : CspState)
    → IsStored rows s (upsert_all day failure rows s)
unfolding upsert_all
upsert_all-IsStored day failure [] s = elim (Bool-cases (raises failure)) [
  | inl now ↦ rw now record {
    budget = refl;
    nothing = λ _. refl;
    counted = λ e. absurd (ground arith);
    clean = λ e. absurd (ground arith);
  }
  | inr fine ↦ rw fine record {
    budget = refl;
    nothing = λ e. absurd (ground arith);
    counted = λ _. omega arith;
    clean = λ _. refl;
  }
]
upsert_all-IsStored day failure (row ∷ rows) s = elim (Bool-cases (raises failure)) [
  | inl now ↦
      rw (now, upsert_all)
        record {
          budget = refl;
          nothing = λ _. refl;
          counted = λ e. absurd (ground arith);
          clean = λ e. absurd (ground arith);
        }
  | inr fine ↦
      let rest =
        upsert_all-IsStored day (after_one failure) rows
          (record s { reports = upsert day row s.reports }) in
      rw (fine, upsert_all)
        record {
          budget = rest.budget;
          nothing = rest.nothing;
          counted = λ e. omega (arith, rest.counted e, total-upsert day row s.reports);
          clean = rest.clean;
        }
]

-- a batch: its time, its day, the statement that raises and its rows
pub record Batch : Type 0 where
  pub now : ℕ
  pub day : ℕ
  pub failure : Option ℕ
  pub rows : List ReportRow

abbrev pub step : Batch → CspState → CspState
step b s = record_csp_report b.now b.day b.failure b.rows s

-- the rows of a batch that the budget has room for
abbrev granted_rows : Batch → CspState → ℕ
granted_rows b s =
    if ltb hourly_upsert_cap (s.budget.used + length b.rows) then 0 else length b.rows

-- those of them that a failing database drops
abbrev pub dropped_rows : Batch → CspState → ℕ
dropped_rows b s = if fails_within b.failure (length b.rows) then granted_rows b s else 0

-- A batch of rows in the budget's hour: the budget takes all its rows or, past the cap, none, and
-- the counters grow by as many, but by none when the database raises.
record HasStepped (b : Batch) (s s' : CspState) : Type 0 where
  budget : s'.budget ≡ record { hour = s.budget.hour; used = s.budget.used + granted_rows b s }
  counted : total s'.saved + dropped_rows b s ≡ granted_rows b s + total s.saved
  clean : s'.reports ≡ s'.saved

more_used :
    (s : CspState) {b : Budget} (n m : ℕ)
    → b ≡ record { hour = s.budget.hour; used = s.budget.used + n }
    → n ≡ m
    → b ≡ record { hour = s.budget.hour; used = s.budget.used + m }
more_used s n m h e = h ∙ ap (λ k. record { hour = s.budget.hour; used = s.budget.used + k }) e

step-HasStepped :
    (now day : ℕ) (failure : Option ℕ) (rows : List ReportRow) (s : CspState)
    → (s.budget.hour == now / 3600) ≡ true
    → s.reports ≡ s.saved
    → let b : Batch = record { now = now; day = day; failure = failure; rows = rows } in
      HasStepped b s (step b s)
unfolding record_csp_report store take_budget
step-HasStepped now day failure [] s same clean = record {
  budget = ap (λ n. record { hour = s.budget.hour; used = n }) (ground arith);
  counted = ground arith;
  clean = clean;
}
step-HasStepped now day failure (row ∷ rows) s same clean =
    elim (Bool-cases (ltb hourly_upsert_cap (s.budget.used + length (row ∷ rows)))) [
      | inl over ↦
          rw (same, over)
            record {
              budget = ap (λ n. record { hour = s.budget.hour; used = n }) (ground arith);
              counted = ground arith;
              clean = clean;
            }
      | inr fits ↦
          let spent : CspState = record s {
            budget = record { hour = s.budget.hour; used = s.budget.used + length (row ∷ rows) };
          } in
          let all_granted : length (row ∷ rows)
              ≡ granted_rows (record { now = now; day = day; failure = failure; rows = row ∷ rows })
                  s =
            rw fits refl in
          let stored = upsert_all-IsStored day failure (row ∷ rows) spent in
          let same_failure = upsert_all-raises day failure (row ∷ rows) spent in
          elim (Bool-cases (fails_within failure (length (row ∷ rows)))) [
            | inl fails ↦
                rw (same, fits, same_failure, fails)
                  record {
                    budget = more_used s _ _ stored.budget all_granted;
                    counted = ground (arith, ap total (stored.nothing (same_failure ∙ fails)));
                    clean = refl;
                  }
            | inr fine ↦
                rw (same, fits, same_failure, fine)
                  record {
                    budget = more_used s _ _ stored.budget all_granted;
                    counted = ground (arith, stored.counted (same_failure ∙ fine), ap total clean);
                    clean = stored.clean (same_failure ∙ fine);
                  }
          ]
    ]

unfoldable pub run : List Batch → CspState → CspState
run [] s = s
run (b ∷ bs) s = run bs (step b s)

unfoldable pub dropped : List Batch → CspState → ℕ
dropped [] s = 0
dropped (b ∷ bs) s = dropped_rows b s + dropped bs (step b s)

-- Over any batches of one hour, which is the budget's, with any statement of the database raising
-- in any of them, the stored counters grow by exactly as many reports as are taken from the budget,
-- less the rows of the batches that fail; the budget, if it is within the cap at first, never
-- passes it, and each session, if it starts from the stored reports, ends with them.
pub run-le :
    (bs : List Batch) (s : CspState)
    → All (λ b. (s.budget.hour == b.now / 3600) ≡ true) bs
    → s.reports ≡ s.saved
    → s.budget.used ≤ hourly_upsert_cap
    → (total (run bs s).saved + dropped bs s + s.budget.used
        ≡ total s.saved + (run bs s).budget.used)
      × ((run bs s).budget.used ≤ hourly_upsert_cap)
      × ((run bs s).reports ≡ (run bs s).saved)
unfolding run dropped
run-le [] s h clean fits = (omega arith, fits, clean)
run-le (b ∷ bs) s h clean fits =
    let one = step-HasStepped b.now b.day b.failure b.rows s h.0 clean in
    let rest =
      run-le bs (step b s)
        (subst (λ g. All (λ c. (g.hour == c.now / 3600) ≡ true) bs) (sym one.budget) h.1) one.clean
        (ground (arith, ap (λ g. g.used) one.budget)) in
    (omega (arith, rest.0, one.counted, ap (λ g. g.used) one.budget), rest.1, rest.2)
