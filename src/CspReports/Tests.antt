-- ===== src/CspReports/Tests.antt =====
-- Concrete runs of the report counters.
use book_club_be.Prelude.{◌+◌, ◌≤◌, ◌≡◌, refl, none, some, List, [], ◌∷◌, arith}
use book_club_be.CspReports.{
  hourly_upsert_cap, ReportRow, CspState, take_budget, upsert, upsert_all, store, record_csp_report,
}
use book_club_be.CspReports.Counts.{Batch, total, run, dropped, run-le}

abbrev blocked_eval : ReportRow
blocked_eval = record {
  env = 1 ∷ [];
  route = 2 ∷ [];
  directive = 3 ∷ [];
  disposition = 4 ∷ [];
  sink = [];
  blocked = 5 ∷ [];
  policy_name = [];
  sample = 6 ∷ [];
}

abbrev blocked_script : ReportRow
blocked_script = record blocked_eval { directive = 7 ∷ [] }

-- a state with four upserts left in the hour from 3600 s
abbrev near_the_cap : CspState
near_the_cap = record { budget = record { hour = 1; used = 496 }; saved = []; reports = [] }

-- the second batch fails at its second row, the third is one row too many, the fourth fits
abbrev batches : List Batch
batches =
    record { now = 3700; day = 0; failure = none; rows = blocked_eval ∷ [] }
    ∷ record { now = 3750; day = 0; failure = some 1; rows = blocked_eval ∷ blocked_script ∷ [] }
    ∷ record { now = 3800; day = 0; failure = none; rows = blocked_eval ∷ blocked_script ∷ [] }
    ∷ record { now = 3900; day = 0; failure = some 2; rows = blocked_eval ∷ [] }
    ∷ []

counts_batches :
    (run batches near_the_cap).saved ≡ record { day = 0; row = blocked_eval; count = 2 } ∷ []
unfolding run record_csp_report store take_budget upsert_all upsert
counts_batches = refl

drops_one_batch : dropped batches near_the_cap ≡ 2
unfolding dropped record_csp_report store take_budget upsert_all upsert
drops_one_batch = refl

run-le_example :
    (total (run batches near_the_cap).saved + dropped batches near_the_cap + 496
      ≡ 0 + (run batches near_the_cap).budget.used)
    × ((run batches near_the_cap).budget.used ≤ hourly_upsert_cap)
    × ((run batches near_the_cap).reports ≡ (run batches near_the_cap).saved)
run-le_example = run-le batches near_the_cap (refl, (refl, (refl, (refl, tt)))) refl (omega arith)
