-- ===== src/CspReports.antt =====
-- app/services/csp_report.py and record_csp_report of app/routers/analytics.py: the hourly budget of
-- upserts and the counters of violation reports. The rows come from `parse`, whose regular
-- expressions, JSON and URLs are third-party code. The clock is an argument, in seconds, and so is
-- which statement of the database raises, if one does.
pub mod Counts
mod Tests
use book_club_be.Prelude.{
  ℕ, zero, suc, ◌+◌, ◌/◌, Bool, true, false, not, ◌&&◌, ◌||◌, Option, none, some, List, [], ◌∷◌,
  ◌==◌, ltb, length, if◌then◌else◌,
}
use book_club_be.Models.{Text}
use book_club_be.Database.{same_text}

abbrev pub hourly_upsert_cap : ℕ
hourly_upsert_cap = 500

-- the hour and the upserts so far
pub record Budget : Type 0 where
  pub hour : ℕ
  pub used : ℕ

abbrev pub reset_budget : Budget
reset_budget = record { hour = 0; used = 0 }

-- `_budget[:] = [hour, 0]` when the hour is another
abbrev pub in_hour : ℕ → Budget → Budget
in_hour hour b = if b.hour == hour then b else record { hour = hour; used = 0 }

unfoldable pub take_budget : ℕ → ℕ → Budget → Bool × Budget
take_budget now n b =
    let current = in_hour (now / 3600) b in
    if ltb hourly_upsert_cap (current.used + n)
    then (false, current)
    else (true, record { hour = current.hour; used = current.used + n })

-- a parsed report
pub record ReportRow : Type 0 where
  pub env : Text
  pub route : Text
  pub directive : Text
  pub disposition : Text
  pub sink : Text
  pub blocked : Text
  pub policy_name : Text
  pub sample : Text

pub record CspReport : Type 0 where
  pub day : ℕ
  pub row : ReportRow
  pub count : ℕ

-- equal in the columns of `_KEY`
abbrev pub same_row : ReportRow → ReportRow → Bool
same_row a b =
    same_text a.env b.env
    && same_text a.route b.route
    && same_text a.directive b.directive
    && same_text a.disposition b.disposition
    && same_text a.sink b.sink
    && same_text a.blocked b.blocked
    && same_text a.policy_name b.policy_name

abbrev pub has_key : ℕ → ReportRow → CspReport → Bool
has_key day row r = r.day == day && same_row r.row row

-- INSERT … ON CONFLICT (_KEY) DO UPDATE SET count = count + 1
unfoldable pub upsert : ℕ → ReportRow → List CspReport → List CspReport
upsert day row [] = record { day = day; row = row; count = 1 } ∷ []
upsert day row (r ∷ rs) =
    let rest = upsert day row rs in
    if has_key day row r then record r { count = r.count + 1 } ∷ rs else r ∷ rest

-- the budget, the stored reports and those that the session has
pub record CspState : Type 0 where
  pub budget : Budget
  pub saved : List CspReport
  pub reports : List CspReport

-- A failure is the number of statements that succeed before one raises.
abbrev raises : Option ℕ → Bool
raises none = false
raises (some zero) = true
raises (some (suc n)) = false

abbrev after_one : Option ℕ → Option ℕ
after_one none = none
after_one (some zero) = some 0
after_one (some (suc n)) = some n

-- One statement for each row, and the commit: whether one of them raised, and the state it left.
unfoldable pub upsert_all : ℕ → Option ℕ → List ReportRow → CspState → Bool × CspState
upsert_all day failure [] s =
    if raises failure then (true, s) else (false, record s { saved = s.reports })
upsert_all day failure (row ∷ rows) s =
    let rest =
      upsert_all day (after_one failure) rows (record s { reports = upsert day row s.reports }) in
    if raises failure then (true, s) else rest

-- the rows of one request, of which `parse` gives at most ten
unfoldable pub store : ℕ → ℕ → Option ℕ → List ReportRow → CspState → Bool × CspState
store now day failure [] s = (false, s)
store now day failure (row ∷ rows) s =
    let (granted, b) = take_budget now (length (row ∷ rows)) s.budget in
    let spent = record s { budget = b } in
    if granted then upsert_all day failure (row ∷ rows) spent else (false, spent)

-- The rollback brings the session back to the stored reports; the budget is no part of it.
unfoldable pub record_csp_report : ℕ → ℕ → Option ℕ → List ReportRow → CspState → CspState
record_csp_report now day failure rows s =
    let (raised, left) = store now day failure rows s in
    if raised then record left { reports = left.saved } else left
