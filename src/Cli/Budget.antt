-- ===== src/Cli/Budget.antt =====
-- apps/bolty-cli/src/budget.rs: what an audit log says of the failed authentications spent.
pub mod Epoch
use bolty_rs.Prelude.{
  ℕ, ◌+◌, Bool, true, false, ◌&&◌, Option, none, some, List, [], ◌∷◌, ◌++◌, ◌==◌, if◌then◌else◌,
}
use bolty_rs.Prelude.Text.{Text, codes, to_ascii_lowercase, contains}

pub record BudgetReport : Type 0 where
  pub auth_failures : ℕ
  pub delay_events : ℕ
  pub wipes : ℕ
  pub log_lines : ℕ
  pub since_last_wipe : Option ℕ

-- the report with the two locals of the loop
pub record Tally : Type 0 where
  pub report : BudgetReport
  pub failures_since_wipe : ℕ
  pub seen_wipe : Bool

abbrev pub new_tally : Tally
new_tally = record {
  report = record {
    auth_failures = 0;
    delay_events = 0;
    wipes = 0;
    log_lines = 0;
    since_last_wipe = none;
  };
  failures_since_wipe = 0;
  seen_wipe = false;
}

abbrev pub is_failure : Text → Bool
is_failure line =
    contains (codes "rx") (to_ascii_lowercase line)
    && contains (codes "sw=91ae") (to_ascii_lowercase line)

abbrev pub is_delay : Text → Bool
is_delay line =
    contains (codes "rx") (to_ascii_lowercase line)
    && contains (codes "sw=91ad") (to_ascii_lowercase line)

abbrev pub is_wipe : Text → Bool
is_wipe line = contains (codes "wipe: success") (to_ascii_lowercase line)

-- the body of the loop
unfoldable pub count_line : Text → Tally → Tally
count_line line t =
    let r = t.report in
    let counted = record r { log_lines = r.log_lines + 1 } in
    if is_failure line
    then record {
      report = record counted { auth_failures = r.auth_failures + 1 };
      failures_since_wipe = t.failures_since_wipe + 1;
      seen_wipe = t.seen_wipe;
    }
    else if is_delay line
    then record t { report = record counted { delay_events = r.delay_events + 1 } }
    else if is_wipe line
    then record {
      report = record counted { wipes = r.wipes + 1 };
      failures_since_wipe = 0;
      seen_wipe = true;
    }
    else record t { report = counted }

unfoldable pub count_lines : List Text → Tally → Tally
count_lines [] t = t
count_lines (line ∷ lines) t = count_lines lines (count_line line t)

unfoldable pub report_of : Tally → BudgetReport
report_of t = record t.report {
  since_last_wipe = if t.seen_wipe then some t.failures_since_wipe else none;
}

-- a carriage return in front of a line's end
unfoldable pub strip_cr : Text → Text
strip_cr [] = []
strip_cr (c ∷ []) = if c == 13 then [] else c ∷ []
strip_cr (c ∷ d ∷ s) = c ∷ strip_cr (d ∷ s)

abbrev last_line : Text → List Text
last_line [] = []
last_line (c ∷ s) = (c ∷ s) ∷ []

-- `text.lines()`, with the line read so far
unfoldable pub lines_from : Text → Text → List Text
lines_from line [] = last_line line
lines_from line (c ∷ text) = elim (c == 10) [
  | true ↦ strip_cr line ∷ lines_from [] text
  | false ↦ lines_from (line ++ c ∷ []) text
]

unfoldable pub parse_audit : Text → BudgetReport
parse_audit text = report_of (count_lines (lines_from [] text) new_tally)
