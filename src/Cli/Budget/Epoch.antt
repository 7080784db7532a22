-- ===== src/Cli/Budget/Epoch.antt =====
-- The epochs of an audit log, which budget.rs counts failures in.
use bolty_rs.Prelude.{
  ℕ, ◌+◌, ◌≡◌, ◌∙◌, Bool, not, ◌&&◌, Option, none, some, List, [], ◌∷◌, if◌then◌else◌, length,
  arith, Bool-cases, Option-cases, inl, inr,
}
use bolty_rs.Prelude.Text.{Text}
use bolty_rs.Cli.Budget.{
  Tally, new_tally, is_failure, is_delay, is_wipe, count_line, count_lines, report_of, lines_from,
  parse_audit,
}

-- A line that ends an epoch: it reports a wipe, and neither a failure nor a delay.
unfoldable pub ends_epoch : Text → Bool
ends_epoch line = not (is_failure line) && (not (is_delay line) && is_wipe line)

unfoldable pub failures : List Text → ℕ
failures [] = 0
failures (line ∷ lines) = (if is_failure line then 1 else 0) + failures lines

-- The failures behind the last line that ends an epoch, if there is one.
unfoldable pub spent : List Text → Option ℕ
spent [] = none
spent (line ∷ lines) = elim (spent lines) [
  | some n ↦ some n
  | none ↦ if ends_epoch line then some (failures lines) else none
]

-- What is spent when the tally `t` stands in front of the lines.
unfoldable pub spent_behind : Tally → List Text → Option ℕ
spent_behind t lines = elim (spent lines) [
  | some n ↦ some n
  | none ↦ if t.seen_wipe then some (t.failures_since_wipe + failures lines) else none
]

count_line_lem :
    (line : Text) (lines : List Text) (t : Tally)
    → spent_behind (count_line line t) lines ≡ spent_behind t (line ∷ lines)
unfolding spent_behind spent ends_epoch failures count_line
count_line_lem line lines t = elim (Option-cases (spent lines)) [
  | inr (n, e) ↦ ground arith
  | inl e ↦ elim (Bool-cases (is_failure line)) [
    | inl f ↦ ground arith
    | inr f ↦ elim (Bool-cases (is_delay line)) [
      | inl g ↦ ground arith
      | inr g ↦ elim (Bool-cases (is_wipe line)) [ inl w ↦ ground arith | inr w ↦ ground arith ]
    ]
  ]
]

since_lem :
    (lines : List Text) (t : Tally)
    → (report_of (count_lines lines t)).since_last_wipe ≡ spent_behind t lines
unfolding count_lines report_of
since_lem [] t = unfold spent_behind spent failures in ground arith
since_lem (line ∷ lines) t = since_lem lines (count_line line t) ∙ count_line_lem line lines t

failure_step :
    (line : Text) (t : Tally)
    → (count_line line t).report.auth_failures
      ≡ t.report.auth_failures + (if is_failure line then 1 else 0)
unfolding count_line
failure_step line t = ground arith

length_step :
    (line : Text) (t : Tally) → (count_line line t).report.log_lines ≡ t.report.log_lines + 1
unfolding count_line
length_step line t = ground arith

failures_lem :
    (lines : List Text) (t : Tally)
    → (count_lines lines t).report.auth_failures ≡ t.report.auth_failures + failures lines
unfolding count_lines failures
failures_lem [] t = ground arith
failures_lem (line ∷ lines) t =
    ground (arith, failures_lem lines (count_line line t), failure_step line t)

length_lem :
    (lines : List Text) (t : Tally)
    → (count_lines lines t).report.log_lines ≡ t.report.log_lines + length lines
unfolding count_lines
length_lem [] t = ground arith
length_lem (line ∷ lines) t =
    ground (arith, length_lem lines (count_line line t), length_step line t)

spent_behind_new : (lines : List Text) → spent_behind new_tally lines ≡ spent lines
unfolding spent_behind
spent_behind_new lines = ground arith

-- For every log, the report counts its lines and its failures, and what is spent since the last wipe
-- is the number of failures behind the last line that ends an epoch, if there is such a line.
pub parse_audit_lem :
    (text : Text)
    → ((parse_audit text).since_last_wipe ≡ spent (lines_from [] text))
      × ((parse_audit text).auth_failures ≡ failures (lines_from [] text))
      × ((parse_audit text).log_lines ≡ length (lines_from [] text))
unfolding parse_audit report_of
parse_audit_lem text = (
  since_lem (lines_from [] text) new_tally ∙ spent_behind_new (lines_from [] text),
  ground (arith, failures_lem (lines_from [] text) new_tally),
  ground (arith, length_lem (lines_from [] text) new_tally),
)
