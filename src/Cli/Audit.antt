-- ===== src/Cli/Audit.antt =====
-- apps/bolty-cli/src/audit.rs: the clock of the audit log. Milliseconds since 1970 are natural
-- numbers, so the signed divisions of the source are plain ones. The log file is the list of its
-- lines, the latest first, and a line the number it begins with, if any, and what it says; the atomics of the
-- process are the fields of `Clock`, with the number of times it tried to open the file.
pub mod Civil
pub mod Stamps
use bolty_rs.Prelude.{
  ℕ, ◌+◌, ◌-◌, ◌*◌, ◌/◌, ◌%◌, Bool, true, false, not, ◌&&◌, Option, none, some, List, [], ◌∷◌, ltb,
  leb, ◌==◌, if◌then◌else◌,
}

pub record Wall : Type 0 where
  pub year : ℕ
  pub month : ℕ
  pub day : ℕ
  pub hour : ℕ
  pub minute : ℕ
  pub second : ℕ
  pub milli : ℕ

-- The variables of `wall_utc`, from the day of the era on
unfoldable pub year_of_era : ℕ → ℕ
year_of_era doe = (doe - doe / 1460 + doe / 36524 - doe / 146096) / 365

unfoldable pub day_of_year : ℕ → ℕ
unfolding year_of_era
day_of_year doe = let yoe = year_of_era doe in doe - (365 * yoe + yoe / 4 - yoe / 100)

unfoldable pub month_index : ℕ → ℕ
month_index doy = (5 * doy + 2) / 153

unfoldable pub wall_utc : ℕ → Wall
unfolding year_of_era day_of_year month_index
wall_utc epoch_ms =
    let secs = epoch_ms / 1000 in
    let secs_of_day = secs % 86400 in
    let z = secs / 86400 + 719468 in
    let doe = z % 146097 in
    let doy = day_of_year doe in
    let mp = month_index doy in
    let month = if ltb mp 10 then mp + 3 else mp - 9 in
    let y = year_of_era doe + z / 146097 * 400 in
    record {
      year = if leb month 2 then y + 1 else y;
      month = month;
      day = doy - (153 * mp + 2) / 5 + 1;
      hour = secs_of_day / 3600;
      minute = secs_of_day % 3600 / 60;
      second = secs_of_day % 60;
      milli = epoch_ms % 1000;
    }

-- What a line of the log says, as far as the clock is concerned
pub data Entry : Type 0 where
  session_start : Option ℕ → Entry
  clock_step_backward : ℕ → ℕ → Entry
  event : Entry

pub record Clock : Type 0 where
  pub lines : List (Option ℕ × Entry)
  pub process_start : ℕ
  pub banner_written : Bool
  pub clock_step_noted : Bool
  pub last_stamp : ℕ
  pub attempts : ℕ

-- The number of the last line that begins with one
unfoldable pub last_line_epoch_ms : List (Option ℕ × Entry) → Option ℕ
last_line_epoch_ms [] = none
last_line_epoch_ms ((some stamp, entry) ∷ lines) = some stamp
last_line_epoch_ms ((none, entry) ∷ lines) = last_line_epoch_ms lines

abbrev pub future_delta : ℕ → Option ℕ → Option ℕ
future_delta now none = none
future_delta now (some last) = if ltb (now + 1000) last then some (last - now) else none

abbrev pub reference_of : Clock → ℕ
reference_of c =
    if not (c.last_stamp == 0)
    then (if ltb c.last_stamp c.process_start then c.process_start else c.last_stamp)
    else c.process_start

-- Whether the n-th attempt to open the file for writing succeeds, and whether it can be read when the
-- session starts; a file that does not exist yet has no lines.
module _ (opens : ℕ → Bool) (reads : Bool) where
  -- Nothing is written when the file cannot be opened.
  abbrev pub write_raw : ℕ → Entry → Clock → Clock
  write_raw now entry c = record c {
    attempts = c.attempts + 1;
    lines = if opens c.attempts then (some now, entry) ∷ c.lines else c.lines;
  }

  unfoldable pub write_session_banner : ℕ → Clock → Clock
  unfolding last_line_epoch_ms
  write_session_banner now c =
      let last = if reads then last_line_epoch_ms c.lines else none in
      if c.banner_written
      then c
      else write_raw now (session_start (future_delta now last))
          (record c { banner_written = true })

  -- The clock is read once, as `now`.
  unfoldable pub timestamp : ℕ → Clock → Clock
  unfolding write_session_banner
  timestamp now c =
      let noted =
        if ltb (now + 1000) (reference_of c) && not c.clock_step_noted
        then write_raw now (clock_step_backward (reference_of c - now) (reference_of c))
            (write_session_banner now (record c { clock_step_noted = true }))
        else c in
      record noted { last_stamp = now }

  unfoldable pub log_event : ℕ → Clock → Clock
  unfolding timestamp write_session_banner
  log_event now c = write_raw now event (write_session_banner now (timestamp now c))
