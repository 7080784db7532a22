-- ===== src/Cli/Audit/Stamps.antt =====
-- The lines that a process writes to the log, apps/bolty-cli/src/audit.rs.
use bolty_rs.Prelude.{
  ℕ, ◌+◌, ◌≡◌, refl, sym, subst, Bool, true, false, ◌||◌, Option, List, [], ◌∷◌, ltb, arith,
  if◌then◌else◌,
}
use bolty_rs.Cli.Audit.{
  Entry, session_start, clock_step_backward, event, Clock, write_session_banner, timestamp,
  log_event,
}

-- The events of a process, at the times that its clock shows
unfoldable pub log_all : (ℕ → Bool) → Bool → List ℕ → Clock → Clock
log_all opens reads [] c = c
log_all opens reads (now ∷ nows) c = log_all opens reads nows (log_event opens reads now c)

-- How often the lines start a session, mark a step of the clock, and report an event
unfoldable pub starts : List (Option ℕ × Entry) → ℕ
starts [] = 0
starts ((stamp, session_start delta) ∷ lines) = starts lines + 1
starts ((stamp, clock_step_backward delta reference) ∷ lines) = starts lines
starts ((stamp, event) ∷ lines) = starts lines

unfoldable pub steps : List (Option ℕ × Entry) → ℕ
steps [] = 0
steps ((stamp, session_start delta) ∷ lines) = steps lines
steps ((stamp, clock_step_backward delta reference) ∷ lines) = steps lines + 1
steps ((stamp, event) ∷ lines) = steps lines

unfoldable pub events : List (Option ℕ × Entry) → ℕ
events [] = 0
events ((stamp, session_start delta) ∷ lines) = events lines
events ((stamp, clock_step_backward delta reference) ∷ lines) = events lines
events ((stamp, event) ∷ lines) = events lines + 1

-- The clock shows more than a second less than the start of the process or the event before.
unfoldable pub goes_back : ℕ → ℕ → List ℕ → Bool
goes_back start last [] = false
goes_back start last (now ∷ nows) =
    ltb (now + 1000) start || ltb (now + 1000) last || goes_back start now nows

unfoldable pub length : List ℕ → ℕ
length [] = 0
length (now ∷ nows) = length nows + 1

-- The file can be opened whenever the process tries.
abbrev always : ℕ → Bool
always n = true

-- Nothing is written twice.
noted_again :
    (reads : Bool) (nows : List ℕ) (c : Clock)
    → c.banner_written ≡ true
    → c.clock_step_noted ≡ true
    → (starts (log_all always reads nows c).lines ≡ starts c.lines)
      × (steps (log_all always reads nows c).lines ≡ steps c.lines)
      × (events (log_all always reads nows c).lines ≡ events c.lines + length nows)
unfolding log_all log_event timestamp write_session_banner starts steps events length
noted_again reads [] c b n = (refl, refl, omega arith)
noted_again reads (now ∷ nows) c b n =
    ground (arith, noted_again reads nows (log_event always reads now c))

started :
    (reads : Bool) (nows : List ℕ) (c : Clock)
    → c.banner_written ≡ true
    → c.clock_step_noted ≡ false
    → (starts (log_all always reads nows c).lines ≡ starts c.lines)
      × (steps (log_all always reads nows c).lines
          ≡ steps c.lines + (if goes_back c.process_start c.last_stamp nows then 1 else 0))
      × (events (log_all always reads nows c).lines ≡ events c.lines + length nows)
unfolding log_all log_event timestamp write_session_banner starts steps events length goes_back
started reads [] c b n = (refl, omega arith, omega arith)
started reads (now ∷ nows) c b n = ground (
  arith,
  noted_again reads nows (log_event always reads now c),
  started reads nows (log_event always reads now c),
)

opened :
    (reads : Bool) (now : ℕ) (nows : List ℕ) (c : Clock)
    → c.banner_written ≡ false
    → c.clock_step_noted ≡ false
    → (starts (log_all always reads (now ∷ nows) c).lines ≡ starts c.lines + 1)
      × (steps (log_all always reads (now ∷ nows) c).lines
          ≡ steps c.lines + (if goes_back c.process_start c.last_stamp (now ∷ nows) then 1 else 0))
      × (events (log_all always reads (now ∷ nows) c).lines ≡ events c.lines + length (now ∷ nows))
unfolding log_all log_event timestamp write_session_banner starts steps events length goes_back
opened reads now nows c b n = ground (
  arith,
  noted_again reads nows (log_event always reads now c),
  started reads nows (log_event always reads now c),
)

-- A process that has not written yet, writes an event at each of some times, one at least, and can
-- open the log file each time: its session starts with exactly one banner, each event has one line,
-- and steps of the clock by more than a second back are marked exactly once if there is one, and not
-- at all otherwise.
pub log_all_lem :
    (opens : ℕ → Bool) (reads : Bool) (now : ℕ) (nows : List ℕ) (c : Clock)
    → ((n : ℕ) → opens n ≡ true)
    → c.banner_written ≡ false
    → c.clock_step_noted ≡ false
    → (starts (log_all opens reads (now ∷ nows) c).lines ≡ starts c.lines + 1)
      × (steps (log_all opens reads (now ∷ nows) c).lines
          ≡ steps c.lines + (if goes_back c.process_start c.last_stamp (now ∷ nows) then 1 else 0))
      × (events (log_all opens reads (now ∷ nows) c).lines ≡ events c.lines + length (now ∷ nows))
log_all_lem opens reads now nows c all b n =
    subst
      (λ o.
        (starts (log_all o reads (now ∷ nows) c).lines ≡ starts c.lines + 1)
        × (steps (log_all o reads (now ∷ nows) c).lines
            ≡ steps c.lines
              + (if goes_back c.process_start c.last_stamp (now ∷ nows) then 1 else 0))
        × (events (log_all o reads (now ∷ nows) c).lines ≡ events c.lines + length (now ∷ nows)))
      (λ i n. sym (all n) i) (opened reads now nows c b n)
