-- ===== src/Firmware/Button/Gesture.antt =====
-- What one press of a button of button.rs gives, from the first sample to the release.
use bolty_rs.Prelude.{
  ℕ, ◌-◌, ◌≡◌, refl, Bool, true, false, ◌||◌, not, List, [], ◌∷◌, ltb, if◌then◌else◌, arith,
  Bool-cases, inl, inr,
}
use bolty_rs.Firmware.Button.{ButtonEvent, no_event, click, long_press, ButtonDebounce, update}

abbrev keep_event : ButtonEvent → List ButtonEvent → List ButtonEvent
keep_event no_event events = events
keep_event event events = event ∷ events

-- The events of a button that is down at the given times and up at the last one, and the state then.
unfoldable pub press : List ℕ → ℕ → ButtonDebounce → ButtonDebounce × List ButtonEvent
press [] up b = let (b', event) = update b false up in (b', keep_event event [])
press (now ∷ times) up b =
    let (b', event) = update b true now in
    let (end, events) = press times up b' in (end, keep_event event events)

-- Some sample comes a second or more after the start.
unfoldable pub held_long : ℕ → List ℕ → Bool
held_long start [] = false
held_long start (now ∷ times) = not (ltb (now - start) 1000) || held_long start times

-- What a press should give: nothing for less than two samples, and else one event, long if it was
-- held for a second behind the second sample.
unfoldable pub gesture : List ℕ → List ButtonEvent
gesture (first ∷ start ∷ times) = if held_long start times then long_press ∷ [] else click ∷ []
gesture _ = []

unfoldable pub IsUp : ButtonDebounce → Type 0
IsUp b = (b.debounce_count ≡ 0) × (b.debounced_pressed ≡ false)

abbrev down : ℕ → ℕ → Bool → ButtonDebounce
down count start fired = record {
  debounce_count = count;
  debounced_pressed = true;
  press_start_ms = start;
  long_press_fired = fired;
}

fired_lem :
    (times : List ℕ) (up count start : ℕ)
    → ((press times up (down count start true)).1 ≡ [])
      × IsUp (press times up (down count start true)).0
unfolding press update IsUp
fired_lem [] up count start = (refl, (refl, refl))
fired_lem (now ∷ times) up count start = fired_lem times up count start

down_lem :
    (times : List ℕ) (up count start : ℕ)
    → ((press times up (down count start false)).1
        ≡ (if held_long start times then long_press ∷ [] else click ∷ []))
      × IsUp (press times up (down count start false)).0
unfolding press update IsUp held_long
down_lem [] up count start = (refl, (refl, refl))
down_lem (now ∷ times) up count start = elim (Bool-cases (ltb (now - start) 1000)) [
  | inl e ↦ ground (arith, down_lem times up count start)
  | inr e ↦ ground (arith, fired_lem times up count start)
]

-- From a button that is up, a press of any length gives exactly the events that it should, one at
-- most, and leaves the button up.
pub press_lem :
    (times : List ℕ) (up : ℕ) (b : ButtonDebounce)
    → IsUp b
    → ((press times up b).1 ≡ gesture times) × IsUp (press times up b).0
unfolding press update IsUp gesture
press_lem [] up b w = ground arith
press_lem (first ∷ []) up b w = ground arith
press_lem (first ∷ start ∷ times) up b w = ground (arith, down_lem times up 2 start)
