-- ===== src/Firmware/Button.antt =====
-- apps/bolty-esp32/src/button.rs: the debouncer of a button, one sample at a time.
pub mod Gesture
use bolty_rs.Prelude.{ℕ, ◌+◌, ◌-◌, Bool, true, false, ltb, ◌==◌, if◌then◌else◌}

abbrev pub debounce_ticks : ℕ
debounce_ticks = 2

abbrev pub long_press_ms : ℕ
long_press_ms = 1000

pub data ButtonEvent : Type 0 where
  no_event click long_press : ButtonEvent

pub record ButtonDebounce : Type 0 where
  pub debounce_count : ℕ
  pub debounced_pressed : Bool
  pub press_start_ms : ℕ
  pub long_press_fired : Bool

abbrev pub new_debounce : ButtonDebounce
new_debounce = record {
  debounce_count = 0;
  debounced_pressed = false;
  press_start_ms = 0;
  long_press_fired = false;
}

-- `saturating_add(1)` on u8
abbrev pub saturating_suc : ℕ → ℕ
saturating_suc n = if n == 255 then 255 else n + 1

abbrev pressed : ButtonDebounce → ℕ → ButtonDebounce × ButtonEvent
pressed b now_ms =
    if b.debounced_pressed
    then (if b.long_press_fired
        then (b, no_event)
        else if ltb (now_ms - b.press_start_ms) long_press_ms
        then (b, no_event)
        else (record b { long_press_fired = true }, long_press))
    else if ltb (saturating_suc b.debounce_count) debounce_ticks
    then (record b { debounce_count = saturating_suc b.debounce_count }, no_event)
    else (
      record {
        debounce_count = saturating_suc b.debounce_count;
        debounced_pressed = true;
        press_start_ms = now_ms;
        long_press_fired = false;
      },
      no_event,
    )

abbrev released : ButtonDebounce → ButtonDebounce × ButtonEvent
released b =
    if b.debounced_pressed
    then (
      record b { debounce_count = 0; debounced_pressed = false },
      if b.long_press_fired then no_event else click,
    )
    else (record b { debounce_count = 0 }, no_event)

unfoldable pub update : ButtonDebounce → Bool → ℕ → ButtonDebounce × ButtonEvent
update b raw_pressed now_ms = if raw_pressed then pressed b now_ms else released b
