-- ===== src/Firmware/Console.antt =====
-- apps/bolty-esp32/src/console_framing.rs: console bytes folded into lines. The bounded string of
-- `heapless` is the section's parameter.
pub mod Lines
use bolty_rs.Prelude.{
  ℕ, Bool, true, false, Option, none, some, List, [], ◌∷◌, ◌++◌, ◌==◌, if◌then◌else◌,
}
use bolty_rs.Prelude.Text.{Text, Heapless}

abbrev pub max_line_len : ℕ
max_line_len = 512

pub data LineEvent : Type 0 where
  line_of : Text → LineEvent
  overflow : LineEvent

pub record LineAssembler : Type 0 where
  pub line : Text
  pub discarding : Bool
  pub done : Bool

abbrev pub new_assembler : LineAssembler
new_assembler = record { line = []; discarding = false; done = false }

-- the first `if` of `feed`
unfoldable pub settle : LineAssembler → LineAssembler
settle asm =
    if asm.done then record { line = []; discarding = asm.discarding; done = false } else asm

abbrev is_empty : Text → Bool
is_empty [] = true
is_empty (ch ∷ s) = false

module _ (h : Heapless) (n : ℕ) where
  abbrev newline : LineAssembler → LineAssembler × Option LineEvent
  newline asm =
      if asm.discarding
      then (record { line = asm.line; discarding = false; done = asm.done }, none)
      else if is_empty asm.line
      then (asm, none)
      else (record { line = asm.line; discarding = false; done = true }, some (line_of asm.line))

  abbrev other : LineAssembler → ℕ → LineAssembler × Option LineEvent
  other asm byte = if asm.discarding then (asm, none) else (elim (h.push n asm.line byte) [
    | none ↦ (record { line = []; discarding = true; done = asm.done }, some overflow)
    | some line ↦ (record { line = line; discarding = false; done = asm.done }, none)
  ])

  -- the `match` of `feed`
  unfoldable pub feed_settled : LineAssembler → ℕ → LineAssembler × Option LineEvent
  feed_settled asm byte =
      if byte == 13 then (asm, none) else if byte == 10 then newline asm else other asm byte

  unfoldable pub feed : LineAssembler → ℕ → LineAssembler × Option LineEvent
  feed asm byte = feed_settled (settle asm) byte
