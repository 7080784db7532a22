-- ===== src/Firmware/Console/Lines.antt =====
-- The lines that console_framing.rs makes of a stream of bytes.
use mathlib.Core.List.{append_assoc, append-nil}
use bolty_rs.Prelude.{
  ℕ, ◌+◌, ◌≡◌, refl, ap, ◌∙◌, true, false, Option, none, some, List, [], ◌∷◌, ◌++◌, leb, ◌==◌,
  if◌then◌else◌, Bool-cases, All, arith, inl, inr,
}
use bolty_rs.Prelude.Text.{as_bytes, Text, Heapless, len, len-append}
use bolty_rs.Firmware.Console.{
  LineEvent, line_of, overflow, LineAssembler, new_assembler, settle, feed_settled, feed,
}

-- The text of a line: its bytes as chars, without carriage returns.
unfoldable pub without_cr : List ℕ → Text
without_cr [] = []
without_cr (byte ∷ bytes) = let kept = without_cr bytes in if byte == 13 then kept else byte ∷ kept

-- What a text gives: nothing when it is empty, itself when it is within the capacity, and one
-- overflow when it is not.
unfoldable pub events_of : ℕ → Text → List LineEvent
events_of n [] = []
events_of n (ch ∷ text) =
    if leb (len (ch ∷ text)) n then line_of (ch ∷ text) ∷ [] else overflow ∷ []

abbrev NotNewline : ℕ → Type 0
NotNewline byte = (byte == 10) ≡ false

abbrev to_list : Option LineEvent → List LineEvent
to_list none = []
to_list (some event) = event ∷ []

unfoldable pub stream : List (List ℕ) → List ℕ
stream [] = []
stream (content ∷ contents) = content ++ 10 ∷ stream contents

unfoldable pub all_events : ℕ → List (List ℕ) → List LineEvent
all_events n [] = []
all_events n (content ∷ contents) = events_of n (without_cr content) ++ all_events n contents

module _ (h : Heapless) (n : ℕ) where
  unfoldable pub feed_all : List ℕ → LineAssembler → List LineEvent
  feed_all [] asm = []
  feed_all (byte ∷ bytes) asm =
      let (next, event) = feed h n asm byte in to_list event ++ feed_all bytes next

  reading : Text → LineAssembler
  reading text = record { line = text; discarding = false; done = false }

  swallow : LineAssembler
  swallow = record { line = []; discarding = true; done = false }

  -- behind an overflow, all up to the newline is dropped
  swallow_lem :
      (content more : List ℕ)
      → All NotNewline content
      → feed_all (content ++ 10 ∷ more) swallow ≡ feed_all more new_assembler
  unfolding feed_all feed settle feed_settled swallow
  swallow_lem [] more a = refl
  swallow_lem (byte ∷ content) more (b, a) = ground (arith, swallow_lem content more a)

  finished_lem :
      (more : List ℕ) (text : Text)
      → feed_all more (record { line = text; discarding = false; done = true })
        ≡ feed_all more new_assembler
  unfolding feed_all feed settle
  finished_lem [] text = refl
  finished_lem (byte ∷ more) text = refl

  overflow_lem : (text : Text) → leb (len text) n ≡ false → events_of n text ≡ overflow ∷ []
  unfolding events_of len as_bytes
  overflow_lem [] e = ground arith
  overflow_lem (ch ∷ text) e = rw e refl

  longer_lem :
      (text : Text) (byte : ℕ) (kept : Text)
      → leb (len text + len (byte ∷ [])) n ≡ false
      → leb (len (text ++ byte ∷ kept)) n ≡ false
  longer_lem text byte kept e =
      ground (arith, len-append text (byte ∷ kept), len-append (byte ∷ []) kept)

  fits_lem :
      (text : Text) (byte : ℕ)
      → leb (len text + len (byte ∷ [])) n ≡ true
      → leb (len (text ++ byte ∷ [])) n ≡ true
  fits_lem text byte e = rw (len-append text (byte ∷ [])) e

  feed_cr :
      (text : Text) (byte : ℕ)
      → (byte == 13) ≡ true
      → feed h n (reading text) byte ≡ (reading text, none)
  unfolding feed settle feed_settled reading
  feed_cr text byte e = ground arith

  feed_kept :
      (text : Text) (byte : ℕ)
      → (byte == 13) ≡ false
      → (byte == 10) ≡ false
      → leb (len text + len (byte ∷ [])) n ≡ true
      → feed h n (reading text) byte ≡ (reading (text ++ byte ∷ []), none)
  unfolding feed settle feed_settled reading
  feed_kept text byte e b fit = ground (arith, h.push_lem n text byte)

  feed_over :
      (text : Text) (byte : ℕ)
      → (byte == 13) ≡ false
      → (byte == 10) ≡ false
      → leb (len text + len (byte ∷ [])) n ≡ false
      → feed h n (reading text) byte ≡ (swallow, some overflow)
  unfolding feed settle feed_settled reading swallow
  feed_over text byte e b over = ground (arith, h.push_lem n text byte)

  -- with `text` read so far
  reading_lem :
      (content more : List ℕ) (text : Text)
      → All NotNewline content
      → leb (len text) n ≡ true
      → feed_all (content ++ 10 ∷ more) (reading text)
        ≡ events_of n (text ++ without_cr content) ++ feed_all more new_assembler
  unfolding feed_all feed settle feed_settled reading without_cr events_of
  reading_lem [] more [] a fit = refl
  reading_lem [] more (ch ∷ text) a fit =
      rw (append-nil (ch ∷ text), fit)
        (ap (λ events. line_of (ch ∷ text) ∷ events) (finished_lem more (ch ∷ text)))
  reading_lem (byte ∷ content) more text (b, a) fit = elim (Bool-cases (byte == 13)) [
    | inl cr ↦ rw (feed_cr text byte cr, cr) (reading_lem content more text a fit)
    | inr plain ↦ elim (Bool-cases (leb (len text + len (byte ∷ [])) n)) [
      | inl room ↦
          let tail = reading_lem content more (text ++ byte ∷ []) a (fits_lem text byte room) in
          rw (feed_kept text byte plain b room, plain)
            (rw (append_assoc text (byte ∷ []) (without_cr content)) at tail)
      | inr over ↦
          rw
            (
              feed_over text byte plain b over,
              plain,
              overflow_lem (text ++ byte ∷ without_cr content)
                  (longer_lem text byte (without_cr content) over),
            )
            (ap (λ events. overflow ∷ events) (swallow_lem content more a))
    ]
  ]

  capacity_lem : leb (len []) n ≡ true
  unfolding len as_bytes
  capacity_lem = ground arith

  -- For every sequence of lines, without newlines inside and each ended by one, the assembler gives
  -- exactly the events of the lines one by one: a line within the capacity gives itself without its
  -- carriage returns, an empty one nothing, and a longer one a single overflow and none of its text.
  pub feed_all-stream :
      (contents : List (List ℕ))
      → All (λ content. All NotNewline content) contents
      → feed_all (stream contents) new_assembler ≡ all_events n contents
  unfolding stream all_events feed_all reading
  feed_all-stream [] a = refl
  feed_all-stream (content ∷ contents) (b, a) =
      reading_lem content (stream contents) [] b capacity_lem
      ∙ ap (λ events. events_of n (without_cr content) ++ events) (feed_all-stream contents a)
