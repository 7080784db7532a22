-- ===== src/Prelude/Text.antt =====
-- `&str` as the list of its code points, with the methods of `str` that the sources call, and the
-- bounded strings of the `heapless` crate, which is not in the repository, as an interface.
use Prim.Native.Char.{code}
use Prim.Native.String.{String}
use Prim.Native.Nat.{ℕ, ◌+◌, ◌/◌, ◌%◌}
use mathlib.Core.Path.{◌≡◌, refl, sym}
use mathlib.Core.List.{append_assoc}
use mathlib.Core.Logic.{◌↔◌}
use mathlib.Core.Bool.{Bool, true, false, ◌&&◌, ◌||◌}
use mathlib.Core.Option.{Option, none, some}
use mathlib.Core.List.{List, [], ◌∷◌, ◌++◌, map}
use native.Mathlib.Omega.{arith}
use bolty_rs.Prelude.Tests.{leb, ltb, ◌==◌, if◌then◌else◌, within}
use bolty_rs.Prelude.Lists.{length, length-append}

-- The code points of a text.
abbrev pub Text : Type 0
Text = List ℕ

abbrev pub codes : String → Text
codes String.[] = []
codes (String.◌∷◌ c s) = code c ∷ codes s

-- The UTF-8 encoding, which `as_bytes` and `len` look at.
abbrev pub utf8_char : ℕ → List ℕ
utf8_char c =
    if ltb c 0x80
    then c ∷ []
    else if ltb c 0x800
    then (0xc0 + c / 64) ∷ (0x80 + c % 64) ∷ []
    else if ltb c 0x10000
    then (0xe0 + c / 4096) ∷ (0x80 + c / 64 % 64) ∷ (0x80 + c % 64) ∷ []
    else (0xf0 + c / 262144) ∷ (0x80 + c / 4096 % 64) ∷ (0x80 + c / 64 % 64) ∷ (0x80 + c % 64) ∷ []

unfoldable pub as_bytes : Text → List ℕ
as_bytes [] = []
as_bytes (c ∷ s) = utf8_char c ++ as_bytes s

-- `len`, in bytes
unfoldable pub len : Text → ℕ
len s = length (as_bytes s)

-- equality of texts and of byte strings
unfoldable pub eq : Text → Text → Bool
eq [] [] = true
eq (x ∷ xs) (y ∷ ys) = x == y && eq xs ys
eq _ _ = false

abbrev pub to_ascii_lowercase_char : ℕ → ℕ
to_ascii_lowercase_char c = if within b'A' b'Z' c then c + 32 else c

unfoldable pub to_ascii_lowercase : Text → Text
to_ascii_lowercase = map to_ascii_lowercase_char

unfoldable pub eq_ignore_ascii_case : Text → Text → Bool
unfolding eq to_ascii_lowercase
eq_ignore_ascii_case a b = eq (to_ascii_lowercase a) (to_ascii_lowercase b)

abbrev pub is_ascii_whitespace : ℕ → Bool
is_ascii_whitespace c = c == 32 || c == 9 || c == 10 || c == 12 || c == 13

-- the Unicode property White_Space, by which `trim` strips
unfoldable pub is_whitespace : ℕ → Bool
is_whitespace c =
    within 9 13 c
    || c == 32
    || c == 0x85
    || c == 0xa0
    || c == 0x1680
    || within 0x2000 0x200a c
    || c == 0x2028
    || c == 0x2029
    || c == 0x202f
    || c == 0x205f
    || c == 0x3000

unfoldable pub trim_start : Text → Text
unfolding is_whitespace
trim_start [] = []
trim_start (c ∷ s) = let rest = trim_start s in if is_whitespace c then rest else c ∷ s

abbrev keep_unless_blank : ℕ → Text → Text
keep_unless_blank c [] = if is_whitespace c then [] else c ∷ []
keep_unless_blank c (d ∷ s) = c ∷ d ∷ s

unfoldable pub trim_end : Text → Text
unfolding is_whitespace
trim_end [] = []
trim_end (c ∷ s) = keep_unless_blank c (trim_end s)

unfoldable pub trim : Text → Text
unfolding trim_start trim_end
trim s = trim_end (trim_start s)

-- a word in front of the words that follow it
abbrev pub cons_word : Text → List Text → List Text
cons_word [] ws = ws
cons_word (c ∷ w) ws = (c ∷ w) ∷ ws

-- the letters up to the first blank, and the words behind it
unfoldable pub scan_words : Text → Text × List Text
scan_words [] = ([], [])
scan_words (c ∷ s) =
    let (w, ws) = scan_words s in
    if is_ascii_whitespace c then ([], cons_word w ws) else (c ∷ w, ws)

unfoldable pub split_ascii_whitespace : Text → List Text
unfolding scan_words
split_ascii_whitespace s = let (w, ws) = scan_words s in cons_word w ws

-- `strip_prefix`
unfoldable pub strip_prefix : Text → Text → Option Text
strip_prefix [] s = some s
strip_prefix (p ∷ ps) [] = none
strip_prefix (p ∷ ps) (c ∷ s) = let rest = strip_prefix ps s in if p == c then rest else none

abbrev pub is_some {ℓ} : {A : Type ℓ} → Option A → Bool
is_some none = false
is_some (some a) = true

-- `contains`
unfoldable pub contains : Text → Text → Bool
unfolding strip_prefix
contains p [] = is_some (strip_prefix p [])
contains p (c ∷ s) = is_some (strip_prefix p (c ∷ s)) || contains p s

-- `heapless::String<N>`: `push_str` and `push` of one char; an append is refused when the text would pass `N` bytes, and then changes
-- nothing.
pub record Heapless : Type 0 where
  pub push_str : ℕ → Text → Text → Option Text
  pub push_str_lem :
      (n : ℕ) (s t : Text)
      → push_str n s t ≡ (if leb (len s + len t) n then some (s ++ t) else none)
  pub push : ℕ → Text → ℕ → Option Text
  pub push_lem :
      (n : ℕ) (s : Text) (c : ℕ)
      → push n s c ≡ (if leb (len s + len (c ∷ [])) n then some (s ++ c ∷ []) else none)

pub eq_iff : (a b : Text) → (eq a b ≡ true) ↔ (a ≡ b)
unfolding eq
eq_iff [] [] = ground arith
eq_iff [] (y ∷ ys) = ground arith
eq_iff (x ∷ xs) [] = ground arith
eq_iff (x ∷ xs) (y ∷ ys) = ground (arith, eq_iff xs ys)

pub as_bytes-append : (a b : Text) → as_bytes (a ++ b) ≡ as_bytes a ++ as_bytes b
unfolding as_bytes
as_bytes-append [] b = refl
as_bytes-append (c ∷ a) b =
    rw (as_bytes-append a b) (sym (append_assoc (utf8_char c) (as_bytes a) (as_bytes b)))

pub len-append : (a b : Text) → len (a ++ b) ≡ len a + len b
unfolding len
len-append a b = rw (as_bytes-append a b) (length-append (as_bytes a) (as_bytes b))
