-- ===== src/Cli/Reader.antt =====
-- apps/bolty-cli/src/transport.rs: which of the readers a command uses.
pub mod Choice
use bolty_rs.Prelude.{
  ℕ, Bool, true, false, not, ◌||◌, Option, none, some, List, [], ◌∷◌, Result, ok, err,
  if◌then◌else◌,
}
use bolty_rs.Prelude.Text.{Text, codes, contains, to_ascii_lowercase}

-- The errors that a choice can give
pub data PcscError : Type 0 where
  pin_unmatched : Text → PcscError
  no_readers : PcscError

unfoldable pub is_virtual : Text → Bool
is_virtual name =
    let lower = to_ascii_lowercase name in
    contains (codes "virtual") lower
    || contains (codes "vpcd") lower
    || contains (codes "vpicc") lower

-- `find` and `filter` of an iterator
unfoldable pub find_reader : (Text → Bool) → List Text → Option Text
find_reader test [] = none
find_reader test (n ∷ names) =
    let later = find_reader test names in if test n then some n else later

unfoldable pub physical : List Text → List Text
physical [] = []
physical (n ∷ names) = let later = physical names in if not (is_virtual n) then n ∷ later else later

abbrev pub pinned : Text → Option Text → Result PcscError Text
pinned want none = err (pin_unmatched want)
pinned want (some n) = ok n

abbrev pub or_first : List Text → Result PcscError Text
or_first [] = err no_readers
or_first (n ∷ names) = ok n

-- Without a reader for contactless cards
abbrev pub or_any : List Text → Option Text → Result PcscError Text
or_any candidates (some n) = ok n
or_any candidates none = or_first candidates

abbrev pub or_unlike_sam : List Text → Option Text → Result PcscError Text
or_unlike_sam candidates (some n) = ok n
or_unlike_sam candidates none =
    or_any candidates (find_reader (λ n. not (contains (codes "SAM") n)) candidates)

unfoldable pub select_reader : List Text → Option Text → Result PcscError Text
unfolding find_reader physical
select_reader names (some want) = pinned want (find_reader (contains want) names)
select_reader names none =
    let candidates = physical names in
    or_unlike_sam candidates (find_reader (contains (codes "PICC")) candidates)
