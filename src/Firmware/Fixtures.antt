-- ===== src/Firmware/Fixtures.antt =====
-- A bounded string that keeps its promise, for the tests of the firmware.
use bolty_rs.Prelude.{none, some, [], ◌∷◌, ◌++◌, ◌+◌, refl, leb, if◌then◌else◌}
use bolty_rs.Prelude.Text.{len, Heapless}

abbrev pub toy_heapless : Heapless
toy_heapless = record {
  push_str = λ n s t. if leb (len s + len t) n then some (s ++ t) else none;
  push_str_lem = λ n s t. refl;
  push = λ n s c. if leb (len s + len (c ∷ [])) n then some (s ++ c ∷ []) else none;
  push_lem = λ n s c. refl;
}
