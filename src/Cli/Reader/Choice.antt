-- ===== src/Cli/Reader/Choice.antt =====
-- apps/bolty-cli/src/transport.rs: what is known of the reader that is chosen.
use bolty_rs.Prelude.{
  ◌≡◌, ◌⊎◌, inl, inr, refl, arith, Bool, true, false, not, Bool-cases, Option, none, some, List, [],
  ◌∷◌, Result, ok, err, All, if◌then◌else◌,
}
use bolty_rs.Prelude.Text.{Text, codes, contains}
use bolty_rs.Cli.Reader.{
  PcscError, pin_unmatched, no_readers, is_virtual, find_reader, physical, pinned, or_first, or_any,
  or_unlike_sam, select_reader,
}

abbrev pub IsAmong : Text → List Text → Type 0
IsAmong n [] = ⊥
IsAmong n (m ∷ names) = (n ≡ m) ⊎ IsAmong n names

-- What a search finds
abbrev Found : (Text → Bool) → List Text → Option Text → Type 0
Found test names none = All (λ n. test n ≡ false) names
Found test names (some n) = IsAmong n names × (test n ≡ true)

later_lem :
    (test : Text → Bool) (m : Text) (names : List Text) (r : Option Text)
    → test m ≡ false
    → Found test names r
    → Found test (m ∷ names) r
later_lem test m names none h found = (h, found)
later_lem test m names (some n) h found = (inr found.0, found.1)

find_reader_lem :
    (test : Text → Bool) (names : List Text) → Found test names (find_reader test names)
unfolding find_reader
find_reader_lem test [] = tt
find_reader_lem test (m ∷ names) = elim (Bool-cases (test m)) [
  | inl yes_it_is ↦ rw yes_it_is (inl refl, yes_it_is)
  | inr other ↦ rw other (later_lem test m names _ other (find_reader_lem test names))
]

-- A candidate is a reader that is not virtual.
physical-IsAmong :
    (n : Text) (names : List Text)
    → IsAmong n (physical names)
    → IsAmong n names × (is_virtual n ≡ false)
unfolding physical
physical-IsAmong n [] h = elim h [ ]
physical-IsAmong n (m ∷ names) h = go (physical-IsAmong n names) (is_virtual m) refl h
  where
    go :
        (IsAmong n (physical names) → IsAmong n names × (is_virtual n ≡ false))
        → (b : Bool) → is_virtual m ≡ b
        → IsAmong n (if not b then m ∷ physical names else physical names)
        → IsAmong n (m ∷ names) × (is_virtual n ≡ false)
    go rest true e later = let (among, real) = rest later in (inr among, real)
    go rest false e (inl same) = (inl same, rw same e)
    go rest false e (inr later) = let (among, real) = rest later in (inr among, real)

-- A test that fails for all candidates fails for all readers that are not virtual.
abbrev pub FailsOn : (Text → Bool) → Text → Type 0
FailsOn test n = (is_virtual n ≡ true) ⊎ (test n ≡ false)

physical-All :
    (test : Text → Bool) (names : List Text)
    → All (λ n. test n ≡ false) (physical names)
    → All (FailsOn test) names
unfolding physical
physical-All test [] h = tt
physical-All test (m ∷ names) h = go (physical-All test names) (is_virtual m) refl h
  where
    go :
        (All (λ n. test n ≡ false) (physical names) → All (FailsOn test) names)
        → (b : Bool) → is_virtual m ≡ b
        → All (λ n. test n ≡ false) (if not b then m ∷ physical names else physical names)
        → All (FailsOn test) (m ∷ names)
    go rest true e later = (inl e, rest later)
    go rest false e later = (inr later.0, rest later.1)

virtual_only : (names : List Text) → physical names ≡ [] → All (λ n. is_virtual n ≡ true) names
unfolding physical
virtual_only [] h = tt
virtual_only (m ∷ names) h = go (virtual_only names) (is_virtual m) refl h
  where
    go :
        (physical names ≡ [] → All (λ n. is_virtual n ≡ true) names)
        → (b : Bool) → is_virtual m ≡ b
        → (if not b then m ∷ physical names else physical names) ≡ []
        → All (λ n. is_virtual n ≡ true) (m ∷ names)
    go rest true e none_left = (e, rest none_left)
    go rest false e none_left = ground (arith, none_left)

-- What the choice from these names shows.
unfoldable pub Chosen : List Text → Option Text → Result PcscError Text → Type 0
Chosen names (some want) (ok n) = IsAmong n names × (contains want n ≡ true)
Chosen names (some want) (err (pin_unmatched w)) =
    (w ≡ want) × All (λ n. contains want n ≡ false) names
Chosen names (some want) (err no_readers) = ⊥
Chosen names none (ok n) =
    IsAmong n names
    × (is_virtual n ≡ false)
    × ((contains (codes "PICC") n ≡ true) ⊎ All (FailsOn (contains (codes "PICC"))) names)
Chosen names none (err (pin_unmatched w)) = ⊥
Chosen names none (err no_readers) = All (λ n. is_virtual n ≡ true) names

pinned_lem :
    (names : List Text) (want : Text) (r : Option Text)
    → Found (contains want) names r
    → Chosen names (some want) (pinned want r)
unfolding Chosen
pinned_lem names want none h = (refl, h)
pinned_lem names want (some n) h = h

module _ (names : List Text) where
  or_first_lem :
      (candidates : List Text)
      → physical names ≡ candidates
      → All (FailsOn (contains (codes "PICC"))) names
      → Chosen names none (or_first candidates)
  unfolding Chosen
  or_first_lem [] e fails = virtual_only names e
  or_first_lem (n ∷ candidates) e fails =
      let (among, real) = physical-IsAmong n names (rw e (inl refl)) in (among, real, inr fails)

  or_any_lem :
      (r : Option Text)
      → Found (λ n. not (contains (codes "SAM") n)) (physical names) r
      → All (FailsOn (contains (codes "PICC"))) names
      → Chosen names none (or_any (physical names) r)
  unfolding Chosen
  or_any_lem none h fails = or_first_lem (physical names) refl fails
  or_any_lem (some n) h fails =
      let (among, real) = physical-IsAmong n names h.0 in (among, real, inr fails)

  or_unlike_sam_lem :
      (r : Option Text)
      → Found (contains (codes "PICC")) (physical names) r
      → Chosen names none (or_unlike_sam (physical names) r)
  unfolding Chosen
  or_unlike_sam_lem none h =
      or_any_lem _ (find_reader_lem _ (physical names)) (physical-All _ names h)
  or_unlike_sam_lem (some n) h =
      let (among, real) = physical-IsAmong n names h.0 in (among, real, inl h.1)

-- With a pin, the chosen reader is one whose name contains it, and without a fitting one the pin is
-- reported. Without a pin, the reader is never a virtual one, and one for contactless cards if there
-- is one; that there are no readers is said if and only if none is there but virtual ones.
pub select_reader_lem :
    (names : List Text) (pin : Option Text) → Chosen names pin (select_reader names pin)
unfolding select_reader
select_reader_lem names (some want) = pinned_lem names want _ (find_reader_lem _ names)
select_reader_lem names none =
    or_unlike_sam_lem names _ (find_reader_lem (contains (codes "PICC")) (physical names))
