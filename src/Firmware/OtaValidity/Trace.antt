-- ===== src/Firmware/OtaValidity/Trace.antt =====
-- One boot of the gate of ota_validity.rs as a sequence of calls.
use bolty_rs.Prelude.{◌≡◌, refl, true, false, Option, none, some, List, [], ◌∷◌}
use bolty_rs.Firmware.OtaValidity.{ValidityGate, unarmed, arm, note_serve_evidence}

pub data GateCall (M : Type 0) : Type 0 where
  arming : M → GateCall M
  evidence : GateCall M

-- What one boot should run: the marker that was installed last before the first evidence that came
-- while one was installed.
unfoldable pub marker_to_run : {M : Type 0} → Option M → List (GateCall M) → Option M
marker_to_run installed [] = none
marker_to_run installed (arming marker ∷ calls) = marker_to_run (some marker) calls
marker_to_run none (evidence ∷ calls) = marker_to_run none calls
marker_to_run (some marker) (evidence ∷ calls) = some marker

module _ {M W : Type 0} (call : M → W → W) where
  unfoldable pub step : GateCall M → ValidityGate M × W → ValidityGate M × W
  step (arming marker) (gate, world) = ((arm gate marker).0, world)
  step evidence (gate, world) = (note_serve_evidence call gate world).0

  unfoldable pub boot : List (GateCall M) → ValidityGate M × W → ValidityGate M × W
  boot [] state = state
  boot (c ∷ calls) state = boot calls (step c state)

  unfoldable pub run_once : Option M → W → W
  run_once none world = world
  run_once (some marker) world = call marker world

  boot_marked :
      (calls : List (GateCall M)) (installed : Option M) (world : W)
      → (boot calls (record { marker = installed; marked = true }, world)).1 ≡ world
  unfolding boot step arm note_serve_evidence
  boot_marked [] installed world = refl
  boot_marked (arming marker ∷ calls) installed world = boot_marked calls installed world
  boot_marked (evidence ∷ calls) none world = boot_marked calls none world
  boot_marked (evidence ∷ calls) (some marker) world = boot_marked calls (some marker) world

  boot_unmarked :
      (calls : List (GateCall M)) (installed : Option M) (world : W)
      → (boot calls (record { marker = installed; marked = false }, world)).1
        ≡ run_once (marker_to_run installed calls) world
  unfolding boot step arm note_serve_evidence marker_to_run run_once
  boot_unmarked [] installed world = refl
  boot_unmarked (arming marker ∷ calls) installed world = boot_unmarked calls (some marker) world
  boot_unmarked (evidence ∷ calls) none world = boot_unmarked calls none world
  boot_unmarked (evidence ∷ calls) (some marker) world =
      boot_marked calls (some marker) (call marker world)

  -- Whatever the order in which a boot arms the gate and reports evidence, the platform sees the
  -- marker that was installed last before the first evidence with a marker installed, once, and
  -- nothing else; without such evidence it sees nothing.
  pub boot_marks_once :
      (calls : List (GateCall M)) (world : W)
      → (boot calls (unarmed, world)).1 ≡ run_once (marker_to_run none calls) world
  boot_marks_once calls world = boot_unmarked calls none world
