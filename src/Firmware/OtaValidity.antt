-- ===== src/Firmware/OtaValidity.antt =====
-- apps/bolty-esp32/src/ota_validity.rs: the gate that marks a fresh image valid on the first card
-- transaction. A marker is a platform call on a world `W`; its return code goes to the log only.
pub mod Trace
use bolty_rs.Prelude.{Bool, true, false, Option, none, some, if◌then◌else◌}

pub record ValidityGate (M : Type 0) : Type 0 where
  pub marker : Option M
  pub marked : Bool

module _ {M : Type 0} where
  abbrev pub unarmed : ValidityGate M
  unarmed = record { marker = none; marked = false }

  unfoldable pub armed : ValidityGate M → Bool
  armed gate = elim gate.marker [ none ↦ false | some marker ↦ true ]

  unfoldable pub arm : ValidityGate M → M → ValidityGate M × Bool
  arm gate marker =
      if gate.marked then (gate, false) else (record { marker = some marker; marked = false }, true)

  unfoldable pub note_serve_evidence :
      {W : Type 0} → (M → W → W) → ValidityGate M → W → (ValidityGate M × W) × Bool
  note_serve_evidence call gate world = elim gate.marker [
    | none ↦ ((gate, world), false)
    | some marker ↦
        if gate.marked
        then ((gate, world), false)
        else ((record { marker = some marker; marked = true }, call marker world), true)
  ]
