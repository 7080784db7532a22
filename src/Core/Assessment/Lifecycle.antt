-- ===== src/Core/Assessment/Lifecycle.antt =====
-- Which signals allow which operation.
use bolty_rs.Prelude.{◌≡◌, ◌↔◌, ◌⊎◌, arith, Bool, true, false}
use bolty_rs.Core.Assessment.{can_burn_from, can_wipe_from, can_diagnose_from, from_signals}

-- A wipe may start from the classified state exactly when there is no auth delay and both the SDM
-- and the NDEF content are there; a burn also from an empty card whose factory key works; a
-- diagnosis is refused exactly on an empty card, without auth delay, whose factory key fails.
pub from_signals_allows :
    (delay sdm ndef factory : Bool)
    → let state = from_signals delay sdm ndef factory in
      ((can_wipe_from state ≡ true) ↔ ((delay ≡ false) × (sdm ≡ true) × (ndef ≡ true)))
      × ((can_burn_from state ≡ true) ↔ (
          (delay ≡ false)
          × (((sdm ≡ true) × (ndef ≡ true)) ⊎ ((sdm ≡ false) × (ndef ≡ false) × (factory ≡ true)))))
      × ((can_diagnose_from state ≡ false)
          ↔ ((delay ≡ false) × (sdm ≡ false) × (ndef ≡ false) × (factory ≡ false)))
unfolding from_signals can_burn_from can_wipe_from can_diagnose_from
from_signals_allows delay sdm ndef factory = ground arith
