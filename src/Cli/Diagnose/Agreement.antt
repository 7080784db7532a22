-- ===== src/Cli/Diagnose/Agreement.antt =====
-- The names of states in diagnose.rs, beside those of assessment.rs.
use bolty_rs.Prelude.{◌≡◌, refl, Bool, true, false}
use bolty_rs.Core.Assessment.{from_signals, as_str}
use bolty_rs.Cli.Diagnose.{classify_card_state}

-- For every combination of signals, the state that the diagnose command prints is the name of the
-- state that `from_signals` classifies.
pub classify_card_state-from_signals :
    (auth_delay has_sdm has_ndef factory_auth_ok : Bool)
    → classify_card_state auth_delay has_sdm has_ndef factory_auth_ok
      ≡ as_str (from_signals auth_delay has_sdm has_ndef factory_auth_ok)
unfolding classify_card_state from_signals as_str
classify_card_state-from_signals true sdm ndef ok = refl
classify_card_state-from_signals false true true ok = refl
classify_card_state-from_signals false true false ok = refl
classify_card_state-from_signals false false true ok = refl
classify_card_state-from_signals false false false true = refl
classify_card_state-from_signals false false false false = refl
