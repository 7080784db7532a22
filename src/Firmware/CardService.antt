-- ===== src/Firmware/CardService.antt =====
-- apps/bolty-esp32/src/firmware/card_operations.rs, service.rs and utils.rs: the card service of the
-- firmware, which fills BoltyService. `C` is the reader with the card in its field. What activates a
-- card and gives its UID (`activate`, the transport of Reader.Mfrc522), the random numbers (`rng`), the
-- size that a card reports for its file and the debug text of an error are parameters.
pub mod Operations
pub mod Cleared
pub mod Due
pub mod Burns
pub mod Wipes
pub mod Looks
pub mod Untouched
mod Tests
use bolty_rs.Prelude.{
  ℕ, Bool, true, false, not, ◌&&◌, Option, none, some, List, [], ◌∷◌, Result, ok, err, ◌==◌,
  if◌then◌else◌, length, copy_at, replicate,
}
use bolty_rs.Prelude.Text.{Text, codes, is_some, Heapless}
use bolty_rs.Prelude.Act.{Act, pure, raise_if, ◌>>=◌, ◌>>◌}
use bolty_rs.Core.Keys.{AesKey, CardKeys, factory_key, default_issuer}
use bolty_rs.Core.Crypto.{Crypto}
use bolty_rs.Core.Derivation.{derive_keys, card_keys}
use bolty_rs.Core.Config.{BoltyConfig}
use bolty_rs.Core.Assessment.{CardState, CardAssessment, default_assessment}
use bolty_rs.Core.Issuer.{assess_card}
use bolty_rs.Firmware.Workflow.{
  WorkflowResult, success, card_not_present, auth_failed, auth_delay, wipe_refused, error,
  BoltyService,
}
use bolty_rs.Ntag.Link.{
  KeyNumber, key0, SessionError, Error, error_response, session, is_authentication_delay,
  is_session_auth_delay, free, key, FileSettings, Access, Ntag424, no_access,
}
use bolty_rs.Ntag.Burn.{BurnParams, burn, wipe, check_key_versions}
use bolty_rs.Ntag.Inspect.{SafeInspectResult, safe_inspect}

pub record ServiceStatus : Type 0 where
  pub last_uid : Option (List ℕ)
  pub nfc_ready : Bool
  pub lnurl : Option Text

-- Without the hardware information; `saved` is what was saved in the flash memory, latest first.
pub record Esp32BoltyService (C : Type 0) : Type 0 where
  pub has_transceiver : Bool
  pub link : C
  pub current_config : BoltyConfig
  pub keys : Option CardKeys
  pub authenticated_key0 : Option AesKey
  pub last_card : CardAssessment
  pub status : ServiceStatus
  pub saved : List Text

abbrev pub ServiceM : Type 0 → Type 0 → Type 0
ServiceM C A = Act (Esp32BoltyService C) WorkflowResult A

abbrev pub copy_uid7 : List ℕ → Option (List ℕ)
copy_uid7 uid = if length uid == 7 then some uid else none

abbrev pub uid_storage_from_fixed : List ℕ → Option (List ℕ)
uid_storage_from_fixed uid = some (copy_at 0 uid (replicate 12 0))

abbrev pub is_free : Access → Bool
is_free free = true
is_free no_access = false
is_free (key n) = false

abbrev pub is_key0 : Access → Bool
is_key0 (key key0) = true
is_key0 _ = false

-- `CommMode::Plain` is 0.
unfoldable pub looks_factory_default : {Sdm : Type 0} → ℕ → Option (FileSettings Sdm) → Bool
looks_factory_default file_size none = false
looks_factory_default file_size (some settings) =
    file_size == 256
    && settings.comm_mode == 0
    && not (is_some settings.sdm)
    && is_free settings.access_rights.read
    && is_free settings.access_rights.write
    && is_free settings.access_rights.read_write
    && is_key0 settings.access_rights.change

abbrev pub factory_card_keys : CardKeys
factory_card_keys = record {
  k0 = record { bytes = factory_key };
  k1 = record { bytes = factory_key };
  k2 = record { bytes = factory_key };
  k3 = record { bytes = factory_key };
  k4 = record { bytes = factory_key };
}

module _ (h : Heapless) where
  -- `workflow_error` of utils.rs
  unfoldable pub error_result : Text → WorkflowResult
  error_result message = elim (h.push_str 64 [] message) [
    | none ↦ elim (h.push_str 64 [] (codes "workflow error")) [
      | none ↦ error []
      | some buffer ↦ error buffer
    ]
    | some buffer ↦ error buffer
  ]

  -- The keys of a burn or a wipe: derived for the card's UID, or as given.
  unfoldable pub chosen_keys :
      Crypto
      → WorkflowResult
      → Option AesKey
      → Option CardKeys
      → List ℕ
      → Result WorkflowResult CardKeys
  chosen_keys crypto missing (some issuer_key) keys uid = elim (copy_uid7 uid) [
    | none ↦ err (error_result (codes "unsupported uid length"))
    | some uid_fixed ↦ ok (
        card_keys crypto (
          derive_keys crypto issuer_key.bytes (record { bytes = uid_fixed })
            default_issuer.key_version))
  ]
  chosen_keys crypto missing none (some keys) uid = ok keys
  chosen_keys crypto missing none none uid = err missing

module _ {C : Type 0} where
  unfoldable pub modify : (Esp32BoltyService C → Esp32BoltyService C) → ServiceM C (Unit {0})
  modify f s = (f s, ok tt)

  -- A result on which the code returns early when it is an error
  unfoldable pub returned_early : {A : Type 0} → Result WorkflowResult A → ServiceM C A
  returned_early r s = (s, r)

  -- A call on the link whose result the code matches on
  unfoldable pub attempted : {A E : Type 0} → (C → C × Result E A) → ServiceM C (Result E A)
  attempted op s = let r = op s.link in (record s { link = r.0 }, ok r.1)

  unfoldable pub seen : List ℕ → Esp32BoltyService C → Esp32BoltyService C
  seen uid s = record s { status = record s.status { last_uid = some uid; nfc_ready = true } }

  unfoldable pub sync_config : Esp32BoltyService C → Esp32BoltyService C
  sync_config s = record s {
    status = record s.status { lnurl = s.current_config.lnurl; nfc_ready = s.has_transceiver };
    keys = elim s.keys [ none ↦ s.current_config.pending_keys | some keys ↦ some keys ];
    saved = elim s.current_config.lnurl [ none ↦ s.saved | some lnurl ↦ lnurl ∷ s.saved ];
  }

  unfoldable pub sync_from : BoltyConfig → Esp32BoltyService C → Esp32BoltyService C
  unfolding sync_config
  sync_from config s = sync_config (record s { current_config = config })

  unfoldable pub gen_rnd : (C → C × List ℕ) → ServiceM C (List ℕ)
  gen_rnd rng s = let r = rng s.link in (record s { link = r.0 }, ok r.1)
