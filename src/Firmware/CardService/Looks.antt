-- ===== src/Firmware/CardService/Looks.antt =====
-- apps/bolty-esp32/src/firmware/card_operations.rs and service.rs: the operations that only look at
-- the card. `verified_uid` is the UID that a verified message shows.
use mathlib.Core.Option
use bolty_rs.Prelude.{
  ℕ, Bool, true, false, ◌&&◌, ◌||◌, Option, none, some, List, Result, ok, err, to_option,
  if◌then◌else◌,
}
use bolty_rs.Prelude.Text.{Text, is_some, eq, Heapless}
use bolty_rs.Prelude.Act.{◌>>=◌}
use bolty_rs.Core.Keys.{AesKey, CardKeys, factory_key}
use bolty_rs.Core.Assessment.{CardState, CardAssessment, default_assessment}
use bolty_rs.Firmware.CardService.{
  Esp32BoltyService, ServiceM, copy_uid7, uid_storage_from_fixed, looks_factory_default, attempted,
  returned_early, seen, gen_rnd,
}
use bolty_rs.Firmware.CardService.Operations.{ntag, activate_transport}
use bolty_rs.Firmware.Workflow.{card_not_present}
use bolty_rs.Ntag.Link.{key0, SessionError, Error, FileSettings, Ntag424, is_session_auth_delay}
use bolty_rs.Ntag.Inspect.{SafeInspectResult, safe_inspect}

pub data DiagnoseState : Type 0 where
  blank provisioned auth_delay inconsistent : DiagnoseState

pub record PiccResult (Sdm V : Type 0) : Type 0 where
  pub inspect : SafeInspectResult Sdm V
  pub keys_loaded : Bool
  pub keys_confirmed : Bool
  pub uid_match : Option Bool

pub record DiagnoseResult (Sdm V : Type 0) : Type 0 where
  pub inspect : SafeInspectResult Sdm V
  pub zero_key_attempted : Bool
  pub zero_key_auth_ok : Bool
  pub state : DiagnoseState

-- An assessment of the card with this UID
abbrev pub looked_at : List ℕ → CardState → Bool → Bool → CardAssessment
looked_at uid state has_ndef zero_key_auth_ok = record default_assessment {
  state = state;
  present = true;
  uid = uid_storage_from_fixed uid;
  uid_len = 7;
  has_ndef = has_ndef;
  zero_key_auth_ok = zero_key_auth_ok;
}

module _ {C : Type 0} where
  unfoldable pub remember_look : List ℕ → CardAssessment → Esp32BoltyService C → Esp32BoltyService C
  unfolding seen
  remember_look uid assessment s = record (seen uid s) { last_card = assessment }

module _ {C S Sdm T V : Type 0} (h : Heapless) (ops : Ntag424 C S Sdm T)
    (activate : C → C × Option (List ℕ)) (rng : C → C × List ℕ) (debug : Error T → Text)
    (verify : Sdm → List ℕ → List ℕ → List ℕ → Option V) (file_size : ℕ)
    (verified_uid : V → Option (List ℕ)) where
  abbrev pub has_sdm : SafeInspectResult Sdm V → Bool
  has_sdm inspect = elim inspect.file_settings [
    | none ↦ false
    | some settings ↦ is_some settings.sdm
  ]

  unfoldable pub uid_matches : SafeInspectResult Sdm V → Option Bool
  uid_matches inspect = elim inspect.sdm_verification [
    | none ↦ none
    | some verification ↦ Option.map (λ uid. eq uid inspect.uid) (verified_uid verification)
  ]

  -- A key that was confirmed is taken over.
  abbrev pub confirm_key : Bool → Option CardKeys → Option AesKey → Option AesKey
  confirm_key true (some keys) old = some keys.k0
  confirm_key true none old = old
  confirm_key false keys old = old

  unfoldable pub picc_seen :
      Option CardKeys → SafeInspectResult Sdm V → ServiceM C (PiccResult Sdm V)
  unfolding remember_look uid_matches
  picc_seen keys inspect s =
      let keys_confirmed = is_some inspect.sdm_verification && is_some keys in
      let assessment =
        looked_at inspect.uid
          (if keys_confirmed then CardState.provisioned 0 else CardState.unknown)
          (is_some inspect.ndef_bytes) false in
      (
        record (remember_look inspect.uid assessment s) {
          authenticated_key0 = confirm_key keys_confirmed keys s.authenticated_key0;
        },
        ok (record {
          inspect = inspect;
          keys_loaded = is_some keys;
          keys_confirmed = keys_confirmed;
          uid_match = uid_matches inspect;
        }),
      )

  unfoldable pub service_picc : ServiceM C (PiccResult Sdm V)
  unfolding activate_transport ntag picc_seen
  service_picc s =
      (activate_transport h activate >>= λ uid.
      ntag debug (
        safe_inspect ops verify (Option.map (λ (keys : CardKeys). keys.k1) s.keys)
          (Option.map (λ (keys : CardKeys). keys.k2) s.keys))
      >>= picc_seen s.keys)
        s

  abbrev pub zero_key_state : Result (SessionError T) S → DiagnoseState
  zero_key_state (ok session) = DiagnoseState.blank
  zero_key_state (err e) =
      if is_session_auth_delay e then DiagnoseState.auth_delay else DiagnoseState.inconsistent

  abbrev pub card_state_of : DiagnoseState → CardState
  card_state_of DiagnoseState.blank = CardState.blank
  card_state_of DiagnoseState.provisioned = CardState.provisioned 0
  card_state_of DiagnoseState.auth_delay = CardState.unknown
  card_state_of DiagnoseState.inconsistent = CardState.unknown

  abbrev pub unlike_factory : SafeInspectResult Sdm V → DiagnoseState
  unlike_factory inspect =
      if is_some inspect.file_settings || is_some inspect.ndef_bytes || has_sdm inspect
      then DiagnoseState.provisioned
      else DiagnoseState.inconsistent

  unfoldable pub diagnosed :
      SafeInspectResult Sdm V → Bool → Bool → DiagnoseState → ServiceM C (DiagnoseResult Sdm V)
  unfolding remember_look
  diagnosed inspect attempted_zero zero_ok state s = (
    remember_look inspect.uid
        (looked_at inspect.uid (card_state_of state) (is_some inspect.ndef_bytes) zero_ok) s,
    ok (record {
      inspect = inspect;
      zero_key_attempted = attempted_zero;
      zero_key_auth_ok = zero_ok;
      state = state;
    }),
  )

  abbrev pub opened : Result (SessionError T) S → Bool
  opened (ok session) = true
  opened (err e) = false

  unfoldable pub diagnose_seen : SafeInspectResult Sdm V → ServiceM C (DiagnoseResult Sdm V)
  unfolding diagnosed
  diagnose_seen inspect =
      if looks_factory_default file_size inspect.file_settings
      then (do
        rnd_a ← gen_rnd rng
        answer ← attempted (ops.authenticate_aes key0 factory_key rnd_a)
        diagnosed inspect true (opened answer) (zero_key_state answer))
      else diagnosed inspect false false (unlike_factory inspect)

  unfoldable pub service_diagnose : ServiceM C (DiagnoseResult Sdm V)
  unfolding activate_transport ntag diagnose_seen
  service_diagnose = do
    uid ← activate_transport h activate
    inspect ← ntag debug (safe_inspect ops verify none none)
    diagnose_seen inspect

  abbrev pub mirrors : Option Sdm → Bool
  mirrors none = false
  mirrors (some sdm) = ops.has_picc_data sdm || ops.has_file_read sdm

  unfoldable pub polled_state : Option (FileSettings Sdm) → CardState
  polled_state none = CardState.unknown
  polled_state (some settings) =
      if mirrors settings.sdm then CardState.provisioned 0 else CardState.blank

  unfoldable pub polled : SafeInspectResult Sdm V → ServiceM C CardAssessment
  unfolding remember_look polled_state
  polled inspect s =
      let assessment = looked_at inspect.uid (polled_state inspect.file_settings) false false in
      (remember_look inspect.uid assessment s, ok assessment)

  -- Every error stands for `None`, so which one it is does not matter.
  unfoldable pub poll_found : Option (List ℕ) → ServiceM C CardAssessment
  unfolding ntag polled
  poll_found none = returned_early (err card_not_present)
  poll_found (some uid) = ntag debug (safe_inspect ops verify none none) >>= polled

  unfoldable pub poll_safe : Esp32BoltyService C → Esp32BoltyService C × Option CardAssessment
  unfolding activate_transport poll_found
  poll_safe s =
      let r = (activate_transport h activate >>= λ uid. poll_found (copy_uid7 uid)) s in
      (r.0, to_option r.1)

  unfoldable pub service_card_present : Esp32BoltyService C → Esp32BoltyService C × Bool
  unfolding activate_transport
  service_card_present s = let r = activate_transport h activate s in (r.0, is_some (to_option r.1))
