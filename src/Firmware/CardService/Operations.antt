-- ===== src/Firmware/CardService/Operations.antt =====
-- apps/bolty-esp32/src/firmware/card_operations.rs and service.rs: the operations of the card service.
use bolty_rs.Prelude.{
  ℕ, Bool, true, false, not, ◌&&◌, Option, none, some, List, [], ◌∷◌, Result, ok, err,
  if◌then◌else◌,
}
use bolty_rs.Prelude.Text.{Text, codes, is_some, Heapless}
use bolty_rs.Prelude.Act.{pure, raise_if, ◌>>=◌, ◌>>◌}
use bolty_rs.Core.Keys.{AesKey, CardKeys, IssuerConfig, factory_key, default_issuer}
use bolty_rs.Core.Crypto.{Crypto}
use bolty_rs.Core.Config.{BoltyConfig}
use bolty_rs.Core.Assessment.{CardState, CardAssessment, default_assessment}
use bolty_rs.Core.Issuer.{assess_card}
use bolty_rs.Firmware.Commands.{lnurl_capacity}
use bolty_rs.Firmware.Workflow.{
  WorkflowResult, success, card_not_present, auth_failed, auth_delay, wipe_refused, error,
  BoltyService,
}
use bolty_rs.Firmware.CardService.{
  Esp32BoltyService, ServiceM, copy_uid7, uid_storage_from_fixed, looks_factory_default,
  factory_card_keys, error_result, chosen_keys, modify, returned_early, attempted, seen,
  sync_config, gen_rnd,
}
use bolty_rs.Ntag.Link.{
  key0, SessionError, Error, error_response, session, is_authentication_delay,
  is_session_auth_delay, Ntag424,
}
use bolty_rs.Ntag.Burn.{burn, wipe, check_key_versions}
use bolty_rs.Ntag.Inspect.{SafeInspectResult, safe_inspect}

module _ {T : Type 0} (debug : Error T → Text) where
  -- An error that is not about the delay
  abbrev pub other_error : Error T → WorkflowResult
  other_error (session (error_response status)) = auth_failed
  other_error e = error (debug e)

  unfoldable pub map_ntag_error : Error T → WorkflowResult
  map_ntag_error e = if is_authentication_delay e then auth_delay else other_error e

  abbrev pub or_mapped : {A : Type 0} → Result (Error T) A → Result WorkflowResult A
  or_mapped (ok a) = ok a
  or_mapped (err e) = err (map_ntag_error e)

module _ {C T : Type 0} (debug : Error T → Text) where
  -- An operation of crates/bolty-ntag, whose error is returned
  unfoldable pub ntag : {A : Type 0} → (C → C × Result (Error T) A) → ServiceM C A
  unfolding map_ntag_error
  ntag op s = let r = op s.link in (record s { link = r.0 }, or_mapped debug r.1)

module _ {C : Type 0} (h : Heapless) (activate : C → C × Option (List ℕ)) where
  abbrev pub activated :
      Esp32BoltyService C
      → C × Option (List ℕ)
      → Esp32BoltyService C × Result WorkflowResult (List ℕ)
  activated s (c, some uid) = (record s { link = c }, ok uid)
  activated s (c, none) = (
    record s {
      link = c;
      status = record s.status { nfc_ready = true };
      last_card = default_assessment;
    },
    err card_not_present,
  )

  -- The result is the UID of the transport.
  unfoldable pub activate_transport : ServiceM C (List ℕ)
  activate_transport s = if s.has_transceiver then activated s (activate s.link) else (
    record s { status = record s.status { nfc_ready = false }; last_card = default_assessment },
    err (error_result h (codes "nfc unavailable")),
  )

module _ {C S Sdm T V : Type 0} (h : Heapless) (crypto : Crypto) (ops : Ntag424 C S Sdm T)
    (activate : C → C × Option (List ℕ)) (rng : C → C × List ℕ) (debug : Error T → Text)
    (verify : Sdm → List ℕ → List ℕ → List ℕ → Option V) (file_size : ℕ) where
  -- The second attempt of a burn, with the keys that are to be burned
  unfoldable pub retried : CardKeys → Result (SessionError T) S → ServiceM C (AesKey × CardKeys)
  retried keyset (ok s) = pure (keyset.k0, keyset)
  retried keyset (err e) =
      returned_early (err (if is_session_auth_delay e then auth_delay else auth_failed))

  unfoldable pub tried_factory :
      CardKeys → Result (SessionError T) S → ServiceM C (AesKey × CardKeys)
  unfolding retried
  tried_factory keyset (ok s) = pure (record { bytes = factory_key }, factory_card_keys)
  tried_factory keyset (err e) =
      if is_session_auth_delay e then returned_early (err auth_delay) else (do
        rnd_a ← gen_rnd rng
        answer ← attempted (ops.authenticate_aes key0 keyset.k0.bytes rnd_a)
        retried keyset answer)

  unfoldable pub current_keys : CardKeys → ServiceM C (AesKey × CardKeys)
  unfolding tried_factory
  current_keys keyset = do
    rnd_a ← gen_rnd rng
    answer ← attempted (ops.authenticate_aes key0 factory_key rnd_a)
    tried_factory keyset answer

  -- What a burn that succeeded leaves in the service.
  unfoldable pub remember_burn :
      CardKeys → Text → List ℕ → Esp32BoltyService C → Esp32BoltyService C
  unfolding seen sync_config
  remember_burn keys lnurl uid s = sync_config (record (seen uid s) {
    keys = some keys;
    authenticated_key0 = some keys.k0;
    current_config = record s.current_config {
      pending_keys = some keys;
      lnurl = h.push_str lnurl_capacity [] lnurl;
    };
  })

  unfoldable pub service_burn : Option AesKey → Option CardKeys → Text → ServiceM C (Unit {0})
  unfolding activate_transport chosen_keys current_keys ntag remember_burn
  service_burn issuer keys lnurl = do
    uid ← activate_transport h activate
    keyset ←
        returned_early
          (chosen_keys h crypto (error_result h (codes "missing keys or issuer")) issuer keys uid)
    (current_key, previous_keys) ← current_keys keyset
    rnd_a ← gen_rnd rng
    burned_uid ← ntag debug (
        burn ops
          (record {
            lnurl = lnurl;
            keys = keyset;
            key_version = default_issuer.key_version;
            current_key = current_key;
            previous_keys = previous_keys;
          })
          (record { bytes = rnd_a }))
    modify (remember_burn keyset lnurl burned_uid)

  abbrev pub refuses_blank : Result (Error T) (SafeInspectResult Sdm V) → Bool
  refuses_blank (ok inspect) =
      looks_factory_default file_size inspect.file_settings && not (is_some inspect.ndef_bytes)
  refuses_blank (err e) = false

  unfoldable pub blank_gate : Bool → ServiceM C (Unit {0})
  blank_gate true = pure tt
  blank_gate false = do
    answer ← attempted (safe_inspect ops verify none none)
    raise_if (refuses_blank answer) wipe_refused

  unfoldable pub remember_wipe : List ℕ → Esp32BoltyService C → Esp32BoltyService C
  unfolding seen
  remember_wipe uid s = record (seen uid s) {
    keys = none;
    authenticated_key0 = some (record { bytes = factory_key });
    last_card = record default_assessment {
      state = CardState.blank;
      present = true;
      uid = uid_storage_from_fixed uid;
      uid_len = 7;
    };
  }

  unfoldable pub service_wipe : Bool → Option AesKey → Option CardKeys → ServiceM C (Unit {0})
  unfolding activate_transport chosen_keys blank_gate ntag remember_wipe
  service_wipe force_unsafe issuer keys = do
    uid ← activate_transport h activate
    wipe_keys ← returned_early (chosen_keys h crypto wipe_refused issuer keys uid)
    blank_gate force_unsafe
    rnd_a ← gen_rnd rng
    wiped_uid ← ntag debug (wipe ops wipe_keys (record { bytes = rnd_a }))
    modify (remember_wipe wiped_uid)

  -- The result of a command, in place of a `Result`
  abbrev pub settled :
      Esp32BoltyService C × Result WorkflowResult (Unit {0}) → Esp32BoltyService C × WorkflowResult
  settled (s, ok r) = (s, success)
  settled (s, err result) = (s, result)

  -- The issuer that the configuration names, with the default version
  unfoldable pub issuers_of : BoltyConfig → List IssuerConfig
  issuers_of config = elim config.pending_issuer [
    | none ↦ []
    | some issuer_key ↦
        record default_issuer { name = config.issuer_name; issuer_key = issuer_key } ∷ []
  ]

  unfoldable pub fixed_uid : List ℕ → Result WorkflowResult (List ℕ)
  fixed_uid uid = elim (copy_uid7 uid) [
    | none ↦ err (error_result h (codes "unsupported uid length"))
    | some uid_fixed ↦ ok uid_fixed
  ]

  unfoldable pub remember_inspection :
      AesKey → List ℕ → CardAssessment → Esp32BoltyService C → Esp32BoltyService C
  unfolding seen
  remember_inspection k uid assessment s = record (seen uid s) {
    authenticated_key0 = some k;
    last_card = assessment;
  }

  unfoldable pub assessed : AesKey → List ℕ → List ℕ → ServiceM C CardAssessment
  unfolding remember_inspection issuers_of
  assessed k uid versions s =
      let assessment =
        assess_card crypto (record { bytes = uid }) versions (issuers_of s.current_config) in
      (remember_inspection k uid assessment s, ok assessment)

  unfoldable pub inspect_with_key : AesKey → ServiceM C CardAssessment
  unfolding activate_transport fixed_uid ntag assessed
  inspect_with_key k = do
    transport_uid ← activate_transport h activate
    uid ← returned_early (fixed_uid transport_uid)
    rnd_a ← gen_rnd rng
    versions ← ntag debug (check_key_versions ops k (record { bytes = rnd_a }))
    assessed k uid versions

  abbrev pub factory_aes_key : AesKey
  factory_aes_key = record { bytes = factory_key }

  -- After an inspection with the service's own key
  unfoldable pub or_factory :
      Esp32BoltyService C × Result WorkflowResult CardAssessment
      → Esp32BoltyService C × Result WorkflowResult CardAssessment
  or_factory (s, err auth_failed) = inspect_with_key factory_aes_key s
  or_factory (s, err card_not_present) = inspect_with_key factory_aes_key s
  or_factory (s, r) = (s, r)

  unfoldable pub service_inspect : ServiceM C CardAssessment
  unfolding inspect_with_key or_factory
  service_inspect s = elim s.keys [
    | none ↦ inspect_with_key factory_aes_key s
    | some keys ↦ or_factory (inspect_with_key keys.k0 s)
  ]

  abbrev pub is_blank_state : CardState → Bool
  is_blank_state CardState.blank = true
  is_blank_state _ = false

  unfoldable pub service_check_blank : ServiceM C (Unit {0})
  unfolding service_inspect
  service_check_blank = do
    assessment ← service_inspect
    raise_if (not (is_blank_state assessment.state)) (error_result h (codes "card not blank"))

  -- What fills the interface of the commands.
  abbrev pub esp32_service : BoltyService (Esp32BoltyService C)
  esp32_service = record {
    burn_card = λ s issuer keys lnurl. settled (service_burn issuer keys lnurl s);
    wipe_card = λ s issuer keys. settled (service_wipe s.current_config.force_unsafe issuer keys s);
    inspect_card = λ s. service_inspect s;
    check_blank = λ s. settled (service_check_blank s);
  }
