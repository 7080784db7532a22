-- ===== src/Cli/Wipe.antt =====
-- apps/bolty-cli/src/wipe.rs: the command that wipes a card.
pub mod Gates
pub mod Safety
use bolty_rs.Prelude.{
  ℕ, Bool, true, false, not, ◌||◌, ◌&&◌, Option, none, some, List, [], ◌∷◌, Result, ok, err, leb,
  ltb, ◌==◌, if◌then◌else◌, length, get_or, replicate, take, within,
}
use bolty_rs.Prelude.Text.{Text, codes, eq, is_some}
use bolty_rs.Prelude.Act.{pure, raise_if, ◌>>=◌, ◌>>◌}
use bolty_rs.Core.Crypto.{Crypto}
use bolty_rs.Core.Keys.{CardKeys, zeroed_key, factory_key}
use bolty_rs.Core.Derivation.{CardKeySet, derive_keys, card_keys}
use bolty_rs.Core.Picc.{PiccData, extract_p_and_c, picc_decrypt_p, picc_verify_c}
use bolty_rs.Cli.Diagnose.{KeyProvenance, derived_issuer, unknown_external}
use bolty_rs.Cli.Tool.{
  pre_verification_skipped, raw_keyset_verified, wipe_failed, wipe_succeeded, wipe_starting, bail,
  on_card, uid_mismatch, residual_state, slot_rejected, CliM, tried, lifted, either_way,
  log_event_with_provenance, or_bail, on_ntag, with_context, gen_rnd_a, is_sdm_functionally_active,
  works,
}
use bolty_rs.Ntag.Link.{KeyNumber, key0, key1, key2, key3, key4, Error, Ntag424}
use bolty_rs.Ntag.Burn.{wipe}
use bolty_rs.Ntag.Inspect.{preflight_with_chip_check}
use bolty_rs.Ntag.Ndef.{parse_ndef_uri}

-- The five raw keys stand in a `CardKeys`.
pub record WipeKeySource : Type 0 where
  pub issuer_key : Option (List ℕ)
  pub raw_keys : Option CardKeys
  pub version : ℕ

pub record WipeOptions : Type 0 where
  pub dry_run : Bool
  pub skip_preverify : Bool
  pub confirm_uid : Option (List ℕ)

-- How the command ends well.
pub data WipeEnd : Type 0 where
  planned nothing_to_do wiped : WipeEnd

abbrev pub is_hex_byte : ℕ → Bool
is_hex_byte b = within b'0' b'9' b || within b'a' b'f' b || within b'A' b'F' b

unfoldable pub all_of : (ℕ → Bool) → Text → Bool
all_of test [] = true
all_of test (b ∷ s) = test b && all_of test s

abbrev pub is_hex : Text → Bool
is_hex s = ltb 0 (length s) && all_of is_hex_byte s

abbrev pub is_zero_hex : Text → Bool
is_zero_hex s = all_of (λ b. b == b'0') s

-- What the parameters of a tap say before a wipe.
pub data PreVerify : Type 0 where
  skipped verified undecryptable foreign_uid wrong_mac : PreVerify

module _ (crypto : Crypto) where
  abbrev pub sun_verdict : CardKeySet → Text → PiccData → PreVerify
  sun_verdict keys c_hex picc =
      if picc_verify_c crypto keys.k2.bytes picc c_hex then verified else wrong_mac

  abbrev pub picc_verdict : CardKeySet → List ℕ → Text → Option PiccData → PreVerify
  picc_verdict keys uid_fixed c_hex none = undecryptable
  picc_verdict keys uid_fixed c_hex (some picc) = elim picc.uid [
    | none ↦ sun_verdict keys c_hex picc
    | some p_uid ↦ if eq p_uid uid_fixed then sun_verdict keys c_hex picc else foreign_uid
  ]

  unfoldable pub pc_verdict : CardKeySet → List ℕ → Text → Text → PreVerify
  unfolding all_of
  pc_verdict keys uid_fixed p_hex c_hex =
      if not (is_hex p_hex) || not (is_hex c_hex)
      then skipped
      else if is_zero_hex p_hex || is_zero_hex c_hex
      then skipped
      else picc_verdict keys uid_fixed c_hex (picc_decrypt_p crypto keys.k1.bytes p_hex)

  abbrev pub url_verdict : CardKeySet → List ℕ → Option (Text × Text) → PreVerify
  url_verdict keys uid_fixed none = skipped
  url_verdict keys uid_fixed (some (p_hex, c_hex)) = pc_verdict keys uid_fixed p_hex c_hex

module _ {C T : Type 0} where
  unfoldable pub passed : PreVerify → CliM C T (Unit {0})
  passed skipped = pure tt
  passed verified = pure tt
  passed undecryptable = lifted (err (bail (codes "p= decryption failed")))
  passed foreign_uid = lifted (err (bail (codes "p= UID does not match card UID")))
  passed wrong_mac = lifted (err (bail (codes "SUN MAC mismatch")))

  unfoldable pub reported : KeyProvenance → Result (Error T) (List ℕ) → CliM C T WipeEnd
  reported provenance (err e) =
      log_event_with_provenance wipe_failed (some provenance) >> lifted (err (on_card e))
  reported provenance (ok uid) =
      log_event_with_provenance wipe_succeeded (some provenance) >> pure wiped

  -- The UID that the user named
  unfoldable pub check_uid : Option (List ℕ) → List ℕ → CliM C T (Unit {0})
  check_uid none uid_fixed = pure tt
  check_uid (some expected) uid_fixed =
      raise_if (not (eq uid_fixed expected)) (uid_mismatch expected uid_fixed)

module _ (crypto : Crypto) where
  unfoldable pub keyset_of : List ℕ → WipeKeySource → Option (CardKeySet × KeyProvenance)
  keyset_of uid_fixed source = elim source.issuer_key [
    | some issuer_key ↦ elim source.raw_keys [
      | none ↦ some (
        derive_keys crypto issuer_key (record { bytes = uid_fixed }) source.version,
        derived_issuer source.version,
      )
      | some raw ↦ none
    ]
    | none ↦ elim source.raw_keys [
      | none ↦ none
      | some raw ↦ some (
        record {
          card_key = zeroed_key;
          k0 = raw.k0;
          k1 = raw.k1;
          k2 = raw.k2;
          k3 = raw.k3;
          k4 = raw.k4;
          card_id = replicate 16 0;
        },
        unknown_external,
      )
    ]
  ]

module _ {C S Sdm T : Type 0} (crypto : Crypto) (ops : Ntag424 C S Sdm T)
    (rng : C → C × Option (List ℕ)) where
  unfoldable pub pre_verify_pc : CardKeySet → List ℕ → CliM C T (Unit {0})
  unfolding passed pc_verdict
  pre_verify_pc keys uid_fixed = do
    (len, buf) ←
        with_context (codes "failed to read NDEF")
          (ops.read_file_unauthenticated 0 (replicate 256 0))
    elim (parse_ndef_uri (take len buf)) [
      | none ↦ lifted (err (bail (codes "NDEF unreadable")))
      | some parsed ↦ passed (url_verdict crypto keys uid_fixed (extract_p_and_c parsed.url))
    ]

  unfoldable pub authenticate_slot_with_retry : KeyNumber → List ℕ → CliM C T (Unit {0})
  authenticate_slot_with_retry slot k = do
    right ← works ops rng slot k
    raise_if (not right) (bail (codes "authentication failed"))

  -- The second look for factory keys, with a session
  unfoldable pub residue : S → CliM C T WipeEnd
  residue session = do
    (settings, session1) ←
        with_context (codes "failed to read file settings") (ops.get_file_settings session)
    (len, buf, session2) ←
        with_context (codes "failed to read NDEF")
          (ops.read_file_plain session1 0 0 (replicate 256 0))
    let has_sdm = is_sdm_functionally_active ops settings.sdm
    let has_ndef = leb 2 len && (not (get_or buf 0 0 == 0) || not (get_or buf 1 0 == 0))
    if not has_sdm && not has_ndef
        then pure nothing_to_do
        else lifted (err (residual_state has_sdm (if has_ndef then len else 0)))

  unfoldable pub verify_raw_keys : List (KeyNumber × List ℕ) → CliM C T (Unit {0})
  unfolding authenticate_slot_with_retry
  verify_raw_keys [] = pure tt
  verify_raw_keys ((slot, k) ∷ slots) =
      or_bail (slot_rejected slot) (authenticate_slot_with_retry slot k) >> verify_raw_keys slots

  -- With raw keys, every slot's key is tried before the first write.
  unfoldable pub raw_gate : Option CardKeys → CardKeySet → KeyProvenance → CliM C T (Unit {0})
  unfolding verify_raw_keys
  raw_gate none keys provenance = pure tt
  raw_gate (some raw) keys provenance = do
    verify_raw_keys (
        (key1, keys.k1.bytes)
        ∷ (key2, keys.k2.bytes)
        ∷ (key3, keys.k3.bytes)
        ∷ (key4, keys.k4.bytes)
        ∷ [])
    log_event_with_provenance raw_keyset_verified (some provenance)

  unfoldable pub pc_gate : Bool → CardKeySet → List ℕ → KeyProvenance → CliM C T (Unit {0})
  unfolding pre_verify_pc
  pc_gate true keys uid_fixed provenance =
      log_event_with_provenance pre_verification_skipped (some provenance)
  pc_gate false keys uid_fixed provenance = pre_verify_pc keys uid_fixed

  -- The library's wipe between its audit entries
  unfoldable pub run_wipe : CardKeySet → List ℕ → ℕ → KeyProvenance → CliM C T WipeEnd
  unfolding reported
  run_wipe keys uid_fixed version provenance = do
    rnd_a ← gen_rnd_a rng
    log_event_with_provenance (wipe_starting uid_fixed version) (some provenance)
    answer ← tried (wipe ops (card_keys crypto keys) (record { bytes = rnd_a }))
    reported provenance answer

  -- From the pre-verification on
  unfoldable pub wipe_provisioned :
      WipeKeySource → WipeOptions → List ℕ → CardKeySet → KeyProvenance → CliM C T WipeEnd
  unfolding pc_gate raw_gate run_wipe authenticate_slot_with_retry
  wipe_provisioned source opts uid_fixed keys provenance =
      pc_gate opts.skip_preverify keys uid_fixed provenance
      >> or_bail (bail (codes "K0 authentication failed"))
          (authenticate_slot_with_retry key0 keys.k0.bytes)
      >> raw_gate source.raw_keys keys provenance
      >> run_wipe keys uid_fixed source.version provenance

  -- From the state check on
  unfoldable pub wipe_checked :
      WipeKeySource → WipeOptions → List ℕ → CardKeySet → KeyProvenance → CliM C T WipeEnd
  unfolding residue wipe_provisioned
  wipe_checked source opts uid_fixed keys provenance = do
    rnd_a ← gen_rnd_a rng
    factory_probe ← tried (ops.authenticate_aes key0 factory_key rnd_a)
    either_way (λ session. lifted (err (bail (codes "card has factory K0"))))
        (do
          rnd_b ← gen_rnd_a rng
          again ← tried (ops.authenticate_aes key0 factory_key rnd_b)
          either_way residue (wipe_provisioned source opts uid_fixed keys provenance) again)
        factory_probe

  -- Once the keys are known
  unfoldable pub wipe_with :
      WipeKeySource → WipeOptions → List ℕ → Option (CardKeySet × KeyProvenance) → CliM C T WipeEnd
  unfolding wipe_checked
  wipe_with source opts uid_fixed none = lifted (err (bail (codes "unreachable")))
  wipe_with source opts uid_fixed (some (keys, provenance)) =
      if opts.dry_run then pure planned else wipe_checked source opts uid_fixed keys provenance

  unfoldable pub cmd_wipe : Bool → WipeKeySource → WipeOptions → CliM C T WipeEnd
  unfolding wipe_with check_uid keyset_of
  cmd_wipe assume_ntag424 source opts = do
    raise_if (is_some source.raw_keys && not (is_some opts.confirm_uid))
        (bail (codes "--raw-keys requires --confirm-uid"))
    uid_fixed ← on_ntag (preflight_with_chip_check ops assume_ntag424)
    check_uid opts.confirm_uid uid_fixed
    wipe_with source opts uid_fixed (keyset_of crypto uid_fixed source)
