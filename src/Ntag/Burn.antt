-- ===== src/Ntag/Burn.antt =====
-- crates/bolty-ntag/src/lib.rs, lines 77 to 121 and 360 to 649: burning and wiping a card, and the
-- versions of its keys.
use bolty_rs.Prelude.{
  ℕ, zero, suc, ◌-◌, Bool, false, not, ◌||◌, Option, none, some, List, [], ◌∷◌, ◌++◌, ok, err, ltb,
  ◌==◌, if◌then◌else◌, length, take, replicate,
}
use bolty_rs.Prelude.Text.{Text, codes, contains, eq, is_some, strip_prefix}
use bolty_rs.Core.Keys.{AesKey, CardKeys, factory_key, key_version_blank}
use bolty_rs.Prelude.Act.{pure, raise_if, ◌>>=◌, ◌>>◌}
use bolty_rs.Ntag.Link.{
  KeyNumber, key0, key1, key2, key3, key4, number_of, NonMasterKeyNumber, non_master_key1,
  non_master_key2, non_master_key3, non_master_key4, sdm_url, key_version_mismatch,
  ndef_verification_failed, sdm_verification_failed, uid_to_fixed, burned_ndef_access_rights,
  factory_ndef_access_rights, FileSettings, SdmUrlPlan, Ntag424, CardM, call,
}

-- `replace`: from the left, without overlaps. `skip` counts the letters of an occurrence that are
-- still to be dropped.
unfoldable pub replace_from : ℕ → Text → Text → Text → Text
unfolding strip_prefix
replace_from skip from to [] = []
replace_from (suc skip) from to (c ∷ s) = replace_from skip from to s
replace_from zero from to (c ∷ s) =
    let found = to ++ replace_from (length from - 1) from to s in
    let kept = c ∷ replace_from zero from to s in
    if is_some (strip_prefix from (c ∷ s)) then found else kept

unfoldable pub standardize_url_template : Text → Text
unfolding contains replace_from
standardize_url_template url =
    if contains (codes "[[{mac}") url
    then url
    else replace_from 0 (codes "{mac}") (codes "[[{mac}") url

pub record BurnParams : Type 0 where
  pub lnurl : Text
  pub keys : CardKeys
  pub key_version : ℕ
  pub current_key : AesKey
  pub previous_keys : CardKeys

-- A row of `key_updates`
pub record KeyUpdate : Type 0 where
  pub key_no : NonMasterKeyNumber
  pub kn : KeyNumber
  pub new_key : List ℕ
  pub old_key : List ℕ

abbrev pub burn_key_updates : BurnParams → List KeyUpdate
burn_key_updates p =
    record {
      key_no = non_master_key1;
      kn = key1;
      new_key = p.keys.k1.bytes;
      old_key = p.previous_keys.k1.bytes;
    }
    ∷ record {
      key_no = non_master_key2;
      kn = key2;
      new_key = p.keys.k2.bytes;
      old_key = p.previous_keys.k2.bytes;
    }
    ∷ record {
      key_no = non_master_key3;
      kn = key3;
      new_key = p.keys.k3.bytes;
      old_key = p.previous_keys.k3.bytes;
    }
    ∷ record {
      key_no = non_master_key4;
      kn = key4;
      new_key = p.keys.k4.bytes;
      old_key = p.previous_keys.k4.bytes;
    }
    ∷ []

abbrev pub wipe_key_updates : CardKeys → List KeyUpdate
wipe_key_updates keys =
    record { key_no = non_master_key1; kn = key1; new_key = factory_key; old_key = keys.k1.bytes }
    ∷ record { key_no = non_master_key2; kn = key2; new_key = factory_key; old_key = keys.k2.bytes }
    ∷ record { key_no = non_master_key3; kn = key3; new_key = factory_key; old_key = keys.k3.bytes }
    ∷ record { key_no = non_master_key4; kn = key4; new_key = factory_key; old_key = keys.k4.bytes }
    ∷ []

-- The bytes read back against the plan's. The library gives no more bytes than the buffer has.
unfoldable pub is_read_back : List ℕ → ℕ → List ℕ → Bool
unfolding eq
is_read_back bytes read_len buf =
    not (ltb read_len (length bytes) || not (eq (take (length bytes) buf) bytes))

module _ {C S Sdm T : Type 0} (ops : Ntag424 C S Sdm T) where
  -- The loop over `key_updates`, which burn and wipe share.
  unfoldable pub change_keys : ℕ → List KeyUpdate → S → CardM C T S
  change_keys version [] s = pure s
  change_keys version (u ∷ updates) s = do
    s1 ← call (ops.change_key s u.key_no u.new_key version u.old_key)
    (v, s2) ← call (ops.get_key_version s1 u.kn)
    raise_if (not (v == version)) (key_version_mismatch (number_of u.kn) version v)
    change_keys version updates s2

  -- `settings.sdm.is_some()`: dynamic messaging is switched off before the file is written.
  unfoldable pub clear_sdm : FileSettings Sdm → S → CardM C T S
  clear_sdm settings s =
      if is_some settings.sdm
      then (do s1 ← call (ops.change_file_settings s (record settings { sdm = none })); pure s1)
      else pure s

  unfoldable pub sdm_url_plan : Text → CardM C T (SdmUrlPlan Sdm)
  unfolding standardize_url_template
  sdm_url_plan lnurl c = elim (ops.sdm_url_config (standardize_url_template lnurl) key1 key2) [
    | ok plan ↦ (c, ok plan)
    | err e ↦ (c, err (sdm_url e))
  ]

  -- The file is written and read back, then dynamic messaging is switched on, and seen to be.
  unfoldable pub burn_file : SdmUrlPlan Sdm → S → CardM C T S
  unfolding clear_sdm is_read_back
  burn_file plan s0 = do
    (settings, s) ← call (ops.get_file_settings s0)
    s1 ← clear_sdm settings s
    s2 ← call (ops.write_file_plain s1 0 plan.ndef_bytes)
    (read_len, read_buf, s3) ←
        call (ops.read_file_plain s2 0 (length plan.ndef_bytes) (replicate 256 0))
    raise_if (not (is_read_back plan.ndef_bytes read_len read_buf))
        (ndef_verification_failed (length plan.ndef_bytes) read_len)
    (settings2, s4) ← call (ops.get_file_settings s3)
    s5 ← call (
        ops.change_file_settings s4 (record {
          comm_mode = settings2.comm_mode;
          access_rights = burned_ndef_access_rights;
          sdm = some plan.sdm_settings;
        }))
    (verify_settings, s6) ← call (ops.get_file_settings s5)
    raise_if (not (is_some verify_settings.sdm)) sdm_verification_failed
    pure s6

  -- The result is the UID.
  unfoldable pub burn : BurnParams → AesKey → CardM C T (List ℕ)
  unfolding sdm_url_plan burn_file change_keys
  burn params rnd_a = do
    plan ← sdm_url_plan params.lnurl
    uid ← call ops.get_selected_uid
    s ← call (ops.authenticate_aes key0 params.current_key.bytes rnd_a.bytes)
    s1 ← burn_file plan s
    s2 ← change_keys params.key_version (burn_key_updates params) s1
    _ ← call (ops.change_master_key s2 params.keys.k0.bytes params.key_version)
    s3 ← call (ops.authenticate_aes key0 params.keys.k0.bytes rnd_a.bytes)
    (final_settings, _) ← call (ops.get_file_settings s3)
    raise_if (not (is_some final_settings.sdm)) sdm_verification_failed
    pure (uid_to_fixed uid)

  -- Whether mirroring is still there after a wipe.
  unfoldable pub still_mirrors : Option Sdm → Bool
  still_mirrors none = false
  still_mirrors (some sdm) = ops.has_picc_data sdm || ops.has_file_read sdm

  unfoldable pub wipe : CardKeys → AesKey → CardM C T (List ℕ)
  unfolding change_keys still_mirrors
  wipe keys rnd_a = do
    uid ← call ops.get_selected_uid
    s ← call (ops.authenticate_aes key0 keys.k0.bytes rnd_a.bytes)
    (settings, s1) ← call (ops.get_file_settings s)
    s2 ← call (
        ops.change_file_settings s1 (record {
          comm_mode = settings.comm_mode;
          access_rights = factory_ndef_access_rights;
          sdm = none;
        }))
    s3 ← call (ops.write_file_plain s2 0 (0 ∷ 0 ∷ []))
    s4 ← change_keys key_version_blank (wipe_key_updates keys) s3
    _ ← call (ops.change_master_key s4 factory_key key_version_blank)
    s5 ← call (ops.authenticate_aes key0 factory_key rnd_a.bytes)
    (final_settings, _) ← call (ops.get_file_settings s5)
    raise_if (still_mirrors final_settings.sdm) sdm_verification_failed
    pure (uid_to_fixed uid)

  unfoldable pub read_key_versions : List KeyNumber → S → CardM C T (List ℕ)
  read_key_versions [] s = pure []
  read_key_versions (kn ∷ key_numbers) s = do
    (v, s1) ← call (ops.get_key_version s kn)
    versions ← read_key_versions key_numbers s1
    pure (v ∷ versions)

  unfoldable pub check_key_versions : AesKey → AesKey → CardM C T (List ℕ)
  unfolding read_key_versions
  check_key_versions k rnd_a = do
    s ← call (ops.authenticate_aes key0 k.bytes rnd_a.bytes)
    read_key_versions (key0 ∷ key1 ∷ key2 ∷ key3 ∷ key4 ∷ []) s
