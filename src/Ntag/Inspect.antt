-- ===== src/Ntag/Inspect.antt =====
-- crates/bolty-ntag/src/lib.rs, lines 217 to 328: looking at a card without changing it.
use mathlib.Core.Option
use bolty_rs.Prelude.{
  ℕ, Bool, true, false, not, ◌||◌, Option, none, some, List, Result, ok, ◌==◌, if◌then◌else◌, take,
  replicate, to_option,
}
use bolty_rs.Prelude.Text.{eq}
use bolty_rs.Core.Keys.{AesKey}
use bolty_rs.Prelude.Act.{pure, raise_if, ◌>>=◌, ◌>>◌}
use bolty_rs.Ntag.Link.{
  SessionError, wrong_card_type, uid_to_fixed, FileSettings, Version, Ntag424, CardM, call,
}

pub data SdmMirroring : Type 0 where
  live static off unknown : SdmMirroring

-- `V` is the result of verifying a message.
pub record SafeInspectResult (Sdm V : Type 0) : Type 0 where
  pub uid : List ℕ
  pub version : Option Version
  pub file_settings : Option (FileSettings Sdm)
  pub ndef_bytes : Option (List ℕ)
  pub sdm_verification : Option V
  pub sdm_mirroring : SdmMirroring

-- `&buf[..len.min(buf.len())]`
abbrev pub read_part : ℕ × List ℕ → List ℕ
read_part (len, buf) = take len buf

-- The buffer after the first read; a read that failed is taken to leave it as it was.
abbrev pub buffer_of : Option (ℕ × List ℕ) → List ℕ
buffer_of none = replicate 256 0
buffer_of (some (len, buf)) = buf

module _ {C T A : Type 0} where
  -- `.ok()` on a call of the session
  unfoldable pub call_ok : (C → C × Result (SessionError T) A) → CardM C T (Option A)
  call_ok op c = let (c', r) = op c in (c', ok (to_option r))

-- `Verifier::try_new(..).ok()` and `verify_with_meta_key(..).ok()` are one parameter, from the
-- settings, the bytes and both keys.
unfoldable pub verification_of :
    {Sdm V : Type 0}
    → (Sdm → List ℕ → List ℕ → List ℕ → Option V)
    → Option (FileSettings Sdm)
    → Option (List ℕ)
    → Option AesKey
    → Option AesKey
    → Option V
verification_of verify (some settings) (some bytes) (some k1) (some k2) = elim settings.sdm [
  | none ↦ none
  | some sdm ↦ verify sdm bytes k2.bytes k1.bytes
]
verification_of verify _ _ _ _ = none

-- Both reads of a card whose settings have dynamic messaging
unfoldable pub mirroring_of : Option (List ℕ) → Option (List ℕ) → SdmMirroring
mirroring_of (some first) (some second) = if eq first second then static else live
mirroring_of _ _ = unknown

module _ {C S Sdm T : Type 0} (ops : Ntag424 C S Sdm T) where
  unfoldable pub read_uid : CardM C T (List ℕ)
  read_uid = do uid ← call ops.get_selected_uid; pure (uid_to_fixed uid)

  unfoldable pub check_chip : Bool → CardM C T (Unit {0})
  check_chip true = pure tt
  check_chip false = do
    version ← call ops.get_version
    raise_if (not (version.hw_vendor_id == 4) || not (version.hw_type == 4))
        (wrong_card_type version.hw_vendor_id version.hw_type)

  unfoldable pub preflight_with_chip_check : Bool → CardM C T (List ℕ)
  unfolding check_chip
  preflight_with_chip_check assume_ntag424 = do
    uid ← call ops.get_selected_uid
    check_chip assume_ntag424
    pure (uid_to_fixed uid)

  unfoldable pub preflight : CardM C T (List ℕ)
  unfolding preflight_with_chip_check
  preflight = preflight_with_chip_check false

  -- The second read goes into the buffer of the first.
  unfoldable pub mirroring :
      Option (FileSettings Sdm) → Option (List ℕ) → List ℕ → CardM C T SdmMirroring
  unfolding call_ok mirroring_of
  mirroring none ndef_bytes buf = pure unknown
  mirroring (some settings) ndef_bytes buf = elim settings.sdm [
    | none ↦ pure off
    | some sdm ↦ do
      second ← call_ok (ops.read_file_unauthenticated 0 buf)
      pure (mirroring_of ndef_bytes (Option.map read_part second))
  ]

  unfoldable pub safe_inspect :
      {V : Type 0}
      → (Sdm → List ℕ → List ℕ → List ℕ → Option V)
      → Option AesKey
      → Option AesKey
      → CardM C T (SafeInspectResult Sdm V)
  unfolding call_ok verification_of mirroring
  safe_inspect verify k1 k2 = do
    uid ← call ops.get_selected_uid
    version ← call_ok ops.get_version
    file_settings ← call_ok ops.get_file_settings_plain
    first ← call_ok (ops.read_file_unauthenticated 0 (replicate 256 0))
    let ndef_bytes = Option.map read_part first
    sdm_mirroring ← mirroring file_settings ndef_bytes (buffer_of first)
    pure (record {
      uid = uid_to_fixed uid;
      version = version;
      file_settings = file_settings;
      ndef_bytes = ndef_bytes;
      sdm_verification = verification_of verify file_settings ndef_bytes k1 k2;
      sdm_mirroring = sdm_mirroring;
    })
