-- ===== src/Cli/Burn.antt =====
-- apps/bolty-cli/src/burn.rs: the command that burns a card, and burn_provisioned of provision.rs.
pub mod Safety
use bolty_rs.Prelude.{
  ℕ, Bool, true, false, not, ◌||◌, ◌&&◌, Option, none, some, List, Result, ok, err, if◌then◌else◌,
}
use bolty_rs.Prelude.Text.{Text, codes, contains}
use bolty_rs.Prelude.Act.{pure, raise_if, ◌>>=◌, ◌>>◌}
use bolty_rs.Core.Crypto.{Crypto}
use bolty_rs.Core.Keys.{AesKey, CardKeys, CardUid, zeroed_key, factory_key}
use bolty_rs.Core.Derivation.{derive_keys, card_keys}
use bolty_rs.Cli.Diagnose.{KeyProvenance, factory_default, derived_issuer, proxy_issued}
use bolty_rs.Cli.Tool.{
  authenticated_with_factory, authenticated_with_provided, burn_failed, burn_succeeded,
  burn_starting, bail, on_card, CliM, auth_retry_delays, Auth, accepted, refused, exhausted, tried,
  lifted, log_event_with_provenance, on_ntag, gen_rnd_a, ladder, works,
}
use bolty_rs.Cli.Wipe.{check_uid}
use bolty_rs.Ntag.Link.{key0, key1, key2, Error, SdmUrlPlan, Ntag424}
use bolty_rs.Ntag.Burn.{BurnParams, standardize_url_template, burn}
use bolty_rs.Ntag.Inspect.{preflight_with_chip_check}

unfoldable pub privacy_template : Text → Bool
privacy_template url = contains (codes "{picc:ctr}") url && not (contains (codes "{picc:uid") url)

pub record BurnOptions : Type 0 where
  pub version : ℕ
  pub dry_run : Bool
  pub confirm_uid : Option (List ℕ)
  pub force : Bool

pub data BurnEnd : Type 0 where
  planned burned : BurnEnd

-- `current_key` and `previous_keys` of a burn
abbrev pub CurrentKeys : Type 0
CurrentKeys = AesKey × CardKeys

abbrev pub blank_keys : CurrentKeys
blank_keys = (
  zeroed_key,
  record { k0 = zeroed_key; k1 = zeroed_key; k2 = zeroed_key; k3 = zeroed_key; k4 = zeroed_key },
)

unfoldable pub has_placeholders : Text → Bool
has_placeholders url = contains (codes "{picc") url && contains (codes "{mac}") url

module _ {C T : Type 0} where
  unfoldable pub plan_checked : {Sdm : Type 0} → Result Text (SdmUrlPlan Sdm) → CliM C T BurnEnd
  plan_checked (ok plan) = pure planned
  plan_checked (err e) = lifted (err (bail e))

  -- The first look whether the card is blank; what it finds is only printed.
  unfoldable pub not_delayed : Auth → CliM C T (Unit {0})
  not_delayed accepted = pure tt
  not_delayed refused = pure tt
  not_delayed exhausted = lifted (err (bail (codes "card is in AUTH_DELAY state")))

  unfoldable pub reported : KeyProvenance → Result (Error T) (List ℕ) → CliM C T BurnEnd
  reported provenance (err e) =
      log_event_with_provenance burn_failed (some provenance) >> lifted (err (on_card e))
  reported provenance (ok uid) =
      log_event_with_provenance burn_succeeded (some provenance) >> pure burned

  unfoldable pub reburn : CardKeys → KeyProvenance → Bool → CliM C T CurrentKeys
  reburn keys provenance true = do
    log_event_with_provenance authenticated_with_provided (some provenance)
    pure (keys.k0, keys)
  reburn keys provenance false =
      lifted (err (bail (codes "authentication failed with both factory and provided K0")))

module _ {C S Sdm T : Type 0} (ops : Ntag424 C S Sdm T) (rng : C → C × Option (List ℕ)) where
  unfoldable pub state_check : Bool → CliM C T (Unit {0})
  unfolding not_delayed
  state_check true = pure tt
  state_check false = do
    answer ← ladder ops rng auth_retry_delays key0 factory_key
    not_delayed answer

  unfoldable pub keys_after : CardKeys → KeyProvenance → Bool → CliM C T CurrentKeys
  unfolding reburn
  keys_after keys provenance true = do
    log_event_with_provenance authenticated_with_factory (some factory_default)
    pure blank_keys
  keys_after keys provenance false = do
    provided_works ← works ops rng key0 keys.k0.bytes
    reburn keys provenance provided_works

  -- Which keys the card has now: the factory's, or those that are to be burned.
  unfoldable pub find_keys : CardKeys → KeyProvenance → CliM C T CurrentKeys
  unfolding keys_after
  find_keys keys provenance = do
    factory_works ← works ops rng key0 factory_key
    keys_after keys provenance factory_works

  unfoldable pub run_burn :
      CardKeys → Text → ℕ → List ℕ → KeyProvenance → CurrentKeys → CliM C T BurnEnd
  unfolding reported
  run_burn keys url version uid_fixed provenance (current_key, previous_keys) = do
    rnd_a ← gen_rnd_a rng
    log_event_with_provenance (burn_starting uid_fixed version url) (some provenance)
    answer ← tried (
        burn ops
          (record {
            lnurl = url;
            keys = keys;
            key_version = version;
            current_key = current_key;
            previous_keys = previous_keys;
          })
          (record { bytes = rnd_a }))
    reported provenance answer

  -- Past the dry run
  unfoldable pub burn_for_real :
      CardKeys → Text → BurnOptions → List ℕ → KeyProvenance → CliM C T BurnEnd
  unfolding state_check find_keys run_burn
  burn_for_real keys url opts uid_fixed provenance = do
    raise_if (not opts.force && not (has_placeholders url))
        (bail (codes "URL must contain {picc} and {mac} placeholders for SDM"))
    state_check opts.force
    current ← find_keys keys provenance
    run_burn keys url opts.version uid_fixed provenance current

  unfoldable pub burn_card : Bool → CardKeys → Text → BurnOptions → KeyProvenance → CliM C T BurnEnd
  unfolding plan_checked burn_for_real
  burn_card assume_ntag424 keys url opts provenance = do
    uid_fixed ← on_ntag (preflight_with_chip_check ops assume_ntag424)
    check_uid opts.confirm_uid uid_fixed
    if opts.dry_run
        then plan_checked (ops.sdm_url_config (standardize_url_template url) key1 key2)
        else burn_for_real keys url opts uid_fixed provenance

  unfoldable pub cmd_burn : Crypto → Bool → List ℕ → Text → BurnOptions → CliM C T BurnEnd
  unfolding burn_card
  cmd_burn crypto assume_ntag424 issuer_key url opts = do
    uid_fixed ← on_ntag (preflight_with_chip_check ops assume_ntag424)
    burn_card assume_ntag424
        (card_keys crypto
          (derive_keys crypto issuer_key (record { bytes = uid_fixed }) opts.version))
        url opts (derived_issuer opts.version)

  -- `burn_provisioned`
  unfoldable pub burn_provisioned :
      Bool → CardKeys → Text → Option (List ℕ) → Bool → CliM C T BurnEnd
  unfolding burn_card
  burn_provisioned assume_ntag424 keys url confirm_uid force =
      burn_card assume_ntag424 keys url
        (record { version = 1; dry_run = false; confirm_uid = confirm_uid; force = force })
        proxy_issued
