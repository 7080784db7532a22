-- ===== src/Core/Issuer.antt =====
-- crates/bolty-core/src/issuer.rs: matching a card against the known issuers. The crypto crates are
-- the section's parameter.
pub mod Classify
use bolty_rs.Prelude.{
  ℕ, ◌+◌, Bool, true, ◌&&◌, Option, none, some, List, [], ◌∷◌, ◌==◌, if◌then◌else◌, get_or, copy_at,
  replicate,
}
use bolty_rs.Core.Keys.{CardUid, IssuerConfig, uid_len, num_keys, key_version_blank}
use bolty_rs.Core.Crypto.{Crypto}
use bolty_rs.Core.Derivation.{CardKeySet, derive_keys}
use bolty_rs.Core.Assessment.{
  CardState, IdleCardKind, KeyConfidence, CardAssessment, default_assessment,
}

-- `key_versions.iter().all(|version| *version == KEY_VERSION_BLANK)`
unfoldable pub all_blank : List ℕ → Bool
all_blank [] = true
all_blank (v ∷ versions) = v == key_version_blank && all_blank versions

unfoldable pub base_assessment : CardUid → List ℕ → CardAssessment
base_assessment uid versions = record default_assessment {
  present = true;
  uid = some (copy_at 0 uid.bytes (replicate 12 0));
  uid_len = uid_len;
  key_versions = versions;
}

abbrev pub assess_matched : CardAssessment → Option (ℕ × CardKeySet) → CardAssessment
assess_matched a (some (issuer_idx, derived_keys)) = record a {
  state = CardState.provisioned issuer_idx;
  kind = IdleCardKind.provisioned;
  key_confidence = replicate num_keys KeyConfidence.full;
  looks_like_boltcard = true;
  deterministic_k1_match = true;
  deterministic_full_match = true;
  reset_eligible = true;
}
assess_matched a none = record a {
  state = CardState.foreign;
  kind = IdleCardKind.unknown;
  looks_like_boltcard = true;
}

module _ (c : Crypto) where
  -- `enumerate().find_map(..)`, from the index `idx` on
  unfoldable pub find_issuer : CardUid → ℕ → ℕ → List IssuerConfig → Option (ℕ × CardKeySet)
  find_issuer uid key_version idx [] = none
  find_issuer uid key_version idx (issuer ∷ issuers) =
      let derived = derive_keys c issuer.issuer_key.bytes uid issuer.derivation_version in
      let later = find_issuer uid key_version (idx + 1) issuers in
      if issuer.key_version == key_version then some (idx, derived) else later

  unfoldable pub match_issuer : CardUid → ℕ → List IssuerConfig → Option (ℕ × CardKeySet)
  match_issuer uid key_version issuers = find_issuer uid key_version 0 issuers

  unfoldable pub assess_card : CardUid → List ℕ → List IssuerConfig → CardAssessment
  unfolding base_assessment
  assess_card uid versions issuers =
      let assessment = base_assessment uid versions in
      if all_blank versions
      then record assessment {
        state = CardState.blank;
        kind = IdleCardKind.blank;
        zero_key_auth_ok = true;
        reset_eligible = true;
      }
      else assess_matched assessment (match_issuer uid (get_or versions 1 0) issuers)
