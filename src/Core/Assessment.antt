-- ===== src/Core/Assessment.antt =====
-- crates/bolty-core/src/assessment.rs: what is known of the card in the field.
pub mod SameUid
pub mod Lifecycle
use bolty_rs.Prelude.{
  ℕ, Bool, true, false, not, ◌&&◌, ◌||◌, Option, List, ◌==◌, if◌then◌else◌, take, replicate,
}
use bolty_rs.Core.ConstantTime.{xor_diff}
use bolty_rs.Prelude.Text.{Text, codes}

pub data CardState : Type 0 where
  unknown : CardState
  blank : CardState
  provisioned : ℕ → CardState
  foreign : CardState

pub data IdleCardKind : Type 0 where
  none blank provisioned unknown inconsistent : IdleCardKind

pub data KeyConfidence : Type 0 where
  none k1_only full : KeyConfidence

pub data CardLifecycleState : Type 0 where
  blank provisioned half_wiped auth_delay inconsistent : CardLifecycleState

unfoldable pub can_burn_from : CardLifecycleState → Bool
can_burn_from CardLifecycleState.blank = true
can_burn_from CardLifecycleState.provisioned = true
can_burn_from _ = false

unfoldable pub can_wipe_from : CardLifecycleState → Bool
can_wipe_from CardLifecycleState.provisioned = true
can_wipe_from _ = false

unfoldable pub can_diagnose_from : CardLifecycleState → Bool
can_diagnose_from CardLifecycleState.inconsistent = false
can_diagnose_from _ = true

unfoldable pub as_str : CardLifecycleState → Text
as_str CardLifecycleState.blank = codes "BLANK"
as_str CardLifecycleState.provisioned = codes "PROVISIONED"
as_str CardLifecycleState.half_wiped = codes "HALF-WIPED"
as_str CardLifecycleState.auth_delay = codes "AUTH_DELAY"
as_str CardLifecycleState.inconsistent = codes "INCONSISTENT"

unfoldable pub from_signals : Bool → Bool → Bool → Bool → CardLifecycleState
from_signals delay has_sdm has_ndef factory_auth =
    if delay
    then CardLifecycleState.auth_delay
    else if has_sdm && has_ndef
    then CardLifecycleState.provisioned
    else if not has_sdm && not has_ndef
    then (if factory_auth then CardLifecycleState.blank else CardLifecycleState.inconsistent)
    else CardLifecycleState.half_wiped

pub record CardAssessment : Type 0 where
  pub state : CardState
  pub present : Bool
  pub is_ntag424 : Bool
  pub uid : Option (List ℕ)
  pub uid_len : ℕ
  pub kind : IdleCardKind
  pub key_versions : List ℕ
  pub key_confidence : List KeyConfidence
  pub zero_key_auth_ok : Bool
  pub has_ndef : Bool
  pub has_uri : Bool
  pub looks_like_boltcard : Bool
  pub deterministic_k1_match : Bool
  pub deterministic_full_match : Bool
  pub reset_eligible : Bool

abbrev pub default_assessment : CardAssessment
default_assessment = record {
  state = CardState.unknown;
  present = false;
  is_ntag424 = false;
  uid = Option.none;
  uid_len = 0;
  kind = IdleCardKind.unknown;
  key_versions = replicate 5 0;
  key_confidence = replicate 5 KeyConfidence.none;
  zero_key_auth_ok = false;
  has_ndef = false;
  has_uri = false;
  looks_like_boltcard = false;
  deterministic_k1_match = false;
  deterministic_full_match = false;
  reset_eligible = false;
}

-- `CardAssessment::reset`, which writes every field
unfoldable pub reset : CardAssessment → CardAssessment
reset a = record {
  state = CardState.unknown;
  present = false;
  is_ntag424 = false;
  uid = Option.none;
  uid_len = 0;
  kind = IdleCardKind.unknown;
  key_versions = replicate 5 0xff;
  key_confidence = replicate 5 KeyConfidence.none;
  zero_key_auth_ok = false;
  has_ndef = false;
  has_uri = false;
  looks_like_boltcard = false;
  deterministic_k1_match = false;
  deterministic_full_match = false;
  reset_eligible = false;
}

-- the match of `same_uid`: the loop looks at the first 7 of the 12 stored bytes
unfoldable pub same_stored_uid : Option (List ℕ) → List ℕ → Bool
same_stored_uid Option.none uid = false
same_stored_uid (Option.some stored) uid = xor_diff (take 7 stored) (take 7 uid) 0 == 0

unfoldable pub same_uid : CardAssessment → List ℕ → Bool
unfolding same_stored_uid
same_uid a uid = if not a.present || not (a.uid_len == 7) then false else same_stored_uid a.uid uid
