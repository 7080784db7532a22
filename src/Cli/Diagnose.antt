-- ===== src/Cli/Diagnose.antt =====
-- apps/bolty-cli/src/diagnose.rs and crates/bolty-core/src/provenance.rs: how a diagnosis names a
-- card and its key.
pub mod Agreement
use bolty_rs.Prelude.{ℕ, Bool, true, false, not, ◌&&◌, Option, none, some, if◌then◌else◌}
use bolty_rs.Prelude.Text.{Text, codes}

pub data KeyProvenance : Type 0 where
  factory_default static_test_key proxy_issued unknown_external : KeyProvenance
  derived_issuer : ℕ → KeyProvenance

unfoldable pub as_json_name : KeyProvenance → Text
as_json_name factory_default = codes "FactoryDefault"
as_json_name (derived_issuer version) = codes "DerivedIssuer"
as_json_name static_test_key = codes "StaticTestKey"
as_json_name proxy_issued = codes "ProxyIssued"
as_json_name unknown_external = codes "UnknownExternal"

unfoldable pub json_version : KeyProvenance → Option ℕ
json_version (derived_issuer version) = some version
json_version _ = none

abbrev pub default_version : ℕ
default_version = 1

unfoldable pub classify_card_state : Bool → Bool → Bool → Bool → Text
classify_card_state auth_delay has_sdm has_ndef_content factory_auth_ok =
    if auth_delay
    then codes "AUTH_DELAY"
    else if not has_sdm && not has_ndef_content
    then (if factory_auth_ok then codes "BLANK" else codes "INCONSISTENT")
    else if has_sdm && has_ndef_content
    then codes "PROVISIONED"
    else codes "HALF-WIPED"

unfoldable pub classify_key_provenance : Bool → Bool → Bool → KeyProvenance
classify_key_provenance factory_auth_ok picc_ok static_test_auth_ok =
    if factory_auth_ok
    then factory_default
    else if picc_ok
    then derived_issuer default_version
    else if static_test_auth_ok
    then static_test_key
    else unknown_external
