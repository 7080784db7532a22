-- ===== src/Cli/Provision.antt =====
-- apps/bolty-cli/src/provision.rs: the keys of a card from the answer of a provisioning server. The
-- parser of JSON (`from_str`, with the fields of the struct) and the HTTP client with the decoding of
-- its body are parameters.
pub mod Template
use bolty_rs.Prelude.{
  ℕ, Bool, true, false, not, ◌||◌, ◌&&◌, Option, none, some, List, [], ◌∷◌, ◌++◌, Result, ok, err,
  ◌>>=◌, map_err, ◌*◌, ◌==◌, if◌then◌else◌, within, take,
}
use bolty_rs.Prelude.Text.{Text, codes, eq, trim, strip_prefix, contains, is_some}
use bolty_rs.Core.Hex.{HexError}
use bolty_rs.Core.Keys.{AesKey, CardKeys, key_from_hex}

-- `i64`; `negsuc n` is -1 - n.
pub data ℤ : Type 0 where
  pos negsuc : ℕ → ℤ

pub record ProvisionResponse : Type 0 where
  pub protocol_name : Text
  pub protocol_version : ℤ
  pub card_name : Text
  pub lnurlw_base : Text
  pub k0 : Text
  pub k1 : Text
  pub k2 : Text
  pub k3 : Text
  pub k4 : Text
  pub uid_privacy : Text

pub record ProvisionKeys : Type 0 where
  pub keys : CardKeys
  pub url : Text
  pub uid_privacy : Bool

pub data ProvisionError : Type 0 where
  not_a_response unexpected_name unsupported_version suspicious_base : ProvisionError
  invalid_key : ℕ → HexError → ProvisionError
  bad_code request_failed unreadable_body : ProvisionError

abbrev pub is_version_two : ℤ → Bool
is_version_two (pos n) = n == 2
is_version_two (negsuc n) = false

-- The closure `parse`
unfoldable pub parse_key : ℕ → Text → Result ProvisionError AesKey
parse_key number hex = map_err (invalid_key number) (key_from_hex (trim hex))

unfoldable pub parse_keys : ProvisionResponse → Result ProvisionError CardKeys
unfolding parse_key
parse_keys resp = do
  k0 ← parse_key 0 resp.k0
  k1 ← parse_key 1 resp.k1
  k2 ← parse_key 2 resp.k2
  k3 ← parse_key 3 resp.k3
  k4 ← parse_key 4 resp.k4
  ok (record { k0 = k0; k1 = k1; k2 = k2; k3 = k3; k4 = k4 })

unfoldable pub is_suspicious : Text → Bool
is_suspicious base =
    not (
      is_some (strip_prefix (codes "lnurlw://") base)
      || is_some (strip_prefix (codes "https://") base))
    || contains (codes "{") base

unfoldable pub wants_privacy : Text → Bool
wants_privacy s =
    let value = trim s in
    eq value (codes "true") || eq value (codes "TRUE") || eq value (codes "True")

abbrev pub picc_placeholder : Bool → Text
picc_placeholder true = codes "{picc:ctr}"
picc_placeholder false = codes "{picc:uid+ctr}"

-- What stands behind the base
abbrev pub parameters : Bool → Text
parameters uid_privacy = codes "?p=" ++ (picc_placeholder uid_privacy ++ codes "&c={mac}")

unfoldable pub template_url : Text → Bool → Text
template_url base uid_privacy = base ++ parameters uid_privacy

-- From the keys on
unfoldable pub provisioned_with : ProvisionResponse → CardKeys → Result ProvisionError ProvisionKeys
unfolding is_suspicious wants_privacy template_url
provisioned_with resp keys =
    if is_suspicious (trim resp.lnurlw_base)
    then err suspicious_base
    else ok (record {
      keys = keys;
      url = template_url (trim resp.lnurlw_base) (wants_privacy resp.uid_privacy);
      uid_privacy = wants_privacy resp.uid_privacy;
    })

unfoldable pub check_response : ProvisionResponse → Result ProvisionError ProvisionKeys
unfolding parse_keys provisioned_with
check_response resp =
    if not (eq resp.protocol_name (codes "create_bolt_card_response"))
    then err unexpected_name
    else if not (is_version_two resp.protocol_version)
    then err unsupported_version
    else parse_keys resp >>= provisioned_with resp

abbrev pub is_ascii_alphanumeric : ℕ → Bool
is_ascii_alphanumeric c = within b'0' b'9' c || within b'a' b'z' c || within b'A' b'Z' c

unfoldable pub is_code : Text → Bool
is_code [] = true
is_code (c ∷ code) = is_ascii_alphanumeric c && is_code code

abbrev pub keep_unless_slash : ℕ → Text → Text
keep_unless_slash c [] = if c == b'/' then [] else c ∷ []
keep_unless_slash c (d ∷ s) = c ∷ d ∷ s

-- `trim_end_matches('/')`
unfoldable pub trim_end_slashes : Text → Text
trim_end_slashes [] = []
trim_end_slashes (c ∷ s) = keep_unless_slash c (trim_end_slashes s)

module _ (from_str : Text → Option ProvisionResponse) where
  unfoldable pub parse_provision_response : Text → Result ProvisionError ProvisionKeys
  unfolding check_response
  parse_provision_response body = elim (from_str body) [
    | none ↦ err not_a_response
    | some resp ↦ check_response resp
  ]

-- `get` is one request, with the bytes of its answer; `from_utf8` the check of `read_to_string`.
module _ (from_str : Text → Option ProvisionResponse) (get : Text → Option (List ℕ))
    (from_utf8 : List ℕ → Option Text) where
  unfoldable pub read_body : Option (List ℕ) → Result ProvisionError ProvisionKeys
  unfolding parse_provision_response
  read_body none = err request_failed
  read_body (some bytes) = elim (from_utf8 (take (64 * 1024) bytes)) [
    | none ↦ err unreadable_body
    | some body ↦ parse_provision_response from_str body
  ]

  unfoldable pub fetch_provision_keys : Text → Text → Result ProvisionError ProvisionKeys
  unfolding is_code trim_end_slashes read_body
  fetch_provision_keys proxy_base [] = err bad_code
  fetch_provision_keys proxy_base (c ∷ code) =
      if is_code (c ∷ code)
      then read_body (get (trim_end_slashes proxy_base ++ codes "/new?a=" ++ c ∷ code))
      else err bad_code
