-- ===== src/Cli/Provision/Template.antt =====
-- apps/bolty-cli/src/provision.rs: what an accepted answer of a provisioning server is like.
use bolty_rs.Prelude.{
  ℕ, ◌≡◌, refl, bind_ok, guard_ok, map_err, Bool, true, false, not, ◌&&◌, Option, none, some, [],
  ◌∷◌, ◌++◌, Result, ok, err, ◌>>=◌, arith,
}
use bolty_rs.Prelude.Text.{
  Text, codes, eq, trim, strip_prefix, contains, eq_iff, to_ascii_lowercase,
}
use bolty_rs.Core.Hex.{HexError, decode_hex, encode_hex}
use bolty_rs.Core.Hex.Inverse.{decode_hex-inverse}
use bolty_rs.Core.Keys.{AesKey, CardKeys, IsArray, key_from_hex}
use bolty_rs.Cli.Burn.{has_placeholders, privacy_template}
use bolty_rs.Cli.Provision.{
  ℤ, negsuc, is_version_two, ProvisionResponse, ProvisionKeys, invalid_key, not_a_response,
  parse_key, parse_keys, is_suspicious, wants_privacy, template_url, parameters, pos,
  provisioned_with, check_response, parse_provision_response,
}

contains-append : (p a s : Text) → contains p s ≡ true → contains p (a ++ s) ≡ true
unfolding contains
contains-append p [] s h = h
contains-append p (c ∷ a) s h = ground (arith, contains-append p a s h)

-- What begins with a brace is not found in a text without one.
contains_past :
    (p a s : Text)
    → contains (b'{' ∷ []) a ≡ false
    → contains (b'{' ∷ p) (a ++ s) ≡ contains (b'{' ∷ p) s
unfolding contains strip_prefix
contains_past p [] s h = refl
contains_past p (c ∷ a) s h = ground (arith, contains_past p a s, h)

module _ (base : Text) (h : contains (b'{' ∷ []) base ≡ false) where
  privacy_lem :
      (s : Text)
      → privacy_template (base ++ s)
        ≡ contains (codes "{picc:ctr}") s && not (contains (codes "{picc:uid") s)
  unfolding privacy_template
  privacy_lem s =
      rw (contains_past (codes "picc:ctr}") base s h)
        (rw (contains_past (codes "picc:uid") base s h) refl)

  placeholders_lem :
      (s : Text)
      → contains (codes "{picc") s ≡ true
      → contains (codes "{mac}") s ≡ true
      → has_placeholders (base ++ s) ≡ true
  unfolding has_placeholders
  placeholders_lem s p m = rw (contains-append _ base s p) (rw (contains-append _ base s m) refl)

-- The URL has both placeholders, and is one without the UID if and only if that is asked for.
pub template_url_lem :
    (base : Text) (uid_privacy : Bool)
    → contains (b'{' ∷ []) base ≡ false
    → (has_placeholders (template_url base uid_privacy) ≡ true)
      × (privacy_template (template_url base uid_privacy) ≡ uid_privacy)
unfolding template_url contains strip_prefix
template_url_lem base uid_privacy h = go uid_privacy
  where
    go :
        (b : Bool)
        → (has_placeholders (base ++ parameters b) ≡ true)
          × (privacy_template (base ++ parameters b) ≡ b)
    go true =
        (placeholders_lem base h (parameters true) refl refl, privacy_lem base h (parameters true))
    go false = (
      placeholders_lem base h (parameters false) refl refl,
      privacy_lem base h (parameters false),
    )

-- A key that was read is one of 16 bytes, and the one that the text spells.
abbrev pub Spells : AesKey → Text → Type 0
Spells k s = IsArray 16 k.bytes × (encode_hex k.bytes ≡ to_ascii_lowercase (trim s))

decoded_lem :
    (s : Text) (k : AesKey)
    → key_from_hex s ≡ ok k
    → IsArray 16 k.bytes × (encode_hex k.bytes ≡ to_ascii_lowercase s)
unfolding key_from_hex
decoded_lem s k h =
    let (bytes, e, same) = bind_ok (decode_hex 16 s) _ k h in
    ground (arith, decode_hex-inverse 16 s bytes e, same)

key_lem : (number : ℕ) (s : Text) (k : AesKey) → parse_key number s ≡ ok k → Spells k s
unfolding parse_key
key_lem number s k h = go (key_from_hex (trim s)) refl h
  where
    go :
        (r : Result HexError AesKey)
        → key_from_hex (trim s) ≡ r
        → map_err (invalid_key number) r ≡ ok k
        → Spells k s
    go (ok k') e h = ground (arith, decoded_lem (trim s) k' e, h)
    go (err x) e h = ground (arith, h)

-- What an accepted answer is like, and what is made of it.
pub record Accepted (from_str : Text → Option ProvisionResponse) (body : Text) (p : ProvisionKeys)
    : Type 0 where
  pub resp : ProvisionResponse
  pub parsed : from_str body ≡ some resp
  pub named_right : resp.protocol_name ≡ codes "create_bolt_card_response"
  pub version_two : resp.protocol_version ≡ pos 2
  pub k0_spelled : Spells p.keys.k0 resp.k0
  pub k1_spelled : Spells p.keys.k1 resp.k1
  pub k2_spelled : Spells p.keys.k2 resp.k2
  pub k3_spelled : Spells p.keys.k3 resp.k3
  pub k4_spelled : Spells p.keys.k4 resp.k4
  pub burnable : has_placeholders p.url ≡ true
  pub private_if_asked : privacy_template p.url ≡ wants_privacy resp.uid_privacy
  pub said_so : p.uid_privacy ≡ wants_privacy resp.uid_privacy

keys_lem :
    (resp : ProvisionResponse) (keys : CardKeys)
    → parse_keys resp ≡ ok keys
    → Spells keys.k0 resp.k0
      × Spells keys.k1 resp.k1
      × Spells keys.k2 resp.k2
      × Spells keys.k3 resp.k3
      × Spells keys.k4 resp.k4
unfolding parse_keys
keys_lem resp keys h =
    let (k0, e0, h0) = bind_ok (parse_key 0 resp.k0) _ keys h in
    let (k1, e1, h1) = bind_ok (parse_key 1 resp.k1) _ keys h0 in
    let (k2, e2, h2) = bind_ok (parse_key 2 resp.k2) _ keys h1 in
    let (k3, e3, h3) = bind_ok (parse_key 3 resp.k3) _ keys h2 in
    let (k4, e4, h4) = bind_ok (parse_key 4 resp.k4) _ keys h3 in
    ground (
      arith,
      h4,
      key_lem 0 resp.k0 k0 e0,
      key_lem 1 resp.k1 k1 e1,
      key_lem 2 resp.k2 k2 e2,
      key_lem 3 resp.k3 k3 e3,
      key_lem 4 resp.k4 k4 e4,
    )

suspicious_lem : (base : Text) → is_suspicious base ≡ false → contains (b'{' ∷ []) base ≡ false
unfolding is_suspicious
suspicious_lem base h = ground (arith, h)

version_lem : (v : ℤ) → is_version_two v ≡ true → v ≡ pos 2
version_lem (pos n) h = ground arith
version_lem (negsuc n) h = ground (arith, h)

-- What the guards of an accepted answer let through
check_lem :
    (resp : ProvisionResponse) (p : ProvisionKeys)
    → check_response resp ≡ ok p
    → (resp.protocol_name ≡ codes "create_bolt_card_response")
      × (resp.protocol_version ≡ pos 2)
      × (parse_keys resp >>= provisioned_with resp ≡ ok p)
unfolding check_response
check_lem resp p h =
    let (n, h1) = guard_ok (not (eq resp.protocol_name _)) _ _ p h in
    let (v, h2) = guard_ok (not (is_version_two resp.protocol_version)) _ _ p h1 in
    ((eq_iff _ _).0 (ground (arith, n)), version_lem resp.protocol_version (ground (arith, v)), h2)

made_lem :
    (resp : ProvisionResponse) (keys : CardKeys) (p : ProvisionKeys)
    → provisioned_with resp keys ≡ ok p
    → (p.keys ≡ keys)
      × (has_placeholders p.url ≡ true)
      × (privacy_template p.url ≡ wants_privacy resp.uid_privacy)
      × (p.uid_privacy ≡ wants_privacy resp.uid_privacy)
unfolding provisioned_with
made_lem resp keys p h =
    let (clean, made) = guard_ok (is_suspicious (trim resp.lnurlw_base)) _ _ p h in
    ground (
      arith,
      made,
      template_url_lem (trim resp.lnurlw_base) (wants_privacy resp.uid_privacy)
          (suspicious_lem (trim resp.lnurlw_base) clean),
    )

response_lem :
    (from_str : Text → Option ProvisionResponse) (body : Text) (p : ProvisionKeys)
    (resp : ProvisionResponse)
    → from_str body ≡ some resp
    → check_response resp ≡ ok p
    → Accepted from_str body p
response_lem from_str body p resp e h =
    let (n, v, rest) = check_lem resp p h in
    let (keys, ks, made) = bind_ok (parse_keys resp) (provisioned_with resp) p rest in
    let (same, b, v1, v2) = made_lem resp keys p made in
    let (s0, s1, s2, s3, s4) = keys_lem resp p.keys (rw same ks) in
    record {
      resp = resp;
      parsed = e;
      named_right = n;
      version_two = v;
      k0_spelled = s0;
      k1_spelled = s1;
      k2_spelled = s2;
      k3_spelled = s3;
      k4_spelled = s4;
      burnable = b;
      private_if_asked = v1;
      said_so = v2;
    }

-- An accepted answer of the provisioning server is one of the right name and version; its keys are
-- those of 16 bytes that it spells, its URL passes the burn command's test of the placeholders, and
-- it is one without the UID if and only if the answer asks for privacy.
pub parse_provision_response_lem :
    (from_str : Text → Option ProvisionResponse) (body : Text) (p : ProvisionKeys)
    → parse_provision_response from_str body ≡ ok p
    → Accepted from_str body p
unfolding parse_provision_response
parse_provision_response_lem from_str body p h = go (from_str body) refl h
  where
    go :
        (r : Option ProvisionResponse)
        → from_str body ≡ r
        → (elim r [ none ↦ err not_a_response | some resp ↦ check_response resp ]) ≡ ok p
        → Accepted from_str body p
    go none e h = ground (arith, h)
    go (some resp) e h = response_lem from_str body p resp e h
