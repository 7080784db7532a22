-- ===== src/Core/Keys.antt =====
-- crates/bolty-core/src: secret.rs, uid.rs, constants.rs, and the issuer material of config.rs.
-- A `[u8; N]` is a list of numbers; `IsArray N` says that it has N elements, all of them bytes.
use bolty_rs.Prelude.{ℕ, ◌≡◌, Bool, Option, none, List, Result, ok, ◌>>=◌, length, All, replicate}
use bolty_rs.Prelude.Text.{Text, eq}
use bolty_rs.Core.Hex.{HexError, IsByte, decode_hex}

abbrev pub IsArray : ℕ → List ℕ → Type 0
IsArray n bs = (length bs ≡ n) × All IsByte bs

abbrev pub factory_key : List ℕ
factory_key = replicate 16 0

abbrev pub key_version_blank : ℕ
key_version_blank = 0

abbrev pub uid_len : ℕ
uid_len = 7

abbrev pub num_keys : ℕ
num_keys = 5

abbrev pub key_version_provisioned : ℕ
key_version_provisioned = 1

pub record AesKey : Type 0 where
  pub bytes : List ℕ

abbrev pub zeroed_key : AesKey
zeroed_key = record { bytes = replicate 16 0 }

unfoldable pub key_from_hex : Text → Result HexError AesKey
key_from_hex s = do bytes ← decode_hex 16 s; ok (record { bytes = bytes })

unfoldable pub is_zero : AesKey → Bool
is_zero k = eq k.bytes (replicate 16 0)

pub record CardKeys : Type 0 where
  pub k0 : AesKey
  pub k1 : AesKey
  pub k2 : AesKey
  pub k3 : AesKey
  pub k4 : AesKey

pub record CardUid : Type 0 where
  pub bytes : List ℕ

unfoldable pub uid_from_hex : Text → Result HexError CardUid
uid_from_hex s = do bytes ← decode_hex 7 s; ok (record { bytes = bytes })

pub record IssuerConfig : Type 0 where
  pub name : Option Text
  pub issuer_key : AesKey
  pub derivation_version : ℕ
  pub key_version : ℕ

abbrev pub default_issuer : IssuerConfig
default_issuer = record {
  name = none;
  issuer_key = zeroed_key;
  derivation_version = key_version_provisioned;
  key_version = key_version_provisioned;
}
