-- ===== src/Core/Derivation.antt =====
-- crates/bolty-core/src/derivation.rs: the Bolt Card key derivation. The crypto crates are the
-- section's parameter.
pub mod Messages
use bolty_rs.Prelude.{ℕ, ◌/◌, ◌%◌, ◌^◌, List, [], ◌∷◌, Result, ok, err, ◌>>=◌, copy_at, replicate}
use bolty_rs.Core.Keys.{AesKey, CardKeys, CardUid}
use bolty_rs.Core.Crypto.{Crypto}

abbrev pub default_boltcard_version : ℕ
default_boltcard_version = 1

abbrev pub tag : ℕ → List ℕ
tag last = 0x2d ∷ 0x00 ∷ 0x3f ∷ last ∷ []

abbrev pub tag_card_key : List ℕ
tag_card_key = tag 0x75

abbrev pub tag_k0 : List ℕ
tag_k0 = tag 0x76

abbrev pub tag_k1 : List ℕ
tag_k1 = tag 0x77

abbrev pub tag_k2 : List ℕ
tag_k2 = tag 0x78

abbrev pub tag_k3 : List ℕ
tag_k3 = tag 0x79

abbrev pub tag_k4 : List ℕ
tag_k4 = tag 0x7a

abbrev pub tag_card_id : List ℕ
tag_card_id = tag 0x7b

pub data DerivationStrategy : Type 0 where
  boltcard_deterministic an10922 : DerivationStrategy

pub data DerivationError : Type 0 where
  unsupported_strategy : DerivationError

pub record CardKeySet : Type 0 where
  pub card_key : AesKey
  pub k0 : AesKey
  pub k1 : AesKey
  pub k2 : AesKey
  pub k3 : AesKey
  pub k4 : AesKey
  pub card_id : List ℕ

-- `u32::to_le_bytes`
abbrev pub to_le_bytes : ℕ → List ℕ
to_le_bytes v = v % 256 ∷ (v / 2 ^ 8 % 256) ∷ (v / 2 ^ 16 % 256) ∷ (v / 2 ^ 24 % 256) ∷ []

-- the 15 bytes under the MAC in `derive_card_key`
unfoldable pub card_key_message : CardUid → ℕ → List ℕ
card_key_message uid version =
    copy_at 11 (to_le_bytes version) (copy_at 4 uid.bytes (copy_at 0 tag_card_key (replicate 15 0)))

-- the 11 bytes under the MAC in `derive_card_id`
unfoldable pub card_id_message : CardUid → List ℕ
card_id_message uid = copy_at 4 uid.bytes (copy_at 0 tag_card_id (replicate 11 0))

module _ (c : Crypto) where
  open c use {aes_cmac}

  unfoldable pub derive_card_key : List ℕ → CardUid → ℕ → List ℕ
  derive_card_key issuer_key uid version = aes_cmac issuer_key (card_key_message uid version)

  unfoldable pub derive_card_id : List ℕ → CardUid → List ℕ
  derive_card_id issuer_key uid = aes_cmac issuer_key (card_id_message uid)

  unfoldable pub derive_keys : List ℕ → CardUid → ℕ → CardKeySet
  derive_keys issuer_key uid version =
      let card_key = derive_card_key issuer_key uid version in
      record {
        card_key = record { bytes = card_key };
        k0 = record { bytes = aes_cmac card_key tag_k0 };
        k1 = record { bytes = aes_cmac issuer_key tag_k1 };
        k2 = record { bytes = aes_cmac card_key tag_k2 };
        k3 = record { bytes = aes_cmac card_key tag_k3 };
        k4 = record { bytes = aes_cmac card_key tag_k4 };
        card_id = derive_card_id issuer_key uid;
      }

  -- the derived keys without the card key and the card id
  abbrev pub card_keys : CardKeySet → CardKeys
  card_keys derived = record {
    k0 = derived.k0;
    k1 = derived.k1;
    k2 = derived.k2;
    k3 = derived.k3;
    k4 = derived.k4;
  }

  -- `KeyDeriver::derive_keys` of `BoltcardDeterministicDeriver`
  unfoldable pub deriver_derive_keys :
      CardUid → AesKey → DerivationStrategy → Result DerivationError CardKeys
  deriver_derive_keys uid issuer_key boltcard_deterministic =
      ok (card_keys (derive_keys issuer_key.bytes uid default_boltcard_version))
  deriver_derive_keys uid issuer_key an10922 = err unsupported_strategy
