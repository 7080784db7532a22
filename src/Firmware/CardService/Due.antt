-- ===== src/Firmware/CardService/Due.antt =====
-- apps/bolty-esp32/src/firmware/card_operations.rs: which keys a burn or a wipe of the service takes.
use bolty_rs.Prelude.{ℕ, ◌≡◌, arith, Option, none, some, List, ok, length}
use bolty_rs.Prelude.Text.{Heapless}
use bolty_rs.Core.Keys.{AesKey, CardKeys, default_issuer}
use bolty_rs.Core.Crypto.{Crypto}
use bolty_rs.Core.Derivation.{derive_keys, card_keys}
use bolty_rs.Firmware.Workflow.{WorkflowResult}
use bolty_rs.Firmware.CardService.{chosen_keys}

-- With an issuer, the keys that it derives for a UID of 7 bytes; without one, those given.
unfoldable pub IsDue : Crypto → Option AesKey → Option CardKeys → List ℕ → CardKeys → Type 0
IsDue crypto (some issuer) keys uid keyset =
    (length uid ≡ 7)
    × (keyset
        ≡ card_keys crypto
            (derive_keys crypto issuer.bytes (record { bytes = uid }) default_issuer.key_version))
IsDue crypto none (some keys) uid keyset = keyset ≡ keys
IsDue crypto none none uid keyset = ⊥

pub chosen_keys-IsDue :
    (h : Heapless) (crypto : Crypto) (missing : WorkflowResult) (issuer : Option AesKey)
    (keys : Option CardKeys) (uid : List ℕ) (keyset : CardKeys)
    → chosen_keys h crypto missing issuer keys uid ≡ ok keyset
    → IsDue crypto issuer keys uid keyset
unfolding chosen_keys IsDue
chosen_keys-IsDue h crypto missing (some issuer) keys uid keyset e = ground (arith, e)
chosen_keys-IsDue h crypto missing none (some keys) uid keyset e = ground (arith, e)
chosen_keys-IsDue h crypto missing none none uid keyset e = ground (arith, e)
