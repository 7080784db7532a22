-- ===== src/Core/Crypto.antt =====
-- The `cmac`, `aes` and `cbc` crates, which are not in the repository, as an interface: what
-- crates/bolty-core/src/crypto.rs and picc.rs call of them, and the size of what they return.
use bolty_rs.Prelude.{ℕ, ◌≡◌, Option, some, List}
use bolty_rs.Core.Keys.{IsArray}

pub record Crypto : Type 0 where
  -- AES-128-CMAC of a message under a key.
  pub aes_cmac : List ℕ → List ℕ → List ℕ
  pub aes_cmac-IsArray : (key message : List ℕ) → IsArray 16 (aes_cmac key message)
  -- AES-128-CBC decryption with no padding, from a key and an initial vector.
  pub cbc_decrypt : List ℕ → List ℕ → List ℕ → Option (List ℕ)
  pub cbc_decrypt-IsArray :
      (key iv block : List ℕ)
      → IsArray 16 block
      → (plain : List ℕ) × (cbc_decrypt key iv block ≡ some plain) × IsArray 16 plain
