-- ===== src/Firmware/OtaHeader/Gate.antt =====
-- Who passes the gate of ota_header.rs.
use bolty_rs.Prelude.{ℕ, ◌≤◌, ◌<◌, ◌≡◌, ◌↔◌, ◌⊎◌, Option, none, some, List, ok, arith}
use bolty_rs.Prelude.Text.{eq_iff}
use bolty_rs.Firmware.OtaHeader.{magic_v1, magic_v2, validate_size, authorize}

-- What a push must show: the token of an armed build, in the second header format; an unarmed build
-- takes either format and ignores a token.
unfoldable pub Entitled : List ℕ → Option (List ℕ) → Option (List ℕ) → Type 0
Entitled magic token (some want) = (magic ≡ magic_v2) × (token ≡ some want)
Entitled magic token none = (magic ≡ magic_v2) ⊎ (magic ≡ magic_v1)

-- A push passes if and only if it is entitled to: with a token compiled in, the header is OTA2 with
-- exactly that token; without one, the header is OTA2 or OTA1.
pub authorize_iff :
    (magic : List ℕ) (token expected : Option (List ℕ))
    → (authorize magic token expected ≡ ok tt) ↔ Entitled magic token expected
unfolding authorize Entitled
authorize_iff magic token none = ground (arith, eq_iff magic magic_v2, eq_iff magic magic_v1)
authorize_iff magic none (some want) = ground (arith, eq_iff magic magic_v2)
authorize_iff magic (some got) (some want) = ground (arith, eq_iff magic magic_v2, eq_iff got want)

-- An announced size passes if and only if it is not zero and fits the partition.
pub validate_size_iff :
    (announced partition_size : ℕ)
    → (validate_size announced partition_size ≡ ok tt)
      ↔ ((0 < announced) × (announced ≤ partition_size))
unfolding validate_size
validate_size_iff announced partition_size = ground arith
