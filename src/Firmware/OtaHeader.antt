-- ===== src/Firmware/OtaHeader.antt =====
-- apps/bolty-esp32/src/ota_header.rs: what an OTA push must announce before a byte of it is read.
-- Byte strings are lists; `&'static str` errors are texts.
pub mod Gate
use bolty_rs.Prelude.{
  ℕ, Bool, true, false, ◌&&◌, Option, none, some, List, [], ◌∷◌, Result, ok, err, ◌>>=◌, ok_or, ltb,
  ◌==◌, if◌then◌else◌,
}
use bolty_rs.Prelude.Text.{Text, codes, eq}

-- b"OTA1" and b"OTA2"
abbrev pub magic_v1 : List ℕ
magic_v1 = 0x4f ∷ 0x54 ∷ 0x41 ∷ 0x31 ∷ []

abbrev pub magic_v2 : List ℕ
magic_v2 = 0x4f ∷ 0x54 ∷ 0x41 ∷ 0x32 ∷ []

abbrev pub token_len : ℕ
token_len = 32

unfoldable pub validate_size : ℕ → ℕ → Result Text (Unit {0})
validate_size announced partition_size =
    if announced == 0
    then err (codes "bad size")
    else if ltb partition_size announced
    then err (codes "announced image larger than the OTA partition")
    else ok tt

unfoldable pub authorize : List ℕ → Option (List ℕ) → Option (List ℕ) → Result Text (Unit {0})
authorize magic token (some want) =
    if eq magic magic_v2
    then (do
      got ← ok_or token (codes "OTA2 header missing token payload")
      if eq got want then ok tt else err (codes "OTA token mismatch"))
    else err (codes "OTA1 refused: this build requires a token (use OTA2)")
authorize magic token none =
    if eq magic magic_v2
    then ok tt
    else if eq magic magic_v1
    then ok tt
    else err (codes "bad magic")
