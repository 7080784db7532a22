-- ===== src/Firmware/OtaServer.antt =====
-- apps/bolty-esp32/src/ota_server.rs: one push to the update server. The socket, the partition table
-- and ESP-IDF's update calls are the interface `OtaHost`, where `true` is the return code 0; `C` is
-- what is behind them. `&'static str` errors are texts.
pub mod Slots
pub mod Install
mod Tests
use Prim.Native.Nat.{min}
use bolty_rs.Prelude.{
  ℕ, zero, suc, ◌+◌, ◌-◌, ◌*◌, Bool, true, false, Option, none, some, List, Result, ok, err, ◌==◌,
  if◌then◌else◌, length, take, get_or,
}
use bolty_rs.Prelude.Act.{Act, pure, ◌>>=◌, ◌>>◌}
use bolty_rs.Prelude.Text.{Text, codes, eq}
use bolty_rs.Firmware.OtaHeader.{magic_v2, token_len, validate_size, authorize}

pub record OtaHost (C : Type 0) : Type 0 where
  pub read_exact : C → ℕ → C × Option (List ℕ)
  -- The size of the next update partition, when there is one
  pub next_update_partition : Option ℕ
  pub esp_ota_begin : C → C × Bool
  pub esp_ota_write : C → List ℕ → C × Bool
  pub esp_ota_abort : C → C
  pub esp_ota_end : C → C × Bool
  pub esp_ota_set_boot_partition : C → C × Bool

abbrev pub chunk : ℕ
chunk = 1024

-- `u32::from_le_bytes` of the bytes from 4 on
abbrev pub announced_size : List ℕ → ℕ
announced_size header =
    get_or header 4 0
    + 256 * get_or header 5 0
    + 65536 * get_or header 6 0
    + 16777216 * get_or header 7 0

module _ {C : Type 0} where
  unfoldable pub checked_call : Text → C × Bool → C × Result Text (Unit {0})
  checked_call message (c, true) = (c, ok tt)
  checked_call message (c, false) = (c, err message)

  unfoldable pub checked_read : Text → C × Option (List ℕ) → C × Result Text (List ℕ)
  checked_read message (c, some bytes) = (c, ok bytes)
  checked_read message (c, none) = (c, err message)

  unfoldable pub lift_text : Result Text (Unit {0}) → Act C Text (Unit {0})
  lift_text r c = (c, r)

module _ {C : Type 0} (host : OtaHost C) where
  abbrev pub read_or : Text → ℕ → Act C Text (List ℕ)
  read_or message n c = checked_read message (host.read_exact c n)

  abbrev pub write_or : Text → List ℕ → Act C Text (Unit {0})
  write_or message bytes c = checked_call message (host.esp_ota_write c bytes)

  -- The loop, on fuel: the bytes that remain are enough.
  unfoldable pub stream_image : ℕ → ℕ → Act C Text (Unit {0})
  stream_image zero remaining = pure tt
  stream_image (suc fuel) remaining =
      let rest = stream_image fuel (remaining - min remaining chunk) in
      if remaining == 0
      then pure tt
      else read_or (codes "image read failed") (min remaining chunk) >>= λ bytes.
          write_or (codes "esp_ota_write failed") bytes >> rest

  -- A failure after `esp_ota_begin` aborts the handle.
  unfoldable pub or_abort : C × Result Text (Unit {0}) → C × Result Text (Unit {0})
  or_abort (c, ok x) = (c, ok tt)
  or_abort (c, err message) = (host.esp_ota_abort c, err message)

  -- From `esp_ota_begin` to the restart, which is the answer `tt`
  unfoldable pub install : ℕ → Act C Text (Unit {0})
  install size =
      (λ c. checked_call (codes "esp_ota_begin failed") (host.esp_ota_begin c))
      >> (λ c. or_abort (stream_image size size c))
      >> (λ c. checked_call (codes "esp_ota_end failed — image rejected") (host.esp_ota_end c))
      >> (λ c. checked_call (codes "set_boot_partition failed") (host.esp_ota_set_boot_partition c))

  unfoldable pub fits_partition : ℕ → Result Text (Unit {0})
  fits_partition size = elim host.next_update_partition [
    | none ↦ err (codes "no OTA partition — partition table lacks ota slots")
    | some partition_size ↦ validate_size size partition_size
  ]

  -- The token is read only behind the magic OTA2.
  unfoldable pub authenticated : Option (List ℕ) → List ℕ → Act C Text (Unit {0})
  authenticated expected magic =
      if eq magic magic_v2
      then (read_or (codes "token read failed") token_len >>= λ token.
          lift_text (authorize magic (some token) expected))
      else lift_text (authorize magic none expected)

  unfoldable pub handle : Option (List ℕ) → Act C Text (Unit {0})
  handle expected = read_or (codes "header read failed") 8 >>= λ header.
      lift_text (fits_partition (announced_size header))
      >> authenticated expected (take 4 header)
      >> install (announced_size header)
