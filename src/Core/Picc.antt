-- ===== src/Core/Picc.antt =====
-- crates/bolty-core/src/picc.rs: the `p=` and `c=` parameters of a tap. The crypto crates are the
-- section's parameter.
pub mod Url
pub mod Block
pub mod Verify
use Prim.Native.Nat.{bit_and, bit_or}
use bolty_rs.Prelude.{
  ℕ, ◌+◌, ◌*◌, ◌/◌, ◌%◌, ◌^◌, Bool, true, false, not, ◌||◌, Option, none, some, List, [], ◌∷◌, ◌++◌,
  Result, ok, err, ◌==◌, if◌then◌else◌, get_or, take, drop, copy_at, replicate,
}
use bolty_rs.Prelude.Text.{Text, codes, len, strip_prefix}
use bolty_rs.Core.Hex.{HexError, decode_hex_into}
use bolty_rs.Core.ConstantTime.{constant_time_eq}
use bolty_rs.Core.Crypto.{Crypto}

abbrev pub picc_format_boltcard : ℕ
picc_format_boltcard = 0xc7

abbrev pub picc_format_boltcard_no_uid : ℕ
picc_format_boltcard_no_uid = 0x40

abbrev pub picc_flag_has_uid : ℕ
picc_flag_has_uid = 0x80

abbrev pub picc_flag_has_counter : ℕ
picc_flag_has_counter = 0x40

abbrev pub picc_uid_byte_len : ℕ
picc_uid_byte_len = 7

abbrev pub sv2_header : List ℕ
sv2_header = 0x3c ∷ 0xc3 ∷ 0x00 ∷ 0x01 ∷ 0x00 ∷ 0x80 ∷ []

pub record PiccData : Type 0 where
  pub valid : Bool
  pub uid : Option (List ℕ)
  pub counter : ℕ
  pub has_counter : Bool

abbrev pub default_picc : PiccData
default_picc = record { valid = false; uid = none; counter = 0; has_counter = false }

abbrev pub is_delimiter : ℕ → Bool
is_delimiter ch = ch == b'?' || ch == b'&' || ch == b'#'

-- the values of `p` and `c` seen so far
abbrev pub Seen : Type 0
Seen = Option Text × Option Text

abbrev set_c : Seen → Option Text → Seen
set_c seen none = seen
set_c seen (some value) = (seen.0, some value)

abbrev set_p : Seen → Option Text → Seen → Seen
set_p seen none otherwise = otherwise
set_p seen (some value) otherwise = (some value, seen.1)

unfoldable pub parse_param : Text → Seen → Seen
parse_param segment seen =
    set_p seen (strip_prefix (codes "p=") segment) (set_c seen (strip_prefix (codes "c=") segment))

-- The loop over the characters. `segment` is `url[start..idx]`.
unfoldable pub extract_loop : Text → Text → Seen → Seen
extract_loop segment [] seen = parse_param segment seen
extract_loop segment (ch ∷ url) seen = elim (is_delimiter ch) [
  | true ↦ extract_loop [] url (parse_param segment seen)
  | false ↦ extract_loop (segment ++ (ch ∷ [])) url seen
]

abbrev pub both_seen : Seen → Option (Text × Text)
both_seen (some p, some c) = some (p, c)
both_seen (some p, none) = none
both_seen (none, c) = none

unfoldable pub extract_p_and_c : Text → Option (Text × Text)
unfolding extract_loop
extract_p_and_c url = both_seen (extract_loop [] url (none, none))

-- `PiccData { uid, has_counter: true, .. }` with the little-endian counter
unfoldable pub picc_with : Option (List ℕ) → ℕ → ℕ → ℕ → PiccData
picc_with uid c0 c1 c2 = record default_picc {
  uid = uid;
  has_counter = true;
  counter = bit_or (bit_or c0 (c1 * 2 ^ 8)) (c2 * 2 ^ 16);
}

-- the match on the tag of a decrypted block
unfoldable pub picc_of_block : List ℕ → Option PiccData
unfolding picc_with
picc_of_block buf =
    let tag = get_or buf 0 0 in
    if tag == picc_format_boltcard
    then (if bit_and tag picc_flag_has_uid == 0
          || bit_and tag picc_flag_has_counter == 0
          || not (bit_and tag 0x07 == picc_uid_byte_len)
        then none
        else some (
            picc_with (some (take 7 (drop 1 buf))) (get_or buf 8 0) (get_or buf 9 0)
              (get_or buf 10 0)))
    else if tag == picc_format_boltcard_no_uid
    then (if bit_and tag picc_flag_has_counter == 0
        then none
        else some (picc_with none (get_or buf 1 0) (get_or buf 2 0) (get_or buf 3 0)))
    else none

-- the three low bytes of a counter
abbrev pub counter_bytes : ℕ → List ℕ
counter_bytes counter = counter % 256 ∷ (counter / 2 ^ 8 % 256) ∷ (counter / 2 ^ 16 % 256) ∷ []

unfoldable pub sdm_build_sv2 : List ℕ → ℕ → List ℕ
sdm_build_sv2 uid counter =
    copy_at 13 (counter_bytes counter) (copy_at 6 uid (copy_at 0 sv2_header (replicate 16 0)))

unfoldable pub sdm_build_sv2_no_uid : ℕ → List ℕ
sdm_build_sv2_no_uid counter =
    copy_at 6 (counter_bytes counter) (copy_at 0 sv2_header (replicate 16 0))

-- `array::from_fn(|idx| full_mac[idx * 2 + 1])`
unfoldable pub truncate_odd_bytes : List ℕ → List ℕ
truncate_odd_bytes (even ∷ odd ∷ mac) = odd ∷ truncate_odd_bytes mac
truncate_odd_bytes _ = []

abbrev pub sv2_of : Option (List ℕ) → ℕ → List ℕ
sv2_of (some uid) counter = sdm_build_sv2 uid counter
sv2_of none counter = sdm_build_sv2_no_uid counter

module _ (c : Crypto) where
  open c use {aes_cmac, cbc_decrypt}

  abbrev decrypt_decoded : List ℕ → Result HexError (Unit {0}) × List ℕ → Option PiccData
  decrypt_decoded k1 (ok done, buf) = elim (cbc_decrypt k1 (replicate 16 0) buf) [
    | none ↦ none
    | some plain ↦ picc_of_block plain
  ]
  decrypt_decoded k1 (err e, buf) = none

  unfoldable pub picc_decrypt_p : List ℕ → Text → Option PiccData
  picc_decrypt_p k1 p_hex =
      if not (len p_hex == 32)
      then none
      else decrypt_decoded k1 (decode_hex_into p_hex (replicate 16 0))

  unfoldable pub sun_mac : List ℕ → List ℕ → List ℕ
  sun_mac k2 sv2 = truncate_odd_bytes (aes_cmac (aes_cmac k2 sv2) [])

  abbrev verify_decoded : List ℕ → PiccData → Result HexError (Unit {0}) × List ℕ → Bool
  verify_decoded k2 picc (ok done, expected) =
      constant_time_eq (sun_mac k2 (sv2_of picc.uid picc.counter)) expected
  verify_decoded k2 picc (err e, expected) = false

  unfoldable pub picc_verify_c : List ℕ → PiccData → Text → Bool
  picc_verify_c k2 picc c_hex =
      if not picc.has_counter || not (len c_hex == 16)
      then false
      else verify_decoded k2 picc (decode_hex_into c_hex (replicate 8 0))

  abbrev verify_decrypted : List ℕ → Text → Option PiccData → PiccData
  verify_decrypted k2 c_hex none = default_picc
  verify_decrypted k2 c_hex (some picc) =
      if not (picc_verify_c k2 picc c_hex) then default_picc else record picc { valid = true }

  abbrev parse_extracted : List ℕ → List ℕ → Option (Text × Text) → PiccData
  parse_extracted k1 k2 none = default_picc
  parse_extracted k1 k2 (some (p_hex, c_hex)) = verify_decrypted k2 c_hex (picc_decrypt_p k1 p_hex)

  unfoldable pub picc_parse_url : List ℕ → List ℕ → Text → PiccData
  picc_parse_url k1 k2 url = parse_extracted k1 k2 (extract_p_and_c url)
