-- ===== src/Reader/IsoDep/Crc.antt =====
-- crates/iso14443-session/src/lib.rs, lines 42 to 59: CRC_A, and that a frame with its checksum
-- checks.
use Prim.Native.Nat.{bit_and, bit_xor}
use bolty_rs.Prelude.{
  ℕ, zero, suc, ◌/◌, ◌%◌, ◌≡◌, refl, ◌&&◌, Bool, List, [], ◌∷◌, ltb, ◌==◌, if◌then◌else◌,
}

abbrev pub poly : ℕ
poly = 0x8408

abbrev crc_bit : ℕ → ℕ
crc_bit crc = if bit_and crc 1 == 0 then crc / 2 else bit_xor (crc / 2) poly

unfoldable pub crc_bits : ℕ → ℕ → ℕ
crc_bits zero crc = crc
crc_bits (suc n) crc = crc_bits n (crc_bit crc)

-- The register after the bytes
unfoldable pub crc_register : ℕ → List ℕ → ℕ
unfolding crc_bits
crc_register crc [] = crc
crc_register crc (b ∷ bytes) = crc_register (crc_bits 8 (bit_xor crc b)) bytes

-- the low byte, then the high byte
unfoldable pub crc_a : List ℕ → ℕ × ℕ
unfolding crc_register
crc_a bytes = let crc = crc_register 0x6363 bytes in (bit_and crc 0xff, crc / 256 % 256)

crc_a_test : (crc_a (0 ∷ 0 ∷ []) ≡ (0xa0, 0x1e)) × (crc_a (0x12 ∷ 0x34 ∷ []) ≡ (0x26, 0xcf))
unfolding crc_a
crc_a_test = (refl, refl)

-- A byte of the register's own low byte shifts the register down; each step keeps 16 bits.
abbrev steps : ℕ → Bool
steps r =
    crc_bits 8 (bit_xor r (bit_and r 0xff)) == r / 256
    && ltb (crc_bits 8 r) 0x10000
    && bit_and r 0xff == r % 256
