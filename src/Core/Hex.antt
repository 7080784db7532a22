-- ===== src/Core/Hex.antt =====
-- crates/bolty-core/src/util.rs: hex encoding and decoding. A byte slice is a list of numbers; a
-- function that writes through `&mut [u8]` returns the buffer that it leaves behind.
pub mod RoundTrip
pub mod Inverse
use Prim.Native.Nat.{bit_and, bit_or, min}
use bolty_rs.Prelude.{
  ℕ, ◌+◌, ◌-◌, ◌*◌, ◌/◌, ◌%◌, ◌<◌, Option, none, some, List, [], ◌∷◌, ◌++◌, Result, ok, err, ◌>>=◌,
  ok_or, ◌==◌, if◌then◌else◌, within, length, take, get_or, replicate,
}
use bolty_rs.Prelude.Text.{Text, codes, as_bytes, len}

pub data HexError : Type 0 where
  invalid_length invalid_hex_character : HexError

abbrev pub IsByte : ℕ → Type 0
IsByte b = b < 256

unfoldable pub decode_hex_nibble : ℕ → Option ℕ
decode_hex_nibble byte =
    if within b'0' b'9' byte
    then some (byte - b'0')
    else if within b'a' b'f' byte
    then some (byte - b'a' + 10)
    else if within b'A' b'F' byte
    then some (byte - b'A' + 10)
    else none

-- `(hi << 4) | lo` on `u8`, with the two `?` in front of it
unfoldable pub decode_chunk : ℕ → ℕ → Result HexError ℕ
decode_chunk c0 c1 = do
  hi ← ok_or (decode_hex_nibble c0) invalid_hex_character
  lo ← ok_or (decode_hex_nibble c1) invalid_hex_character
  ok (bit_or (hi * 16 % 256) lo)

-- The loop over the two-byte chunks. The bytes decoded before a bad digit stay written.
unfoldable pub decode_chunks : List ℕ → List ℕ → Result HexError (Unit {0}) × List ℕ
decode_chunks (c0 ∷ c1 ∷ chunks) (o ∷ out) =
    let rest = decode_chunks chunks out in
    elim (decode_chunk c0 c1) [ ok b ↦ (rest.0, b ∷ rest.1) | err e ↦ (err e, o ∷ out) ]
decode_chunks _ out = (ok tt, out)

unfoldable pub decode_hex_into : Text → List ℕ → Result HexError (Unit {0}) × List ℕ
decode_hex_into hex out =
    if len hex == length out * 2
    then decode_chunks (as_bytes hex) out
    else (err invalid_length, out)

unfoldable pub decode_hex : ℕ → Text → Result HexError (List ℕ)
decode_hex n hex =
    let (result, out) = decode_hex_into hex (replicate n 0) in do done ← result; ok out

abbrev pub hex_lower : List ℕ
hex_lower = codes "0123456789abcdef"

unfoldable pub hex_digit : ℕ → ℕ
hex_digit i = get_or hex_lower i 0

-- The loop of `encode_hex_into`, on `input[..max]`.
unfoldable pub encode_pairs : List ℕ → List ℕ → List ℕ
encode_pairs (b ∷ input) (x ∷ y ∷ out) =
    hex_digit (b / 16) ∷ hex_digit (bit_and b 15) ∷ encode_pairs input out
encode_pairs _ out = out

unfoldable pub encode_hex_into : List ℕ → List ℕ → List ℕ × ℕ
encode_hex_into input out =
    let max = min (length input) (length out / 2) in (encode_pairs (take max input) out, max * 2)

unfoldable pub encode_hex : List ℕ → Text
encode_hex [] = []
encode_hex (b ∷ input) = hex_digit (b / 16) ∷ hex_digit (bit_and b 15) ∷ encode_hex input
