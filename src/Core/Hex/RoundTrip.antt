-- ===== src/Core/Hex/RoundTrip.antt =====
-- Decoding reads back what encoding wrote, and accepts nothing else.
use Prim.Native.Nat.{bit_and, min}
use bolty_rs.Prelude.{
  ℕ, suc, ◌*◌, ◌/◌, ◌<◌, ◌≡◌, refl, ap, arith, List, [], ◌∷◌, ◌++◌, Result, ok, err, Bool, length,
  take, drop, replicate, All, ◌==◌, true, false, ◌&&◌, ltb, ◌≤◌, length-replicate, ltb→lt, and_true,
  length-take,
}
use bolty_rs.Prelude.Bits.{all_below, all_below_sound}
use bolty_rs.Prelude.Text.{as_bytes, len}
use bolty_rs.Core.Hex.{
  HexError, IsByte, decode_hex_nibble, decode_chunk, decode_chunks, decode_hex_into, decode_hex,
  hex_digit, encode_pairs, encode_hex_into, encode_hex,
}

abbrev is_ok : Result HexError ℕ → ℕ → Bool
is_ok (ok x) b = x == b
is_ok (err e) b = false

-- A byte's two digits are ASCII and decode to the byte.
good_digits : ℕ → Bool
unfolding decode_chunk decode_hex_nibble hex_digit
good_digits b =
    is_ok (decode_chunk (hex_digit (b / 16)) (hex_digit (bit_and b 15))) b
    && (ltb (hex_digit (b / 16)) 128 && ltb (hex_digit (bit_and b 15)) 128)

good_digits_table : all_below 256 good_digits ≡ true
unfolding good_digits
good_digits_table = refl

is_ok→eq : (r : Result HexError ℕ) (b : ℕ) → is_ok r b ≡ true → r ≡ ok b
is_ok→eq (ok x) b h = ground arith
is_ok→eq (err e) b h = cc

module _ (b : ℕ) (h : IsByte b) where
  abbrev digits_lem : good_digits b ≡ true
  digits_lem = all_below_sound 256 good_digits b good_digits_table h

  decode_chunk-digits : decode_chunk (hex_digit (b / 16)) (hex_digit (bit_and b 15)) ≡ ok b
  unfolding good_digits
  decode_chunk-digits = is_ok→eq _ b (and_true _ _ digits_lem).0

  digits_ascii : (hex_digit (b / 16) < 128) × (hex_digit (bit_and b 15) < 128)
  unfolding good_digits
  digits_ascii =
      let (p, q) = and_true _ _ (and_true _ _ digits_lem).1 in (ltb→lt _ _ p, ltb→lt _ _ q)

as_bytes-encode_hex : (bs : List ℕ) → All IsByte bs → as_bytes (encode_hex bs) ≡ encode_hex bs
unfolding as_bytes encode_hex
as_bytes-encode_hex [] h = refl
as_bytes-encode_hex (b ∷ bs) h = ground (arith, digits_ascii b h.0, as_bytes-encode_hex bs h.1)

length-encode_hex : (bs : List ℕ) → length (encode_hex bs) ≡ length bs * 2
unfolding encode_hex
length-encode_hex [] = refl
length-encode_hex (b ∷ bs) = omega (arith, length-encode_hex bs)

decode_chunks-encode_hex :
    (bs out : List ℕ)
    → All IsByte bs
    → length out ≡ length bs
    → decode_chunks (encode_hex bs) out ≡ (ok tt, bs)
unfolding decode_chunks encode_hex
decode_chunks-encode_hex [] [] h e = refl
decode_chunks-encode_hex [] (o ∷ out) h e = absurd (omega arith)
decode_chunks-encode_hex (b ∷ bs) [] h e = absurd (omega arith)
decode_chunks-encode_hex (b ∷ bs) (o ∷ out) h e =
    ground (arith, decode_chunk-digits b h.0, decode_chunks-encode_hex bs out h.1)

-- What `encode_hex` prints for bytes, `decode_hex` reads back as the same bytes.
pub decode_hex-encode_hex :
    (n : ℕ) (bs : List ℕ) → All IsByte bs → length bs ≡ n → decode_hex n (encode_hex bs) ≡ ok bs
unfolding decode_hex decode_hex_into len
decode_hex-encode_hex n bs h e = ground (
  arith,
  as_bytes-encode_hex bs h,
  length-encode_hex bs,
  length-replicate {A = ℕ} n 0,
  decode_chunks-encode_hex bs (replicate n 0) h,
)

encode_pairs_lem :
    (bs out : List ℕ)
    → length bs * 2 ≤ length out
    → encode_pairs bs out ≡ encode_hex bs ++ drop (length bs * 2) out
unfolding encode_pairs encode_hex
encode_pairs_lem [] out h = refl
encode_pairs_lem (b ∷ bs) [] h = absurd (omega arith)
encode_pairs_lem (b ∷ bs) (x ∷ []) h = absurd (omega arith)
encode_pairs_lem (b ∷ bs) (x ∷ y ∷ out) h =
    let two_more : suc (length bs) * 2 ≡ suc (suc (length bs * 2)) = omega arith in
    rw two_more (rw (encode_pairs_lem bs out (omega arith)))

-- `encode_hex_into` writes the digits of as many bytes as fit at the front of the buffer, leaves
-- the rest of the buffer alone, and returns the number of digits.
pub encode_hex_into_lem :
    (input out : List ℕ)
    → let max = min (length input) (length out / 2) in
      encode_hex_into input out ≡ (encode_hex (take max input) ++ drop (max * 2) out, max * 2)
unfolding encode_hex_into
encode_hex_into_lem input out =
    let max : ℕ = min (length input) (length out / 2) in
    let taken : length (take max input) ≡ max = omega (arith, length-take max input) in
    let wrote = encode_pairs_lem (take max input) out (omega arith) in
    cc (wrote, ap (λ (t : ℕ). drop (t * 2) out) taken)
