-- ===== src/Core/Hex/Inverse.antt =====
-- What `decode_hex` accepts, and what it answers otherwise.
use Prim.Native.Nat.{bit_and, bit_or}
use bolty_rs.Prelude.{
  ℕ, suc, ◌+◌, ◌*◌, ◌/◌, ◌%◌, ◌<◌, ◌≡◌, ◌≢◌, ◌↔◌, refl, ap, ◌∙◌, arith, Option, none, some, List,
  [], ◌∷◌, Result, ok, err, Bool, length, replicate, All, ◌==◌, true, ◌&&◌, ltb, length-replicate,
  ==_iff, ◌⊎◌, inl, inr, Option-cases,
}
use bolty_rs.Prelude.Bits.{bit_or_nibbles, all_below, all_below_sound}
use bolty_rs.Prelude.Text.{Text, as_bytes, len, to_ascii_lowercase, to_ascii_lowercase_char}
use bolty_rs.Core.Hex.{
  HexError, invalid_length, IsByte, decode_hex_nibble, decode_chunk, decode_chunks, decode_hex_into,
  decode_hex, hex_digit, encode_hex,
}

-- A digit decodes to a nibble, which prints as the digit in lower case.
good_nibble : Option ℕ → ℕ → Bool
unfolding hex_digit
good_nibble none c = true
good_nibble (some v) c = ltb v 16 && (hex_digit v == to_ascii_lowercase_char c)

nibble_table : all_below 128 (λ c. good_nibble (decode_hex_nibble c) c) ≡ true
unfolding good_nibble decode_hex_nibble
nibble_table = refl

nibble-lt : (c v : ℕ) → decode_hex_nibble c ≡ some v → c < 128
unfolding decode_hex_nibble
nibble-lt c v h = ground arith

nibble_lem :
    (c v : ℕ) → decode_hex_nibble c ≡ some v → (v < 16) × (hex_digit v ≡ to_ascii_lowercase_char c)
unfolding good_nibble
nibble_lem c v h =
    let good =
      all_below_sound 128 (λ c. good_nibble (decode_hex_nibble c) c) c nibble_table
        (nibble-lt c v h) in
    ground (arith, good)

nibble_mask : (b : ℕ) → IsByte b → bit_and b 15 ≡ b % 16
nibble_mask b h = (==_iff _ _).0 (all_below_sound 256 (λ b. bit_and b 15 == b % 16) b refl h)

-- `shifted` is `hi << 4` on a byte.
shifted : (v : ℕ) → v < 16 → v * 16 % 256 ≡ v * 16
shifted v h = omega arith

module _ (v w : ℕ) (p : v < 16) (q : w < 16) where
  byte_of_nibbles : bit_or (v * 16 % 256) w ≡ v * 16 + w
  byte_of_nibbles = rw (shifted v p) (bit_or_nibbles v w q)

  nibbles_of_IsByte : IsByte (v * 16 + w) × ((v * 16 + w) / 16 ≡ v) × (bit_and (v * 16 + w) 15 ≡ w)
  nibbles_of_IsByte = omega (arith, nibble_mask (v * 16 + w))

Chunk : ℕ → ℕ → ℕ → Type 0
Chunk c0 c1 b =
    IsByte b
    × (hex_digit (b / 16) ≡ to_ascii_lowercase_char c0)
    × (hex_digit (bit_and b 15) ≡ to_ascii_lowercase_char c1)
    × (c0 < 128)
    × (c1 < 128)

Chunk-of_nibbles :
    (c0 c1 v w b : ℕ)
    → decode_hex_nibble c0 ≡ some v
    → decode_hex_nibble c1 ≡ some w
    → b ≡ v * 16 + w
    → Chunk c0 c1 b
unfolding Chunk
Chunk-of_nibbles c0 c1 v w b p q e =
    let (v-lt, v-prints) = nibble_lem c0 v p in
    let (w-lt, w-prints) = nibble_lem c1 w q in
    let (byte, high, low) = nibbles_of_IsByte v w v-lt w-lt in
    rw e (
      byte,
      ap hex_digit high ∙ v-prints,
      ap hex_digit low ∙ w-prints,
      nibble-lt c0 v p,
      nibble-lt c1 w q,
    )

chunk_lem : (c0 c1 b : ℕ) → decode_chunk c0 c1 ≡ ok b → Chunk c0 c1 b
unfolding decode_chunk
chunk_lem c0 c1 b h = elim (Option-cases (decode_hex_nibble c0)) [
  | inl e ↦ let no_digit : ⊥ = ground arith in absurd no_digit
  | inr (v, e) ↦ elim (Option-cases (decode_hex_nibble c1)) [
    | inl f ↦ let no_digit : ⊥ = ground arith in absurd no_digit
    | inr (w, f) ↦
        let fits = byte_of_nibbles v w (nibble_lem c0 v e).0 (nibble_lem c1 w f).0 in
        Chunk-of_nibbles c0 c1 v w b e f (ground arith)
  ]
]

Result-cases :
    {A : Type 0} (r : Result HexError A) → ((a : A) × (r ≡ ok a)) ⊎ ((e : HexError) × (r ≡ err e))
Result-cases (ok a) = inl (a, refl)
Result-cases (err e) = inr (e, refl)

Decoded : List ℕ → List ℕ → Type 0
Decoded cs bs = All IsByte bs × (encode_hex bs ≡ to_ascii_lowercase cs) × All (λ c. c < 128) cs

Decoded-cons :
    (c0 c1 b : ℕ) (cs bs : List ℕ) → Chunk c0 c1 b → Decoded cs bs → Decoded (c0 ∷ c1 ∷ cs) (b ∷ bs)
unfolding Chunk Decoded encode_hex to_ascii_lowercase
Decoded-cons c0 c1 b cs bs (byte, high, low, p, q) (bytes, prints, ascii) =
    ((byte, bytes), cc (high, low, prints), (p, (q, ascii)))

decode_chunks_step :
    (c0 c1 b o : ℕ) (cs out : List ℕ)
    → decode_chunk c0 c1 ≡ ok b
    → decode_chunks (c0 ∷ c1 ∷ cs) (o ∷ out)
      ≡ ((decode_chunks cs out).0, b ∷ (decode_chunks cs out).1)
unfolding decode_chunks
decode_chunks_step c0 c1 b o cs out e = ground (arith, e)

decode_chunks_lem :
    (cs out : List ℕ)
    → length cs ≡ length out * 2
    → (decode_chunks cs out).0 ≡ ok tt
    → Decoded cs (decode_chunks cs out).1 × (length (decode_chunks cs out).1 ≡ length out)
unfolding decode_chunks
decode_chunks_lem [] [] n h = (unfold Decoded encode_hex to_ascii_lowercase in (tt, refl, tt), refl)
decode_chunks_lem [] (o ∷ out) n h = absurd (omega arith)
decode_chunks_lem (c0 ∷ []) out n h = absurd (omega arith)
decode_chunks_lem (c0 ∷ c1 ∷ cs) [] n h = absurd (omega arith)
decode_chunks_lem (c0 ∷ c1 ∷ cs) (o ∷ out) n h = elim (Result-cases (decode_chunk c0 c1)) [
  | inl (b, e) ↦
      let step = decode_chunks_step c0 c1 b o cs out e in
      let (read, as_long) = decode_chunks_lem cs out (omega arith) (cc (step, h)) in
      rw step (Decoded-cons c0 c1 b cs _ (chunk_lem c0 c1 b e) read, ap suc as_long)
  | inr (x, e) ↦ let refused : ⊥ = ground arith in absurd refused
]

chunk-ne-invalid_length : (c0 c1 : ℕ) → decode_chunk c0 c1 ≢ err invalid_length
unfolding decode_chunk
chunk-ne-invalid_length c0 c1 h = ground arith

decode_chunks-ne-invalid_length : (cs out : List ℕ) → (decode_chunks cs out).0 ≢ err invalid_length
unfolding decode_chunks
decode_chunks-ne-invalid_length [] out h = cc
decode_chunks-ne-invalid_length (c ∷ []) out h = cc
decode_chunks-ne-invalid_length (c0 ∷ c1 ∷ cs) [] h = cc
decode_chunks-ne-invalid_length (c0 ∷ c1 ∷ cs) (o ∷ out) h =
    ground (arith, chunk-ne-invalid_length c0 c1, decode_chunks-ne-invalid_length cs out)

as_bytes_ascii : (s : Text) → All (λ c. c < 128) (as_bytes s) → as_bytes s ≡ s
unfolding as_bytes
as_bytes_ascii [] h = refl
as_bytes_ascii (c ∷ s) h = ground (arith, as_bytes_ascii s)

-- A text that `decode_hex` accepts gives `n` bytes, and printing them gives the text back in lower
-- case.
pub decode_hex-inverse :
    (n : ℕ) (s : Text) (bs : List ℕ)
    → decode_hex n s ≡ ok bs
    → (length bs ≡ n) × All IsByte bs × (encode_hex bs ≡ to_ascii_lowercase s)
unfolding decode_hex decode_hex_into len Decoded
decode_hex-inverse n s bs h = ground (
  arith,
  length-replicate {A = ℕ} n 0,
  decode_chunks_lem (as_bytes s) (replicate n 0),
  as_bytes_ascii s,
)

-- The error for the length is given if and only if the text does not have two digits for each byte.
pub decode_hex_bad_length :
    (n : ℕ) (s : Text) → (decode_hex n s ≡ err invalid_length) ↔ (len s ≢ n * 2)
unfolding decode_hex decode_hex_into
decode_hex_bad_length n s = ground (
  arith,
  length-replicate {A = ℕ} n 0,
  decode_chunks-ne-invalid_length (as_bytes s) (replicate n 0),
)

-- `decode_hex` is `decode_hex_into` on a zeroed buffer: either both give the bytes, or both fail.
pub decode_hex_into-cases :
    (n : ℕ) (s : Text)
    → ((bs : List ℕ) × (decode_hex_into s (replicate n 0) ≡ (ok tt, bs)) × (decode_hex n s ≡ ok bs))
      ⊎ ((e : HexError) × (out : List ℕ) × (decode_hex_into s (replicate n 0) ≡ (err e, out))
          × (decode_hex n s ≡ err e))
unfolding decode_hex
decode_hex_into-cases n s = go (decode_hex_into s (replicate n 0)) refl
  where
    go :
        (r : Result HexError (Unit {0}) × List ℕ)
        → decode_hex_into s (replicate n 0) ≡ r
        → ((bs : List ℕ) × (decode_hex_into s (replicate n 0) ≡ (ok tt, bs))
            × (decode_hex n s ≡ ok bs))
          ⊎ ((e : HexError) × (out : List ℕ) × (decode_hex_into s (replicate n 0) ≡ (err e, out))
              × (decode_hex n s ≡ err e))
    go (ok done, bs) e = inl (bs, e, rw e)
    go (err x, out) e = inr (x, out, e, rw e)
