-- ===== src/Core/Picc/Block.antt =====
-- The MAC input is built from the decrypted block.
use Prim.Native.Nat.{bit_or}
use bolty_rs.Prelude.{
  ℕ, ◌+◌, ◌*◌, ◌^◌, ◌<◌, ◌≡◌, ◌⊎◌, inl, inr, ==_iff, refl, ap, arith, true, false, Option, none,
  some, List, [], ◌∷◌, ◌++◌, ◌==◌, if◌then◌else◌, Bool-cases, get_or, take, drop, replicate,
}
use bolty_rs.Prelude.Bits.{bit_or_shifted}
use bolty_rs.Core.Keys.{IsArray}
use bolty_rs.Core.Picc.{
  PiccData, picc_with, picc_of_block, picc_format_boltcard, picc_format_boltcard_no_uid,
  counter_bytes, sdm_build_sv2, sdm_build_sv2_no_uid, sv2_of, sv2_header,
}

-- The UID and counter section of a block, padded to ten bytes.
unfoldable pub mirrored : List ℕ → List ℕ
mirrored block =
    if get_or block 0 0 == picc_format_boltcard
    then take 10 (drop 1 block)
    else take 3 (drop 1 block) ++ replicate 7 0

counter_lem :
    (c0 c1 c2 : ℕ)
    → c0 < 256
    → c1 < 256
    → c2 < 256
    → bit_or (bit_or c0 (c1 * 2 ^ 8)) (c2 * 2 ^ 16) ≡ c0 + c1 * 2 ^ 8 + c2 * 2 ^ 16
counter_lem c0 c1 c2 p q r =
    rw (bit_or_shifted 8 c0 c1 p) (bit_or_shifted 16 (c0 + c1 * 2 ^ 8) c2 (omega arith))

counter_bytes_lem :
    (uid : Option (List ℕ)) (c0 c1 c2 : ℕ)
    → c0 < 256
    → c1 < 256
    → c2 < 256
    → counter_bytes (picc_with uid c0 c1 c2).counter ≡ c0 ∷ c1 ∷ c2 ∷ []
unfolding picc_with
counter_bytes_lem uid c0 c1 c2 p q r = ground (arith, counter_lem c0 c1 c2)

-- What a block that is accepted gives.
pub record Reads (block : List ℕ) (picc : PiccData) : Type 0 where
  pub format :
      (get_or block 0 0 ≡ picc_format_boltcard) ⊎ (get_or block 0 0 ≡ picc_format_boltcard_no_uid)
  pub counted : picc.has_counter ≡ true
  pub not_yet : picc.valid ≡ false
  pub sv2 : sv2_of picc.uid picc.counter ≡ sv2_header ++ mirrored block

module _ (t a b c d e f g h i j : ℕ) (rest : List ℕ) where
  abbrev block : List ℕ
  block = t ∷ a ∷ b ∷ c ∷ d ∷ e ∷ f ∷ g ∷ h ∷ i ∷ j ∷ rest

  with_uid :
      t ≡ picc_format_boltcard
      → h < 256
      → i < 256
      → j < 256
      → Reads block (picc_with (some (a ∷ b ∷ c ∷ d ∷ e ∷ f ∷ g ∷ [])) h i j)
  unfolding sdm_build_sv2 mirrored picc_with
  with_uid tag p q r = record {
    format = inl tag;
    counted = refl;
    not_yet = refl;
    sv2 = rw (tag) (
        ap (λ l. sv2_header ++ (a ∷ b ∷ c ∷ d ∷ e ∷ f ∷ g ∷ l))
          (counter_bytes_lem none h i j p q r));
  }

  without_uid :
      t ≡ picc_format_boltcard_no_uid
      → a < 256
      → b < 256
      → c < 256
      → Reads block (picc_with none a b c)
  unfolding sdm_build_sv2_no_uid mirrored picc_with
  without_uid tag p q r = record {
    format = inr tag;
    counted = refl;
    not_yet = refl;
    sv2 =
        rw (tag)
          (ap (λ l. sv2_header ++ (l ++ replicate 7 0)) (counter_bytes_lem none a b c p q r));
  }

-- A block that is read has one of the two tags; what it gives has a counter, is not valid yet, and the
-- MAC input built from its UID and counter is the header with the block's own bytes behind it.
pub picc_of_block_lem :
    (block : List ℕ) (picc : PiccData)
    → IsArray 16 block
    → picc_of_block block ≡ some picc
    → Reads block picc
unfolding picc_of_block
picc_of_block_lem (t ∷ a ∷ b ∷ c ∷ d ∷ e ∷ f ∷ g ∷ h ∷ i ∷ j ∷ rest) picc v k =
    elim (Bool-cases (t == picc_format_boltcard)) [
      | inl tag ↦
          let read : picc_with (some (a ∷ b ∷ c ∷ d ∷ e ∷ f ∷ g ∷ [])) h i j ≡ picc =
            ground arith in
          rw (← read) (
            with_uid t a b c d e f g h i j rest ((==_iff _ _).0 tag) (omega arith) (omega arith)
              (omega arith))
      | inr other ↦
          let tag : t ≡ picc_format_boltcard_no_uid = ground arith in
          let read : picc_with none a b c ≡ picc = ground arith in
          rw (← read)
            (without_uid t a b c d e f g h i j rest tag (omega arith) (omega arith) (omega arith))
    ]
picc_of_block_lem other picc v k = absurd (omega arith)

-- Both tags are read.
pub picc_of_block_total :
    (buf : List ℕ)
    → (get_or buf 0 0 ≡ picc_format_boltcard) ⊎ (get_or buf 0 0 ≡ picc_format_boltcard_no_uid)
    → (picc : PiccData) × (picc_of_block buf ≡ some picc)
unfolding picc_of_block
picc_of_block_total buf (inl tag) = (
  picc_with (some (take 7 (drop 1 buf))) (get_or buf 8 0) (get_or buf 9 0) (get_or buf 10 0),
  rw tag,
)
picc_of_block_total buf (inr tag) =
    (picc_with none (get_or buf 1 0) (get_or buf 2 0) (get_or buf 3 0), rw tag)
