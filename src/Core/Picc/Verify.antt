-- ===== src/Core/Picc/Verify.antt =====
-- When a tap URL is accepted.
use bolty_rs.Prelude.{
  ℕ, ◌*◌, ◌≡◌, ◌⊎◌, ◌↔◌, inl, inr, refl, ap, sym, ◌∙◌, zero, suc, arith, true, false, some, List,
  [], ◌∷◌, ◌++◌, Option-cases, get_or, replicate, length, ok,
}
use bolty_rs.Prelude.Text.{Text}
use bolty_rs.Core.Keys.{IsArray}
use bolty_rs.Core.Hex.{decode_hex}
use bolty_rs.Core.Hex.Inverse.{decode_hex-inverse, decode_hex_bad_length, decode_hex_into-cases}
use bolty_rs.Core.Crypto.{Crypto}
use bolty_rs.Core.ConstantTime.{constant_time_eq_iff}
use bolty_rs.Core.Picc.{
  PiccData, picc_of_block, picc_format_boltcard, picc_format_boltcard_no_uid, sv2_of, sv2_header,
  truncate_odd_bytes, picc_decrypt_p, picc_verify_c, picc_parse_url, sun_mac, extract_p_and_c,
  default_picc,
}
use bolty_rs.Core.Picc.Block.{mirrored, picc_of_block_lem, picc_of_block_total}

-- The `p` and `c` of a URL are genuine: `p` encrypts a block with a known tag under `k1`, and `c` is
-- the truncated MAC, under the session key that `k2` gives, of the section of that block.
pub record IsGenuine (c : Crypto) (k1 k2 : List ℕ) (url : Text) : Type 0 where
  pub p_hex : Text
  pub c_hex : Text
  pub cipher : List ℕ
  pub plain : List ℕ
  pub mac : List ℕ
  pub found : extract_p_and_c url ≡ some (p_hex, c_hex)
  pub cipher_hex : decode_hex 16 p_hex ≡ ok cipher
  pub decrypts : c.cbc_decrypt k1 (replicate 16 0) cipher ≡ some plain
  pub tagged :
      (get_or plain 0 0 ≡ picc_format_boltcard) ⊎ (get_or plain 0 0 ≡ picc_format_boltcard_no_uid)
  pub mac_hex : decode_hex 8 c_hex ≡ ok mac
  pub authentic : sun_mac c k2 (sv2_header ++ mirrored plain) ≡ mac

length-truncate_odd_bytes :
    (n : ℕ) (mac : List ℕ) → length mac ≡ n * 2 → length (truncate_odd_bytes mac) ≡ n
unfolding truncate_odd_bytes
length-truncate_odd_bytes zero [] h = refl
length-truncate_odd_bytes (suc n) [] h = absurd (omega arith)
length-truncate_odd_bytes n (even ∷ []) h = absurd (omega arith)
length-truncate_odd_bytes zero (even ∷ odd ∷ mac) h = absurd (omega arith)
length-truncate_odd_bytes (suc n) (even ∷ odd ∷ mac) h =
    ap suc (length-truncate_odd_bytes n mac (omega arith))

module _ (c : Crypto) (k1 k2 : List ℕ) where
  decrypt_lem :
      (p_hex : Text) (picc : PiccData)
      → picc_decrypt_p c k1 p_hex ≡ some picc
      → (cipher : List ℕ) × (plain : List ℕ) × (decode_hex 16 p_hex ≡ ok cipher)
        × (c.cbc_decrypt k1 (replicate 16 0) cipher ≡ some plain)
        × (picc_of_block plain ≡ some picc)
  unfolding picc_decrypt_p
  decrypt_lem p_hex picc h = elim (decode_hex_into-cases 16 p_hex) [
    | inl (cipher, into, decoded) ↦ elim (Option-cases (c.cbc_decrypt k1 (replicate 16 0) cipher)) [
      | inl refused ↦ let no_block : ⊥ = ground arith in absurd no_block
      | inr (plain, decrypted) ↦ (cipher, plain, decoded, decrypted, ground arith)
    ]
    | inr (e, out, into, decoded) ↦ let no_block : ⊥ = ground arith in absurd no_block
  ]

  decrypt_of_block :
      (p_hex : Text) (cipher plain : List ℕ) (picc : PiccData)
      → decode_hex 16 p_hex ≡ ok cipher
      → c.cbc_decrypt k1 (replicate 16 0) cipher ≡ some plain
      → picc_of_block plain ≡ some picc
      → picc_decrypt_p c k1 p_hex ≡ some picc
  unfolding picc_decrypt_p
  decrypt_of_block p_hex cipher plain picc p q r = elim (decode_hex_into-cases 16 p_hex) [
    | inl (bytes, into, decoded) ↦ ground (arith, decode_hex_bad_length 16 p_hex)
    | inr (e, out, into, decoded) ↦ cc
  ]

  length-sun_mac : (sv2 : List ℕ) → length (sun_mac c k2 sv2) ≡ 8
  unfolding sun_mac
  length-sun_mac sv2 = length-truncate_odd_bytes 8 _ (c.aes_cmac-IsArray _ []).0

  verify_lem :
      (picc : PiccData) (c_hex : Text)
      → (picc_verify_c c k2 picc c_hex ≡ true) ↔ (
          (picc.has_counter ≡ true)
          × (decode_hex 8 c_hex ≡ ok (sun_mac c k2 (sv2_of picc.uid picc.counter))))
  unfolding picc_verify_c
  verify_lem picc c_hex = elim (decode_hex_into-cases 8 c_hex) [
    | inl (mac, into, decoded) ↦ ground (
      arith,
      length-sun_mac (sv2_of picc.uid picc.counter),
      decode_hex-inverse 8 c_hex mac decoded,
      decode_hex_bad_length 8 c_hex,
      constant_time_eq_iff (sun_mac c k2 (sv2_of picc.uid picc.counter)) mac,
    )
    | inr (e, out, into, decoded) ↦ ground arith
  ]

  plain-IsArray :
      (p_hex : Text) (cipher plain : List ℕ)
      → decode_hex 16 p_hex ≡ ok cipher
      → c.cbc_decrypt k1 (replicate 16 0) cipher ≡ some plain
      → IsArray 16 plain
  plain-IsArray p_hex cipher plain decoded decrypts =
      let (long, bytes, printed) = decode_hex-inverse 16 p_hex cipher decoded in
      let (plain', decrypts', whole) =
        c.cbc_decrypt-IsArray k1 (replicate 16 0) cipher (long, bytes) in
      let same : plain ≡ plain' = cc in rw same whole

  -- What stands behind an accepted URL.
  sound : (url : Text) → (picc_parse_url c k1 k2 url).valid ≡ true → IsGenuine c k1 k2 url
  unfolding picc_parse_url
  sound url h = elim (Option-cases (extract_p_and_c url)) [
    | inl e ↦ let refused : ⊥ = ground arith in absurd refused
    | inr ((p_hex, c_hex), found) ↦ elim (Option-cases (picc_decrypt_p c k1 p_hex)) [
      | inl e ↦ let refused : ⊥ = ground arith in absurd refused
      | inr (picc, read) ↦
          let (cipher, plain, cipher_hex, decrypts, tagged) = decrypt_lem p_hex picc read in
          let whole = plain-IsArray p_hex cipher plain cipher_hex decrypts in
          let reads = picc_of_block_lem plain picc whole tagged in
          let verified : picc_verify_c c k2 picc c_hex ≡ true = ground arith in
          record {
            p_hex = p_hex;
            c_hex = c_hex;
            cipher = cipher;
            plain = plain;
            mac = sun_mac c k2 (sv2_header ++ mirrored plain);
            found = found;
            cipher_hex = cipher_hex;
            decrypts = decrypts;
            tagged = reads.format;
            mac_hex = rw (← reads.sv2) ((verify_lem picc c_hex).0 verified).1;
            authentic = refl;
          }
    ]
  ]

  complete : (url : Text) → IsGenuine c k1 k2 url → (picc_parse_url c k1 k2 url).valid ≡ true
  unfolding picc_parse_url
  complete url g =
      let (picc, tagged) = picc_of_block_total g.plain g.tagged in
      let whole = plain-IsArray g.p_hex g.cipher g.plain g.cipher_hex g.decrypts in
      let reads = picc_of_block_lem g.plain picc whole tagged in
      let read = decrypt_of_block g.p_hex g.cipher g.plain picc g.cipher_hex g.decrypts tagged in
      let mac = g.mac_hex ∙ ap ok (sym (rw (← reads.sv2) at g.authentic)) in
      let verified = (verify_lem picc g.c_hex).1 (reads.counted, mac) in
      rw (g.found, read, verified)

-- A tap URL is accepted exactly when its `p` and `c` are genuine.
pub picc_parse_url-IsGenuine :
    (c : Crypto) (k1 k2 : List ℕ) (url : Text)
    → ((picc_parse_url c k1 k2 url).valid ≡ true) ↔ IsGenuine c k1 k2 url
picc_parse_url-IsGenuine c k1 k2 url = (sound c k1 k2 url, complete c k1 k2 url)

-- A refused URL yields the default answer: no UID and no counter.
pub picc_parse_url_refused :
    (c : Crypto) (k1 k2 : List ℕ) (url : Text)
    → (picc_parse_url c k1 k2 url).valid ≡ false
    → picc_parse_url c k1 k2 url ≡ default_picc
unfolding picc_parse_url
picc_parse_url_refused c k1 k2 url h = ground arith
