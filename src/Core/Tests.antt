-- ===== src/Core/Tests.antt =====
-- The theorems of crates/bolty-core at concrete cards, keys and taps.
use bolty_rs.Prelude.{
  ℕ, zero, suc, ◌+◌, ◌*◌, ◌/◌, ◌%◌, ◌^◌, ◌≤◌, ◌<◌, ◌≡◌, ◌≢◌, ◌↔◌, ◌⊎◌, refl, arith, Bool, true,
  false, Option, none, some, List, [], ◌∷◌, ◌++◌, Result, ok, err, length, take, drop, replicate,
  All, length-replicate,
}
use bolty_rs.Prelude.Text.{Text, codes, len, to_ascii_lowercase}
use bolty_rs.Core.Crypto.{Crypto}
use bolty_rs.Core.Hex.{invalid_length, IsByte, decode_hex, encode_hex, encode_hex_into}
use bolty_rs.Core.Hex.RoundTrip.{decode_hex-encode_hex}
use bolty_rs.Core.Hex.Inverse.{decode_hex-inverse}
use bolty_rs.Core.Keys.{IsArray, CardUid, IssuerConfig, default_issuer}
use bolty_rs.Core.ConstantTime.{constant_time_eq, constant_time_eq_iff}
use bolty_rs.Core.Assessment.{CardState, CardAssessment, default_assessment}
use bolty_rs.Core.Issuer.{assess_card}
use bolty_rs.Core.Issuer.Classify.{Classified, Agrees, assess_card_lem}
use bolty_rs.Core.Picc.{default_picc, extract_p_and_c, picc_of_block, picc_with, picc_parse_url}
use bolty_rs.Core.Picc.Url.{extract_p_and_c_lem}
use bolty_rs.Core.Picc.Verify.{IsGenuine, picc_parse_url-IsGenuine}

abbrev sum : List ℕ → ℕ
sum [] = 0
sum (x ∷ xs) = x + sum xs

sixteen_bytes : (n : ℕ) → IsArray 16 (replicate 16 (n % 256))
sixteen_bytes n = ground arith

-- A toy that has the sizes of the real functions: a sum in place of the MAC, and no encryption.
abbrev toy_crypto : Crypto
toy_crypto = record {
  aes_cmac = λ key message. replicate 16 ((sum key + sum message) % 256);
  aes_cmac-IsArray = λ key message. sixteen_bytes (sum key + sum message);
  cbc_decrypt = λ key iv block. some block;
  cbc_decrypt-IsArray = λ key iv block h. (block, refl, h);
}

abbrev a_key : List ℕ
a_key = replicate 16 0

abbrev a_uid : CardUid
a_uid = record { bytes = 4 ∷ 1 ∷ 2 ∷ 3 ∷ 4 ∷ 5 ∷ 6 ∷ [] }

abbrev three_bytes : List ℕ
three_bytes = 0x0a ∷ 0xff ∷ 0x10 ∷ []

-- the block of a card with the counter 10
abbrev a_block : List ℕ
a_block = 0xc7 ∷ 1 ∷ 2 ∷ 3 ∷ 4 ∷ 5 ∷ 6 ∷ 7 ∷ 10 ∷ replicate 7 0

abbrev a_tap : Text
a_tap = codes "lnurlw://host/ln?p=c7010203040506070a00000000000000&c=6060606060606060"

abbrev a_forged_tap : Text
a_forged_tap = codes "lnurlw://host/ln?p=c7010203040506070a00000000000000&c=6160606060606060"

encode_hex_test : encode_hex three_bytes ≡ codes "0aff10"
unfolding encode_hex bolty_rs.Core.Hex.hex_digit
encode_hex_test = refl

picc_parse_url_test : (picc_parse_url toy_crypto a_key a_key a_tap).valid ≡ true
unfolding picc_parse_url extract_p_and_c bolty_rs.Core.Picc.parse_param
    bolty_rs.Prelude.Text.strip_prefix bolty_rs.Core.Picc.picc_decrypt_p len
    bolty_rs.Prelude.Text.as_bytes bolty_rs.Core.Hex.decode_hex_into bolty_rs.Core.Hex.decode_chunks
    bolty_rs.Core.Hex.decode_chunk bolty_rs.Core.Hex.decode_hex_nibble picc_of_block
    bolty_rs.Core.Picc.picc_verify_c constant_time_eq bolty_rs.Core.ConstantTime.xor_diff
    bolty_rs.Core.Picc.sun_mac bolty_rs.Core.Picc.truncate_odd_bytes
    bolty_rs.Core.Picc.sdm_build_sv2 bolty_rs.Core.Picc.extract_loop picc_with
    bolty_rs.Core.Picc.sdm_build_sv2_no_uid
picc_parse_url_test = refl

forged_test : (picc_parse_url toy_crypto a_key a_key a_forged_tap).valid ≡ false
unfolding picc_parse_url extract_p_and_c bolty_rs.Core.Picc.parse_param
    bolty_rs.Prelude.Text.strip_prefix bolty_rs.Core.Picc.picc_decrypt_p len
    bolty_rs.Prelude.Text.as_bytes bolty_rs.Core.Hex.decode_hex_into bolty_rs.Core.Hex.decode_chunks
    bolty_rs.Core.Hex.decode_chunk bolty_rs.Core.Hex.decode_hex_nibble picc_of_block
    bolty_rs.Core.Picc.picc_verify_c constant_time_eq bolty_rs.Core.ConstantTime.xor_diff
    bolty_rs.Core.Picc.sun_mac bolty_rs.Core.Picc.truncate_odd_bytes
    bolty_rs.Core.Picc.sdm_build_sv2 bolty_rs.Core.Picc.extract_loop picc_with
    bolty_rs.Core.Picc.sdm_build_sv2_no_uid
forged_test = refl

picc_parse_url-IsGenuine_example : IsGenuine toy_crypto a_key a_key a_tap
picc_parse_url-IsGenuine_example =
    (picc_parse_url-IsGenuine toy_crypto a_key a_key a_tap).0 picc_parse_url_test

extract_p_and_c_lem_example :
    extract_p_and_c (codes "h" ++ (codes "?p=" ++ (codes "12" ++ (codes "&c=" ++ codes "34"))))
    ≡ some (codes "12", codes "34")
extract_p_and_c_lem_example =
    extract_p_and_c_lem (codes "h") (codes "12") (codes "34") (refl, tt) (refl, (refl, tt))
      (refl, (refl, tt))

decode_hex-encode_hex_example : decode_hex 3 (encode_hex three_bytes) ≡ ok three_bytes
decode_hex-encode_hex_example = decode_hex-encode_hex 3 three_bytes (ground arith) refl

decode_hex_test : decode_hex 3 (codes "0aFf10") ≡ ok three_bytes
unfolding decode_hex bolty_rs.Core.Hex.decode_hex_into len bolty_rs.Prelude.Text.as_bytes
    bolty_rs.Core.Hex.decode_chunks bolty_rs.Core.Hex.decode_chunk
    bolty_rs.Core.Hex.decode_hex_nibble
decode_hex_test = refl

decode_hex-inverse_example :
    (length three_bytes ≡ 3)
    × All IsByte three_bytes
    × (encode_hex three_bytes ≡ to_ascii_lowercase (codes "0aFf10"))
decode_hex-inverse_example = decode_hex-inverse 3 (codes "0aFf10") three_bytes decode_hex_test

-- two issuers, whose key versions are 1 and 2
abbrev two_issuers : List IssuerConfig
two_issuers = default_issuer ∷ record default_issuer { key_version = 2 } ∷ []

abbrev versions : List ℕ
versions = 2 ∷ 2 ∷ 2 ∷ 2 ∷ 2 ∷ []

assess_card_test :
    (assess_card toy_crypto a_uid versions two_issuers).state ≡ CardState.provisioned 1
unfolding assess_card bolty_rs.Core.Issuer.all_blank bolty_rs.Core.Issuer.match_issuer
    bolty_rs.Core.Issuer.find_issuer
assess_card_test = refl

assess_card_lem_example :
    Classified versions two_issuers (assess_card toy_crypto a_uid versions two_issuers).state
    × Agrees
        (assess_card toy_crypto a_uid versions two_issuers).state
        (assess_card toy_crypto a_uid versions two_issuers)
assess_card_lem_example = assess_card_lem toy_crypto a_uid versions two_issuers

abbrev present_card : CardAssessment
present_card = record default_assessment { present = true; uid_len = 7; uid = some a_block }
