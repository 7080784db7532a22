-- ===== src/Ntag/Ndef.antt =====
-- crates/bolty-ntag/src/lib.rs, lines 651 to 754: the URI in a card's NDEF file. Bytes are numbers
-- below 256, and `usize` has no bound here: where `checked_add` fails in the source, the slice that
-- follows fails here.
pub mod RoundTrip
use Prim.Native.Nat.{bit_and}
use bolty_rs.Prelude.{
  ℕ, zero, suc, ◌+◌, ◌-◌, ◌*◌, Bool, true, false, not, ◌||◌, ◌&&◌, Option, none, some, List, [],
  ◌∷◌, ◌++◌, ltb, leb, ◌==◌, if◌then◌else◌, within, length, get_elem?, take, drop,
}
use bolty_rs.Prelude.Text.{Text, codes}
use bolty_rs.Core.Picc.{extract_p_and_c}

-- `?` in a function that returns an `Option`
infixl 5 ◌>>=◌
abbrev pub ◌>>=◌ {ℓ κ} : {A : Type ℓ} {B : Type κ} → Option A → (A → Option B) → Option B
none >>= f = none
some a >>= f = f a

-- `get(from..to)`
abbrev pub slice : {A : Type 0} → ℕ → ℕ → List A → Option (List A)
slice from to xs =
    if leb from to && leb to (length xs) then some (take (to - from) (drop from xs)) else none

-- `core::str::from_utf8`: what a lead byte says of the bytes behind it, as their number, the bits
-- it carries, and the range of the first of them.
unfoldable pub lead : ℕ → Option (ℕ × ℕ × ℕ × ℕ)
lead b =
    if ltb b 0x80
    then some (0, b, 0, 0)
    else if within 0xc2 0xdf b
    then some (1, b - 0xc0, 0x80, 0xbf)
    else if b == 0xe0
    then some (2, 0, 0xa0, 0xbf)
    else if b == 0xed
    then some (2, 13, 0x80, 0x9f)
    else if within 0xe1 0xef b
    then some (2, b - 0xe0, 0x80, 0xbf)
    else if b == 0xf0
    then some (3, 0, 0x90, 0xbf)
    else if within 0xf1 0xf3 b
    then some (3, b - 0xf0, 0x80, 0xbf)
    else if b == 0xf4
    then some (3, 4, 0x80, 0x8f)
    else none

-- `need` more bytes complete the character `acc`; the next lies in the range.
unfoldable pub utf8_from : ℕ → ℕ → ℕ → ℕ → List ℕ → Option Text
unfolding lead
utf8_from zero acc lo hi [] = some (acc ∷ [])
utf8_from (suc need) acc lo hi [] = none
utf8_from zero acc lo hi (b ∷ s) = elim (lead b) [
  | none ↦ none
  | some (need, bits, lo', hi') ↦ do t ← utf8_from need bits lo' hi' s; some (acc ∷ t)
]
utf8_from (suc need) acc lo hi (b ∷ s) = elim (within lo hi b) [
  | true ↦ utf8_from need (acc * 64 + (b - 0x80)) 0x80 0xbf s
  | false ↦ none
]

unfoldable pub from_utf8 : List ℕ → Option Text
unfolding lead utf8_from
from_utf8 [] = some []
from_utf8 (b ∷ s) = elim (lead b) [
  | none ↦ none
  | some (need, bits, lo, hi) ↦ utf8_from need bits lo hi s
]

-- `trim_end_matches('\0')`
abbrev pub keep_unless_nul : ℕ → Text → Text
keep_unless_nul c [] = if c == 0 then [] else c ∷ []
keep_unless_nul c (d ∷ s) = c ∷ d ∷ s

unfoldable pub trim_nul_end : Text → Text
trim_nul_end [] = []
trim_nul_end (c ∷ s) = keep_unless_nul c (trim_nul_end s)

unfoldable pub uri_prefixes : List Text
uri_prefixes =
    codes ""
    ∷ codes "http://www."
    ∷ codes "https://www."
    ∷ codes "http://"
    ∷ codes "https://"
    ∷ codes "tel:"
    ∷ codes "mailto:"
    ∷ codes "ftp://anonymous:anonymous@"
    ∷ codes "ftp://ftp."
    ∷ codes "ftps://"
    ∷ codes "sftp://"
    ∷ codes "smb://"
    ∷ codes "nfs://"
    ∷ codes "ftp://"
    ∷ codes "dav://"
    ∷ codes "news:"
    ∷ codes "telnet://"
    ∷ codes "imap:"
    ∷ codes "rtsp://"
    ∷ codes "urn:"
    ∷ codes "pop:"
    ∷ codes "sip:"
    ∷ codes "sips:"
    ∷ codes "tftp:"
    ∷ codes "btspp://"
    ∷ codes "btl2cap://"
    ∷ codes "btgoep://"
    ∷ codes "tcpobex://"
    ∷ codes "irdaobex://"
    ∷ codes "file://"
    ∷ codes "urn:epc:id:"
    ∷ codes "urn:epc:tag:"
    ∷ codes "urn:epc:pat:"
    ∷ codes "urn:epc:raw:"
    ∷ codes "urn:epc:"
    ∷ codes "urn:nfc:"
    ∷ []

pub record NdefUri : Type 0 where
  pub url : Text
  pub picc_hex : Option Text
  pub mac_hex : Option Text

unfoldable pub ndef_uri : Text → Text → NdefUri
unfolding extract_p_and_c
ndef_uri prefix uri_str = elim (extract_p_and_c uri_str) [
  | some (p, c) ↦ record { url = prefix ++ uri_str; picc_hex = some p; mac_hex = some c }
  | none ↦ record { url = prefix ++ uri_str; picc_hex = none; mac_hex = none }
]

unfoldable pub parse_payload : List ℕ → Option NdefUri
unfolding from_utf8 trim_nul_end uri_prefixes ndef_uri
parse_payload [] = none
parse_payload (prefix_code ∷ uri) = do
  prefix ← get_elem? uri_prefixes prefix_code
  text ← from_utf8 uri
  some (ndef_uri prefix (trim_nul_end text))

abbrev payload_len_of : Bool → List ℕ → Option ℕ
payload_len_of true msg = get_elem? msg 2
payload_len_of false msg = do
  b2 ← get_elem? msg 2
  b3 ← get_elem? msg 3
  b4 ← get_elem? msg 4
  b5 ← get_elem? msg 5
  some (((b2 * 256 + b3) * 256 + b4) * 256 + b5)

abbrev payload_offset_of : Bool → ℕ → List ℕ → Option ℕ
payload_offset_of true behind_type msg = do
  id_len ← get_elem? msg behind_type
  some (behind_type + 1 + id_len)
payload_offset_of false behind_type msg = some behind_type

unfoldable pub parse_message : List ℕ → Option NdefUri
unfolding parse_payload
parse_message msg = do
  flags ← get_elem? msg 0
  let sr = not (bit_and flags 0x10 == 0)
  let il = not (bit_and flags 0x08 == 0)
  type_len ← get_elem? msg 1
  let header_len = if sr then 3 else 6
  payload_len ← payload_len_of sr msg
  record_type ← get_elem? msg header_len
  if not (type_len == 1) || not (record_type == b'U') then none else (do
    payload_offset ← payload_offset_of il (header_len + type_len) msg
    payload ← slice payload_offset (payload_offset + payload_len) msg
    parse_payload payload)

unfoldable pub parse_ndef_uri : List ℕ → Option NdefUri
unfolding parse_message
parse_ndef_uri file = if ltb (length file) 4 then none else (do
  high ← get_elem? file 0
  low ← get_elem? file 1
  let nlen = high * 256 + low
  if ltb nlen 5 || ltb (length file) (2 + nlen)
      then none
      else (do msg ← slice 2 (2 + nlen) file; parse_message msg))
