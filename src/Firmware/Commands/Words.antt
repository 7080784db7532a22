-- ===== src/Firmware/Commands/Words.antt =====
-- What the words of a line give, apps/bolty-esp32/src/commands.rs.
use bolty_rs.Prelude.{
  ℕ, suc, ◌≤◌, ◌≡◌, refl, ap, ◌∙◌, Bool-cases, arith, true, none, some, List, [], ◌∷◌, Result, ok,
  err, length, if◌then◌else◌, ◌⊎◌, inl, inr, ◌>>◌, ok_or,
}
use bolty_rs.Prelude.Text.{Text, eq_iff, codes, eq_ignore_ascii_case, len, Heapless}
use bolty_rs.Core.Hex.{decode_hex}
use bolty_rs.Core.Hex.Inverse.{decode_hex-inverse}
use bolty_rs.Core.Keys.{IsArray, CardKeys}
use bolty_rs.Firmware.Commands.{
  Command, CommandError, help, i2c_scan, uid, status, set_keys, set_issuer, set_url, set_wifi,
  wifi_off, ota, burn, wipe, ndef, auth, ver, key_ver, check, reset, inspect, picc, diagnose,
  derive_keys, issuer, dummy_burn, hw_info, button_mode, button_mode_set, button_mode_from_str,
  set_token, expect_no_args, parse_hex_key, parse_key_arg, parse_keys_command, parse_issuer_command,
  parse_button_mode_command, push_new, parse_url_command, parse_wifi_command, parse_ota_command,
  parse_token_command,
}

-- The word that a command begins with
unfoldable pub keyword_of : Command → Text
keyword_of help = codes "help"
keyword_of i2c_scan = codes "i2cscan"
keyword_of uid = codes "uid"
keyword_of status = codes "status"
keyword_of (set_keys keys) = codes "keys"
keyword_of (set_issuer key) = codes "issuer"
keyword_of issuer = codes "issuer"
keyword_of (set_url url) = codes "url"
keyword_of (set_wifi ssid password) = codes "wifi"
keyword_of wifi_off = codes "wifi"
keyword_of (ota url signature) = codes "ota"
keyword_of burn = codes "burn"
keyword_of wipe = codes "wipe"
keyword_of ndef = codes "ndef"
keyword_of auth = codes "auth"
keyword_of ver = codes "ver"
keyword_of key_ver = codes "keyver"
keyword_of check = codes "check"
keyword_of inspect = codes "inspect"
keyword_of picc = codes "picc"
keyword_of diagnose = codes "diagnose"
keyword_of derive_keys = codes "derivekeys"
keyword_of reset = codes "reset"
keyword_of hw_info = codes "hwinfo"
keyword_of button_mode = codes "button-mode"
keyword_of (button_mode_set mode) = codes "button-mode"
keyword_of (set_token token) = codes "token"
keyword_of dummy_burn = codes ""

-- How many words the line of a command has.
unfoldable pub words_of : Command → ℕ
words_of (set_keys keys) = 6
words_of (set_issuer key) = 2
words_of (set_url url) = 2
words_of (set_wifi ssid password) = 3
words_of wifi_off = 2
words_of (ota url signature) = 3
words_of (button_mode_set mode) = 2
words_of (set_token token) = 2
words_of _ = 1

-- The 16 bytes of a key, as the word spells them
abbrev pub Spells : Text → List ℕ → Type 0
Spells word k = (decode_hex 16 word ≡ ok k) × IsArray 16 k

abbrev pub SpellsKeys : List Text → CardKeys → Type 0
SpellsKeys (a ∷ b ∷ c ∷ d ∷ e ∷ []) keys =
    Spells a keys.k0.bytes
    × Spells b keys.k1.bytes
    × Spells c keys.k2.bytes
    × Spells d keys.k3.bytes
    × Spells e keys.k4.bytes
SpellsKeys _ keys = ⊥

-- Keys are as the words behind the first spell them, texts are those words and within the capacity
-- of their field, and a choice is named by its word.
unfoldable pub Fits : Command → List Text → Type 0
Fits (set_keys keys) args = SpellsKeys args keys
Fits (set_issuer key) args = (hex : Text) × (args ≡ hex ∷ []) × Spells hex key.bytes
Fits (set_url url) args = (args ≡ url ∷ []) × (len url ≤ 256)
Fits (set_wifi ssid password) args =
    (args ≡ ssid ∷ password ∷ []) × (len ssid ≤ 32) × (len password ≤ 64)
Fits wifi_off args =
    (word : Text) × (args ≡ word ∷ []) × (eq_ignore_ascii_case word (codes "off") ≡ true)
Fits (ota url signature) args =
    (args ≡ url ∷ signature ∷ []) × (len url ≤ 256) × (len signature ≤ 128)
Fits (button_mode_set mode) args =
    (word : Text) × (args ≡ word ∷ []) × (button_mode_from_str word ≡ some mode)
Fits (set_token (some token)) args = (args ≡ token ∷ []) × (len token ≤ 64)
Fits (set_token none) args =
    (word : Text) × (args ≡ word ∷ [])
    × ((word ≡ codes "off") ⊎ (word ≡ codes "none") ⊎ (word ≡ codes "clear"))
Fits _ args = Unit

-- What holds of a command that is returned for the words `args` behind a keyword.
unfoldable pub Post : Text → List Text → Result CommandError Command → Type 0
Post keyword args (ok command) =
    (keyword_of command ≡ keyword) × (words_of command ≡ suc (length args)) × Fits command args
Post keyword args (err e) = Unit

-- What holds of a command that is returned for the first word `word` and the words `args` behind it.
unfoldable pub Named : Text → List Text → Result CommandError Command → Type 0
Named word args (ok command) =
    (eq_ignore_ascii_case word (keyword_of command) ≡ true)
    × (words_of command ≡ suc (length args))
    × Fits command args
Named word args (err e) = Unit

Post-Named :
    (word keyword : Text) (args : List Text) (x : Result CommandError Command)
    → eq_ignore_ascii_case word keyword ≡ true
    → Post keyword args x
    → Named word args x
unfolding Post Named
Post-Named word keyword args (ok command) e (k, n, f) = (ap (eq_ignore_ascii_case word) k ∙ e, n, f)
Post-Named word keyword args (err x) e p = tt

pub if_Named :
    (word keyword : Text) (args : List Text) (x y : Result CommandError Command)
    → Post keyword args x
    → Named word args y
    → Named word args (if eq_ignore_ascii_case word keyword then x else y)
if_Named word keyword args x y p q = elim (Bool-cases (eq_ignore_ascii_case word keyword)) [
  | inl e ↦ rw e (Post-Named word keyword args x e p)
  | inr e ↦ rw e q
]

pub simple-Post :
    (keyword : Text) (command : Command) (parts : List Text)
    → Post keyword [] (ok command)
    → Post keyword parts (expect_no_args parts >> ok command)
unfolding expect_no_args Post
simple-Post keyword command [] h = h
simple-Post keyword command (part ∷ parts) h = tt

pub one_word-Post :
    (keyword : Text) (command : Command)
    → keyword_of command ≡ keyword
    → words_of command ≡ 1
    → Fits command []
    → Post keyword [] (ok command)
unfolding Post
one_word-Post keyword command k e f = (k, e, f)

pub err-Named : (word : Text) (args : List Text) (e : CommandError) → Named word args (err e)
unfolding Named
err-Named word args e = tt

hex_key-Spells :
    (s : Text) (k : List ℕ) → ok_or (parse_hex_key s) CommandError.invalid_args ≡ ok k → Spells s k
unfolding parse_hex_key
hex_key-Spells s k e =
    let decoded : decode_hex 16 s ≡ ok k = ground arith in
    let (long, bytes, printed) = decode_hex-inverse 16 s k decoded in (decoded, (long, bytes))

key_arg-cases :
    (s : Text)
    → ((k : List ℕ) × (parse_key_arg (some s) ≡ ok k) × Spells s k)
      ⊎ ((x : CommandError) × (parse_key_arg (some s) ≡ err x))
unfolding parse_key_arg
key_arg-cases s = go (ok_or (parse_hex_key s) CommandError.invalid_args) refl
  where
    go :
        (r : Result CommandError (List ℕ))
        → ok_or (parse_hex_key s) CommandError.invalid_args ≡ r
        → ((k : List ℕ) × (parse_key_arg (some s) ≡ ok k) × Spells s k)
          ⊎ ((x : CommandError) × (parse_key_arg (some s) ≡ err x))
    go (ok k) e = inl (k, e, hex_key-Spells s k e)
    go (err x) e = inr (x, e)

key_arg_none : parse_key_arg none ≡ err CommandError.missing_args
unfolding parse_key_arg
key_arg_none = refl

pub keys-Post : (parts : List Text) → Post (codes "keys") parts (parse_keys_command parts)
unfolding parse_keys_command Post keyword_of words_of Fits
keys-Post (a ∷ b ∷ c ∷ d ∷ e ∷ []) = elim (key_arg-cases a) [
  | inr (x, f) ↦ rw f tt
  | inl (k0, p0, q0) ↦ elim (key_arg-cases b) [
    | inr (x, f) ↦ rw (p0, f) tt
    | inl (k1, p1, q1) ↦ elim (key_arg-cases c) [
      | inr (x, f) ↦ rw (p0, p1, f) tt
      | inl (k2, p2, q2) ↦ elim (key_arg-cases d) [
        | inr (x, f) ↦ rw (p0, p1, p2, f) tt
        | inl (k3, p3, q3) ↦ elim (key_arg-cases e) [
          | inr (x, f) ↦ rw (p0, p1, p2, p3, f) tt
          | inl (k4, p4, q4) ↦ rw (p0, p1, p2, p3, p4) (refl, refl, (q0, q1, q2, q3, q4))
        ]
      ]
    ]
  ]
]
keys-Post parts = ground (arith, key_arg_none)

pub issuer-Post : (parts : List Text) → Post (codes "issuer") parts (parse_issuer_command parts)
unfolding parse_issuer_command Post keyword_of words_of Fits parse_key_arg
issuer-Post [] = (refl, refl, tt)
issuer-Post (hex ∷ p ∷ parts) = ground arith
issuer-Post (hex ∷ []) = elim (key_arg-cases hex) [
  | inl (key, e, q) ↦ rw e (refl, refl, (hex, refl, q))
  | inr (x, e) ↦ rw e tt
]

pub button_mode-Post :
    (parts : List Text) → Post (codes "button-mode") parts (parse_button_mode_command parts)
unfolding parse_button_mode_command Post keyword_of words_of Fits
button_mode-Post [] = (refl, refl, tt)
button_mode-Post (arg ∷ []) = ground arith
button_mode-Post (arg ∷ p ∷ parts) = ground arith

-- What holds of a command that is returned for the words of a line.
abbrev pub Accepted : Command → List Text → Type 0
Accepted command [] = ⊥
Accepted command (word ∷ args) =
    (eq_ignore_ascii_case word (keyword_of command) ≡ true)
    × (words_of command ≡ suc (length args))
    × Fits command args

module _ (h : Heapless) where
  pub url-Post : (parts : List Text) → Post (codes "url") parts (parse_url_command h parts)
  unfolding parse_url_command Post keyword_of words_of Fits push_new
  url-Post [] = tt
  url-Post (url ∷ []) = ground (arith, h.push_str_lem 256 [] url)
  url-Post (url ∷ p ∷ parts) = tt

  pub wifi-Post : (parts : List Text) → Post (codes "wifi") parts (parse_wifi_command h parts)
  unfolding parse_wifi_command Post keyword_of words_of Fits push_new
  wifi-Post [] = tt
  wifi-Post (first ∷ []) = ground arith
  wifi-Post (first ∷ password ∷ []) =
      ground (arith, h.push_str_lem 32 [] first, h.push_str_lem 64 [] password)
  wifi-Post (first ∷ password ∷ p ∷ parts) = ground arith

  pub ota-Post : (parts : List Text) → Post (codes "ota") parts (parse_ota_command h parts)
  unfolding parse_ota_command Post keyword_of words_of Fits push_new
  ota-Post [] = tt
  ota-Post (url ∷ []) = tt
  ota-Post (url ∷ signature ∷ []) =
      ground (arith, h.push_str_lem 256 [] url, h.push_str_lem 128 [] signature)
  ota-Post (url ∷ signature ∷ p ∷ parts) = tt

  pub token-Post : (parts : List Text) → Post (codes "token") parts (parse_token_command h parts)
  unfolding parse_token_command Post keyword_of words_of Fits push_new
  token-Post [] = tt
  token-Post (val ∷ part ∷ parts) = tt
  token-Post (val ∷ []) = ground (
    arith,
    h.push_str_lem 64 [] val,
    eq_iff val (codes "off"),
    eq_iff val (codes "none"),
    eq_iff val (codes "clear"),
  )
