-- ===== src/Firmware/Commands.antt =====
-- apps/bolty-esp32/src/commands.rs: the console's command parser. The bounded strings of `heapless`
-- are the section's parameter; an iterator over the words of a line is the list of those left.
pub mod Bounds
pub mod PreDispatch
pub mod Words
mod Tests
use bolty_rs.Prelude.{
  ℕ, Bool, true, false, ◌||◌, Option, none, some, List, [], ◌∷◌, Result, ok, err, ◌>>=◌, ◌>>◌,
  ok_or, to_option, if◌then◌else◌,
}
use bolty_rs.Prelude.Text.{
  Text, codes, eq, eq_ignore_ascii_case, trim, split_ascii_whitespace, is_ascii_whitespace,
  Heapless,
}
use bolty_rs.Core.Keys.{AesKey, CardKeys}
use bolty_rs.Core.Hex.{decode_hex}

pub data ButtonMode : Type 0 where
  simple legacy : ButtonMode

unfoldable pub button_mode_from_str : Text → Option ButtonMode
button_mode_from_str s =
    if eq_ignore_ascii_case s (codes "simple")
    then some simple
    else if eq_ignore_ascii_case s (codes "legacy")
    then some legacy
    else none

pub data Command : Type 0 where
  help i2c_scan uid status : Command
  set_keys : CardKeys → Command
  set_issuer : AesKey → Command
  set_url : Text → Command
  set_wifi : Text → Text → Command
  wifi_off : Command
  ota : Text → Text → Command
  burn wipe ndef auth ver key_ver check dummy_burn reset inspect picc diagnose : Command
  derive_keys issuer hw_info button_mode : Command
  button_mode_set : ButtonMode → Command
  set_token : Option Text → Command

pub data CommandError : Type 0 where
  unknown_command invalid_args missing_args : CommandError

abbrev pub lnurl_capacity : ℕ
lnurl_capacity = 256

abbrev pub wifi_ssid_capacity : ℕ
wifi_ssid_capacity = 32

abbrev pub wifi_password_capacity : ℕ
wifi_password_capacity = 64

abbrev pub signature_capacity : ℕ
signature_capacity = 128

abbrev pub rest_token_capacity : ℕ
rest_token_capacity = 64

unfoldable pub expect_no_args : List Text → Result CommandError (Unit {0})
expect_no_args [] = ok tt
expect_no_args (part ∷ parts) = err invalid_args

unfoldable pub parse_hex_key : Text → Option (List ℕ)
parse_hex_key s = to_option (decode_hex 16 s)

unfoldable pub parse_key_arg : Option Text → Result CommandError (List ℕ)
parse_key_arg none = err missing_args
parse_key_arg (some value) = ok_or (parse_hex_key value) invalid_args

-- `parts.next()`: the next word, and the words behind it
abbrev pub next : List Text → Option Text
next [] = none
next (part ∷ parts) = some part

abbrev pub rest : List Text → List Text
rest [] = []
rest (part ∷ parts) = parts

unfoldable pub parse_keys_command : List Text → Result CommandError Command
unfolding expect_no_args
parse_keys_command parts = do
  k0 ← parse_key_arg (next parts)
  k1 ← parse_key_arg (next (rest parts))
  k2 ← parse_key_arg (next (rest (rest parts)))
  k3 ← parse_key_arg (next (rest (rest (rest parts))))
  k4 ← parse_key_arg (next (rest (rest (rest (rest parts)))))
  expect_no_args (rest (rest (rest (rest (rest parts)))))
  ok (
      set_keys (record {
        k0 = record { bytes = k0 };
        k1 = record { bytes = k1 };
        k2 = record { bytes = k2 };
        k3 = record { bytes = k3 };
        k4 = record { bytes = k4 };
      }))

unfoldable pub parse_issuer_command : List Text → Result CommandError Command
unfolding expect_no_args
parse_issuer_command [] = ok issuer
parse_issuer_command (hex ∷ parts) = do
  key ← ok_or (parse_hex_key hex) invalid_args
  expect_no_args parts
  ok (set_issuer (record { bytes = key }))

unfoldable pub parse_button_mode_command : List Text → Result CommandError Command
unfolding expect_no_args
parse_button_mode_command [] = ok button_mode
parse_button_mode_command (arg ∷ parts) = do
  mode ← ok_or (button_mode_from_str arg) invalid_args
  expect_no_args parts
  ok (button_mode_set mode)

abbrev no_args : Command → List Text → Result CommandError Command
no_args command parts = expect_no_args parts >> ok command

module _ (h : Heapless) where
  -- `String::<n>::new()` and `push_str`, with the error mapped
  unfoldable pub push_new : ℕ → Text → Result CommandError Text
  push_new n s = ok_or (h.push_str n [] s) invalid_args

  unfoldable pub parse_url_command : List Text → Result CommandError Command
  unfolding expect_no_args
  parse_url_command [] = err missing_args
  parse_url_command (url ∷ parts) = do
    expect_no_args parts
    lnurl ← push_new lnurl_capacity url
    ok (set_url lnurl)

  abbrev parse_wifi_join : Text → List Text → Result CommandError Command
  parse_wifi_join first [] = err missing_args
  parse_wifi_join first (password ∷ parts) = do
    expect_no_args parts
    ssid_out ← push_new wifi_ssid_capacity first
    password_out ← push_new wifi_password_capacity password
    ok (set_wifi ssid_out password_out)

  unfoldable pub parse_wifi_command : List Text → Result CommandError Command
  unfolding expect_no_args
  parse_wifi_command [] = err missing_args
  parse_wifi_command (first ∷ parts) =
      if eq_ignore_ascii_case first (codes "off")
      then no_args wifi_off parts
      else parse_wifi_join first parts

  unfoldable pub parse_ota_command : List Text → Result CommandError Command
  unfolding expect_no_args
  parse_ota_command (url ∷ signature ∷ parts) = do
    expect_no_args parts
    url_out ← push_new lnurl_capacity url
    sig_out ← push_new signature_capacity signature
    ok (ota url_out sig_out)
  parse_ota_command _ = err missing_args

  -- the `token` branch of `parse_command`
  unfoldable pub parse_token_command : List Text → Result CommandError Command
  parse_token_command [] = err missing_args
  parse_token_command (val ∷ part ∷ parts) = err invalid_args
  parse_token_command (val ∷ []) =
      if eq val (codes "off") || eq val (codes "none") || eq val (codes "clear")
      then ok (set_token none)
      else (do token ← push_new rest_token_capacity val; ok (set_token (some token)))

  -- the second half of the ladder of `parse_command`
  unfoldable pub parse_card_command : Text → List Text → Result CommandError Command
  unfolding expect_no_args
  parse_card_command command parts =
      if eq_ignore_ascii_case command (codes "ver")
      then no_args ver parts
      else if eq_ignore_ascii_case command (codes "keyver")
      then no_args key_ver parts
      else if eq_ignore_ascii_case command (codes "check")
      then no_args check parts
      else if eq_ignore_ascii_case command (codes "inspect")
      then no_args inspect parts
      else if eq_ignore_ascii_case command (codes "picc")
      then no_args picc parts
      else if eq_ignore_ascii_case command (codes "diagnose")
      then no_args diagnose parts
      else if eq_ignore_ascii_case command (codes "derivekeys")
      then no_args derive_keys parts
      else if eq_ignore_ascii_case command (codes "reset")
      then no_args reset parts
      else if eq_ignore_ascii_case command (codes "hwinfo")
      then no_args hw_info parts
      else if eq_ignore_ascii_case command (codes "button-mode")
      then parse_button_mode_command parts
      else if eq_ignore_ascii_case command (codes "token")
      then parse_token_command parts
      else err unknown_command

  -- the ladder of `parse_command`, on the first word and the words left
  unfoldable pub parse_words : Text → List Text → Result CommandError Command
  unfolding expect_no_args
  parse_words command parts =
      if eq_ignore_ascii_case command (codes "help")
      then no_args help parts
      else if eq_ignore_ascii_case command (codes "i2cscan")
      then no_args i2c_scan parts
      else if eq_ignore_ascii_case command (codes "uid")
      then no_args uid parts
      else if eq_ignore_ascii_case command (codes "status")
      then no_args status parts
      else if eq_ignore_ascii_case command (codes "keys")
      then parse_keys_command parts
      else if eq_ignore_ascii_case command (codes "issuer")
      then parse_issuer_command parts
      else if eq_ignore_ascii_case command (codes "url")
      then parse_url_command parts
      else if eq_ignore_ascii_case command (codes "wifi")
      then parse_wifi_command parts
      else if eq_ignore_ascii_case command (codes "ota")
      then parse_ota_command parts
      else if eq_ignore_ascii_case command (codes "burn")
      then no_args burn parts
      else if eq_ignore_ascii_case command (codes "wipe")
      then no_args wipe parts
      else if eq_ignore_ascii_case command (codes "ndef")
      then no_args ndef parts
      else if eq_ignore_ascii_case command (codes "auth")
      then no_args auth parts
      else parse_card_command command parts

  abbrev pub parse_split : List Text → Result CommandError Command
  parse_split [] = err unknown_command
  parse_split (command ∷ parts) = parse_words command parts

  abbrev pub parse_trimmed : Text → Result CommandError Command
  parse_trimmed [] = err unknown_command
  parse_trimmed (ch ∷ trimmed) = parse_split (split_ascii_whitespace (ch ∷ trimmed))

  unfoldable pub parse_command : Text → Result CommandError Command
  parse_command line = parse_trimmed (trim line)
