-- ===== src/Firmware/Commands/Bounds.antt =====
-- apps/bolty-esp32/src/commands.rs: what a command that parse_command returns has of its line.
use bolty_rs.Prelude.{◌≡◌, subst, refl, arith, List, [], ◌∷◌, ok}
use bolty_rs.Prelude.Text.{Text, codes, Heapless, trim, split_ascii_whitespace}
use bolty_rs.Firmware.Commands.{
  Command, CommandError, help, i2c_scan, uid, status, burn, wipe, ndef, auth, ver, key_ver, check,
  reset, inspect, picc, diagnose, derive_keys, hw_info, parse_card_command, parse_words,
  parse_command, parse_split, parse_trimmed,
}
use bolty_rs.Firmware.Commands.Words.{
  keyword_of, words_of, Fits, Named, Accepted, if_Named, simple-Post, one_word-Post, err-Named,
  keys-Post, issuer-Post, button_mode-Post, url-Post, wifi-Post, ota-Post, token-Post,
}

module _ (h : Heapless) where
  card-Named :
      (command : Text) (parts : List Text)
      → Named command parts (parse_card_command h command parts)
  unfolding parse_card_command keyword_of words_of Fits
  card-Named command parts =
      if_Named command (codes "ver") parts _ _
        (simple-Post (codes "ver") ver parts (one_word-Post (codes "ver") ver refl refl tt))
        (if_Named command (codes "keyver") parts _ _
          (simple-Post (codes "keyver") key_ver parts
            (one_word-Post (codes "keyver") key_ver refl refl tt))
          (if_Named command (codes "check") parts _ _
            (simple-Post (codes "check") check parts
              (one_word-Post (codes "check") check refl refl tt))
            (if_Named command (codes "inspect") parts _ _
              (simple-Post (codes "inspect") inspect parts
                (one_word-Post (codes "inspect") inspect refl refl tt))
              (if_Named command (codes "picc") parts _ _
                (simple-Post (codes "picc") picc parts
                  (one_word-Post (codes "picc") picc refl refl tt))
                (if_Named command (codes "diagnose") parts _ _
                  (simple-Post (codes "diagnose") diagnose parts
                    (one_word-Post (codes "diagnose") diagnose refl refl tt))
                  (if_Named command (codes "derivekeys") parts _ _
                    (simple-Post (codes "derivekeys") derive_keys parts
                      (one_word-Post (codes "derivekeys") derive_keys refl refl tt))
                    (if_Named command (codes "reset") parts _ _
                      (simple-Post (codes "reset") reset parts
                        (one_word-Post (codes "reset") reset refl refl tt))
                      (if_Named command (codes "hwinfo") parts _ _
                        (simple-Post (codes "hwinfo") hw_info parts
                          (one_word-Post (codes "hwinfo") hw_info refl refl tt))
                        (if_Named command (codes "button-mode") parts _ _ (button_mode-Post parts) (
                          if_Named command (codes "token") parts _ _ (token-Post h parts)
                            (err-Named command parts CommandError.unknown_command)))))))))))

  words-Named :
      (command : Text) (parts : List Text) → Named command parts (parse_words h command parts)
  unfolding parse_words keyword_of words_of Fits
  words-Named command parts =
      if_Named command (codes "help") parts _ _
        (simple-Post (codes "help") help parts (one_word-Post (codes "help") help refl refl tt))
        (if_Named command (codes "i2cscan") parts _ _
          (simple-Post (codes "i2cscan") i2c_scan parts
            (one_word-Post (codes "i2cscan") i2c_scan refl refl tt))
          (if_Named command (codes "uid") parts _ _
            (simple-Post (codes "uid") uid parts (one_word-Post (codes "uid") uid refl refl tt))
            (if_Named command (codes "status") parts _ _
              (simple-Post (codes "status") status parts
                (one_word-Post (codes "status") status refl refl tt))
              (if_Named command (codes "keys") parts _ _ (keys-Post parts) (
                if_Named command (codes "issuer") parts _ _ (issuer-Post parts) (
                  if_Named command (codes "url") parts _ _ (url-Post h parts) (
                    if_Named command (codes "wifi") parts _ _ (wifi-Post h parts) (
                      if_Named command (codes "ota") parts _ _ (ota-Post h parts) (
                        if_Named command (codes "burn") parts _ _
                          (simple-Post (codes "burn") burn parts
                            (one_word-Post (codes "burn") burn refl refl tt))
                          (if_Named command (codes "wipe") parts _ _
                            (simple-Post (codes "wipe") wipe parts
                              (one_word-Post (codes "wipe") wipe refl refl tt))
                            (if_Named command (codes "ndef") parts _ _
                              (simple-Post (codes "ndef") ndef parts
                                (one_word-Post (codes "ndef") ndef refl refl tt))
                              (if_Named command (codes "auth") parts _ _
                                (simple-Post (codes "auth") auth parts
                                  (one_word-Post (codes "auth") auth refl refl tt))
                                (card-Named command parts)))))))))))))

  split-Accepted :
      (words : List Text) (command : Command)
      → parse_split h words ≡ ok command
      → Accepted command words
  unfolding Named
  split-Accepted [] command e = ground (arith, e)
  split-Accepted (word ∷ parts) command e = subst (Named word parts) e (words-Named word parts)

  trimmed-Accepted :
      (trimmed : Text) (command : Command)
      → parse_trimmed h trimmed ≡ ok command
      → Accepted command (split_ascii_whitespace trimmed)
  trimmed-Accepted [] command e = let x : ⊥ = ground arith in absurd x
  trimmed-Accepted (ch ∷ trimmed) command e =
      split-Accepted (split_ascii_whitespace (ch ∷ trimmed)) command e

  -- A line that the parser accepts has exactly the words of its command: the first is the command's
  -- keyword in some mix of cases, none is missing and none is left over; its keys are 16 bytes as
  -- their words spell them, its texts are the words themselves and within the capacity of their
  -- fields, and a choice (wifi off, the button mode, no token) is named by its word.
  pub parse_command-Fits :
      (line : Text) (command : Command)
      → parse_command h line ≡ ok command
      → Accepted command (split_ascii_whitespace (trim line))
  unfolding parse_command
  parse_command-Fits line command e = trimmed-Accepted (trim line) command e
