-- ===== src/Firmware/Commands/Tests.antt =====
-- The theorems of the console commands at concrete lines.
use bolty_rs.Prelude.{◌≡◌, refl, ok, err, some, length}
use bolty_rs.Prelude.Text.{codes, len, trim, split_ascii_whitespace}
use bolty_rs.Firmware.Fixtures.{toy_heapless}
use bolty_rs.Firmware.Commands.{Command, CommandError, parse_command}
use bolty_rs.Firmware.Commands.Words.{Accepted}
use bolty_rs.Firmware.Commands.Bounds.{parse_command-Fits}

parse_url_test :
    parse_command toy_heapless (codes " URL lnurlw://h ")
    ≡ ok (Command.set_url (codes "lnurlw://h"))
unfolding parse_command trim split_ascii_whitespace bolty_rs.Firmware.Commands.parse_words
    bolty_rs.Prelude.Text.eq_ignore_ascii_case bolty_rs.Firmware.Commands.parse_url_command
    bolty_rs.Firmware.Commands.push_new len bolty_rs.Prelude.Text.as_bytes
parse_url_test = refl

parse_command-Fits_example :
    Accepted
      (Command.set_url (codes "lnurlw://h"))
      (split_ascii_whitespace (trim (codes " URL lnurlw://h ")))
parse_command-Fits_example =
    parse_command-Fits toy_heapless (codes " URL lnurlw://h ")
      (Command.set_url (codes "lnurlw://h")) parse_url_test
