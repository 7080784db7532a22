-- ===== src/Ntag/Ndef/RoundTrip.antt =====
-- What is written as an NDEF record of a URI is read back.
use bolty_rs.Prelude.{ℕ, ◌+◌, ◌/◌, ◌%◌, ◌<◌, List, ◌∷◌, ◌++◌, length}
use bolty_rs.Prelude.Text.{Text}

-- The letters of a URI are ASCII, and none is NUL.
abbrev pub IsUriChar : ℕ → Type 0
IsUriChar c = (0 < c) × (c < 0x80)

-- A message of one short record of type `U`, as the NFC Forum's URI record definition lays it out
unfoldable pub uri_message : ℕ → Text → List ℕ
uri_message code uri = 0xd1 ∷ 1 ∷ (1 + length uri) ∷ b'U' ∷ code ∷ uri

-- The file: the message behind its length, and whatever stands behind it
unfoldable pub ndef_file : List ℕ → List ℕ → List ℕ
ndef_file message rest = (length message / 256) ∷ (length message % 256) ∷ (message ++ rest)
