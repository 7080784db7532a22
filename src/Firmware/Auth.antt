-- ===== src/Firmware/Auth.antt =====
-- apps/bolty-esp32/src/rest.rs: who may use the REST interface. The header of a request is an
-- argument.
pub mod Bearer
use Prim.Native.Nat.{bit_or, bit_xor}
use bolty_rs.Prelude.{
  ℕ, zero, suc, ◌-◌, Bool, true, false, Option, none, some, List, [], ◌∷◌, ltb, ◌==◌, if◌then◌else◌,
  length, get_or,
}
use bolty_rs.Prelude.Text.{Text, codes, len, as_bytes, utf8_char, eq_ignore_ascii_case}
use bolty_rs.Core.Config.{BoltyConfig}

pub data TokenScope : Type 0 where
  read_scope write_scope : TokenScope

-- the loop of `constant_time_eq`, over `count` indices from `index` on
unfoldable pub diff_from : ℕ → ℕ → List ℕ → List ℕ → ℕ → ℕ
diff_from zero index expected provided diff = diff
diff_from (suc count) index expected provided diff =
    diff_from count (suc index) expected provided
      (bit_or diff (bit_xor (get_or expected index 0) (get_or provided index 0)))

abbrev max : ℕ → ℕ → ℕ
max m n = if ltb m n then n else m

unfoldable pub token_eq : List ℕ → List ℕ → Bool
token_eq expected provided =
    diff_from (max (length expected) (length provided)) 0 expected provided
      (bit_xor (length expected) (length provided))
    == 0

-- `&s[..n]` and `&s[n..]` by bytes; `none` where the source panics, past the end or inside a char
unfoldable pub split_at : ℕ → Text → Option (Text × Text)
split_at zero s = some ([], s)
split_at (suc n) [] = none
split_at (suc n) (c ∷ s) =
    let width = length (utf8_char c) in
    if ltb (suc n) width then none else (elim (split_at (suc n - width) s) [
      | none ↦ none
      | some (front, back) ↦ some (c ∷ front, back)
    ])

-- The outer `Option` is `none` where the source panics.
unfoldable pub bearer_token : Option Text → Option (Option Text)
bearer_token none = some none
bearer_token (some header) = if ltb (len header) 7 then some none else (elim (split_at 7 header) [
  | none ↦ none
  | some (scheme, token) ↦
      if eq_ignore_ascii_case scheme (codes "Bearer ") then some (some token) else some none
])

unfoldable pub expected_token : TokenScope → BoltyConfig → Option Text
expected_token read_scope config = config.rest_read_token
expected_token write_scope config = config.rest_write_token

-- `locked` says whether the configuration's lock could be taken.
unfoldable pub is_authorized : Bool → Option Text → BoltyConfig → TokenScope → Option Bool
is_authorized false header config scope = some false
is_authorized true header config scope = elim (expected_token scope config) [
  | none ↦ some true
  | some expected ↦ elim (bearer_token header) [
    | none ↦ none
    | some none ↦ some false
    | some (some provided) ↦ some (token_eq (as_bytes expected) (as_bytes provided))
  ]
]
