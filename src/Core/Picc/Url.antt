-- ===== src/Core/Picc/Url.antt =====
-- `extract_p_and_c` finds the parameters of a tap URL.
use bolty_rs.Prelude.{ℕ, ◌≡◌, refl, sym, ap, ◌∙◌, true, false, none, some, [], ◌∷◌, ◌++◌, All}
use bolty_rs.Prelude.Text.{Text, codes, strip_prefix}
use bolty_rs.Core.Picc.{is_delimiter, Seen, parse_param, extract_loop, both_seen, extract_p_and_c}
use mathlib.Core.List.{append_assoc, append-nil}

-- No `?`, `&` or `#`.
abbrev pub IsPlain : Text → Type 0
IsPlain s = All (λ ch. is_delimiter ch ≡ false) s

extract_delimiter :
    (segment url : Text) (d : ℕ) (seen : Seen)
    → is_delimiter d ≡ true
    → extract_loop segment (d ∷ url) seen ≡ extract_loop [] url (parse_param segment seen)
unfolding extract_loop
extract_delimiter segment url d seen e = rw (e, extract_loop)

-- The loop reads a whole plain piece into its segment.
extract_plain :
    (segment piece url : Text) (seen : Seen)
    → IsPlain piece
    → extract_loop segment (piece ++ url) seen ≡ extract_loop (segment ++ piece) url seen
unfolding extract_loop
extract_plain segment [] url seen h = rw append-nil
extract_plain segment (ch ∷ piece) url seen h =
    rw (h.0, extract_loop)
      (extract_plain (segment ++ (ch ∷ [])) piece url seen h.1
        ∙ ap (λ t. extract_loop t url seen) (append_assoc segment (ch ∷ []) piece))

extract_piece :
    (piece url : Text) (d : ℕ) (seen : Seen)
    → IsPlain piece
    → is_delimiter d ≡ true
    → extract_loop [] (piece ++ (d ∷ url)) seen ≡ extract_loop [] url (parse_param piece seen)
extract_piece piece url d seen h e =
    extract_plain [] piece (d ∷ url) seen h ∙ extract_delimiter piece url d seen e

extract_last :
    (piece : Text) (seen : Seen)
    → IsPlain piece
    → extract_loop [] piece seen ≡ parse_param piece seen
unfolding extract_loop
extract_last piece seen h =
    ap (λ t. extract_loop [] t seen) (sym (append-nil piece)) ∙ extract_plain [] piece [] seen h

parse_p :
    (value : Text) (seen : Seen) → parse_param (codes "p=" ++ value) seen ≡ (some value, seen.1)
unfolding parse_param strip_prefix
parse_p value seen = refl

parse_c :
    (value : Text) (seen : Seen) → parse_param (codes "c=" ++ value) seen ≡ (seen.0, some value)
unfolding parse_param strip_prefix
parse_c value seen = refl

-- From `base?p=P&c=C`, whose pieces hold no `?`, `&` or `#`, the parameters are `P` and `C`.
pub extract_p_and_c_lem :
    (base p c : Text)
    → IsPlain base
    → IsPlain p
    → IsPlain c
    → extract_p_and_c (base ++ (codes "?p=" ++ (p ++ (codes "&c=" ++ c)))) ≡ some (p, c)
unfolding extract_p_and_c
extract_p_and_c_lem base p c hb hp hc =
    let seen : Seen = parse_param base (none, none) in
    ap both_seen (
      extract_piece base _ b'?' (none, none) hb refl
      ∙ extract_piece (codes "p=" ++ p) _ b'&' seen (refl, (refl, hp)) refl
      ∙ extract_last (codes "c=" ++ c) _ (refl, (refl, hc))
      ∙ parse_c c _
      ∙ ap (λ (t : Seen). (t.0, some c)) (parse_p p seen))
