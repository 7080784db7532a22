-- ===== src/Firmware/Commands/PreDispatch/Apart.antt =====
-- The words before the parser of commands.rs, beside the words of the parser.
use bolty_rs.Prelude.{
  ◌≡◌, refl, sym, subst, ap, ◌∙◌, ◌⊎◌, inl, inr, true, Option, some, List, [], ◌∷◌, err, arith,
  Bool-cases,
}
use bolty_rs.Prelude.Text.{
  Text, codes, eq_iff, eq_ignore_ascii_case, to_ascii_lowercase, trim, is_ascii_whitespace,
  cons_word, scan_words, split_ascii_whitespace, Heapless,
}
use bolty_rs.Firmware.Commands.{
  CommandError, parse_command, parse_trimmed, parse_split, parse_words, parse_card_command,
}
use bolty_rs.Firmware.Commands.PreDispatch.{
  PreDispatchCommand, split_head, pre_dispatch, parse_pre_dispatch_command,
}

-- A first word that is handled before the parser, in any case.
IsEarly : Text → Type 0
IsEarly head =
    (to_ascii_lowercase head ≡ codes "crashlog")
    ⊎ (to_ascii_lowercase head ≡ codes "hwtest")
    ⊎ (to_ascii_lowercase head ≡ codes "provision-cert")
    ⊎ (to_ascii_lowercase head ≡ codes "provision-ota-key")
    ⊎ (to_ascii_lowercase head ≡ codes "force")
    ⊎ (to_ascii_lowercase head ≡ codes "grove")

folded :
    (a b : Text)
    → to_ascii_lowercase b ≡ b
    → eq_ignore_ascii_case a b ≡ true
    → to_ascii_lowercase a ≡ b
unfolding eq_ignore_ascii_case
folded a b low e = (eq_iff (to_ascii_lowercase a) (to_ascii_lowercase b)).0 e ∙ low

pre_dispatch-IsEarly :
    (head : Text) (tail : Option Text) (command : PreDispatchCommand)
    → pre_dispatch head tail ≡ some command
    → IsEarly head
unfolding pre_dispatch IsEarly to_ascii_lowercase
pre_dispatch-IsEarly head tail command e = ground (
  arith,
  folded head (codes "crashlog") refl,
  folded head (codes "hwtest") refl,
  folded head (codes "provision-cert") refl,
  folded head (codes "provision-ota-key") refl,
  folded head (codes "force") refl,
  folded head (codes "grove") refl,
)

head_agrees : (s : Text) → (scan_words s).0 ≡ (split_head s).0
unfolding scan_words split_head
head_agrees [] = refl
head_agrees (c ∷ s) = elim (Bool-cases (is_ascii_whitespace c)) [
  | inl e ↦ rw e refl
  | inr e ↦ rw e (ap (λ (w : Text). c ∷ w) (head_agrees s))
]

module _ (h : Heapless) where
  early_words :
      (head : Text) (parts : List Text)
      → IsEarly head
      → parse_words h head parts ≡ err CommandError.unknown_command
  unfolding IsEarly parse_words parse_card_command eq_ignore_ascii_case
  early_words head parts (inl e) = rw e refl
  early_words head parts (inr (inl e)) = rw e refl
  early_words head parts (inr (inr (inl e))) = rw e refl
  early_words head parts (inr (inr (inr (inl e)))) = rw e refl
  early_words head parts (inr (inr (inr (inr (inl e))))) = rw e refl
  early_words head parts (inr (inr (inr (inr (inr e))))) = rw e refl

  early_nonempty :
      (head : Text)
      → IsEarly head
      → (words : List Text)
      → parse_split h (cons_word head words) ≡ err CommandError.unknown_command
  unfolding IsEarly to_ascii_lowercase
  early_nonempty [] w words = ground arith
  early_nonempty (c ∷ head) w words = early_words (c ∷ head) words w

  early_split :
      (t : Text)
      → IsEarly (split_head t).0
      → parse_split h (split_ascii_whitespace t) ≡ err CommandError.unknown_command
  unfolding split_ascii_whitespace
  early_split t w =
      early_nonempty (scan_words t).0 (subst IsEarly (sym (head_agrees t)) w) (scan_words t).1

  early_trimmed :
      (t : Text) → IsEarly (split_head t).0 → parse_trimmed h t ≡ err CommandError.unknown_command
  early_trimmed [] w = refl
  early_trimmed (c ∷ t) w = early_split (c ∷ t) w

  -- A line that is handled before the parser is an unknown command to the parser, so no line means
  -- two things.
  pub pre_dispatch_apart :
      (line : Text) (command : PreDispatchCommand)
      → parse_pre_dispatch_command line ≡ some command
      → parse_command h line ≡ err CommandError.unknown_command
  unfolding parse_pre_dispatch_command parse_command
  pre_dispatch_apart line command e =
      early_trimmed (trim line) (pre_dispatch-IsEarly (split_head (trim line)).0 _ command e)
