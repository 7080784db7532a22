-- ===== src/Cli/Scan/Tries.antt =====
-- apps/bolty-cli/src/try_key.rs: the keys that are accepted and rejected.
use bolty_rs.Prelude.{
  ℕ, ◌+◌, zero, suc, ◌≡◌, refl, ◌∙◌, arith, Option, none, some, List, [], ◌∷◌, Result, ok, err,
}
use bolty_rs.Prelude.Text.{Text}
use bolty_rs.Prelude.Act.{Outcome}
use bolty_rs.Cli.Tool.{Desk, CliM}
use bolty_rs.Ntag.Link.{KeyNumber, number_of, Uid, SessionError, Ntag424}
use bolty_rs.Ntag.Card.{Card, IsNtag424}
use bolty_rs.Cli.Looking.{
  IsStill, desk_view, Looks, pure-Looks, lifted-Looks, then-Looks, weaken-Looks, log-Looks,
  tried-Looks,
}
use bolty_rs.Cli.Scan.{
  AuthResult, success, wrong_key, auth_delay, auth_error, clamp_attempts, TryEnd, key_accepted,
  key_rejected, delay_persists, target_key, answered, try_loop, try_slot, cmd_try_key,
}
use bolty_rs.Cli.Looking.AtCard.{gen_rnd_a-Looks}
use bolty_rs.Cli.Scan.Answers.{Says, Tried, TriedNumber, authenticate_tells, auth_result-Says}

module _ {C S Sdm T : Type 0} {Refusal : Type 0} (ops : Ntag424 C S Sdm T)
    (rng : C → C × Option (List ℕ)) (view : C → Card Sdm) (law : IsNtag424 ops view Refusal)
    (the_uid : List ℕ) (still : IsStill ops rng view the_uid)
    (undrawn : (c : C) → (rng c).1 ≡ none → Refusal) (a : Card Sdm) where
  answered-Looks :
      (slot : KeyNumber) (k : List ℕ) (label : Text) (next : CliM C T TryEnd) (r : AuthResult)
      → Looks T view a (Tried Refusal a slot k) next
      → Says Refusal a slot k r
      → Looks T view a (Tried Refusal a slot k) (answered label next r)
  unfolding answered
  answered-Looks slot k label next success look h =
      then-Looks T view a _ _ _ _ (log-Looks T view a _ _)
        (λ _ _. pure-Looks T view a (Tried Refusal a slot k) key_accepted h)
  answered-Looks slot k label next wrong_key look h =
      then-Looks T view a _ _ _ _ (log-Looks T view a _ _)
        (λ _ _. pure-Looks T view a (Tried Refusal a slot k) key_rejected h)
  answered-Looks slot k label next auth_delay look h = look
  answered-Looks slot k label next auth_error look h =
      lifted-Looks T view a (Tried Refusal a slot k) _

  try_loop-Looks :
      (slot : KeyNumber) (k : List ℕ) (label : Text) (attempts : ℕ)
      → Looks T view a (Tried Refusal a slot k) (try_loop ops rng slot k label attempts)
  unfolding try_loop
  try_loop-Looks slot k label zero =
      then-Looks T view a _ _ _ _ (log-Looks T view a _ _)
        (λ _ _. pure-Looks T view a (Tried Refusal a slot k) delay_persists tt)
  try_loop-Looks slot k label (suc attempts) =
      then-Looks T view a _ _ _ _ (gen_rnd_a-Looks ops rng view law the_uid still a) λ rnd_a _.
        then-Looks T view a _ _ _ _
          (authenticate_tells ops rng view law the_uid still undrawn a slot k rnd_a)
          λ r told.
            answered-Looks slot k label _ _ (try_loop-Looks slot k label attempts)
              (auth_result-Says ops rng view law the_uid still undrawn a slot k r told)

  target_key_lem : (n : ℕ) (slot : KeyNumber) → target_key n ≡ some slot → number_of slot ≡ n
  unfolding target_key
  target_key_lem n slot h = ground (arith, h)

  try_slot-Looks :
      (k : List ℕ) (label : Text) (key_no attempts : ℕ) (target : Option KeyNumber)
      → ((slot : KeyNumber) → target ≡ some slot → number_of slot ≡ key_no)
      → Looks T view a (TriedNumber Refusal a key_no k) (try_slot ops rng k label attempts target)
  unfolding try_slot
  try_slot-Looks k label key_no attempts none h =
      lifted-Looks T view a (TriedNumber Refusal a key_no k) _
  try_slot-Looks k label key_no attempts (some slot) h =
      then-Looks T view a _ _ _ _ (log-Looks T view a _ _) (λ _ _.
        weaken-Looks T view a (Tried Refusal a slot k) (TriedNumber Refusal a key_no k) _
          (try_loop-Looks slot k label (clamp_attempts attempts))
          (λ r tried_right. (slot, h slot refl, tried_right)))

  keeps_uid : (c : C) → view c ≡ a → (view (ops.get_selected_uid c).0 ≡ a) × Unit {0}
  unfolding Outcome
  keeps_uid c e = go (ops.get_selected_uid c) (law.get_selected_uid_law c)
    where
      go :
          (p : C × Result (SessionError T) Uid)
          → Outcome view (λ uid card. card ≡ view c) (λ card. (card ≡ view c) × Refusal) p
          → (view p.0 ≡ a) × Unit {0}
      go (c', ok uid) h = (h ∙ e, tt)
      go (c', err x) h = (h.0 ∙ e, tt)

  pub cmd_try_key-Looks :
      (k : List ℕ) (key_no attempts : ℕ)
      → Looks T view a (TriedNumber Refusal a key_no k) (cmd_try_key ops rng k key_no attempts)
  unfolding cmd_try_key
  cmd_try_key-Looks k key_no attempts =
      then-Looks T view a _ _ _ _
        (tried-Looks T view a (λ _. Unit {0}) ops.get_selected_uid keeps_uid)
        (λ _ _.
          try_slot-Looks k (b'K' ∷ (b'0' + key_no) ∷ []) key_no attempts (target_key key_no)
            (target_key_lem key_no))

module _ {C S Sdm T : Type 0} {Refusal : Type 0} (ops : Ntag424 C S Sdm T)
    (rng : C → C × Option (List ℕ)) (view : C → Card Sdm) (law : IsNtag424 ops view Refusal)
    (the_uid : List ℕ) (still : IsStill ops rng view the_uid)
    (undrawn : (c : C) → (rng c).1 ≡ none → Refusal) where
  -- While the card keeps its UID, the try of a key leaves the card's keys, key versions, file and
  -- settings as they were, and ends well only for a key number from 0 to 4: an accepted key is the
  -- card's key of that number, and a rejected one is not, or the link broke, the card refused for
  -- another reason, or no random number could be drawn.
  pub cmd_try_key_lem :
      (k : List ℕ) (key_no attempts : ℕ) (d : Desk C)
      → Outcome
          (desk_view view)
          (λ r card. (card ≡ view d.card) × TriedNumber Refusal (view d.card) key_no k r)
          (λ card. card ≡ view d.card)
          (cmd_try_key ops rng k key_no attempts d)
  unfolding Looks
  cmd_try_key_lem k key_no attempts d =
      cmd_try_key-Looks ops rng view law the_uid still undrawn (view d.card) k key_no attempts d
        refl
