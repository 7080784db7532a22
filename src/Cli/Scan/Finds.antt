-- ===== src/Cli/Scan/Finds.antt =====
-- apps/bolty-cli/src/scan_keys.rs: the key that the scan reports.
use bolty_rs.Prelude.{
  ℕ, zero, suc, ◌≡◌, ◌≢◌, ◌⊎◌, inl, inr, refl, ◌∙◌, Option, none, some, List, [], ◌∷◌, Result, ok,
  err,
}
use bolty_rs.Prelude.Text.{Text}
use bolty_rs.Prelude.Act.{Outcome}
use bolty_rs.Core.Crypto.{Crypto}
use bolty_rs.Cli.Tool.{Desk, CliM, with_context, contextual}
use bolty_rs.Ntag.Link.{key0, Uid, uid_to_fixed, SessionError, Ntag424}
use bolty_rs.Ntag.Card.{Card, IsNtag424}
use bolty_rs.Cli.Looking.{
  IsStill, desk_view, Looks, pure-Looks, lifted-Looks, then-Looks, weaken-Looks, log-Looks,
  record-Looks,
}
use bolty_rs.Cli.Scan.{
  Candidate, candidates, AuthResult, success, wrong_key, auth_delay, auth_error, unless_delayed,
  try_auth, candidate_done, scan, clamp_attempts, cmd_scan_keys,
}
use bolty_rs.Cli.Scan.Answers.{Says, Scanned, draw-Looks, authenticate_with-Looks}

module _ {C S Sdm T : Type 0} {Refusal : Type 0} (ops : Ntag424 C S Sdm T)
    (rng : C → C × Option (List ℕ)) (view : C → Card Sdm) (law : IsNtag424 ops view Refusal)
    (the_uid : List ℕ) (still : IsStill ops rng view the_uid)
    (undrawn : (c : C) → (rng c).1 ≡ none → Refusal) (a : Card Sdm) where
  unless_delayed-Looks :
      (k : List ℕ) (next : CliM C T AuthResult) (r : AuthResult)
      → Looks T view a (Says Refusal a key0 k) next
      → Says Refusal a key0 k r
      → Looks T view a (Says Refusal a key0 k) (unless_delayed ops rng next r)
  unfolding unless_delayed
  unless_delayed-Looks k next success look h = pure-Looks T view a (Says Refusal a key0 k) success h
  unless_delayed-Looks k next wrong_key look h =
      pure-Looks T view a (Says Refusal a key0 k) wrong_key h
  unless_delayed-Looks k next auth_delay look h = look
  unless_delayed-Looks k next auth_error look h =
      pure-Looks T view a (Says Refusal a key0 k) auth_error h

  try_auth-Looks :
      (k : List ℕ) (attempts : ℕ)
      → Looks T view a (Says Refusal a key0 k) (try_auth ops rng k attempts)
  unfolding try_auth
  try_auth-Looks k zero = pure-Looks T view a (Says Refusal a key0 k) auth_delay tt
  try_auth-Looks k (suc attempts) =
      then-Looks T view a _ _ _ _ (draw-Looks ops rng view law the_uid still undrawn a) λ r h.
        then-Looks T view a _ _ _ _
          (authenticate_with-Looks ops rng view law the_uid still undrawn a key0 k r h)
          λ answer says. unless_delayed-Looks k _ answer (try_auth-Looks k attempts) says

  further :
      (label : Text) (k : List ℕ) (rest : List Candidate)
      → Refusal ⊎ (k ≢ a.keys key0)
      → (r : Option Candidate) → Scanned Refusal a rest r
      → Scanned Refusal a ((label, k) ∷ rest) r
  further label k rest h (some c) s = (s.0, inr s.1)
  further label k rest (inl refusal) none s = inl refusal
  further label k rest (inr other) none (inl refusal) = inl refusal
  further label k rest (inr other) none (inr others) = inr (other, others)

  candidate_done-Looks :
      (label : Text) (k : List ℕ) (rest : List Candidate) (next : CliM C T (Option Candidate))
      (r : AuthResult)
      → Looks T view a (Scanned Refusal a rest) next
      → Says Refusal a key0 k r
      → Looks T view a
          (Scanned Refusal a ((label, k) ∷ rest))
          (candidate_done ops rng (label, k) next r)
  unfolding candidate_done
  candidate_done-Looks label k rest next success look h =
      then-Looks T view a _ _ _ _ (log-Looks T view a _ _) (λ _ _.
        pure-Looks T view a (Scanned Refusal a ((label, k) ∷ rest)) (some (label, k)) (h, inl refl))
  candidate_done-Looks label k rest next wrong_key look h =
      then-Looks T view a _ _ _ _ (record-Looks T view a) λ _ _.
        then-Looks T view a _ _ _ _ (log-Looks T view a _ _)
          λ _ _. weaken-Looks T view a _ _ _ look (further label k rest h)
  candidate_done-Looks label k rest next auth_delay look h =
      then-Looks T view a _ _ _ _ (log-Looks T view a _ _)
        (λ _ _. lifted-Looks T view a (Scanned Refusal a ((label, k) ∷ rest)) _)
  candidate_done-Looks label k rest next auth_error look h =
      then-Looks T view a _ _ _ _ (log-Looks T view a _ _)
        (λ _ _. weaken-Looks T view a _ _ _ look (further label k rest h))

  pub scan-Looks :
      (attempts : ℕ) (list : List Candidate)
      → Looks T view a (Scanned Refusal a list) (scan ops rng attempts list)
  unfolding scan
  scan-Looks attempts [] =
      then-Looks T view a _ _ _ _ (log-Looks T view a _ _)
        (λ _ _. pure-Looks T view a (Scanned Refusal a []) none (inr tt))
  scan-Looks attempts ((label, k) ∷ rest) =
      then-Looks T view a _ _ _ _ (log-Looks T view a _ _) λ _ _.
        then-Looks T view a _ _ _ _ (try_auth-Looks k attempts)
          λ r says. candidate_done-Looks label k rest _ r (scan-Looks attempts rest) says

  uid-Looks :
      (message : Text)
      → Looks T view a
          (λ uid. uid_to_fixed uid ≡ the_uid)
          (with_context message ops.get_selected_uid)
  unfolding Looks Outcome with_context contextual
  uid-Looks message d e =
      go (ops.get_selected_uid d.card) (law.get_selected_uid_law d.card) (still.uid_law d.card)
    where
      go :
          (p : C × Result (SessionError T) Uid)
          → Outcome view (λ uid card. card ≡ view d.card) (λ card. (card ≡ view d.card) × Refusal) p
          → ((uid : Uid) → p.1 ≡ ok uid → uid_to_fixed uid ≡ the_uid)
          → Outcome
              (desk_view view)
              (λ uid card. (card ≡ a) × (uid_to_fixed uid ≡ the_uid))
              (λ card. card ≡ a)
              (record d { card = p.0 }, contextual message p.1)
      go (c, ok uid) h same = (h ∙ e, same uid refl)
      go (c, err x) h same = h.0 ∙ e

  pub cmd_scan_keys-Looks :
      (crypto : Crypto) (issuer_key : List ℕ) (attempts : ℕ)
      → Looks T view a
          (Scanned Refusal a (candidates crypto issuer_key the_uid))
          (cmd_scan_keys ops rng crypto issuer_key attempts)
  unfolding cmd_scan_keys
  cmd_scan_keys-Looks crypto issuer_key attempts =
      then-Looks T view a _ _ _ _ (uid-Looks _) (λ uid same.
        rw same (scan-Looks (clamp_attempts attempts) (candidates crypto issuer_key the_uid)))

module _ {C S Sdm T : Type 0} {Refusal : Type 0} (ops : Ntag424 C S Sdm T)
    (rng : C → C × Option (List ℕ)) (view : C → Card Sdm) (law : IsNtag424 ops view Refusal)
    (the_uid : List ℕ) (still : IsStill ops rng view the_uid)
    (undrawn : (c : C) → (rng c).1 ≡ none → Refusal) where
  -- While the card keeps its UID, the scan for keys leaves the card's keys, key versions, file and
  -- settings as they were; a key that it reports is the card's master key and one of the seven
  -- candidates, and when it ends without one, none of the candidates is, or the link broke, the card
  -- refused for another reason than the key, or no random number could be drawn.
  pub cmd_scan_keys_lem :
      (crypto : Crypto) (issuer_key : List ℕ) (attempts : ℕ) (d : Desk C)
      → Outcome
          (desk_view view)
          (λ r card.
            (card ≡ view d.card)
            × Scanned Refusal (view d.card) (candidates crypto issuer_key the_uid) r)
          (λ card. card ≡ view d.card)
          (cmd_scan_keys ops rng crypto issuer_key attempts d)
  unfolding Looks
  cmd_scan_keys_lem crypto issuer_key attempts d =
      cmd_scan_keys-Looks ops rng view law the_uid still undrawn (view d.card) crypto issuer_key
        attempts d refl
