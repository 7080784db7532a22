-- ===== src/Cli/Testck/Steps.antt =====
-- apps/bolty-cli/src/testck.rs: one call of the session at a time.
use bolty_rs.Prelude.{ℕ, ◌≡◌, ◌≢◌, ◌⊎◌, inl, inr, sym, ap, subst, ◌∙◌, List, Result, ok, err}
use bolty_rs.Prelude.Text.{Text}
use bolty_rs.Prelude.Act.{Outcome, continued, ◌>>=◌}
use bolty_rs.Cli.Tool.{Desk, CliM, contextual, with_context, plain, in_session}
use bolty_rs.Cli.Looking.{desk_view}
use bolty_rs.Ntag.Link.{key1, non_master_key1, SessionError, Ntag424}
use bolty_rs.Ntag.Card.{Card, with_key, IsNtag424}

module _ {C A B T V : Type 0} (view : C → V) (R : B → V → Type 0) (X : V → Type 0)
    (Q : A → V → Type 0) (Y : V → Type 0) (op : C → C × Result (SessionError T) A)
    (f : A → CliM C T B) where
  -- A call of the session, and the work that goes on with its answer
  pub context_step :
      (message : Text) (d : Desk C)
      → Outcome view Q Y (op d.card)
      → ((v : V) → Y v → X v)
      → ((r : A) (d' : Desk C)
          → Q r (view d'.card)
          → Outcome (λ (e : Desk C). view e.card) R X (f r d'))
      → Outcome (λ (e : Desk C). view e.card) R X ((with_context message op >>= f) d)
  unfolding Outcome with_context contextual ◌>>=◌ continued
  context_step message d h failed next = go (op d.card) h
    where
      go :
          (p : C × Result (SessionError T) A)
          → Outcome view Q Y p
          → Outcome
              (λ (e : Desk C). view e.card)
              R
              X
              (continued f (record d { card = p.0 }, contextual message p.1))
      go (c, ok r) q = next r (record d { card = c }) q
      go (c, err e) y = failed (view c) y

  pub session_step :
      (d : Desk C)
      → Outcome view Q Y (op d.card)
      → ((v : V) → Y v → X v)
      → ((r : A) (d' : Desk C)
          → Q r (view d'.card)
          → Outcome (λ (e : Desk C). view e.card) R X (f r d'))
      → Outcome (λ (e : Desk C). view e.card) R X ((in_session op >>= f) d)
  unfolding Outcome in_session plain ◌>>=◌ continued
  session_step d h failed next = go (op d.card) h
    where
      go :
          (p : C × Result (SessionError T) A)
          → Outcome view Q Y p
          → Outcome
              (λ (e : Desk C). view e.card)
              R
              X
              (continued f (record d { card = p.0 }, plain p.1))
      go (c, ok r) q = next r (record d { card = c }) q
      go (c, err e) y = failed (view c) y

module _ {C S Sdm T B : Type 0} {Refusal : Type 0} (ops : Ntag424 C S Sdm T) (view : C → Card Sdm)
    (law : IsNtag424 ops view Refusal) (R : B → Card Sdm → Type 0) (X : Card Sdm → Type 0) where
  pub version_step :
      (f : ℕ × S → CliM C T B) (s : S) (b : Card Sdm) (d : Desk C)
      → view d.card ≡ b
      → (Refusal → X b)
      → ((s' : S) (d' : Desk C)
          → view d'.card ≡ b
          → Outcome (desk_view view) R X (f (b.versions key1, s') d'))
      → Outcome (desk_view view) R X ((in_session (ops.get_key_version s key1) >>= f) d)
  version_step f s b d e failed next =
      session_step view R X _ _ _ f d (law.get_key_version_law s key1 d.card)
        (λ card y. subst X (sym (y.0 ∙ e)) (failed y.1))
        (λ r d' q.
          subst (λ n. Outcome (desk_view view) R X (f (n, r.1) d'))
            (sym (q.1 ∙ ap (λ (v : Card Sdm). v.versions key1) e)) (next r.1 d' (q.0 ∙ e)))

  -- What a call that failed has left of the card `b`
  abbrev Left : List ℕ → ℕ → List ℕ → Card Sdm → Card Sdm → Type 0
  Left k version old card b =
      ((card ≡ b) ⊎ (card ≡ with_key key1 k version b)) × (Refusal ⊎ (old ≢ b.keys key1))

  either_card : (b b' card : Card Sdm) → (card ≡ b) ⊎ (card ≡ b') → X b × X b' → X card
  either_card b b' card (inl e) x = subst X (sym e) x.0
  either_card b b' card (inr e) x = subst X (sym e) x.1

  pub change_step :
      (f : S → CliM C T B) (message : Text) (s : S) (k : List ℕ) (version : ℕ) (old : List ℕ)
      (b : Card Sdm) (d : Desk C)
      → view d.card ≡ b
      → (Refusal ⊎ (old ≢ b.keys key1) → X b × X (with_key key1 k version b))
      → ((s' : S) (d' : Desk C)
          → view d'.card ≡ with_key key1 k version b
          → Outcome (desk_view view) R X (f s' d'))
      → Outcome
          (desk_view view)
          R
          X
          ((with_context message (ops.change_key s non_master_key1 k version old) >>= f) d)
  change_step f message s k version old b d e failed next =
      context_step view R X _ _ _ f message d
        (law.change_key_law s non_master_key1 k version old d.card)
        (λ card y.
          let y' = subst (Left k version old card) e y in
          either_card b (with_key key1 k version b) card y'.0 (failed y'.1))
        (λ s' d' q. next s' d' (subst (λ v. view d'.card ≡ with_key key1 k version v) e q))
