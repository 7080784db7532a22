-- ===== src/Cli/Testck/RoundTrip.antt =====
-- apps/bolty-cli/src/testck.rs: what the command leaves on the card.
use bolty_rs.Prelude.{
  ℕ, ◌≡◌, ◌≢◌, ◌⊎◌, inl, inr, refl, sym, subst, ◌∙◌, arith, Bool, true, not, ◌==◌, Bool-cases,
  Option, none, some, List, ◌∷◌, replicate,
}
use bolty_rs.Prelude.Text.{codes}
use bolty_rs.Prelude.Act.{Outcome, continued, raise_if, raise_if_step, ◌>>=◌, ◌>>◌}
use bolty_rs.Cli.Tool.{
  AuditEvent, CliError, bail, Desk, CliM, log_event_with_provenance, drawn, gen_rnd_a,
}
use bolty_rs.Cli.Diagnose.{KeyProvenance}
use bolty_rs.Cli.Looking.{IsStill, desk_view}
use bolty_rs.Cli.Testck.{test_key, change_back, change_there, authenticated, cmd_testck}
use bolty_rs.Ntag.Link.{key0, key1, Ntag424}
use bolty_rs.Ntag.Card.{Card, with_key, IsNtag424}
use bolty_rs.Cli.Testck.Steps.{context_step, version_step, change_step}

abbrev zeros : List ℕ
zeros = replicate 16 0

module _ {Sdm : Type 0} (a : Card Sdm) where
  -- The card between the two steps, and after both
  abbrev pub changed : Card Sdm
  changed = with_key key1 test_key 1 a

  abbrev pub changed_back : Card Sdm
  changed_back = with_key key1 zeros 0 changed

  abbrev pub IsBlank : Type 0
  IsBlank = (zeros ≡ a.keys key0) × (a.versions key1 ≡ 0) × (zeros ≡ a.keys key1)

  abbrev pub Passed : Unit {0} → Card Sdm → Type 0
  Passed r card = (card ≡ changed_back) × (zeros ≡ a.keys key0) × (a.versions key1 ≡ 0)

  abbrev pub Stopped : Type 0 → Card Sdm → Type 0
  Stopped Refusal card =
      ((card ≡ a) ⊎ (card ≡ changed) ⊎ (card ≡ changed_back)) × (Refusal ⊎ ¬ IsBlank)

module _ {C S Sdm T : Type 0} {Refusal : Type 0} (ops : Ntag424 C S Sdm T)
    (rng : C → C × Option (List ℕ)) (view : C → Card Sdm) (law : IsNtag424 ops view Refusal)
    (a : Card Sdm) where
  logged_lem :
      (event : AuditEvent) (provenance : Option KeyProvenance) (d : Desk C)
      → Passed a tt (view d.card)
      → Outcome
          (desk_view view)
          (Passed a)
          (Stopped a Refusal)
          (log_event_with_provenance {T = T} event provenance d)
  unfolding log_event_with_provenance Outcome
  logged_lem event provenance d h = h

  back_lem :
      (s : S) (d : Desk C)
      → view d.card ≡ changed a
      → zeros ≡ a.keys key0
      → a.versions key1 ≡ 0
      → Outcome (desk_view view) (Passed a) (Stopped a Refusal) (change_back ops rng s d)
  unfolding change_back
  back_lem s d e h0 h1 =
      change_step ops view law (Passed a) (Stopped a Refusal) _ _ s zeros 0 test_key (changed a) d e
        (λ y.
          let refusal = only_refusal y in
          ((inr (inl refl), inl refusal), (inr (inr refl), inl refusal)))
        λ s1 d1 e1.
          version_step ops view law (Passed a) (Stopped a Refusal) _ s1 (changed_back a) d1 e1
            (λ refusal. (inr (inr refl), inl refusal))
            λ s2 d2 e2.
              raise_if_step (desk_view view) (Stopped a Refusal) (Passed a) _ _ _ d2 refl
                (logged_lem _ _ d2 (e2, h0, h1))
    where
      only_refusal : Refusal ⊎ (test_key ≢ test_key) → Refusal
      only_refusal (inl refusal) = refusal
      only_refusal (inr other) = elim (other refl) [ ]

  there_lem :
      (s : S) (d : Desk C)
      → view d.card ≡ a
      → zeros ≡ a.keys key0
      → a.versions key1 ≡ 0
      → Outcome (desk_view view) (Passed a) (Stopped a Refusal) (change_there ops rng s d)
  unfolding change_there
  there_lem s d e h0 h1 =
      change_step ops view law (Passed a) (Stopped a Refusal) _ _ s test_key 1 zeros a d e
        (λ y. let why = not_blank y in ((inl refl, why), (inr (inl refl), why)))
        λ s1 d1 e1.
          version_step ops view law (Passed a) (Stopped a Refusal) _ s1 (changed a) d1 e1
            (λ refusal. (inr (inl refl), inl refusal))
            λ s2 d2 e2.
              raise_if_step (desk_view view) (Stopped a Refusal) (Passed a) _ _ _ d2 refl
                (back_lem s2 d2 e2 h0 h1)
    where
      not_blank : Refusal ⊎ (zeros ≢ a.keys key1) → Refusal ⊎ ¬ IsBlank a
      not_blank (inl refusal) = inl refusal
      not_blank (inr other) = inr λ blank. other blank.2

  stop_lem :
      (t : Bool) (message : CliError T) (k : CliM C T (Unit {0})) (d : Desk C)
      → t ≡ true
      → Stopped a Refusal (view d.card)
      → Outcome (desk_view view) (Passed a) (Stopped a Refusal) ((raise_if t message >> k) d)
  unfolding Outcome raise_if ◌>>=◌ continued
  stop_lem t message k d h x = rw h x

  -- From the version of key 1 on
  version_lem :
      (s : S) (d : Desk C)
      → view d.card ≡ a
      → zeros ≡ a.keys key0
      → Outcome (desk_view view) (Passed a) (Stopped a Refusal) (
          (raise_if (not (a.versions key1 == 0)) (bail (codes "Key 1 not at factory"))
              >> change_there ops rng s)
            d)
  version_lem s d e h0 = elim (Bool-cases (a.versions key1 == 0)) [
    | inl same ↦
        raise_if_step (desk_view view) (Stopped a Refusal) (Passed a) _ _ _ d (rw same refl)
          (there_lem s d e h0 (ground (arith, same)))
    | inr other ↦
        stop_lem (not (a.versions key1 == 0)) _ _ d (rw other refl) (
          subst (Stopped a Refusal) (sym e) (inl refl, inr λ blank. ground (arith, other, blank.1)))
  ]

  -- From the authentication on
  opened_lem :
      (rnd_a : List ℕ) (d : Desk C)
      → view d.card ≡ a
      → Outcome (desk_view view) (Passed a) (Stopped a Refusal) (authenticated ops rng rnd_a d)
  unfolding authenticated
  opened_lem rnd_a d e =
      context_step view (Passed a) (Stopped a Refusal) _ _ _ _ _ d
        (law.authenticate_aes_law key0 zeros rnd_a d.card)
        (λ card y. (inl (y.0 ∙ e), not_open (subst (λ v. Refusal ⊎ (zeros ≢ v.keys key0)) e y.1)))
        (λ s d1 q.
          version_step ops view law (Passed a) (Stopped a Refusal) _ s a d1 (q.0 ∙ e)
            (λ refusal. (inl refl, inl refusal))
            λ s2 d2 e2. version_lem s2 d2 e2 (subst (λ v. zeros ≡ v.keys key0) e q.1))
    where
      not_open : Refusal ⊎ (zeros ≢ a.keys key0) → Refusal ⊎ ¬ IsBlank a
      not_open (inl refusal) = inl refusal
      not_open (inr other) = inr λ blank. other blank.0

module _ {C S Sdm T : Type 0} {Refusal : Type 0} (ops : Ntag424 C S Sdm T)
    (rng : C → C × Option (List ℕ)) (view : C → Card Sdm) (law : IsNtag424 ops view Refusal)
    (the_uid : List ℕ) (still : IsStill ops rng view the_uid)
    (undrawn : (c : C) → (rng c).1 ≡ none → Refusal) where
  drawn_lem :
      (a : Card Sdm) (event : AuditEvent) (provenance : Option KeyProvenance) (d : Desk C)
      → view d.card ≡ a
      → Outcome (desk_view view) (Passed a) (Stopped a Refusal) (
          (log_event_with_provenance event provenance >> (gen_rnd_a rng >>= authenticated ops rng))
            d)
  unfolding log_event_with_provenance gen_rnd_a drawn ◌>>=◌ continued Outcome
  drawn_lem a event provenance d e = go (rng d.card) (undrawn d.card) (still.rng_law d.card ∙ e)
    where
      go :
          (p : C × Option (List ℕ))
          → (p.1 ≡ none → Refusal)
          → view p.0 ≡ a
          → Outcome (desk_view view) (Passed a) (Stopped a Refusal) (
              continued
                (authenticated ops rng)
                (record d { card = p.0; audit = (event, provenance) ∷ d.audit }, drawn p.1))
      go (c, none) h same = (inl same, inl (h refl))
      go (c, some rnd_a) h same = opened_lem ops rng view law a rnd_a _ same

  -- While the card keeps its UID, the test of ChangeKey succeeds only for a card with the factory's
  -- master key and key 1 at version 0, ends with key 1 as the factory's at version 0, and changes no
  -- other key, version, file or setting; when it stops, these are as they were, or key 1 is the test
  -- key or the factory's and the others are as they were, and it stops only for a card that is not
  -- blank, or because the link broke, the card refused for another reason than a key, or no random
  -- number could be drawn.
  pub cmd_testck_lem :
      (d : Desk C)
      → Outcome
          (desk_view view)
          (Passed (view d.card))
          (Stopped (view d.card) Refusal)
          (cmd_testck ops rng d)
  unfolding cmd_testck
  cmd_testck_lem d =
      context_step view (Passed (view d.card)) (Stopped (view d.card) Refusal) _ _ _ _ _ d
        (law.get_selected_uid_law d.card) (λ card y. (inl y.0, inl y.1))
        (λ uid d1 e. drawn_lem (view d.card) _ _ d1 e)
