-- ===== src/Cli/Looking.antt =====
-- The parts of a command of apps/bolty-cli that only look at the card `a`, and what they find out.
pub mod AtCard
use bolty_rs.Prelude.{
  ℕ, ◌≡◌, ◌≢◌, ◌⊎◌, inl, inr, refl, sym, subst, ◌∙◌, Bool, true, false, not, Option, none, some,
  List, [], ◌∷◌, Result, ok, err, All, Bool-cases, leb, ◌+◌, if◌then◌else◌,
}
use bolty_rs.Prelude.Text.{Text, codes, eq, eq_iff}
use bolty_rs.Prelude.Act.{pure, continued, raise_if, Outcome, continued_step, pure_lem, ◌>>=◌, ◌>>◌}
use bolty_rs.Cli.Diagnose.{KeyProvenance}
use bolty_rs.Cli.Tool.{
  AuditEvent, CliError, bail, exited, Desk, CliM, circuit_breaker_threshold, auth_retry_delays,
  Auth, accepted, refused, exhausted, tried, either_way, lifted, log_event_with_provenance,
  record_auth_failure, replaced, or_bail, mapped, on_ntag, contextual, with_context, drawn,
  gen_rnd_a, attempt, ladder, judged, works,
}
use bolty_rs.Ntag.Link.{
  KeyNumber, SessionError, Error, Uid, uid_to_fixed, Ntag424, CardM, converted, call,
  is_session_auth_delay, Version,
}
use bolty_rs.Ntag.Inspect.{preflight_with_chip_check, check_chip}
use bolty_rs.Ntag.Card.{Card, IsNtag424}

-- The card in the field has the UID `the_uid`, and neither a look at its version or file nor a random
-- number changes it.
pub record IsStill {C S Sdm T : Type 0} (ops : Ntag424 C S Sdm T) (rng : C → C × Option (List ℕ))
    (view : C → Card Sdm) (the_uid : List ℕ) : Type 0 where
  pub rng_law : (c : C) → view (rng c).0 ≡ view c
  pub get_version_law : (c : C) → view (ops.get_version c).0 ≡ view c
  pub read_file_unauthenticated_law :
      (offset : ℕ) (buf : List ℕ) (c : C)
      → view (ops.read_file_unauthenticated offset buf c).0 ≡ view c
  pub uid_law :
      (c : C) (uid : Uid) → (ops.get_selected_uid c).1 ≡ ok uid → uid_to_fixed uid ≡ the_uid

module _ {C Sdm : Type 0} (view : C → Card Sdm) where
  abbrev pub desk_view : Desk C → Card Sdm
  desk_view d = view d.card

module _ {C Sdm : Type 0} (T : Type 0) (view : C → Card Sdm) (a : Card Sdm) where
  -- Work that leaves the card `a` as it is, also when it fails, and whose results are as `Q` says.
  unfoldable pub Looks : {A : Type 0} → (A → Type 0) → CliM C T A → Type 0
  Looks Q m =
      (d : Desk C)
      → view d.card ≡ a
      → Outcome (desk_view view) (λ r card. (card ≡ a) × Q r) (λ card. card ≡ a) (m d)

  pub pure-Looks : {A : Type 0} (Q : A → Type 0) (r : A) → Q r → Looks Q (pure r)
  unfolding Looks pure Outcome
  pure-Looks Q r q d e = (e, q)

  pub lifted-Looks : {A : Type 0} (Q : A → Type 0) (e : CliError T) → Looks Q (lifted (err e))
  unfolding Looks lifted Outcome
  lifted-Looks Q err_value d e = e

  pub raise_if-Looks :
      (Q : Unit {0} → Type 0) (t : Bool) (message : CliError T)
      → (t ≡ false → Q tt)
      → Looks Q (raise_if t message)
  unfolding Looks raise_if Outcome
  raise_if-Looks Q true message h d e = e
  raise_if-Looks Q false message h d e = (e, h refl)

  pub then-Looks :
      {A B : Type 0} (Q : A → Type 0) (R : B → Type 0) (m : CliM C T A) (f : A → CliM C T B)
      → Looks Q m
      → ((r : A) → Q r → Looks R (f r))
      → Looks R (m >>= f)
  unfolding Looks
  then-Looks Q R m f look next d e =
      continued_step (desk_view view) (λ card. card ≡ a) m f (λ r card. (card ≡ a) × Q r)
        (λ r card. (card ≡ a) × R r) d (look d e) (λ r d' q. next r q.1 d' q.0)

  pub weaken-Looks :
      {A : Type 0} (Q R : A → Type 0) (m : CliM C T A)
      → Looks Q m
      → ((r : A) → Q r → R r)
      → Looks R m
  unfolding Looks Outcome
  weaken-Looks {A} Q R m look more d e = go (m d) (look d e)
    where
      go :
          (p : Desk C × Result (CliError T) A)
          → Outcome (desk_view view) (λ r card. (card ≡ a) × Q r) (λ card. card ≡ a) p
          → Outcome (desk_view view) (λ r card. (card ≡ a) × R r) (λ card. card ≡ a) p
      go (d', ok r) h = (h.0, more r h.1)
      go (d', err y) h = h

  pub log-Looks :
      (event : AuditEvent) (provenance : Option KeyProvenance)
      → Looks (λ _. Unit {0}) (log_event_with_provenance event provenance)
  unfolding Looks log_event_with_provenance Outcome
  log-Looks event provenance d e = (e, tt)

  pub record-Looks : Looks (λ _. Unit {0}) record_auth_failure
  unfolding Looks record_auth_failure Outcome
  record-Looks d e = elim (Bool-cases (leb circuit_breaker_threshold (d.auth_failures + 1))) [
    | inl h ↦ rw h e
    | inr h ↦ rw h (e, tt)
  ]

  pub or_bail-Looks :
      {A : Type 0} (Q : A → Type 0) (message : CliError T) (m : CliM C T A)
      → Looks Q m
      → Looks Q (or_bail message m)
  unfolding Looks or_bail replaced Outcome
  or_bail-Looks {A} Q message m look d e = go (m d) (look d e)
    where
      go :
          (p : Desk C × Result (CliError T) A)
          → Outcome (desk_view view) (λ r card. (card ≡ a) × Q r) (λ card. card ≡ a) p
          → Outcome
              (desk_view view)
              (λ r card. (card ≡ a) × Q r)
              (λ card. card ≡ a)
              (replaced message p)
      go (d', ok r) h = h
      go (d', err e') h = h

  -- A call that keeps the card, with what its answers show
  pub tried-Looks :
      {A E : Type 0} (Q : Result E A → Type 0) (op : C → C × Result E A)
      → ((c : C) → view c ≡ a → (view (op c).0 ≡ a) × Q (op c).1)
      → Looks Q (tried op)
  unfolding Looks tried Outcome
  tried-Looks Q op h d e = h d.card e

  pub context-Looks :
      {A : Type 0} (message : Text) (op : C → C × Result (SessionError T) A)
      → ((c : C) → view c ≡ a → view (op c).0 ≡ a)
      → Looks (λ _. Unit {0}) (with_context message op)
  unfolding Looks with_context Outcome
  context-Looks {A} message op keep d e = go (op d.card) (keep d.card e)
    where
      go :
          (p : C × Result (SessionError T) A)
          → view p.0 ≡ a
          → Outcome
              (desk_view view)
              (λ r card. (card ≡ a) × Unit {0})
              (λ card. card ≡ a)
              (record d { card = p.0 }, contextual message p.1)
      go (c, ok r) h = (h, tt)
      go (c, err x) h = h

  pub ntag-Looks :
      {A : Type 0} (Q : A → Type 0) (op : C → C × Result (Error T) A)
      → ((c : C) → view c ≡ a → Outcome view (λ r card. (card ≡ a) × Q r) (λ card. card ≡ a) (op c))
      → Looks Q (on_ntag op)
  unfolding Looks on_ntag Outcome
  ntag-Looks {A} Q op keep d e = go (op d.card) (keep d.card e)
    where
      go :
          (p : C × Result (Error T) A)
          → Outcome view (λ r card. (card ≡ a) × Q r) (λ card. card ≡ a) p
          → Outcome
              (desk_view view)
              (λ r card. (card ≡ a) × Q r)
              (λ card. card ≡ a)
              (record d { card = p.0 }, mapped p.1)
      go (c, ok r) h = h
      go (c, err x) h = h

  -- A look, and then work that may change the card.
  pub look_step :
      {A B : Type 0} (Q : A → Type 0) (R : B → Card Sdm → Type 0) (X : Card Sdm → Type 0)
      (m : CliM C T A) (f : A → CliM C T B)
      → Looks Q m
      → X a
      → ((r : A) → Q r → (d : Desk C) → view d.card ≡ a → Outcome (desk_view view) R X (f r d))
      → (d : Desk C) → view d.card ≡ a
      → Outcome (desk_view view) R X ((m >>= f) d)
  unfolding Looks Outcome ◌>>=◌ continued
  look_step {A} {B} Q R X m f look x next d e = go (m d) (look d e)
    where
      go :
          (p : Desk C × Result (CliError T) A)
          → Outcome (desk_view view) (λ r card. (card ≡ a) × Q r) (λ card. card ≡ a) p
          → Outcome (desk_view view) R X (continued f p)
      go (d', ok r) h = next r h.1 d' h.0
      go (d', err y) h = subst X (sym h) x

  -- Work that only looks does what is asked of work in general.
  pub look_lem :
      {A : Type 0} (Q : A → Type 0) (R : A → Card Sdm → Type 0) (X : Card Sdm → Type 0)
      (m : CliM C T A)
      → Looks Q m
      → X a
      → ((r : A) → Q r → R r a)
      → (d : Desk C) → view d.card ≡ a
      → Outcome (desk_view view) R X (m d)
  unfolding Looks Outcome
  look_lem {A} Q R X m look x done d e = go (m d) (look d e)
    where
      go :
          (p : Desk C × Result (CliError T) A)
          → Outcome (desk_view view) (λ r card. (card ≡ a) × Q r) (λ card. card ≡ a) p
          → Outcome (desk_view view) R X p
      go (d', ok r) h = subst (R r) (sym h.0) (done r h.1)
      go (d', err y) h = subst X (sym h) x

  -- What holds after an answer and after an error
  pub either_lem :
      {A B : Type 0} (R : B → Card Sdm → Type 0) (X : Card Sdm → Type 0) (found : A → CliM C T B)
      (missing : CliM C T B) (r : Result (SessionError T) A) (d : Desk C)
      → ((s : A) → Outcome (desk_view view) R X (found s d))
      → Outcome (desk_view view) R X (missing d)
      → Outcome (desk_view view) R X (either_way found missing r d)
  unfolding either_way
  either_lem R X found missing (ok s) d h k = h s
  either_lem R X found missing (err e) d h k = k
