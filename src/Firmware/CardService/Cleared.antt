-- ===== src/Firmware/CardService/Cleared.antt =====
-- apps/bolty-esp32/src/firmware/card_operations.rs: what a burn and a wipe of the service do to the card.
use bolty_rs.Prelude.{
  ℕ, ◌≡◌, ◌≢◌, ◌⊎◌, inl, inr, refl, subst, ◌∙◌, arith, Bool, true, false, Option, none, some, List,
  Result, ok, err, Bool-cases,
}
use bolty_rs.Prelude.Text.{Text, Heapless}
use bolty_rs.Prelude.Act.{Outcome, continued, pure, raise_if, ◌>>=◌}
use bolty_rs.Core.Keys.{AesKey, CardKeys, factory_key}
use bolty_rs.Core.Crypto.{Crypto}
use bolty_rs.Firmware.Workflow.{WorkflowResult}
use bolty_rs.Firmware.CardService.{
  Esp32BoltyService, ServiceM, factory_card_keys, returned_early, attempted, gen_rnd,
}
use bolty_rs.Firmware.CardService.Operations.{
  activated, activate_transport, retried, tried_factory, current_keys,
}
use bolty_rs.Ntag.Link.{key0, SessionError, Error, Ntag424, is_session_auth_delay}
use bolty_rs.Ntag.Card.{Card, IsNtag424}

-- Neither finding a card nor a random number changes it.
pub record IsSteady {C Sdm : Type 0} (activate : C → C × Option (List ℕ)) (rng : C → C × List ℕ)
    (view : C → Card Sdm) : Type 0 where
  pub activate_law : (c : C) → view (activate c).0 ≡ view c
  pub rng_law : (c : C) → view (rng c).0 ≡ view c

module _ {C Sdm : Type 0} (view : C → Card Sdm) (a : Card Sdm) where
  -- Work of the service that leaves the card `a` as it is, and whose results are as `Q` says.
  unfoldable pub Keeps : {A : Type 0} → (A → Type 0) → ServiceM C A → Type 0
  Keeps Q m =
      (s : Esp32BoltyService C)
      → view s.link ≡ a
      → Outcome (λ s. s) (λ r s'. (view s'.link ≡ a) × Q r) (λ s'. view s'.link ≡ a) (m s)

  pub pure-Keeps : {A : Type 0} (Q : A → Type 0) (r : A) → Q r → Keeps Q (pure r)
  unfolding Keeps pure Outcome
  pure-Keeps Q r q s e = (e, q)

  pub returned-Keeps :
      {A : Type 0} (Q : A → Type 0) (r : Result WorkflowResult A)
      → ((x : A) → r ≡ ok x → Q x)
      → Keeps Q (returned_early r)
  unfolding Keeps returned_early Outcome
  returned-Keeps Q (ok x) q s e = (e, q x refl)
  returned-Keeps Q (err x) q s e = e

  pub raise_if-Keeps : (t : Bool) (e : WorkflowResult) → Keeps (λ _. Unit {0}) (raise_if t e)
  unfolding Keeps raise_if Outcome
  raise_if-Keeps true e s same = same
  raise_if-Keeps false e s same = (same, tt)

  pub attempted-Keeps :
      {A E : Type 0} (Q : Result E A → Type 0) (op : C → C × Result E A)
      → ((c : C) → view c ≡ a → (view (op c).0 ≡ a) × Q (op c).1)
      → Keeps Q (attempted op)
  unfolding Keeps attempted Outcome
  attempted-Keeps Q op h s e = h s.link e

  -- Work that keeps the card, and then work that may change it.
  pub keep_step :
      {A B : Type 0} (Q : A → Type 0) (R : B → Esp32BoltyService C → Type 0)
      (X : Esp32BoltyService C → Type 0) (m : ServiceM C A) (f : A → ServiceM C B)
      → Keeps Q m
      → ((s : Esp32BoltyService C) → view s.link ≡ a → X s)
      → ((r : A) → Q r → (s : Esp32BoltyService C) → view s.link ≡ a → Outcome (λ s. s) R X (f r s))
      → (s : Esp32BoltyService C) → view s.link ≡ a
      → Outcome (λ s. s) R X ((m >>= f) s)
  unfolding Keeps Outcome ◌>>=◌ continued
  keep_step {A} {B} Q R X m f keeps x next s e = go (m s) (keeps s e)
    where
      go :
          (p : Esp32BoltyService C × Result WorkflowResult A)
          → Outcome (λ s. s) (λ r s'. (view s'.link ≡ a) × Q r) (λ s'. view s'.link ≡ a) p
          → Outcome (λ s. s) R X (continued f p)
      go (s', ok r) h = next r h.1 s' h.0
      go (s', err y) h = x s' h

  pub then-Keeps :
      {A B : Type 0} (Q : A → Type 0) (R : B → Type 0) (m : ServiceM C A) (f : A → ServiceM C B)
      → Keeps Q m
      → ((r : A) → Q r → Keeps R (f r))
      → Keeps R (m >>= f)
  unfolding Keeps
  then-Keeps Q R m f keeps next s e =
      keep_step Q (λ r s'. (view s'.link ≡ a) × R r) (λ s'. view s'.link ≡ a) m f keeps
        (λ s' e'. e') (λ r q s' e'. next r q s' e') s e

module _ {C S Sdm T V : Type 0} {Refusal : Type 0} (h : Heapless) (crypto : Crypto)
    (ops : Ntag424 C S Sdm T) (activate : C → C × Option (List ℕ)) (rng : C → C × List ℕ)
    (debug : Error T → Text) (verify : Sdm → List ℕ → List ℕ → List ℕ → Option V) (file_size : ℕ)
    (view : C → Card Sdm) (law : IsNtag424 ops view Refusal) (steady : IsSteady activate rng view)
    (a : Card Sdm) where
  pub activate-Keeps : Keeps view a (λ _. Unit {0}) (activate_transport h activate)
  unfolding Keeps Outcome activate_transport
  activate-Keeps s e = elim (Bool-cases s.has_transceiver) [
    | inl there ↦ simp there (go (activate s.link) (steady.activate_law s.link ∙ e))
    | inr missing ↦ rw missing e
  ]
    where
      go :
          (p : C × Option (List ℕ))
          → view p.0 ≡ a
          → Outcome
              (λ s. s)
              (λ r s'. (view s'.link ≡ a) × Unit {0})
              (λ s'. view s'.link ≡ a)
              (activated h activate s p)
      go (c, some uid) h = (h, tt)
      go (c, none) h = h

  -- After the activation, with the UID that it gave.
  pub activate_step :
      {B : Type 0} (R : B → Esp32BoltyService C → Type 0) (X : Esp32BoltyService C → Type 0)
      (f : List ℕ → ServiceM C B) (s : Esp32BoltyService C)
      → view s.link ≡ a
      → ((s' : Esp32BoltyService C) → view s'.link ≡ a → X s')
      → ((uid : List ℕ)
          → (activate s.link).1 ≡ some uid
          → (s' : Esp32BoltyService C) → view s'.link ≡ a
          → Outcome (λ s. s) R X (f uid s'))
      → Outcome (λ s. s) R X ((activate_transport h activate >>= f) s)
  unfolding Outcome activate_transport ◌>>=◌ continued
  activate_step {B} R X f s e x next = elim (Bool-cases s.has_transceiver) [
    | inl there ↦
        simp there
          (go (activate s.link) (steady.activate_law s.link ∙ e) (λ uid given. next uid given))
    | inr missing ↦ simp missing (x _ e)
  ]
    where
      go :
          (p : C × Option (List ℕ))
          → view p.0 ≡ a
          → ((uid : List ℕ)
              → p.1 ≡ some uid
              → (s' : Esp32BoltyService C) → view s'.link ≡ a
              → Outcome (λ s. s) R X (f uid s'))
          → Outcome (λ s. s) R X (continued f (activated h activate s p))
      go (c, some uid) h k = k uid refl _ h
      go (c, none) h k = x _ h

  pub gen_rnd-Keeps : Keeps view a (λ _. Unit {0}) (gen_rnd rng)
  unfolding Keeps Outcome gen_rnd
  gen_rnd-Keeps s e = (steady.rng_law s.link ∙ e, tt)

  abbrev pub Opened : List ℕ → Result (SessionError T) S → Type 0
  Opened k (ok s) = k ≡ a.keys key0
  Opened k (err e) = Unit {0}

  pub authenticate-Keeps :
      (k rnd_a : List ℕ) → Keeps view a (Opened k) (attempted (ops.authenticate_aes key0 k rnd_a))
  unfolding Outcome
  authenticate-Keeps k rnd_a =
      attempted-Keeps view a (Opened k) (ops.authenticate_aes key0 k rnd_a) (λ c e.
        go c e (ops.authenticate_aes key0 k rnd_a c) (law.authenticate_aes_law key0 k rnd_a c))
    where
      go :
          (c : C)
          → view c ≡ a
          → (r : C × Result (SessionError T) S)
          → Outcome view
              (λ s card. (card ≡ view c) × (k ≡ (view c).keys key0))
              (λ card. (card ≡ view c) × (Refusal ⊎ (k ≢ (view c).keys key0)))
              r
          → (view r.0 ≡ a) × Opened k r.1
      go c e (c', ok s) h = (h.0 ∙ e, subst (λ v. k ≡ v.keys key0) e h.1)
      go c e (c', err x) h = (h.0 ∙ e, tt)

  -- The keys that the burn takes the card to have: the factory's or the new ones, and the master key
  -- is the card's.
  abbrev pub IsCurrent : CardKeys → AesKey × CardKeys → Type 0
  IsCurrent keyset current =
      ((current ≡ (record { bytes = factory_key }, factory_card_keys))
        ⊎ (current ≡ (keyset.k0, keyset)))
      × (current.0.bytes ≡ a.keys key0)

  retried-Keeps :
      (keyset : CardKeys) (r : Result (SessionError T) S)
      → Opened keyset.k0.bytes r
      → Keeps view a
          (IsCurrent keyset)
          (retried h crypto ops activate rng debug verify file_size keyset r)
  unfolding retried
  retried-Keeps keyset (ok s) o = pure-Keeps view a (IsCurrent keyset) _ (inr refl, o)
  retried-Keeps keyset (err e) o =
      returned-Keeps view a (IsCurrent keyset) _ (λ x impossible. ground (arith, impossible))

  tried_factory-Keeps :
      (keyset : CardKeys) (r : Result (SessionError T) S)
      → Opened factory_key r
      → Keeps view a
          (IsCurrent keyset)
          (tried_factory h crypto ops activate rng debug verify file_size keyset r)
  unfolding tried_factory
  tried_factory-Keeps keyset (ok s) o = pure-Keeps view a (IsCurrent keyset) _ (inl refl, o)
  tried_factory-Keeps keyset (err e) o = elim (Bool-cases (is_session_auth_delay e)) [
    | inl delayed ↦
        rw delayed
          (returned-Keeps view a (IsCurrent keyset) _ (λ x impossible. ground (arith, impossible)))
    | inr other ↦ rw other (
        then-Keeps view a _ _ _ _ gen_rnd-Keeps λ rnd_a _.
          then-Keeps view a _ _ _ _ (authenticate-Keeps keyset.k0.bytes rnd_a)
            λ r o. retried-Keeps keyset r o)
  ]

  pub current_keys-Keeps :
      (keyset : CardKeys)
      → Keeps view a
          (IsCurrent keyset)
          (current_keys h crypto ops activate rng debug verify file_size keyset)
  unfolding current_keys
  current_keys-Keeps keyset = then-Keeps view a _ _ _ _ gen_rnd-Keeps λ rnd_a _.
      then-Keeps view a _ _ _ _ (authenticate-Keeps factory_key rnd_a)
        λ r o. tried_factory-Keeps keyset r o
