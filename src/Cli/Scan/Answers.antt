-- ===== src/Cli/Scan/Answers.antt =====
-- apps/bolty-cli/src/scan_keys.rs and try_key.rs: what the answer to an attempt to authenticate shows.
use bolty_rs.Prelude.{
  ℕ, ◌≡◌, ◌≢◌, ◌⊎◌, inl, refl, subst, ◌∙◌, Option, none, some, List, [], ◌∷◌, Result, ok, err, All,
}
use bolty_rs.Prelude.Act.{Outcome}
use bolty_rs.Cli.Tool.{CliError, tried, drawn}
use bolty_rs.Ntag.Link.{
  KeyNumber, number_of, key0, SessionError, error_response, session_failure,
  authentication_error_status, authentication_delay_status, other_status, Ntag424,
}
use bolty_rs.Ntag.Card.{Card, IsNtag424}
use bolty_rs.Cli.Looking.{IsStill, Looks, pure-Looks, then-Looks, tried-Looks}
use bolty_rs.Cli.Scan.{
  Candidate, AuthResult, success, wrong_key, auth_delay, auth_error, auth_result, authenticate_with,
  TryEnd, key_accepted, key_rejected, delay_persists,
}

-- A candidate of a list
abbrev pub IsAmong : Candidate → List Candidate → Type 0
IsAmong c [] = ⊥
IsAmong c (d ∷ rest) = (c ≡ d) ⊎ IsAmong c rest

module _ {Sdm : Type 0} (Refusal : Type 0) (a : Card Sdm) where
  -- What the answer to one attempt shows.
  abbrev pub Says : KeyNumber → List ℕ → AuthResult → Type 0
  Says slot k success = k ≡ a.keys slot
  Says slot k wrong_key = Refusal ⊎ (k ≢ a.keys slot)
  Says slot k auth_delay = Unit {0}
  Says slot k auth_error = Refusal ⊎ (k ≢ a.keys slot)

  -- What a scan of some candidates shows.
  abbrev pub Scanned : List Candidate → Option Candidate → Type 0
  Scanned list none = Refusal ⊎ All (λ (c : Candidate). c.1 ≢ a.keys key0) list
  Scanned list (some c) = (c.1 ≡ a.keys key0) × IsAmong c list

  -- How a try of the key `k` ends well, and what that shows.
  abbrev pub Tried : KeyNumber → List ℕ → TryEnd → Type 0
  Tried slot k key_accepted = k ≡ a.keys slot
  Tried slot k key_rejected = Refusal ⊎ (k ≢ a.keys slot)
  Tried slot k delay_persists = Unit {0}

  -- The key of the number that was asked for
  abbrev pub TriedNumber : ℕ → List ℕ → TryEnd → Type 0
  TriedNumber key_no k r = (slot : KeyNumber) × (number_of slot ≡ key_no) × Tried slot k r

module _ {C S Sdm T : Type 0} {Refusal : Type 0} (ops : Ntag424 C S Sdm T)
    (rng : C → C × Option (List ℕ)) (view : C → Card Sdm) (law : IsNtag424 ops view Refusal)
    (the_uid : List ℕ) (still : IsStill ops rng view the_uid)
    (undrawn : (c : C) → (rng c).1 ≡ none → Refusal) (a : Card Sdm) where
  abbrev pub Told : KeyNumber → List ℕ → Result (SessionError T) S → Type 0
  Told slot k (ok s) = k ≡ a.keys slot
  Told slot k (err e) = Refusal ⊎ (k ≢ a.keys slot)

  pub authenticate_tells :
      (slot : KeyNumber) (k rnd_a : List ℕ)
      → Looks T view a (Told slot k) (tried (ops.authenticate_aes slot k rnd_a))
  unfolding Outcome
  authenticate_tells slot k rnd_a =
      tried-Looks T view a (Told slot k) (ops.authenticate_aes slot k rnd_a) (λ c e.
        go c e (ops.authenticate_aes slot k rnd_a c) (law.authenticate_aes_law slot k rnd_a c))
    where
      go :
          (c : C)
          → view c ≡ a
          → (r : C × Result (SessionError T) S)
          → Outcome view
              (λ s card. (card ≡ view c) × (k ≡ (view c).keys slot))
              (λ card. (card ≡ view c) × (Refusal ⊎ (k ≢ (view c).keys slot)))
              r
          → (view r.0 ≡ a) × Told slot k r.1
      go c e (c', ok s) h = (h.0 ∙ e, subst (λ v. k ≡ v.keys slot) e h.1)
      go c e (c', err x) h = (h.0 ∙ e, subst (λ v. Refusal ⊎ (k ≢ v.keys slot)) e h.1)

  pub auth_result-Says :
      (slot : KeyNumber) (k : List ℕ) (r : Result (SessionError T) S)
      → Told slot k r
      → Says Refusal a slot k (auth_result r)
  unfolding auth_result
  auth_result-Says slot k (ok s) h = h
  auth_result-Says slot k (err (error_response authentication_error_status)) h = h
  auth_result-Says slot k (err (error_response authentication_delay_status)) h = tt
  auth_result-Says slot k (err (error_response (other_status n))) h = h
  auth_result-Says slot k (err (session_failure t)) h = h

  abbrev pub Drawn : Result (CliError T) (List ℕ) → Type 0
  Drawn (ok rnd_a) = Unit {0}
  Drawn (err e) = Refusal

  pub draw-Looks : Looks T view a Drawn (tried (λ c. let r = rng c in (r.0, drawn {T = T} r.1)))
  unfolding drawn
  draw-Looks = tried-Looks T view a Drawn _ (λ c e. (still.rng_law c ∙ e, go (rng c).1 (undrawn c)))
    where
      go : (r : Option (List ℕ)) → (r ≡ none → Refusal) → Drawn (drawn r)
      go none h = h refl
      go (some rnd_a) h = tt

  pub authenticate_with-Looks :
      (slot : KeyNumber) (k : List ℕ) (r : Result (CliError T) (List ℕ))
      → Drawn r
      → Looks T view a (Says Refusal a slot k) (authenticate_with ops rng slot k r)
  unfolding authenticate_with
  authenticate_with-Looks slot k (ok rnd_a) h =
      then-Looks T view a _ _ _ _ (authenticate_tells slot k rnd_a)
        (λ r told. pure-Looks T view a (Says Refusal a slot k) _ (auth_result-Says slot k r told))
  authenticate_with-Looks slot k (err e) h =
      pure-Looks T view a (Says Refusal a slot k) auth_error (inl h)
