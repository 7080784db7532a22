-- ===== src/Cli/Tool.antt =====
-- apps/bolty-cli/src/common.rs, and what a command of apps/bolty-cli works on: the transport with the
-- card, the count of failed authentications of the process, and the audit log, the latest entry
-- first. What a command prints is left out. A message is a constructor of `CliError`, as are an audit
-- entry of `AuditEvent`; `exited` is `std::process::exit`.
use bolty_rs.Prelude.{
  ℕ, ◌+◌, ◌%◌, ◌^◌, Bool, true, false, ◌||◌, Option, none, some, List, [], ◌∷◌, Result, ok, err,
  leb, if◌then◌else◌, replicate,
}
use bolty_rs.Prelude.Text.{Text, codes}
use bolty_rs.Prelude.Act.{Act, pure, ◌>>=◌, ◌>>◌}
use bolty_rs.Cli.Diagnose.{KeyProvenance}
use bolty_rs.Ntag.Link.{KeyNumber, SessionError, Error, is_session_auth_delay, Ntag424}

pub data AuditEvent : Type 0 where
  pre_verification_skipped raw_keyset_verified wipe_failed wipe_succeeded : AuditEvent
  wipe_starting : List ℕ → ℕ → AuditEvent
  authenticated_with_factory authenticated_with_provided burn_failed burn_succeeded : AuditEvent
  burn_starting : List ℕ → ℕ → Text → AuditEvent
  -- an entry by its text
  noted : Text → AuditEvent

pub data CliError (T : Type 0) : Type 0 where
  exited : ℕ → CliError T
  -- `map_ntag_error`
  on_card : Error T → CliError T
  -- `.context(..)` on an error of the session
  in_context : Text → SessionError T → CliError T
  -- `?` on an error of the session
  on_session : SessionError T → CliError T
  bail : Text → CliError T
  uid_mismatch : List ℕ → List ℕ → CliError T
  residual_state : Bool → ℕ → CliError T
  slot_rejected : KeyNumber → CliError T

pub record Desk (C : Type 0) : Type 0 where
  pub card : C
  pub auth_failures : ℕ
  pub audit : List (AuditEvent × Option KeyProvenance)

abbrev pub CliM : Type 0 → Type 0 → Type 0 → Type 0
CliM C T A = Act (Desk C) (CliError T) A

abbrev pub auth_retry_delays : List ℕ
auth_retry_delays = replicate 10 0

abbrev pub circuit_breaker_threshold : ℕ
circuit_breaker_threshold = 10

-- How a ladder of attempts to authenticate ends.
pub data Auth : Type 0 where
  accepted refused exhausted : Auth

module _ {C T A : Type 0} where
  -- A call of the library, whose result the code matches on
  unfoldable pub tried : {E : Type 0} → (C → C × Result E A) → CliM C T (Result E A)
  tried op d = let (c, r) = op d.card in (record d { card = c }, ok r)

  unfoldable pub lifted : Result (CliError T) A → CliM C T A
  lifted r d = (d, r)

module _ {T : Type 0} where
  -- An error that the code replaces by its own; the process may have ended before.
  unfoldable pub replaced_error : CliError T → CliError T → CliError T
  replaced_error message (exited status) = exited status
  replaced_error message e = message

  -- `.map_err(map_ntag_error)?` on an operation of crates/bolty-ntag
  unfoldable pub mapped : {A : Type 0} → Result (Error T) A → Result (CliError T) A
  mapped (ok a) = ok a
  mapped (err e) = err (on_card e)

  -- `.context(..)?` on a call of the session
  unfoldable pub contextual :
      {A : Type 0} → Text → Result (SessionError T) A → Result (CliError T) A
  contextual message (ok a) = ok a
  contextual message (err e) = err (in_context message e)

  -- `?` on a call of the session
  unfoldable pub plain : {A : Type 0} → Result (SessionError T) A → Result (CliError T) A
  plain (ok a) = ok a
  plain (err e) = err (on_session e)

  unfoldable pub drawn : Option (List ℕ) → Result (CliError T) (List ℕ)
  drawn (some rnd_a) = ok rnd_a
  drawn none = err (bail (codes "RNG failed"))

module _ {C T : Type 0} where
  unfoldable pub log_event_with_provenance : AuditEvent → Option KeyProvenance → CliM C T (Unit {0})
  log_event_with_provenance event provenance d =
      (record d { audit = (event, provenance) ∷ d.audit }, ok tt)

  unfoldable pub record_auth_failure : CliM C T (Unit {0})
  record_auth_failure d =
      let count = d.auth_failures + 1 in
      (
        record d { auth_failures = count % 2 ^ 32 },
        (if leb circuit_breaker_threshold count then err (exited 6) else ok tt),
      )

  unfoldable pub replaced :
      {A : Type 0} → CliError T → Desk C × Result (CliError T) A → Desk C × Result (CliError T) A
  replaced message (d, ok a) = (d, ok a)
  replaced message (d, err e) = (d, err (replaced_error message e))

  unfoldable pub or_bail : {A : Type 0} → CliError T → CliM C T A → CliM C T A
  unfolding replaced
  or_bail message m d = replaced message (m d)

  unfoldable pub on_ntag : {A : Type 0} → (C → C × Result (Error T) A) → CliM C T A
  unfolding mapped
  on_ntag op d = let r = op d.card in (record d { card = r.0 }, mapped r.1)

  unfoldable pub with_context :
      {A : Type 0} → Text → (C → C × Result (SessionError T) A) → CliM C T A
  unfolding contextual
  with_context message op d = let r = op d.card in (record d { card = r.0 }, contextual message r.1)

  unfoldable pub in_session : {A : Type 0} → (C → C × Result (SessionError T) A) → CliM C T A
  unfolding plain
  in_session op d = let r = op d.card in (record d { card = r.0 }, plain r.1)

module _ {C S Sdm T : Type 0} (ops : Ntag424 C S Sdm T) where
  -- `Sdm` as the card's settings hold it: whether it mirrors anything
  unfoldable pub is_sdm_functionally_active : Option Sdm → Bool
  is_sdm_functionally_active none = false
  is_sdm_functionally_active (some sdm) = ops.has_picc_data sdm || ops.has_file_read sdm

-- `rng` is `getrandom`, which may fail.
module _ {C T : Type 0} (rng : C → C × Option (List ℕ)) where
  unfoldable pub gen_rnd_a : CliM C T (List ℕ)
  unfolding drawn
  gen_rnd_a d = let r = rng d.card in (record d { card = r.0 }, drawn r.1)

module _ {C T : Type 0} where
  -- `match` on a call of the session: what follows an answer, and what follows any error
  unfoldable pub either_way :
      {A B : Type 0} → (A → CliM C T B) → CliM C T B → Result (SessionError T) A → CliM C T B
  either_way found missing (ok a) = found a
  either_way found missing (err e) = missing

  unfoldable pub judged : CliError T → Auth → CliM C T Bool
  judged message accepted = pure true
  judged message exhausted = lifted (err message)
  judged message refused = do record_auth_failure; pure false

module _ {C S Sdm T : Type 0} (ops : Ntag424 C S Sdm T) (rng : C → C × Option (List ℕ)) where
  -- One attempt, with what follows an answer that the card is in its delay
  unfoldable pub attempt : KeyNumber → List ℕ → CliM C T Auth → CliM C T Auth
  unfolding gen_rnd_a
  attempt slot k delayed = do
    rnd_a ← gen_rnd_a rng
    answer ← tried (ops.authenticate_aes slot k rnd_a)
    elim answer [
      | ok s ↦ pure accepted
      | err e ↦ if is_session_auth_delay e then delayed else pure refused
    ]

  -- The loop around `AuthRetry`: the list is what `next_delay` has left, and the wait is left out.
  unfoldable pub ladder : List ℕ → KeyNumber → List ℕ → CliM C T Auth
  unfolding attempt
  ladder [] slot k = attempt slot k (pure exhausted)
  ladder (delay ∷ delays) slot k = attempt slot k (ladder delays slot k)

  -- Whether the key is the card's. A refusal is counted.
  unfoldable pub works : KeyNumber → List ℕ → CliM C T Bool
  unfolding ladder judged
  works slot k = do
    answer ← ladder auth_retry_delays slot k
    judged (bail (codes "attempts exhausted")) answer
