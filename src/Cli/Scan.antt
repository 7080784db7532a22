-- ===== src/Cli/Scan.antt =====
-- apps/bolty-cli/src/scan_keys.rs and try_key.rs: the commands that look for a card's key.
pub mod Answers
pub mod Finds
pub mod Tries
use bolty_rs.Prelude.{
  ℕ, zero, suc, ◌+◌, Bool, true, false, Option, none, some, List, [], ◌∷◌, ◌++◌, Result, ok, err,
  leb, ◌==◌, if◌then◌else◌, replicate,
}
use bolty_rs.Prelude.Text.{Text, codes}
use bolty_rs.Prelude.Act.{pure, ◌>>=◌, ◌>>◌}
use bolty_rs.Core.Hex.{encode_hex}
use bolty_rs.Core.Crypto.{Crypto}
use bolty_rs.Core.Derivation.{CardKeySet, derive_keys}
use bolty_rs.Cli.Diagnose.{KeyProvenance, unknown_external}
use bolty_rs.Cli.Tool.{
  CliError, noted, bail, exited, Desk, CliM, tried, lifted, log_event_with_provenance,
  record_auth_failure, with_context, drawn, gen_rnd_a,
}
use bolty_rs.Ntag.Link.{
  KeyNumber, key0, key1, key2, key3, key4, SessionError, error_response, session_failure,
  authentication_error_status, authentication_delay_status, Uid, uid_to_fixed, Ntag424,
}

-- `attempts.clamp(1, 1000)`
abbrev pub clamp_attempts : ℕ → ℕ
clamp_attempts n = if leb n 0 then 1 else if leb 1000 n then 1000 else n

-- A candidate with its label
abbrev pub Candidate : Type 0
Candidate = Text × List ℕ

unfoldable pub candidates_of : (ℕ → CardKeySet) → List Candidate
candidates_of derived =
    (codes "factory K0 (zeros)", replicate 16 0)
    ∷ (codes "derived K0 v0", (derived 0).k0.bytes)
    ∷ (codes "derived K0 v1", (derived 1).k0.bytes)
    ∷ (codes "derived K0 v2", (derived 2).k0.bytes)
    ∷ (codes "derived K0 v3", (derived 3).k0.bytes)
    ∷ (codes "static test key (0x11..11)", replicate 16 0x11)
    ∷ (codes "card key v1", (derived 1).card_key.bytes)
    ∷ []

unfoldable pub candidates : Crypto → List ℕ → List ℕ → List Candidate
unfolding candidates_of
candidates crypto issuer_key uid =
    candidates_of (derive_keys crypto issuer_key (record { bytes = uid }))

pub data AuthResult : Type 0 where
  success wrong_key auth_delay auth_error : AuthResult

-- What the answer to one attempt says.
unfoldable pub auth_result : {S T : Type 0} → Result (SessionError T) S → AuthResult
auth_result (ok session) = success
auth_result (err (error_response authentication_error_status)) = wrong_key
auth_result (err (error_response authentication_delay_status)) = auth_delay
auth_result (err e) = auth_error

module _ {C T : Type 0} where
  abbrev pub log_event : Text → CliM C T (Unit {0})
  log_event text = log_event_with_provenance (noted text) none

module _ {C S Sdm T : Type 0} (ops : Ntag424 C S Sdm T) (rng : C → C × Option (List ℕ)) where
  -- One attempt; a random number that cannot be drawn is an answer too.
  unfoldable pub authenticate_with :
      KeyNumber → List ℕ → Result (CliError T) (List ℕ) → CliM C T AuthResult
  unfolding auth_result
  authenticate_with slot k (err e) = pure auth_error
  authenticate_with slot k (ok rnd_a) = do
    answer ← tried (ops.authenticate_aes slot k rnd_a)
    pure (auth_result answer)

  -- `try_auth`, with the attempts that are left; `next` is the rest of the loop.
  unfoldable pub unless_delayed : CliM C T AuthResult → AuthResult → CliM C T AuthResult
  unless_delayed next auth_delay = next
  unless_delayed next success = pure success
  unless_delayed next wrong_key = pure wrong_key
  unless_delayed next auth_error = pure auth_error

  unfoldable pub try_auth : List ℕ → ℕ → CliM C T AuthResult
  unfolding unless_delayed authenticate_with
  try_auth k zero = pure auth_delay
  try_auth k (suc attempts) = do
    rnd_a ← tried (λ c. let r = rng c in (r.0, drawn {T = T} r.1))
    answer ← authenticate_with key0 k rnd_a
    unless_delayed (try_auth k attempts) answer

  -- The loop over the candidates: `next` is what follows the one that was tried.
  unfoldable pub candidate_done :
      Candidate → CliM C T (Option Candidate) → AuthResult → CliM C T (Option Candidate)
  candidate_done (label, k) next success =
      log_event (codes "scan-keys: ACCEPTED " ++ label ++ codes " = " ++ encode_hex k)
      >> pure (some (label, k))
  candidate_done (label, k) next wrong_key = do
    record_auth_failure
    log_event (codes "scan-keys: REJECTED " ++ label)
    next
  candidate_done (label, k) next auth_delay =
      log_event (codes "scan-keys: AUTH DELAY detected, aborting")
      >> lifted (err (bail (codes "auth delay triggered during scan")))
  candidate_done (label, k) next auth_error =
      log_event (codes "scan-keys: ERROR on " ++ label) >> next

  unfoldable pub scan : ℕ → List Candidate → CliM C T (Option Candidate)
  unfolding candidate_done try_auth
  scan attempts [] = log_event (codes "scan-keys: no candidate matched") >> pure none
  scan attempts ((label, k) ∷ rest) = do
    log_event (codes "scan-keys: trying " ++ label)
    answer ← try_auth k attempts
    candidate_done (label, k) (scan attempts rest) answer

  unfoldable pub cmd_scan_keys : Crypto → List ℕ → ℕ → CliM C T (Option Candidate)
  unfolding scan candidates
  cmd_scan_keys crypto issuer_key attempts = do
    uid ← with_context (codes "failed to read UID") ops.get_selected_uid
    scan (clamp_attempts attempts) (candidates crypto issuer_key (uid_to_fixed uid))

-- How a try ends well.
pub data TryEnd : Type 0 where
  key_accepted key_rejected delay_persists : TryEnd

unfoldable pub target_key : ℕ → Option KeyNumber
target_key n =
    if n == 0
    then some key0
    else if n == 1
    then some key1
    else if n == 2
    then some key2
    else if n == 3
    then some key3
    else if n == 4
    then some key4
    else none

module _ {C T : Type 0} where
  abbrev pub log_try : Text → CliM C T (Unit {0})
  log_try text = log_event_with_provenance (noted text) (some unknown_external)

  -- One answer, and `next` after a delay
  unfoldable pub answered : Text → CliM C T TryEnd → AuthResult → CliM C T TryEnd
  answered label next success = log_try (codes "try-key: ACCEPTED " ++ label) >> pure key_accepted
  answered label next wrong_key = log_try (codes "try-key: REJECTED " ++ label) >> pure key_rejected
  answered label next auth_delay = next
  answered label next auth_error = lifted (err (bail (codes "unexpected error")))

module _ {C S Sdm T : Type 0} (ops : Ntag424 C S Sdm T) (rng : C → C × Option (List ℕ)) where
  unfoldable pub try_loop : KeyNumber → List ℕ → Text → ℕ → CliM C T TryEnd
  unfolding answered auth_result
  try_loop slot k label zero = log_try (codes "try-key: auth delay persists") >> pure delay_persists
  try_loop slot k label (suc attempts) = do
    rnd_a ← gen_rnd_a rng
    answer ← tried (ops.authenticate_aes slot k rnd_a)
    answered label (try_loop slot k label attempts) (auth_result answer)

  unfoldable pub try_slot : List ℕ → Text → ℕ → Option KeyNumber → CliM C T TryEnd
  unfolding try_loop
  try_slot k label attempts none = lifted (err (bail (codes "invalid key number")))
  try_slot k label attempts (some slot) =
      log_try (codes "try-key: " ++ label ++ codes " = " ++ encode_hex k)
      >> try_loop slot k label (clamp_attempts attempts)

  -- The UID, or what stands in its place, is only printed.
  unfoldable pub cmd_try_key : List ℕ → ℕ → ℕ → CliM C T TryEnd
  unfolding try_slot target_key
  cmd_try_key k key_no attempts = do
    uid ← tried ops.get_selected_uid
    try_slot k (b'K' ∷ (b'0' + key_no) ∷ []) attempts (target_key key_no)
