-- ===== src/Firmware/Requests/Guards.antt =====
-- What a submission over REST must pass before it occupies the job slot.
use bolty_rs.Prelude.{
  ℕ, ◌+◌, ◌%◌, ◌<◌, ◌≡◌, ◌≢◌, ◌⊎◌, inl, inr, refl, Bool, true, false, Option, none, some, Result,
  ok, err, if◌then◌else◌, ◌&&◌, arith, Bool-cases, Option-cases,
}
use bolty_rs.Prelude.Text.{Text, codes, Heapless}
use bolty_rs.Core.Config.{BoltyConfig}
use bolty_rs.Firmware.Auth.{write_scope, is_authorized}
use bolty_rs.Firmware.OtaValidity.{ValidityGate, note_serve_evidence}
use bolty_rs.Firmware.Jobs.{
  RateLimiter, JobCommand, job_from_str, JobSlot, pending, submit, next_id,
}
use bolty_rs.Firmware.Requests.{
  ReadBodyError, Submission, SubmitResponse, created, extract_json_string, check_rate_limit,
  record_rate_limit, handle_job_submit, status_of, respond_json, respond, serve_job_submit,
}

-- Every guard of a submission passes for the command.
unfoldable pub Admitted :
    Heapless → BoltyConfig → Submission → RateLimiter → JobSlot → JobCommand → Type 0
Admitted h config request limiter slot cmd =
    (is_authorized request.config_locked request.header config write_scope ≡ some true)
    × (check_rate_limit request limiter ≡ ok tt)
    × ((body : Text) × (cmd_str : Text) × (request.body ≡ ok body)
        × (extract_json_string h body (codes "command") ≡ some cmd_str)
        × (job_from_str cmd_str ≡ some cmd))
    × (request.slot_locked ≡ true)
    × ((submit slot cmd).1 ≡ true)

submit_refused :
    (slot : JobSlot) (cmd : JobCommand) → (submit slot cmd).1 ≡ false → (submit slot cmd).0 ≡ slot
unfolding submit
submit_refused slot cmd e = ground arith

submit_id :
    (slot : JobSlot) (cmd : JobCommand)
    → slot.id + 1 < 4294967296
    → (submit slot cmd).1 ≡ true
    → ((submit slot cmd).0.id ≡ (slot.id + 1) % 4294967296)
      × ((submit slot cmd).0.status ≡ pending)
      × ((submit slot cmd).0.command ≡ some cmd)
unfolding submit next_id
submit_id slot cmd b e = ground arith

module _ (h : Heapless) (config : BoltyConfig) (request : Submission) (limiter : RateLimiter)
    (slot : JobSlot) where
  -- Either a command passes every guard, takes the slot and is recorded and answered, or none does and
  -- nothing changes.
  unfoldable pub SubmitOutcome : (RateLimiter × JobSlot) × SubmitResponse → Type 0
  SubmitOutcome outcome =
      ((cmd : JobCommand) × Admitted h config request limiter slot cmd
        × (outcome ≡ (
          (record_rate_limit request limiter, (submit slot cmd).0),
          created ((slot.id + 1) % 4294967296) cmd,
        )))
      ⊎ (((cmd : JobCommand) → ¬ Admitted h config request limiter slot cmd)
          × (outcome.0 ≡ (limiter, slot))
          × ((id : ℕ) (cmd : JobCommand) → outcome.1 ≢ created id cmd))

  id_of_outcome :
      (outcome : (RateLimiter × JobSlot) × SubmitResponse)
      → SubmitOutcome outcome
      → (id : ℕ) (cmd : JobCommand) → slot.id + 1 < 4294967296
      → outcome.1 ≡ created id cmd
      → (outcome.0.1.id ≡ id) × (outcome.0.1.status ≡ pending) × (outcome.0.1.command ≡ some cmd)
  unfolding SubmitOutcome Admitted
  id_of_outcome outcome (inl (taken, w, e)) id cmd b f =
      let answered : created ((slot.id + 1) % 4294967296) taken ≡ created id cmd = ground arith in
      let (kept, waits, held) = submit_id slot taken b w.4 in ground arith
  id_of_outcome outcome (inr (w, same, never)) id cmd b f = absurd (never id cmd f)

  body_outcome :
      (body : Text)
      → is_authorized request.config_locked request.header config write_scope ≡ some true
      → check_rate_limit request limiter ≡ ok tt
      → request.body ≡ ok body
      → SubmitOutcome (handle_job_submit h config request limiter slot)
  unfolding handle_job_submit Admitted SubmitOutcome
  body_outcome body p q s = elim (Option-cases (extract_json_string h body (codes "command"))) [
    | inl e ↦ inr ((λ cmd w. ground arith), ground arith, (λ id cmd'' e'. ground arith))
    | inr (cmd_str, e) ↦ elim (Option-cases (job_from_str cmd_str)) [
      | inl f ↦ inr ((λ cmd w. ground arith), ground arith, (λ id cmd'' e'. ground arith))
      | inr (cmd, f) ↦ elim (Bool-cases request.slot_locked) [
        | inr g ↦ inr ((λ cmd' w. ground arith), ground arith, (λ id cmd'' e'. ground arith))
        | inl g ↦ elim (Bool-cases (submit slot cmd).1) [
          | inl k ↦ inl (cmd, (p, q, (body, cmd_str, s, e, f), g, k), ground arith)
          | inr k ↦ inr (
            (λ cmd' w. ground arith),
            ground (arith, submit_refused slot cmd k),
            (λ id cmd'' e'. ground arith),
          )
        ]
      ]
    ]
  ]

  pub handle_job_submit_guards : SubmitOutcome (handle_job_submit h config request limiter slot)
  unfolding handle_job_submit Admitted SubmitOutcome
  handle_job_submit_guards =
      go (is_authorized request.config_locked request.header config write_scope)
        (check_rate_limit request limiter) request.body refl refl refl
    where
      go :
          (a : Option Bool) (r : Result ℕ (Unit {0})) (b : Result ReadBodyError Text)
          → is_authorized request.config_locked request.header config write_scope ≡ a
          → check_rate_limit request limiter ≡ r
          → request.body ≡ b
          → SubmitOutcome (handle_job_submit h config request limiter slot)
      go none r b p q s = inr ((λ cmd w. ground arith), ground arith, (λ id cmd'' e'. ground arith))
      go (some false) r b p q s =
          inr ((λ cmd w. ground arith), ground arith, (λ id cmd'' e'. ground arith))
      go (some true) (err x) b p q s =
          inr ((λ cmd w. ground arith), ground arith, (λ id cmd'' e'. ground arith))
      go (some true) (ok x) (err y) p q s =
          inr ((λ cmd w. ground arith), ground arith, (λ id cmd'' e'. ground arith))
      go (some true) (ok x) (ok body) p q s = body_outcome body p q s

  -- A submission that is answered with a number has taken the slot under that number, as long as the
  -- numbers have not used up 32 bits.
  pub job_id_agrees :
      (id : ℕ) (cmd : JobCommand)
      → slot.id + 1 < 4294967296
      → (handle_job_submit h config request limiter slot).1 ≡ created id cmd
      → ((handle_job_submit h config request limiter slot).0.1.id ≡ id)
        × ((handle_job_submit h config request limiter slot).0.1.status ≡ pending)
        × ((handle_job_submit h config request limiter slot).0.1.command ≡ some cmd)
  job_id_agrees id cmd b e =
      id_of_outcome (handle_job_submit h config request limiter slot) handle_job_submit_guards id
        cmd b e

abbrev pub is_created : SubmitResponse → Bool
is_created (created id cmd) = true
is_created _ = false

module _ {M W : Type 0} (call : M → W → W) where
  respond_lem :
      (sent : Bool) (response : SubmitResponse) (gate : ValidityGate M) (world : W)
      → respond call sent response (gate, world) ≡ (
          if sent && is_created response
          then (note_serve_evidence call gate world).0
          else (gate, world))
  unfolding respond respond_json status_of
  respond_lem sent response gate world = ground arith

  -- A request for a job counts as evidence for the image if and only if its job was accepted and the
  -- answer was sent; an accepted job keeps its place in the slot also when the answer was not.
  pub serve_job_submit_lem :
      (h : Heapless) (config : BoltyConfig) (request : Submission) (sent : Bool)
      (limiter : RateLimiter) (slot : JobSlot) (gate : ValidityGate M) (world : W)
      → let answer = serve_job_submit call h config request sent ((limiter, slot), (gate, world)) in
        (answer.0.1 ≡ (
          if sent && is_created answer.1
          then (note_serve_evidence call gate world).0
          else (gate, world)))
        × SubmitOutcome h config request limiter slot (answer.0.0, answer.1)
  unfolding serve_job_submit
  serve_job_submit_lem h config request sent limiter slot gate world = (
    respond_lem sent (handle_job_submit h config request limiter slot).1 gate world,
    handle_job_submit_guards h config request limiter slot,
  )
