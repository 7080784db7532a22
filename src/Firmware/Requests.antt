-- ===== src/Firmware/Requests.antt =====
-- apps/bolty-esp32/src/rest.rs: the JSON of a request and the submission of a job. The header, the
-- body, the timer and the locks are arguments; a response is named by its case, not by its text.
pub mod Guards
use bolty_rs.Prelude.{
  ℕ, ◌+◌, ◌%◌, Bool, true, false, not, ◌&&◌, Option, none, some, List, [], ◌∷◌, ◌++◌, Result, ok,
  err, ◌>>=◌, ok_or, map_err, ◌==◌, if◌then◌else◌, leb, ltb,
}
use bolty_rs.Prelude.Text.{Text, codes, eq, strip_prefix, trim_start, Heapless}
use bolty_rs.Core.Keys.{AesKey, CardKeys, key_from_hex}
use bolty_rs.Core.Config.{BoltyConfig}
use bolty_rs.Firmware.Auth.{write_scope, is_authorized}
use bolty_rs.Firmware.OtaValidity.{ValidityGate, note_serve_evidence}
use bolty_rs.Firmware.Jobs.{
  RateLimiter, check_write, record_write, JobCommand, job_from_str, JobSlot, submit,
}

-- what stands behind the first occurrence of `p`
unfoldable pub behind : Text → Text → Option Text
behind p [] = strip_prefix p []
behind p (c ∷ s) = elim (strip_prefix p (c ∷ s)) [ none ↦ behind p s | some rest ↦ some rest ]

-- the loop over the bytes of `content`: up to the first quote that no backslash escapes
unfoldable pub up_to_quote : Bool → Text → Option Text
up_to_quote escaped [] = none
up_to_quote escaped (c ∷ content) =
    let rest = up_to_quote (c == 92 && not escaped) content in
    if c == 34 && not escaped
    then some []
    else (elim rest [ none ↦ none | some front ↦ some (c ∷ front) ])

module _ (h : Heapless) where
  -- `write!(pattern, "\"{key}\"")` into 32 bytes
  unfoldable pub quoted : Text → Option Text
  quoted key = elim (h.push_str 32 [] (34 ∷ [])) [
    | none ↦ none
    | some opened ↦ elim (h.push_str 32 opened key) [
      | none ↦ none
      | some named ↦ h.push_str 32 named (34 ∷ [])
    ]
  ]

  abbrev open_quote : Text → Option Text
  open_quote [] = none
  open_quote (c ∷ content) = if c == 34 then up_to_quote false content else none

  unfoldable pub extract_json_string : Text → Text → Option Text
  extract_json_string body key = elim (quoted key) [
    | none ↦ none
    | some pattern ↦ elim (behind pattern body) [
      | none ↦ none
      | some after_key ↦ elim (behind (58 ∷ []) after_key) [
        | none ↦ none
        | some after_colon ↦ open_quote (trim_start after_colon)
      ]
    ]
  ]

  -- the `match key` of `parse_key_field`
  abbrev missing_message : Text → Text
  missing_message key =
      if eq key (codes "k0")
      then codes "missing k0"
      else if eq key (codes "k1")
      then codes "missing k1"
      else if eq key (codes "k2")
      then codes "missing k2"
      else if eq key (codes "k3")
      then codes "missing k3"
      else if eq key (codes "k4")
      then codes "missing k4"
      else codes "missing key field"

  unfoldable pub parse_key_field : Text → Text → Result Text AesKey
  parse_key_field body key = do
    value ← ok_or (extract_json_string body key) (missing_message key)
    map_err (λ e. codes "invalid hex key") (key_from_hex value)

  unfoldable pub parse_card_keys : Text → Result Text CardKeys
  parse_card_keys body = do
    k0 ← parse_key_field body (codes "k0")
    k1 ← parse_key_field body (codes "k1")
    k2 ← parse_key_field body (codes "k2")
    k3 ← parse_key_field body (codes "k3")
    k4 ← parse_key_field body (codes "k4")
    ok (record { k0 = k0; k1 = k1; k2 = k2; k3 = k3; k4 = k4 })

pub data ReadBodyError : Type 0 where
  io too_large invalid_utf8 : ReadBodyError

pub data SubmitResponse : Type 0 where
  panicked unauthorized missing_command invalid_command slot_unavailable job_in_progress :
      SubmitResponse
  rate_limited : ℕ → SubmitResponse
  bad_body : ReadBodyError → SubmitResponse
  created : ℕ → JobCommand → SubmitResponse

-- What a submission meets: the locks, the timer before and after, the header and the body.
pub record Submission : Type 0 where
  pub config_locked : Bool
  pub limiter_locked : Bool
  pub slot_locked : Bool
  pub now : ℕ
  pub later : ℕ
  pub header : Option Text
  pub body : Result ReadBodyError Text

module _ (request : Submission) where
  unfoldable pub check_rate_limit : RateLimiter → Result ℕ (Unit {0})
  check_rate_limit limiter =
      if request.limiter_locked then check_write limiter request.now else ok tt

  unfoldable pub record_rate_limit : RateLimiter → RateLimiter
  record_rate_limit limiter =
      if request.limiter_locked then record_write limiter request.later else limiter

module _ (h : Heapless) (config : BoltyConfig) (request : Submission) where
  -- `(slot.id + 1, slot.submit(cmd))` and what follows, with the id in 32 bits
  abbrev submit_command :
      RateLimiter → JobSlot → JobCommand → (RateLimiter × JobSlot) × SubmitResponse
  submit_command limiter slot cmd =
      if request.slot_locked
      then (if (submit slot cmd).1
          then (
            (record_rate_limit request limiter, (submit slot cmd).0),
            created ((slot.id + 1) % 4294967296) cmd,
          )
          else ((limiter, (submit slot cmd).0), job_in_progress))
      else ((limiter, slot), slot_unavailable)

  abbrev submit_body : RateLimiter → JobSlot → Text → (RateLimiter × JobSlot) × SubmitResponse
  submit_body limiter slot body = elim (extract_json_string h body (codes "command")) [
    | none ↦ ((limiter, slot), missing_command)
    | some cmd_str ↦ elim (job_from_str cmd_str) [
      | none ↦ ((limiter, slot), invalid_command)
      | some cmd ↦ submit_command limiter slot cmd
    ]
  ]

  abbrev submit_authorized : RateLimiter → JobSlot → (RateLimiter × JobSlot) × SubmitResponse
  submit_authorized limiter slot = elim (check_rate_limit request limiter) [
    | err retry_secs ↦ ((limiter, slot), rate_limited retry_secs)
    | ok x ↦ elim request.body [
      | err e ↦ ((limiter, slot), bad_body e)
      | ok body ↦ submit_body limiter slot body
    ]
  ]

  unfoldable pub handle_job_submit :
      RateLimiter → JobSlot → (RateLimiter × JobSlot) × SubmitResponse
  handle_job_submit limiter slot =
      elim (is_authorized request.config_locked request.header config write_scope) [
        | none ↦ ((limiter, slot), panicked)
        | some false ↦ ((limiter, slot), unauthorized)
        | some true ↦ submit_authorized limiter slot
      ]

-- The status of the response, if there is one.
unfoldable pub status_of : SubmitResponse → Option ℕ
status_of panicked = none
status_of (bad_body io) = none
status_of unauthorized = some 401
status_of (rate_limited retry_secs) = some 429
status_of (bad_body too_large) = some 413
status_of (bad_body invalid_utf8) = some 400
status_of missing_command = some 400
status_of invalid_command = some 400
status_of slot_unavailable = some 500
status_of job_in_progress = some 409
status_of (created id cmd) = some 201

module _ {M W : Type 0} (call : M → W → W) where
  -- `sent` says whether the whole response was written.
  unfoldable pub respond_json : Bool → ℕ → ValidityGate M × W → ValidityGate M × W
  respond_json sent status (gate, world) =
      if sent && (leb 200 status && ltb status 300)
      then (note_serve_evidence call gate world).0
      else (gate, world)

  unfoldable pub respond : Bool → SubmitResponse → ValidityGate M × W → ValidityGate M × W
  respond sent response state = elim (status_of response) [
    | none ↦ state
    | some status ↦ respond_json sent status state
  ]

  -- a request as a whole: the handler, and the gate behind its response
  unfoldable pub serve_job_submit :
      Heapless
      → BoltyConfig
      → Submission
      → Bool
      → (RateLimiter × JobSlot) × (ValidityGate M × W)
      → ((RateLimiter × JobSlot) × (ValidityGate M × W)) × SubmitResponse
  serve_job_submit h config request sent (state, gate_state) =
      let (after, response) = handle_job_submit h config request state.0 state.1 in
      ((after, respond sent response gate_state), response)
