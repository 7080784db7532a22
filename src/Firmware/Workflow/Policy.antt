-- ===== src/Firmware/Workflow/Policy.antt =====
-- What the workflow layer of workflow.rs lets through to the card, the configuration and the gate.
use bolty_rs.Prelude.{
  ◌≡◌, refl, Bool, true, false, ◌&&◌, ◌||◌, none, some, [], if◌then◌else◌, ◌+◌, ◌⊎◌, inl, inr,
  arith, Bool-cases, Option-cases, leb,
}
use bolty_rs.Prelude.Text.{Text, as_bytes, len, codes, contains, is_some, Heapless}
use bolty_rs.Core.Config.{BoltyConfig}
use bolty_rs.Firmware.Commands.{
  Command, set_keys, set_issuer, set_url, burn, wipe, key_ver, check, inspect,
}
use bolty_rs.Firmware.OtaValidity.{note_serve_evidence}
use bolty_rs.Firmware.Workflow.{
  WorkflowResult, success, error, BoltyService, Device, is_success, note_card_transaction, finish,
  dispatch_burn, dispatch_command, workflow_error,
}

-- The commands that reach for the card.
unfoldable pub uses_card : Command → Bool
uses_card burn = true
uses_card wipe = true
uses_card key_ver = true
uses_card inspect = true
uses_card check = true
uses_card _ = false

-- The configuration that a command leaves, field by field.
unfoldable pub config_after : Command → BoltyConfig → BoltyConfig
config_after command config = record {
  lnurl = (elim command [ set_url url ↦ some url | _ ↦ config.lnurl ]);
  issuer_name = config.issuer_name;
  pending_keys = (elim command [ set_keys keys ↦ some keys | _ ↦ config.pending_keys ]);
  pending_issuer = (elim command [ set_issuer key ↦ some key | _ ↦ config.pending_issuer ]);
  rest_read_token = config.rest_read_token;
  rest_write_token = config.rest_write_token;
  force_unsafe = config.force_unsafe;
}

-- What a card may be burnt with: an URL, keys or an issuer, and the marker of the MAC in the URL
-- unless the operator has forced it.
unfoldable pub BurnReady : BoltyConfig → Text → Type 0
BurnReady config lnurl =
    (config.lnurl ≡ some lnurl)
    × ((is_some config.pending_keys || is_some config.pending_issuer) ≡ true)
    × ((config.force_unsafe || contains (codes "{mac}") lnurl) ≡ true)

-- What the operator is told when a card may not be burnt.
unfoldable pub refusal : BoltyConfig → Text
refusal config = elim config.lnurl [
  | none ↦ codes "missing lnurl"
  | some lnurl ↦
      if is_some config.pending_keys || is_some config.pending_issuer
      then codes "lnurl missing {mac} SDM template marker"
      else codes "missing keys or issuer"
]

workflow_error_short :
    (h : Heapless) (message : Text)
    → leb (len [] + len message) 64 ≡ true
    → workflow_error h message ≡ error message
unfolding workflow_error len as_bytes
workflow_error_short h message short =
    let fits : h.push_str 64 [] message ≡ some message =
      rw (h.push_str_lem 64 [] message, short) refl in
    rw (fits, workflow_error) refl

module _ {S M W : Type 0} (h : Heapless) (service : BoltyService S) (call : M → W → W) where
  unfoldable pub Effects : Command → Device S M W → Device S M W × WorkflowResult → Type 0
  Effects command device (after, result) =
      (after.config ≡ config_after command device.config)
      × ((after.gate, after.world) ≡ (
          if uses_card command && is_success result
          then (note_serve_evidence call device.gate device.world).0
          else (device.gate, device.world)))
      × ((uses_card command ≡ true) ⊎ ((after.service ≡ device.service) × (result ≡ success)))

  -- Either the configuration is ready and the card service is called with the pending issuer, the
  -- pending keys and the URL, or it is not and nothing changes but the error reported.
  unfoldable pub BurnOutcome : Device S M W → Device S M W × WorkflowResult → Type 0
  BurnOutcome device outcome =
      ((lnurl : Text) × BurnReady device.config lnurl
        × (outcome
            ≡ finish h service call device (
                service.burn_card device.service device.config.pending_issuer
                  device.config.pending_keys lnurl)))
      ⊎ (((lnurl : Text) → ¬ BurnReady device.config lnurl)
          × (outcome ≡ (device, error (refusal device.config))))

  no_url_burn :
      (device : Device S M W)
      → device.config.lnurl ≡ none
      → BurnOutcome device (dispatch_burn h service call device)
  unfolding dispatch_burn BurnOutcome BurnReady refusal len as_bytes
  no_url_burn device e = inr (
    (λ lnurl (x, y, z). ground arith),
    ground (arith, workflow_error_short h (codes "missing lnurl") refl),
  )

  url_burn :
      (device : Device S M W) (lnurl : Text)
      → device.config.lnurl ≡ some lnurl
      → BurnOutcome device (dispatch_burn h service call device)
  unfolding dispatch_burn BurnOutcome BurnReady refusal len as_bytes
  url_burn device lnurl e =
      elim (Bool-cases
        (is_some device.config.pending_keys || is_some device.config.pending_issuer)) [
          | inr none_pending ↦ inr (
            (λ lnurl' (x, y, z). ground arith),
            ground (arith, workflow_error_short h (codes "missing keys or issuer") refl),
          )
          | inl pending ↦
              elim (Bool-cases (device.config.force_unsafe || contains (codes "{mac}") lnurl)) [
                | inl marked ↦ inl (lnurl, (e, pending, marked), ground arith)
                | inr unmarked ↦ inr (
                  (λ lnurl' (x, y, z). ground arith),
                  ground (
                    arith,
                    workflow_error_short h (codes "lnurl missing {mac} SDM template marker") refl,
                  ),
                )
              ]
        ]

  -- A burn reaches the card service if and only if the configuration is ready for it, and then with
  -- the pending issuer, the pending keys and the configured URL; otherwise it changes nothing and
  -- reports the error of the first check that failed.
  pub dispatch_burn_guards :
      (device : Device S M W) → BurnOutcome device (dispatch_command h service call burn device)
  unfolding dispatch_command
  dispatch_burn_guards device = elim (Option-cases device.config.lnurl) [
    | inl e ↦ no_url_burn device e
    | inr (lnurl, e) ↦ url_burn device lnurl e
  ]

  finish-Effects :
      (command : Command) (device : Device S M W) (p : S × WorkflowResult)
      → uses_card command ≡ true
      → config_after command device.config ≡ device.config
      → Effects command device (finish h service call device p)
  unfolding Effects finish note_card_transaction is_success
  finish-Effects command device (s, result) u c = elim (Bool-cases (is_success result)) [
    | inl e ↦ (rw c refl, rw (u, e) refl, inl u)
    | inr e ↦ (rw c refl, rw (u, e) refl, inl u)
  ]

  burn-Effects :
      (device : Device S M W) (outcome : Device S M W × WorkflowResult)
      → BurnOutcome device outcome
      → Effects burn device outcome
  unfolding BurnOutcome Effects config_after uses_card is_success
  burn-Effects device outcome (inl (lnurl, ready, e)) = rw e (
      finish-Effects burn device
        (service.burn_card device.service device.config.pending_issuer device.config.pending_keys
          lnurl)
        refl refl)
  burn-Effects device outcome (inr (unready, e)) = rw e (refl, refl, inl refl)

  -- Whatever the command, the configuration changes in the one field the command sets; the gate
  -- gets evidence if and only if the command reached for the card and succeeded; and a command that
  -- does not reach for the card leaves the service alone and succeeds.
  pub dispatch_command-Effects :
      (command : Command) (device : Device S M W)
      → Effects command device (dispatch_command h service call command device)
  unfolding Effects dispatch_command config_after uses_card is_success
  dispatch_command-Effects burn device =
      burn-Effects device (dispatch_burn h service call device) (dispatch_burn_guards device)
  dispatch_command-Effects wipe device = finish-Effects wipe device _ refl refl
  dispatch_command-Effects key_ver device = finish-Effects key_ver device _ refl refl
  dispatch_command-Effects inspect device = finish-Effects inspect device _ refl refl
  dispatch_command-Effects check device = finish-Effects check device _ refl refl
  dispatch_command-Effects command device = (refl, refl, inr (refl, refl))
