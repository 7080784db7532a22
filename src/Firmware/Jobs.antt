-- ===== src/Firmware/Jobs.antt =====
-- apps/bolty-esp32/src/rest.rs (RateLimiter, JobCommand, JobSlot) and `process_rest_job` of
-- firmware.rs. A lock that may be poisoned is a `Bool` argument; the timer's value is an argument.
pub mod Cooldown
pub mod Lifecycle
use bolty_rs.Prelude.{
  ℕ, ◌+◌, ◌-◌, ◌/◌, ◌%◌, Bool, true, false, Option, none, some, Result, ok, err, ltb, ◌==◌,
  if◌then◌else◌,
}
use bolty_rs.Prelude.Text.{Text, codes, eq_ignore_ascii_case, Heapless}
use bolty_rs.Core.Config.{BoltyConfig}
use bolty_rs.Firmware.Commands.{Command}
use bolty_rs.Firmware.Workflow.{
  WorkflowResult, BoltyService, Device, dispatch_command, workflow_error,
}

abbrev pub write_cooldown_us : ℕ
write_cooldown_us = 5000000

pub record RateLimiter : Type 0 where
  pub last_write_us : ℕ

-- `elapsed < WRITE_COOLDOWN_US` is `now < last_write_us + WRITE_COOLDOWN_US`, so that the signed
-- difference is not cut off at 0.
unfoldable pub check_write : RateLimiter → ℕ → Result ℕ (Unit {0})
check_write limiter now =
    if ltb now (limiter.last_write_us + write_cooldown_us)
    then err ((limiter.last_write_us + write_cooldown_us - now) / 1000000 + 1)
    else ok tt

unfoldable pub record_write : RateLimiter → ℕ → RateLimiter
record_write limiter now = record { last_write_us = now }

pub data JobStatus : Type 0 where
  idle pending running completed : JobStatus

pub data JobCommand : Type 0 where
  burn_job wipe_job : JobCommand

unfoldable pub job_from_str : Text → Option JobCommand
job_from_str s =
    if eq_ignore_ascii_case s (codes "burn")
    then some burn_job
    else if eq_ignore_ascii_case s (codes "wipe")
    then some wipe_job
    else none

unfoldable pub to_command : JobCommand → Command
to_command burn_job = Command.burn
to_command wipe_job = Command.wipe

pub record JobSlot : Type 0 where
  pub id : ℕ
  pub status : JobStatus
  pub command : Option JobCommand
  pub result : Option WorkflowResult

abbrev pub new_slot : JobSlot
new_slot = record { id = 0; status = idle; command = none; result = none }

abbrev busy : JobStatus → Bool
busy idle = false
busy completed = false
busy _ = true

-- `wrapping_add(1)` on u32, which skips 0
unfoldable pub next_id : ℕ → ℕ
next_id id = let wrapped = (id + 1) % 4294967296 in if wrapped == 0 then 1 else wrapped

unfoldable pub submit : JobSlot → JobCommand → JobSlot × Bool
submit slot cmd = if busy slot.status then (slot, false) else (
  record { id = next_id slot.id; status = pending; command = some cmd; result = none },
  true,
)

-- the first block of `process_rest_job`
unfoldable pub take_job : JobSlot → Option (JobSlot × JobCommand)
take_job slot = elim slot.status [
  | pending ↦ elim slot.command [
    | none ↦ none
    | some cmd ↦ some (
      record { id = slot.id; status = running; command = slot.command; result = slot.result },
      cmd,
    )
  ]
  | _ ↦ none
]

-- its last block
unfoldable pub complete : Bool → JobSlot → WorkflowResult → JobSlot
complete locked slot outcome =
    if locked
    then record { id = slot.id; status = completed; command = slot.command; result = some outcome }
    else slot

module _ {S M W : Type 0} (h : Heapless) (service : BoltyService S) (call : M → W → W) where
  abbrev synced :
      (S → BoltyConfig → S) → Device S M W × WorkflowResult → Device S M W × WorkflowResult
  synced sync_from (device, outcome) = (
    record {
      service = sync_from device.service device.config;
      config = device.config;
      gate = device.gate;
      world = device.world;
    },
    outcome,
  )

  -- the middle: both locks taken, or the error that they were not
  unfoldable pub run_job :
      (S → BoltyConfig → S) → Bool → JobCommand → Device S M W → Device S M W × WorkflowResult
  run_job sync_from locked cmd device =
      if locked
      then synced sync_from (dispatch_command h service call (to_command cmd) device)
      else (device, workflow_error h (codes "lock failed"))

  -- `first`, `both` and `last` say which of its three lockings succeed.
  unfoldable pub process_rest_job :
      (S → BoltyConfig → S) → Bool → Bool → Bool → JobSlot → Device S M W → JobSlot × Device S M W
  process_rest_job sync_from first both last slot device =
      if first
      then (elim (take_job slot) [
        | none ↦ (slot, device)
        | some (taken, cmd) ↦
            let (after, outcome) = run_job sync_from both cmd device in
            (complete last taken outcome, after)
      ])
      else (slot, device)
