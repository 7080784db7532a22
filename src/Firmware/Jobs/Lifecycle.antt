-- ===== src/Firmware/Jobs/Lifecycle.antt =====
-- The life of the one job slot of rest.rs, under submissions and the worker of firmware.rs.
use bolty_rs.Prelude.{ℕ, ◌<◌, ◌≡◌, ◌≢◌, ◌⊎◌, refl, Bool, true, false, none, some, arith}
use bolty_rs.Prelude.Text.{Heapless, is_some}
use bolty_rs.Core.Config.{BoltyConfig}
use bolty_rs.Firmware.Workflow.{WorkflowResult, BoltyService, Device, dispatch_command}
use bolty_rs.Firmware.Jobs.{
  JobStatus, idle, pending, running, completed, JobCommand, JobSlot, new_slot, next_id, submit,
  take_job, complete, run_job, process_rest_job, to_command,
}

-- What the fields of a slot hold in each status.
unfoldable pub Holds : JobSlot → JobStatus → Type 0
Holds slot idle = (slot.id ≡ 0) × (slot.command ≡ none) × (slot.result ≡ none)
Holds slot completed = (slot.id ≢ 0) × (is_some slot.command ≡ true) × (is_some slot.result ≡ true)
Holds slot _ = (slot.id ≢ 0) × (is_some slot.command ≡ true) × (slot.result ≡ none)

unfoldable pub IsWellFormed : JobSlot → Type 0
IsWellFormed slot = (slot.id < 4294967296) × Holds slot slot.status

-- What can happen to the slot: a submission, the worker taking the job, the worker ending it.
pub data JobStep : JobSlot → JobSlot → Type 0 where
  submitting : (slot : JobSlot) (cmd : JobCommand) → JobStep slot (submit slot cmd).0
  taking :
      (slot taken : JobSlot) (cmd : JobCommand)
      → take_job slot ≡ some (taken, cmd)
      → JobStep slot taken
  ending :
      (slot : JobSlot) (locked : Bool) (outcome : WorkflowResult)
      → slot.status ≡ running
      → JobStep slot (complete locked slot outcome)

pub data Reachable : JobSlot → Type 0 where
  fresh : Reachable new_slot
  after : (slot slot' : JobSlot) → Reachable slot → JobStep slot slot' → Reachable slot'

next_id_lem :
    (id : ℕ) → id < 4294967296 → (next_id id ≢ 0) × (next_id id < 4294967296) × (next_id id ≢ id)
unfolding next_id
next_id_lem id h = ground arith

submit_wf :
    (slot : JobSlot) (cmd : JobCommand) → IsWellFormed slot → IsWellFormed (submit slot cmd).0
unfolding submit IsWellFormed Holds
submit_wf slot cmd (b, p) = go slot.status refl
  where
    go : (s : JobStatus) → slot.status ≡ s → IsWellFormed (submit slot cmd).0
    go idle e = rw e ((next_id_lem slot.id b).1, ((next_id_lem slot.id b).0, refl, refl))
    go completed e = rw e ((next_id_lem slot.id b).1, ((next_id_lem slot.id b).0, refl, refl))
    go pending e = rw e (b, rw e at p)
    go running e = rw e (b, rw e at p)

take_wf :
    (slot taken : JobSlot) (cmd : JobCommand)
    → take_job slot ≡ some (taken, cmd)
    → IsWellFormed slot
    → IsWellFormed taken
unfolding take_job IsWellFormed Holds
take_wf slot taken cmd e (b, p) = ground arith

complete_wf :
    (slot : JobSlot) (locked : Bool) (outcome : WorkflowResult)
    → slot.status ≡ running
    → IsWellFormed slot
    → IsWellFormed (complete locked slot outcome)
unfolding complete IsWellFormed Holds
complete_wf slot locked outcome e (b, p) = ground arith

step_wf : (slot slot' : JobSlot) → JobStep slot slot' → IsWellFormed slot → IsWellFormed slot'
step_wf _ _ (submitting slot cmd) w = submit_wf slot cmd w
step_wf _ _ (taking slot taken cmd e) w = take_wf slot taken cmd e w
step_wf _ _ (ending slot locked outcome e) w = complete_wf slot locked outcome e w

-- In every slot that submissions and the worker can bring about, the number is 0 exactly while no
-- job was ever submitted and within 32 bits, a job that was submitted keeps its command, and there
-- is a result if and only if the job is completed.
pub Reachable-IsWellFormed : (slot : JobSlot) → Reachable slot → IsWellFormed slot
unfolding IsWellFormed Holds
Reachable-IsWellFormed slot fresh = ground arith
Reachable-IsWellFormed slot (after before _ r s) =
    step_wf before slot s (Reachable-IsWellFormed before r)

-- Either the slot is free and takes the command under a new number, or it is not and nothing changes.
unfoldable pub SlotOutcome : JobSlot → JobCommand → JobSlot × Bool → Type 0
SlotOutcome slot cmd (slot', accepted) =
    ((slot.status ≡ idle ⊎ slot.status ≡ completed)
      × (accepted ≡ true)
      × (slot'.id ≢ 0)
      × (slot'.id ≢ slot.id)
      × (slot'.status ≡ pending)
      × (slot'.command ≡ some cmd)
      × (slot'.result ≡ none))
    ⊎ ((slot.status ≢ idle) × (slot.status ≢ completed) × (slot' ≡ slot) × (accepted ≡ false))

-- A submission is accepted if and only if the slot is idle or completed, and then waits under a new
-- number that is not 0, with its command and no result; a refused one changes nothing.
pub submit_lem :
    (slot : JobSlot) (cmd : JobCommand)
    → slot.id < 4294967296
    → SlotOutcome slot cmd (submit slot cmd)
unfolding submit SlotOutcome
submit_lem slot cmd b = ground (arith, next_id_lem slot.id b)

module _ {S M W : Type 0} (h : Heapless) (service : BoltyService S) (call : M → W → W)
    (sync_from : S → BoltyConfig → S) where
  take_pending :
      (slot : JobSlot) (cmd : JobCommand)
      → slot.status ≡ pending
      → slot.command ≡ some cmd
      → take_job slot
        ≡ some (
          record { id = slot.id; status = running; command = slot.command; result = slot.result },
          cmd,
        )
  unfolding take_job
  take_pending slot cmd e f = ground arith

  -- A waiting job is run to its end: with the locks free, the slot completes under its number with
  -- the result of dispatching the command, and the service is synchronised with the configuration
  -- that the dispatch left.
  pub process_rest_job_lem :
      (slot : JobSlot) (device : Device S M W) (cmd : JobCommand)
      → slot.status ≡ pending
      → slot.command ≡ some cmd
      → process_rest_job h service call sync_from true true true slot device ≡ (
        record {
          id = slot.id;
          status = completed;
          command = slot.command;
          result = some (dispatch_command h service call (to_command cmd) device).1;
        },
        record {
          service =
              sync_from
                (dispatch_command h service call (to_command cmd) device).0.service
                (dispatch_command h service call (to_command cmd) device).0.config;
          config = (dispatch_command h service call (to_command cmd) device).0.config;
          gate = (dispatch_command h service call (to_command cmd) device).0.gate;
          world = (dispatch_command h service call (to_command cmd) device).0.world;
        },
      )
  unfolding process_rest_job run_job complete
  process_rest_job_lem slot device cmd e f = rw (take_pending slot cmd e f, process_rest_job) refl
