-- ===== src/Firmware/Tests.antt =====
-- The theorems of apps/bolty-esp32 at concrete lines, commands, requests and boots.
use bolty_rs.Prelude.{
  ℕ, ◌+◌, ◌*◌, ◌%◌, ◌≤◌, ◌<◌, ◌≡◌, ◌≢◌, ◌↔◌, ◌⊎◌, inl, inr, refl, arith, Bool, true, false, ◌&&◌,
  Option, none, some, List, [], ◌∷◌, ◌++◌, Result, ok, err, length, leb, if◌then◌else◌,
}
use bolty_rs.Prelude.Text.{Text, codes, len, trim, split_ascii_whitespace, Heapless}
use bolty_rs.Core.Config.{BoltyConfig, default_config}
use bolty_rs.Core.Keys.{zeroed_key}
use bolty_rs.Core.Assessment.{default_assessment}
use bolty_rs.Firmware.Fixtures.{toy_heapless}
use bolty_rs.Firmware.OtaHeader.{magic_v2, authorize}
use bolty_rs.Firmware.OtaHeader.Gate.{Entitled, authorize_iff}
use bolty_rs.Firmware.Auth.{write_scope, token_eq, bearer_token, is_authorized}
use bolty_rs.Firmware.Auth.Bearer.{IsEntitled, is_authorized_iff}
use bolty_rs.Firmware.Button.{click, new_debounce}
use bolty_rs.Firmware.Button.Gesture.{press, gesture, IsUp, press_lem}
use bolty_rs.Firmware.Commands.{Command}
use bolty_rs.Firmware.Console.{new_assembler}
use bolty_rs.Firmware.Console.Lines.{stream, all_events, feed_all, feed_all-stream}
use bolty_rs.Firmware.Jobs.{
  RateLimiter, check_write, record_write, pending, burn_job, JobSlot, completed, to_command,
  new_slot, submit, process_rest_job,
}
use bolty_rs.Firmware.Jobs.Lifecycle.{
  fresh, after, submitting, IsWellFormed, Reachable-IsWellFormed,
}
use bolty_rs.Firmware.OtaValidity.{unarmed}
use bolty_rs.Firmware.OtaValidity.Trace.{
  arming, evidence, marker_to_run, run_once, boot, boot_marks_once,
}
use bolty_rs.Firmware.Requests.{
  SubmitResponse, serve_job_submit, Submission, created, handle_job_submit,
}
use bolty_rs.Firmware.Requests.Guards.{job_id_agrees}
use bolty_rs.Firmware.Workflow.{WorkflowResult, BoltyService, Device, dispatch_command}
use bolty_rs.Firmware.Workflow.Policy.{
  BurnOutcome, Effects, dispatch_burn_guards, dispatch_command-Effects,
}

-- A service that counts its calls and always succeeds.
abbrev toy_service : BoltyService ℕ
toy_service = record {
  burn_card = λ s issuer keys lnurl. (s + 1, WorkflowResult.success);
  wipe_card = λ s issuer keys. (s + 1, WorkflowResult.success);
  inspect_card = λ s. (s + 1, ok default_assessment);
  check_blank = λ s. (s + 1, WorkflowResult.success);
}

-- A platform that keeps the list of the markers it ran.
abbrev log_marker : ℕ → List ℕ → List ℕ
log_marker marker log = marker ∷ log

abbrev ready_config : BoltyConfig
ready_config = record default_config {
  lnurl = some (codes "lnurlw://h?p={picc}&c={mac}");
  pending_issuer = some zeroed_key;
  rest_write_token = some (codes "s3cret");
}

abbrev ready_device : Device ℕ ℕ (List ℕ)
ready_device = record { service = 0; config = ready_config; gate = unarmed; world = [] }

burn_test :
    (dispatch_command toy_heapless toy_service log_marker Command.burn ready_device).0.service ≡ 1
unfolding dispatch_command bolty_rs.Firmware.Workflow.dispatch_burn bolty_rs.Prelude.Text.contains
    bolty_rs.Firmware.Workflow.finish
burn_test = refl

dispatch_burn_guards_example :
    BurnOutcome toy_heapless toy_service log_marker ready_device
      (dispatch_command toy_heapless toy_service log_marker Command.burn ready_device)
dispatch_burn_guards_example = dispatch_burn_guards toy_heapless toy_service log_marker ready_device

dispatch_command-Effects_example :
    Effects toy_heapless toy_service log_marker Command.wipe ready_device
      (dispatch_command toy_heapless toy_service log_marker Command.wipe ready_device)
dispatch_command-Effects_example =
    dispatch_command-Effects toy_heapless toy_service log_marker Command.wipe ready_device

boot_marks_once_example :
    (boot log_marker (evidence ∷ arming 3 ∷ arming 4 ∷ evidence ∷ evidence ∷ []) (unarmed, [])).1
    ≡ run_once log_marker
        (marker_to_run none (evidence ∷ arming 3 ∷ arming 4 ∷ evidence ∷ evidence ∷ []))
        []
boot_marks_once_example =
    boot_marks_once log_marker (evidence ∷ arming 3 ∷ arming 4 ∷ evidence ∷ evidence ∷ []) []

abbrev two_lines : List (List ℕ)
two_lines = (b'u' ∷ b'i' ∷ b'd' ∷ 13 ∷ []) ∷ (b'a' ∷ b'a' ∷ b'a' ∷ b'a' ∷ []) ∷ []

feed_all-stream_example :
    feed_all toy_heapless 3 (stream two_lines) new_assembler ≡ all_events 3 two_lines
feed_all-stream_example =
    feed_all-stream toy_heapless 3 two_lines
      ((refl, (refl, (refl, (refl, tt)))), ((refl, (refl, (refl, (refl, tt)))), tt))

abbrev a_header : Option Text
a_header = some (codes "bearer s3cret")

is_authorized_iff_example :
    (is_authorized true a_header ready_config write_scope ≡ some true)
    ↔ ((true ≡ true) × IsEntitled a_header ready_config write_scope)
is_authorized_iff_example = is_authorized_iff true a_header ready_config write_scope

is_authorized_test : is_authorized true a_header ready_config write_scope ≡ some true
unfolding is_authorized bolty_rs.Firmware.Auth.expected_token bearer_token len
    bolty_rs.Prelude.Text.as_bytes bolty_rs.Firmware.Auth.split_at
    bolty_rs.Prelude.Text.eq_ignore_ascii_case token_eq bolty_rs.Firmware.Auth.diff_from
is_authorized_test = refl

-- a header whose seventh byte is inside the sign of the euro
split_panic_test : bearer_token (some (codes "Bearer€ x")) ≡ none
unfolding bearer_token len bolty_rs.Prelude.Text.as_bytes bolty_rs.Firmware.Auth.split_at
split_panic_test = refl

abbrev an_old_limiter : RateLimiter
an_old_limiter = record { last_write_us = 1000000 }

check_write_test : check_write an_old_limiter 2500000 ≡ err 4
unfolding check_write
check_write_test = refl

abbrev a_waiting_slot : JobSlot
a_waiting_slot = record { id = 1; status = pending; command = some burn_job; result = none }

submit_test : (submit new_slot burn_job).0 ≡ a_waiting_slot
unfolding submit bolty_rs.Firmware.Jobs.next_id
submit_test = refl

Reachable-IsWellFormed_example : IsWellFormed (submit new_slot burn_job).0
Reachable-IsWellFormed_example =
    Reachable-IsWellFormed (submit new_slot burn_job).0
      (after new_slot (submit new_slot burn_job).0 fresh (submitting new_slot burn_job))

abbrev a_request : Submission
a_request = record {
  config_locked = true;
  limiter_locked = true;
  slot_locked = true;
  now = 9000000;
  later = 9000100;
  header = a_header;
  body = ok (codes "{\"command\": \"burn\"}");
}

handle_job_submit_test :
    (handle_job_submit toy_heapless ready_config a_request an_old_limiter new_slot).0.1
    ≡ a_waiting_slot
unfolding handle_job_submit is_authorized bolty_rs.Firmware.Auth.expected_token bearer_token len
    bolty_rs.Prelude.Text.as_bytes bolty_rs.Firmware.Auth.split_at
    bolty_rs.Prelude.Text.eq_ignore_ascii_case token_eq bolty_rs.Firmware.Auth.diff_from
    bolty_rs.Firmware.Requests.check_rate_limit check_write
    bolty_rs.Firmware.Requests.extract_json_string bolty_rs.Firmware.Requests.quoted
    bolty_rs.Firmware.Requests.behind bolty_rs.Prelude.Text.strip_prefix
    bolty_rs.Prelude.Text.trim_start bolty_rs.Firmware.Requests.up_to_quote
    bolty_rs.Firmware.Jobs.job_from_str bolty_rs.Firmware.Jobs.next_id record_write submit
    bolty_rs.Firmware.Requests.record_rate_limit bolty_rs.Prelude.Text.eq
    bolty_rs.Prelude.Text.is_whitespace bolty_rs.Prelude.Text.to_ascii_lowercase
handle_job_submit_test = refl

abbrev the_burn : Device ℕ ℕ (List ℕ) × WorkflowResult
the_burn = dispatch_command toy_heapless toy_service log_marker (to_command burn_job) ready_device

answer_test :
    (handle_job_submit toy_heapless ready_config a_request an_old_limiter new_slot).1
    ≡ created 1 burn_job
unfolding handle_job_submit is_authorized bolty_rs.Firmware.Auth.expected_token bearer_token len
    bolty_rs.Prelude.Text.as_bytes bolty_rs.Firmware.Auth.split_at
    bolty_rs.Prelude.Text.eq_ignore_ascii_case token_eq bolty_rs.Firmware.Auth.diff_from
    bolty_rs.Firmware.Requests.check_rate_limit check_write
    bolty_rs.Firmware.Requests.extract_json_string bolty_rs.Firmware.Requests.quoted
    bolty_rs.Firmware.Requests.behind bolty_rs.Prelude.Text.strip_prefix
    bolty_rs.Prelude.Text.trim_start bolty_rs.Firmware.Requests.up_to_quote
    bolty_rs.Firmware.Jobs.job_from_str bolty_rs.Firmware.Jobs.next_id record_write submit
    bolty_rs.Firmware.Requests.record_rate_limit bolty_rs.Prelude.Text.eq
    bolty_rs.Prelude.Text.is_whitespace bolty_rs.Prelude.Text.to_ascii_lowercase
answer_test = refl

job_id_agrees_example :
    ((handle_job_submit toy_heapless ready_config a_request an_old_limiter new_slot).0.1.id ≡ 1)
    × ((handle_job_submit toy_heapless ready_config a_request an_old_limiter new_slot).0.1.status
        ≡ pending)
    × ((handle_job_submit toy_heapless ready_config a_request an_old_limiter new_slot).0.1.command
        ≡ some burn_job)
job_id_agrees_example =
    job_id_agrees toy_heapless ready_config a_request an_old_limiter new_slot 1 burn_job
      (ground arith) answer_test

-- The number in the answer and the number of the slot part where the numbers wrap around.
wrapped_id_test : (submit (record new_slot { id = 4294967295 }) burn_job).0.id ≡ 1
unfolding submit bolty_rs.Firmware.Jobs.next_id
wrapped_id_test = refl

new_debounce-IsUp : IsUp new_debounce
unfolding IsUp
new_debounce-IsUp = (refl, refl)

press_test : (press (0 ∷ 10 ∷ 20 ∷ []) 30 new_debounce).1 ≡ click ∷ []
unfolding press bolty_rs.Firmware.Button.update
press_test = refl

press_lem_example :
    ((press (0 ∷ 10 ∷ 1500 ∷ []) 1600 new_debounce).1 ≡ gesture (0 ∷ 10 ∷ 1500 ∷ []))
    × IsUp (press (0 ∷ 10 ∷ 1500 ∷ []) 1600 new_debounce).0
press_lem_example = press_lem (0 ∷ 10 ∷ 1500 ∷ []) 1600 new_debounce new_debounce-IsUp

authorize_iff_example :
    (authorize magic_v2 (some (7 ∷ 8 ∷ [])) (some (7 ∷ 8 ∷ [])) ≡ ok tt)
    ↔ Entitled magic_v2 (some (7 ∷ 8 ∷ [])) (some (7 ∷ 8 ∷ []))
authorize_iff_example = authorize_iff magic_v2 (some (7 ∷ 8 ∷ [])) (some (7 ∷ 8 ∷ []))
