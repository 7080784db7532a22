-- ===== src/Firmware/Workflow.antt =====
-- apps/bolty-esp32/src/workflow.rs and service.rs: what a command does to the service, the
-- configuration and the gate of ota_validity.rs. The card service, the bounded strings and the
-- platform's marker are parameters.
pub mod Policy
use bolty_rs.Prelude.{
  ◌≡◌, Bool, true, false, not, ◌&&◌, Option, none, some, [], Result, ok, err, if◌then◌else◌,
}
use bolty_rs.Prelude.Text.{Text, codes, contains, is_some, Heapless}
use bolty_rs.Core.Keys.{AesKey, CardKeys}
use bolty_rs.Core.Assessment.{CardAssessment}
use bolty_rs.Core.Config.{BoltyConfig}
use bolty_rs.Firmware.Commands.{
  Command, help, i2c_scan, uid, status, set_keys, set_issuer, set_url, set_wifi, wifi_off, ota,
  burn, wipe, ndef, auth, ver, key_ver, check, dummy_burn, reset, inspect, picc, diagnose,
  derive_keys, issuer, hw_info, button_mode, button_mode_set, set_token,
}
use bolty_rs.Firmware.OtaValidity.{ValidityGate, note_serve_evidence}

pub data WorkflowResult : Type 0 where
  success card_not_present auth_failed auth_delay wipe_refused : WorkflowResult
  error : Text → WorkflowResult

-- The service over its own state `S`, which every call may change.
pub record BoltyService (S : Type 0) : Type 0 where
  pub burn_card : S → Option AesKey → Option CardKeys → Text → S × WorkflowResult
  pub wipe_card : S → Option AesKey → Option CardKeys → S × WorkflowResult
  pub inspect_card : S → S × Result WorkflowResult CardAssessment
  pub check_blank : S → S × WorkflowResult

-- All that a dispatch can change: `&mut service`, `&mut config` and the global gate with the
-- platform behind it.
pub record Device (S M W : Type 0) : Type 0 where
  pub service : S
  pub config : BoltyConfig
  pub gate : ValidityGate M
  pub world : W

unfoldable pub is_success : WorkflowResult → Bool
is_success success = true
is_success _ = false

module _ (h : Heapless) where
  unfoldable pub workflow_error : Text → WorkflowResult
  workflow_error message = elim (h.push_str 64 [] message) [
    | none ↦ error []
    | some buffer ↦ error buffer
  ]

module _ {M W : Type 0} (call : M → W → W) where
  unfoldable pub note_card_transaction : WorkflowResult → ValidityGate M × W → ValidityGate M × W
  note_card_transaction result (gate, world) =
      if is_success result then (note_serve_evidence call gate world).0 else (gate, world)

module _ {S M W : Type 0} (h : Heapless) (service : BoltyService S) (call : M → W → W) where
  -- `let result = service...; note_card_transaction(source, &result); result`
  unfoldable pub finish : Device S M W → S × WorkflowResult → Device S M W × WorkflowResult
  finish device (s, result) =
      let (gate, world) = note_card_transaction call result (device.gate, device.world) in
      (record { service = s; config = device.config; gate = gate; world = world }, result)

  abbrev refuse : Device S M W → Text → Device S M W × WorkflowResult
  refuse device message = (device, workflow_error h message)

  abbrev burn_with : Device S M W → Text → Device S M W × WorkflowResult
  burn_with device lnurl =
      let config = device.config in
      if not (is_some config.pending_keys) && not (is_some config.pending_issuer)
      then refuse device (codes "missing keys or issuer")
      else if not config.force_unsafe && not (contains (codes "{mac}") lnurl)
      then refuse device (codes "lnurl missing {mac} SDM template marker")
      else finish device
          (service.burn_card device.service config.pending_issuer config.pending_keys lnurl)

  -- the `Command::Burn` branch of `dispatch_command`
  unfoldable pub dispatch_burn : Device S M W → Device S M W × WorkflowResult
  dispatch_burn device = elim device.config.lnurl [
    | none ↦ refuse device (codes "missing lnurl")
    | some lnurl ↦ burn_with device lnurl
  ]

  abbrev inspected : S × Result WorkflowResult CardAssessment → S × WorkflowResult
  inspected (s, ok assessment) = (s, success)
  inspected (s, err e) = (s, e)

  abbrev staged_config : Device S M W → BoltyConfig → Device S M W × WorkflowResult
  staged_config device config = (
    record { service = device.service; config = config; gate = device.gate; world = device.world },
    success,
  )

  unfoldable pub dispatch_command : Command → Device S M W → Device S M W × WorkflowResult
  dispatch_command (set_keys keys) device = staged_config device (record {
    lnurl = device.config.lnurl;
    issuer_name = device.config.issuer_name;
    pending_keys = some keys;
    pending_issuer = device.config.pending_issuer;
    rest_read_token = device.config.rest_read_token;
    rest_write_token = device.config.rest_write_token;
    force_unsafe = device.config.force_unsafe;
  })
  dispatch_command (set_issuer key) device = staged_config device (record {
    lnurl = device.config.lnurl;
    issuer_name = device.config.issuer_name;
    pending_keys = device.config.pending_keys;
    pending_issuer = some key;
    rest_read_token = device.config.rest_read_token;
    rest_write_token = device.config.rest_write_token;
    force_unsafe = device.config.force_unsafe;
  })
  dispatch_command (set_url url) device = staged_config device (record {
    lnurl = some url;
    issuer_name = device.config.issuer_name;
    pending_keys = device.config.pending_keys;
    pending_issuer = device.config.pending_issuer;
    rest_read_token = device.config.rest_read_token;
    rest_write_token = device.config.rest_write_token;
    force_unsafe = device.config.force_unsafe;
  })
  dispatch_command burn device = dispatch_burn device
  dispatch_command wipe device =
      finish device
        (service.wipe_card device.service device.config.pending_issuer device.config.pending_keys)
  dispatch_command key_ver device = finish device (inspected (service.inspect_card device.service))
  dispatch_command inspect device = finish device (inspected (service.inspect_card device.service))
  dispatch_command check device = finish device (service.check_blank device.service)
  dispatch_command _ device = (device, success)
