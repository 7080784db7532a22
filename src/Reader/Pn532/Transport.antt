-- ===== src/Reader/Pn532/Transport.antt =====
-- crates/bolty-pn532/src/lib.rs: the transport of the library ntag424 over the device of
-- crates/pn532-transport.
use bolty_rs.Prelude.{
  ℕ, ◌+◌, ◌-◌, not, Option, none, some, List, Result, ok, err, ltb, if◌then◌else◌, length, take,
  get_or,
}
use bolty_rs.Reader.Pn532.{
  Pn532Ops, Pn532Device, init_with_delay, detect_card, exchange_apdu, release_card,
}
use bolty_rs.Reader.Mfrc522.{Response}

pub data Error : Type 0 where
  device_error : bolty_rs.Reader.Pn532.Error → Error
  invalid_response_length : ℕ → Error
  no_card : Error

pub record Pn532Transport (C : Type 0) : Type 0 where
  pub device : Pn532Device C
  pub uid : Option (List ℕ)

unfoldable pub split_response : List ℕ → Result Error Response
split_response response =
    if ltb (length response) 2
    then err (invalid_response_length (length response))
    else ok (record {
      bytes = take (length response - 2) response;
      sw1 = get_or response (length response - 2) 0;
      sw2 = get_or response (length response - 2 + 1) 0;
    })

module _ {C : Type 0} where
  abbrev pub new : Pn532Device C → Pn532Transport C
  new device = record { device = device; uid = none }

  -- The answer of Transport::get_uid
  unfoldable pub get_uid : Pn532Transport C → Result Error (List ℕ)
  get_uid t = elim t.uid [ none ↦ err no_card | some uid ↦ ok uid ]

module _ {C : Type 0} (ops : Pn532Ops C) where
  unfoldable pub finish_activation : Pn532Transport C → Pn532Transport C × Result Error (Unit {0})
  finish_activation t =
      let (device, found) = detect_card ops t.device in
      if found
      then (record { device = device; uid = device.uid }, ok tt)
      else (record { device = device; uid = t.uid }, err no_card)

  abbrev initialized :
      Pn532Transport C
      → Pn532Device C × Result bolty_rs.Reader.Pn532.Error (Unit {0})
      → Pn532Transport C × Result Error (Unit {0})
  initialized t (device, err e) = (record { device = device; uid = t.uid }, err (device_error e))
  initialized t (device, ok x) = finish_activation (record { device = device; uid = t.uid })

  unfoldable pub activate_with_delay : Pn532Transport C → Pn532Transport C × Result Error (Unit {0})
  activate_with_delay t =
      if not t.device.initialized
      then initialized t (init_with_delay ops t.device)
      else finish_activation t

  unfoldable pub release : Pn532Transport C → Pn532Transport C
  release t = record { device = release_card ops t.device; uid = none }

  abbrev answered : Result bolty_rs.Reader.Pn532.Error (List ℕ) → Result Error Response
  answered (err e) = err (device_error e)
  answered (ok response) = split_response response

  unfoldable pub transmit : Pn532Transport C → List ℕ → Pn532Transport C × Result Error Response
  transmit t apdu =
      let (device, answer) = exchange_apdu ops t.device apdu in
      (record { device = device; uid = t.uid }, answered answer)
