-- ===== src/Reader/Pn532.antt =====
-- crates/pn532-transport/src/lib.rs: the device over a PN532. The chip's driver (`Pn532Ops`) and the
-- reset pin are parameters; every call of them may change the chip's state `C`.
pub mod Session
pub mod Transport
use bolty_rs.Prelude.{
  ℕ, Bool, true, false, Option, none, some, List, Result, ok, err, if◌then◌else◌,
}

pub data Error : Type 0 where
  not_initialized no_card communication buffer_overflow : Error

pub record Pn532Ops (C : Type 0) : Type 0 where
  pub get_firmware_version : C → C × Result Error (ℕ × ℕ)
  pub configure_sam : C → C × Result Error (Unit {0})
  pub inlist_passive_target : C → C × Result Error (Option (ℕ × List ℕ))
  pub in_data_exchange : C → ℕ → List ℕ → C × Result Error (List ℕ)
  pub in_release : C → ℕ → C × Result Error (Unit {0})
  pub set_low : C → C × Bool
  pub set_high : C → C × Bool
  pub delay_ms : C → ℕ → C

pub record Pn532Device (C : Type 0) : Type 0 where
  pub pn532 : C
  pub target_num : Option ℕ
  pub initialized : Bool
  pub uid : Option (List ℕ)

module _ {C : Type 0} where
  abbrev pub new_device : C → Pn532Device C
  new_device c = record { pn532 = c; target_num = none; initialized = false; uid = none }

  abbrev pub with_chip : Pn532Device C → C → Pn532Device C
  with_chip d c = record {
    pn532 = c;
    target_num = d.target_num;
    initialized = d.initialized;
    uid = d.uid;
  }

  unfoldable pub card_present : Pn532Device C → Bool
  card_present d = elim d.target_num [ none ↦ false | some target_num ↦ true ]

module _ {C : Type 0} (ops : Pn532Ops C) where
  abbrev configured :
      Pn532Device C → C × Result Error (Unit {0}) → Pn532Device C × Result Error (Unit {0})
  configured d (c, err e) = (with_chip d c, err e)
  configured d (c, ok x) =
      (record { pn532 = c; target_num = d.target_num; initialized = true; uid = d.uid }, ok tt)

  abbrev versioned :
      Pn532Device C → C × Result Error (ℕ × ℕ) → Pn532Device C × Result Error (Unit {0})
  versioned d (c, err e) = (with_chip d c, err e)
  versioned d (c, ok version) = configured d (ops.configure_sam c)

  abbrev raised : Pn532Device C → C × Bool → Pn532Device C × Result Error (Unit {0})
  raised d (c, false) = (with_chip d c, err communication)
  raised d (c, true) = versioned d (ops.get_firmware_version (ops.delay_ms c 500))

  abbrev lowered : Pn532Device C → C × Bool → Pn532Device C × Result Error (Unit {0})
  lowered d (c, false) = (with_chip d c, err communication)
  lowered d (c, true) = raised d (ops.set_high (ops.delay_ms c 100))

  -- each `?` is one of the functions above
  unfoldable pub init_with_delay : Pn532Device C → Pn532Device C × Result Error (Unit {0})
  init_with_delay d = lowered d (ops.set_low d.pn532)

  abbrev detected : Pn532Device C → C × Result Error (Option (ℕ × List ℕ)) → Pn532Device C × Bool
  detected d (c, ok (some (target_num, uid))) = (
    record { pn532 = c; target_num = some target_num; initialized = d.initialized; uid = some uid },
    true,
  )
  detected d (c, _) =
      (record { pn532 = c; target_num = none; initialized = d.initialized; uid = none }, false)

  unfoldable pub detect_card : Pn532Device C → Pn532Device C × Bool
  detect_card d =
      if d.initialized then detected d (ops.inlist_passive_target d.pn532) else (d, false)

  unfoldable pub exchange_apdu : Pn532Device C → List ℕ → Pn532Device C × Result Error (List ℕ)
  exchange_apdu d apdu =
      if d.initialized
      then (elim d.target_num [
        | none ↦ (d, err no_card)
        | some target_num ↦
            let (c, answer) = ops.in_data_exchange d.pn532 target_num apdu in
            (with_chip d c, answer)
      ])
      else (d, err not_initialized)

  unfoldable pub release_card : Pn532Device C → Pn532Device C
  release_card d = elim d.target_num [
    | none ↦ d
    | some target_num ↦ record {
      pn532 = (ops.in_release d.pn532 target_num).0;
      target_num = none;
      initialized = d.initialized;
      uid = none;
    }
  ]
