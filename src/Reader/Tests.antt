-- ===== src/Reader/Tests.antt =====
-- The theorems of crates/pn532-transport on a chip that always sees one card, and the transports of
-- crates/bolty-pn532 and crates/bolty-pn7160.
use bolty_rs.Prelude.{
  ◌==◌, none, overwrite, ℕ, ◌+◌, ◌≡◌, ◌⊎◌, refl, true, false, some, [], ◌∷◌, ok, err, if◌then◌else◌,
}
use bolty_rs.Reader.Pn532.{
  not_initialized, no_card, Pn532Ops, Pn532Device, new_device, with_chip, card_present,
  exchange_apdu,
}
use bolty_rs.Reader.Pn532.Transport.{
  Pn532Transport, new, get_uid, activate_with_delay, finish_activation,
}
use bolty_rs.Reader.Pn7160.{Pn7160Driver, activate, power_on, transmit, slice_to}
use bolty_rs.Reader.Pn532.Session.{
  init, detect, release, exchange, IsConsistent, perform_all, perform_all-IsConsistent,
  exchange_apdu_lem,
}

-- A chip that counts its calls.
abbrev toy_chip : Pn532Ops ℕ
toy_chip = record {
  get_firmware_version = λ c. (c + 1, ok (1, 6));
  configure_sam = λ c. (c + 1, ok tt);
  inlist_passive_target = λ c. (c + 1, ok (some (1, 4 ∷ 5 ∷ [])));
  in_data_exchange = λ c target apdu. (c + 1, ok apdu);
  in_release = λ c target. (c + 1, ok tt);
  set_low = λ c. (c, true);
  set_high = λ c. (c, true);
  delay_ms = λ c ms. c;
}

abbrev fresh_device : Pn532Device ℕ
fresh_device = new_device 0

perform_all_test : (perform_all toy_chip (init ∷ detect ∷ []) fresh_device).uid ≡ some (4 ∷ 5 ∷ [])
unfolding perform_all bolty_rs.Reader.Pn532.Session.perform bolty_rs.Reader.Pn532.detect_card
    bolty_rs.Reader.Pn532.init_with_delay
perform_all_test = refl

new_device-IsConsistent : IsConsistent fresh_device
unfolding IsConsistent
new_device-IsConsistent = (refl, refl)

perform_all-IsConsistent_example :
    IsConsistent
      (perform_all toy_chip (init ∷ detect ∷ exchange (9 ∷ []) ∷ release ∷ []) fresh_device)
perform_all-IsConsistent_example =
    perform_all-IsConsistent toy_chip (init ∷ detect ∷ exchange (9 ∷ []) ∷ release ∷ [])
      fresh_device new_device-IsConsistent

abbrev with_card : Pn532Device ℕ
with_card = record { pn532 = 3; target_num = some 1; initialized = true; uid = some (4 ∷ 5 ∷ []) }

with_card-IsConsistent : IsConsistent with_card
unfolding IsConsistent
with_card-IsConsistent = (refl, refl)

exchange_apdu_lem_example :
    ((target_num : ℕ) × (with_card.target_num ≡ some target_num)
      × (exchange_apdu toy_chip with_card (9 ∷ []) ≡ (
        with_chip with_card (toy_chip.in_data_exchange 3 target_num (9 ∷ [])).0,
        (toy_chip.in_data_exchange 3 target_num (9 ∷ [])).1,
      )))
    ⊎ ((card_present with_card ≡ false)
        × (exchange_apdu toy_chip with_card (9 ∷ [])
            ≡ (with_card, err (if with_card.initialized then no_card else not_initialized))))
exchange_apdu_lem_example = exchange_apdu_lem toy_chip with_card (9 ∷ []) with_card-IsConsistent

-- A card that is there once: the second activation fails and the UID of the first card stays.
abbrev leaving_chip : Pn532Ops ℕ
leaving_chip = record toy_chip {
  inlist_passive_target = λ c. (c + 1, ok (if c == 2 then some (1, 4 ∷ 5 ∷ []) else none));
}

abbrev after_first : Pn532Transport ℕ
after_first = (activate_with_delay leaving_chip (new fresh_device)).0

second_activation_test :
    ((activate_with_delay leaving_chip after_first).1 ≡ err bolty_rs.Reader.Pn532.Transport.no_card)
    × (get_uid (activate_with_delay leaving_chip after_first).0 ≡ ok (4 ∷ 5 ∷ []))
    × ((activate_with_delay leaving_chip after_first).0.device.uid ≡ none)
    × (get_uid (bolty_rs.Reader.Pn532.Transport.release leaving_chip after_first)
        ≡ err bolty_rs.Reader.Pn532.Transport.no_card)
unfolding activate_with_delay finish_activation get_uid bolty_rs.Reader.Pn532.Transport.release
    bolty_rs.Reader.Pn532.detect_card bolty_rs.Reader.Pn532.init_with_delay
    bolty_rs.Reader.Pn532.release_card
second_activation_test = (refl, refl, refl, refl)

-- A driver that answers status 0x90 0x00 to everything.
abbrev toy_driver : Pn7160Driver ℕ ℕ
toy_driver = record {
  buffer_too_small = 7;
  driver_init = λ d. (d + 1, ok tt);
  driver_power_on = λ d buf. (d + 1, ok (2, overwrite (0x75 ∷ 0x77 ∷ []) buf));
  driver_uid = λ d. 4 ∷ d ∷ [];
  session_active = λ d. true;
  transmit_apdu = λ d apdu buf. (d + 1, ok (2, overwrite (0x90 ∷ 0 ∷ []) buf));
}

activate_test :
    activate toy_driver 0 ≡ ok (record { driver = 2; uid = 4 ∷ 2 ∷ []; atr = 0x75 ∷ 0x77 ∷ [] })
unfolding activate power_on slice_to
activate_test = refl

transmit_test :
    (transmit toy_driver (record { driver = 0; uid = []; atr = [] }) (1 ∷ [])).1
    ≡ ok (record { bytes = []; sw1 = 0x90; sw2 = 0 })
unfolding transmit slice_to bolty_rs.Reader.Pn7160.split_response
transmit_test = refl
