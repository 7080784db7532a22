-- ===== src/Firmware/CardService/Tests.antt =====
-- The card service of the firmware over a toy card.
use bolty_rs.Prelude.{
  ℕ, ◌≡◌, refl, true, Option, none, some, List, [], ◌∷◌, replicate, arith, Result, err,
}
use bolty_rs.Prelude.Text.{Text, codes}
use bolty_rs.Prelude.Act.{Outcome}
use bolty_rs.Core.Crypto.{Crypto}
use bolty_rs.Core.Config.{default_config}
use bolty_rs.Core.Assessment.{default_assessment}
use bolty_rs.Core.Keys.{IsArray}
use bolty_rs.Firmware.Fixtures.{toy_heapless}
use bolty_rs.Firmware.CardService.{Esp32BoltyService}
use bolty_rs.Firmware.CardService.Operations.{service_burn, service_wipe}
use bolty_rs.Firmware.CardService.Cleared.{IsSteady}
use bolty_rs.Firmware.CardService.Burns.{Burned, NotBurned, service_burn_lem}
use bolty_rs.Firmware.CardService.Wipes.{IsReadable, Wiped, NotWiped, service_wipe_lem}
use bolty_rs.Firmware.CardService.Looks.{poll_safe, service_card_present}
use bolty_rs.Firmware.CardService.Untouched.{poll_safe_unauthenticated}
use bolty_rs.Ntag.Link.{KeyNumber, SessionError, session_failure, Error}
use bolty_rs.Ntag.Toy.{ToyCard, toy, toy-IsNtag424, burn_keys, blank_card}

zeros : IsArray 16 (replicate 16 0)
zeros = ground arith

abbrev toy_crypto : Crypto
toy_crypto = record {
  aes_cmac = λ k m. replicate 16 0;
  aes_cmac-IsArray = λ k m. zeros;
  cbc_decrypt = λ k iv block. some block;
  cbc_decrypt-IsArray = λ k iv block h. (block, refl, h);
}

abbrev toy_activate : ToyCard → ToyCard × Option (List ℕ)
toy_activate c = (c, some (4 ∷ 1 ∷ 2 ∷ 3 ∷ 4 ∷ 5 ∷ 6 ∷ []))

abbrev toy_random : ToyCard → ToyCard × List ℕ
toy_random c = (c, replicate 16 7)

abbrev toy_debug : Error ℕ → Text
toy_debug e = codes "Error"

abbrev no_verifier : ℕ → List ℕ → List ℕ → List ℕ → Option ℕ
no_verifier sdm bytes k2 k1 = none

toy-IsSteady : IsSteady toy_activate toy_random (λ (c : ToyCard). c)
toy-IsSteady = record { activate_law = λ c. refl; rng_law = λ c. refl }

toy-IsReadable : IsReadable toy (λ c. c)
toy-IsReadable = record {
  get_version_law = λ c. refl;
  get_file_settings_plain_law = λ c. refl;
  read_file_unauthenticated_law = λ offset buf c. refl;
}

abbrev a_service : Esp32BoltyService ToyCard
a_service = record {
  has_transceiver = true;
  link = blank_card;
  current_config = default_config;
  keys = none;
  authenticated_key0 = none;
  last_card = default_assessment;
  status = record { last_uid = none; nfc_ready = true; lnurl = none };
  saved = [];
}

abbrev a_template : Text
a_template = codes "a.com/?p={picc}&c={mac}"

service_burn_lem_example :
    Outcome
      (λ s. s)
      (Burned ⊥ toy_crypto toy
        (λ c. c)
        none
        (some burn_keys)
        a_template
        (toy_activate blank_card).1
        blank_card)
      (NotBurned ⊥ toy_crypto toy
        (λ c. c)
        none
        (some burn_keys)
        a_template
        (toy_activate blank_card).1
        blank_card)
      (service_burn toy_heapless toy_crypto toy toy_activate toy_random toy_debug no_verifier 256
        none
        (some burn_keys)
        a_template
        a_service)
service_burn_lem_example =
    service_burn_lem toy_heapless toy_crypto toy toy_activate toy_random toy_debug no_verifier 256
      (λ c. c) toy-IsNtag424 toy-IsSteady none (some burn_keys) a_template a_service

service_wipe_lem_example :
    Outcome
      (λ s. s)
      (Wiped ⊥ toy_crypto (λ c. c) none (some burn_keys) (toy_activate blank_card).1 blank_card)
      (NotWiped ⊥ toy_crypto (λ c. c) none (some burn_keys) (toy_activate blank_card).1 blank_card)
      (service_wipe toy_heapless toy_crypto toy toy_activate toy_random toy_debug no_verifier 256
        true none
        (some burn_keys)
        a_service)
service_wipe_lem_example =
    service_wipe_lem toy_heapless toy_crypto toy toy_activate toy_random toy_debug no_verifier 256
      (λ c. c) toy-IsNtag424 toy-IsSteady toy-IsReadable none (some burn_keys) true a_service

abbrev shown_uid : ℕ → Option (List ℕ)
shown_uid verification = none

-- A transport on which no one may authenticate
abbrev no_authentication :
    KeyNumber → List ℕ → List ℕ → ToyCard → ToyCard × Result (SessionError ℕ) (Unit {0})
no_authentication kn k rnd_a c = (c, err (session_failure 0))

poll_safe_unauthenticated_example :
    (poll_safe toy_heapless
        (record toy { authenticate_aes = no_authentication })
        toy_activate
        toy_random
        toy_debug
        no_verifier
        256
        shown_uid
        a_service
      ≡ poll_safe toy_heapless toy toy_activate toy_random toy_debug no_verifier 256 shown_uid
          a_service)
    × (service_card_present toy_heapless
          (record toy { authenticate_aes = no_authentication })
          toy_activate
          toy_random
          toy_debug
          no_verifier
          256
          shown_uid
          a_service
        ≡ service_card_present toy_heapless toy toy_activate toy_random toy_debug no_verifier 256
            shown_uid a_service)
poll_safe_unauthenticated_example =
    poll_safe_unauthenticated toy_heapless toy_crypto toy toy_activate toy_random toy_debug
      no_verifier 256 shown_uid (λ c. c) toy-IsNtag424 toy-IsSteady toy-IsReadable no_authentication
      a_service
