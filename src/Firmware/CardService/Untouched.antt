-- ===== src/Firmware/CardService/Untouched.antt =====
-- apps/bolty-esp32/src/firmware/card_operations.rs and service.rs: looking changes no key, key version, file or
-- setting of a card.
use bolty_rs.Prelude.{
  ℕ, ◌≡◌, refl, Bool, Option, none, some, List, Result, ok, err, Bool-cases, inl, inr,
}
use bolty_rs.Prelude.Text.{Text, Heapless}
use bolty_rs.Prelude.Act.{Outcome}
use bolty_rs.Core.Keys.{AesKey, CardKeys, factory_key}
use bolty_rs.Core.Crypto.{Crypto}
use bolty_rs.Firmware.Workflow.{WorkflowResult}
use bolty_rs.Firmware.CardService.{
  Esp32BoltyService, ServiceM, looks_factory_default, copy_uid7, attempted, seen,
}
use bolty_rs.Firmware.CardService.Operations.{or_mapped, ntag, activate_transport}
use bolty_rs.Firmware.CardService.Cleared.{
  IsSteady, Keeps, then-Keeps, returned-Keeps, activate-Keeps, gen_rnd-Keeps, authenticate-Keeps,
}
use bolty_rs.Firmware.CardService.Wipes.{IsReadable, safe_inspect_same}
use bolty_rs.Firmware.CardService.Looks.{
  picc_seen, service_picc, remember_look, diagnosed, DiagnoseState, diagnose_seen, service_diagnose,
  polled, poll_found, poll_safe, service_card_present,
}
use bolty_rs.Ntag.Link.{KeyNumber, SessionError, Error, Ntag424}
use bolty_rs.Ntag.Inspect.{SafeInspectResult, safe_inspect}
use bolty_rs.Ntag.Card.{Card, IsNtag424}

module _ {C S Sdm T V : Type 0} {Refusal : Type 0} (h : Heapless) (crypto : Crypto)
    (ops : Ntag424 C S Sdm T) (activate : C → C × Option (List ℕ)) (rng : C → C × List ℕ)
    (debug : Error T → Text) (verify : Sdm → List ℕ → List ℕ → List ℕ → Option V) (file_size : ℕ)
    (verified_uid : V → Option (List ℕ)) (view : C → Card Sdm) (law : IsNtag424 ops view Refusal)
    (steady : IsSteady activate rng view) (readable : IsReadable ops view) where
  abbrev Same : (a : Card Sdm) {A : Type 0} → ServiceM C A → Type 0
  Same a m = Keeps view a (λ _. Unit {0}) m

  inspect-Keeps :
      (a : Card Sdm) (k1 k2 : Option AesKey) → Same a (ntag debug (safe_inspect ops verify k1 k2))
  unfolding Keeps ntag Outcome
  inspect-Keeps a k1 k2 s e =
      go (safe_inspect ops verify k1 k2 s.link)
        (safe_inspect_same ops verify view law readable a k1 k2 s.link e)
    where
      go :
          (p : C × Result (Error T) (SafeInspectResult Sdm V))
          → view p.0 ≡ a
          → Outcome
              (λ s. s)
              (λ r s'. (view s'.link ≡ a) × Unit {0})
              (λ s'. view s'.link ≡ a)
              (record s { link = p.0 }, or_mapped debug p.1)
      go (c, ok r) same = (same, tt)
      go (c, err x) same = same

  picc_seen-Keeps :
      (a : Card Sdm) (keys : Option CardKeys) (inspect : SafeInspectResult Sdm V)
      → Same a (picc_seen h ops activate rng debug verify file_size verified_uid keys inspect)
  unfolding Keeps picc_seen remember_look seen Outcome
  picc_seen-Keeps a keys inspect s e = (e, tt)

  diagnosed-Keeps :
      (a : Card Sdm) (inspect : SafeInspectResult Sdm V) (t ok_zero : Bool) (state : DiagnoseState)
      → Same a
          (diagnosed h ops activate rng debug verify file_size verified_uid inspect t ok_zero state)
  unfolding Keeps diagnosed remember_look seen Outcome
  diagnosed-Keeps a inspect t ok_zero state s e = (e, tt)

  polled-Keeps :
      (a : Card Sdm) (inspect : SafeInspectResult Sdm V)
      → Same a (polled h ops activate rng debug verify file_size verified_uid inspect)
  unfolding Keeps polled remember_look seen Outcome
  polled-Keeps a inspect s e = (e, tt)

  diagnose_seen-Keeps :
      (a : Card Sdm) (inspect : SafeInspectResult Sdm V)
      → Same a (diagnose_seen h ops activate rng debug verify file_size verified_uid inspect)
  unfolding diagnose_seen
  diagnose_seen-Keeps a inspect =
      elim (Bool-cases (looks_factory_default file_size inspect.file_settings)) [
        | inl like ↦ rw like (
            then-Keeps view a _ _ _ _
              (gen_rnd-Keeps h crypto ops activate rng debug verify file_size view law steady a)
              λ rnd_a _.
                then-Keeps view a _ _ _ _
                  (authenticate-Keeps h crypto ops activate rng debug verify file_size view law
                    steady a factory_key rnd_a)
                  λ answer _. diagnosed-Keeps a inspect _ _ _)
        | inr unlike ↦ rw unlike (diagnosed-Keeps a inspect _ _ _)
      ]

  poll_found-Keeps :
      (a : Card Sdm) (uid : Option (List ℕ))
      → Same a (poll_found h ops activate rng debug verify file_size verified_uid uid)
  unfolding poll_found
  poll_found-Keeps a none = returned-Keeps view a (λ _. Unit {0}) _ (λ _ _. tt)
  poll_found-Keeps a (some uid) =
      then-Keeps view a _ _ _ _ (inspect-Keeps a none none) λ inspect _. polled-Keeps a inspect

  same_after :
      {A : Type 0} (a : Card Sdm) (p : Esp32BoltyService C × Result WorkflowResult A)
      → Outcome (λ s. s) (λ r s'. (view s'.link ≡ a) × Unit {0}) (λ s'. view s'.link ≡ a) p
      → view p.0.link ≡ a
  unfolding Outcome
  same_after a (s, ok r) same = same.0
  same_after a (s, err e) same = same

  active-Keeps : (a : Card Sdm) → Same a (activate_transport h activate)
  active-Keeps a = activate-Keeps h crypto ops activate rng debug verify file_size view law steady a

  -- Whatever the card and the link do, the picc and diagnose commands, the poll of the main loop and
  -- the test of presence leave the card's keys, key versions, file and settings as they were.
  pub looks_lem :
      (s : Esp32BoltyService C)
      → (view (service_picc h ops activate rng debug verify file_size verified_uid s).0.link
          ≡ view s.link)
        × (view (service_diagnose h ops activate rng debug verify file_size verified_uid s).0.link
            ≡ view s.link)
        × (view (poll_safe h ops activate rng debug verify file_size verified_uid s).0.link
            ≡ view s.link)
        × (view
              (service_card_present h ops activate rng debug verify file_size verified_uid s).0.link
            ≡ view s.link)
  unfolding service_picc service_diagnose poll_safe service_card_present Keeps
  looks_lem s =
      let a = view s.link in
      (
        same_after a _ (
            then-Keeps view a _ _ _ _ (active-Keeps a)
              (λ uid _.
                then-Keeps view a _ _ _ _ (inspect-Keeps a _ _)
                  λ inspect _. picc_seen-Keeps a s.keys inspect)
              s refl),
        same_after a _ (
            then-Keeps view a _ _ _ _ (active-Keeps a)
              (λ uid _.
                then-Keeps view a _ _ _ _ (inspect-Keeps a none none)
                  λ inspect _. diagnose_seen-Keeps a inspect)
              s refl),
        same_after a _ (
            then-Keeps view a _ _ _ _ (active-Keeps a) (λ uid _. poll_found-Keeps a (copy_uid7 uid))
              s refl),
        same_after a _ (active-Keeps a s refl),
      )

  -- The poll of the main loop and the test of presence do not authenticate: whatever stands in the
  -- place of authentication, they do and give the same.
  pub poll_safe_unauthenticated :
      (authenticate : KeyNumber → List ℕ → List ℕ → C → C × Result (SessionError T) S)
      (s : Esp32BoltyService C)
      → (poll_safe h
            (record ops { authenticate_aes = authenticate })
            activate
            rng
            debug
            verify
            file_size
            verified_uid
            s
          ≡ poll_safe h ops activate rng debug verify file_size verified_uid s)
        × (service_card_present h
              (record ops { authenticate_aes = authenticate })
              activate
              rng
              debug
              verify
              file_size
              verified_uid
              s
            ≡ service_card_present h ops activate rng debug verify file_size verified_uid s)
  unfolding poll_safe poll_found polled service_card_present safe_inspect
      bolty_rs.Ntag.Inspect.mirroring bolty_rs.Firmware.CardService.Looks.polled_state
  poll_safe_unauthenticated authenticate s = (refl, refl)
