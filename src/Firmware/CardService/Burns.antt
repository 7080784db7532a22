-- ===== src/Firmware/CardService/Burns.antt =====
-- apps/bolty-esp32/src/firmware/card_operations.rs: what a burn of the service promises.
use bolty_rs.Prelude.{ℕ, ◌≡◌, ◌⊎◌, inl, inr, refl, subst, Option, some, List, Result, ok, err}
use bolty_rs.Prelude.Text.{Text, codes, Heapless}
use bolty_rs.Prelude.Act.{Outcome, continued, ◌>>=◌}
use bolty_rs.Core.Keys.{AesKey, CardKeys, factory_key, default_issuer}
use bolty_rs.Core.Crypto.{Crypto}
use bolty_rs.Firmware.CardService.{
  Esp32BoltyService, ServiceM, error_result, chosen_keys, modify, seen, sync_config,
}
use bolty_rs.Firmware.CardService.Operations.{or_mapped, ntag, remember_burn, service_burn}
use bolty_rs.Firmware.CardService.Due.{IsDue, chosen_keys-IsDue}
use bolty_rs.Firmware.CardService.Cleared.{
  IsSteady, keep_step, returned-Keeps, activate_step, gen_rnd-Keeps, current_keys-Keeps,
}
use bolty_rs.Ntag.Link.{key0, Error, Ntag424}
use bolty_rs.Ntag.Burn.{BurnParams, burn}
use bolty_rs.Ntag.Burned.{BurnDone, BurnFailed, burn_lem}
use bolty_rs.Ntag.Card.{Card, IsNtag424}

abbrev pub params_of : CardKeys → Text → AesKey × CardKeys → BurnParams
params_of keyset lnurl current = record {
  lnurl = lnurl;
  keys = keyset;
  key_version = default_issuer.key_version;
  current_key = current.0;
  previous_keys = current.1;
}

module _ {C S Sdm T : Type 0} (Refusal : Type 0) (crypto : Crypto) (ops : Ntag424 C S Sdm T)
    (view : C → Card Sdm) (issuer : Option AesKey) (keys : Option CardKeys) (lnurl : Text)
    (found : Option (List ℕ)) (a : Card Sdm) where
  -- What was settled of the card `a` before its first change: the new keys are those of the issuer
  -- for the UID that was found, or those given, and the card's master key is the factory's or the new one.
  abbrev pub IsSettled : CardKeys → AesKey × CardKeys → Type 0
  IsSettled keyset current =
      ((uid : List ℕ) × (found ≡ some uid) × IsDue crypto issuer keys uid keyset)
      × ((current
            ≡ (record { bytes = factory_key }, bolty_rs.Firmware.CardService.factory_card_keys))
          ⊎ (current ≡ (keyset.k0, keyset)))
      × (current.0.bytes ≡ a.keys key0)

  -- The card is burned, and the service knows its keys.
  unfoldable pub Burned : Unit {0} → Esp32BoltyService C → Type 0
  Burned r s =
      (keyset : CardKeys) × (current : AesKey × CardKeys) × IsSettled keyset current
      × ((uid : List ℕ) × BurnDone Refusal ops (params_of keyset lnurl current) a uid (view s.link))
      × (s.keys ≡ some keyset)
      × (s.authenticated_key0 ≡ some keyset.k0)

  -- The card is as it was, or a burn that was settled broke off.
  unfoldable pub NotBurned : Esp32BoltyService C → Type 0
  NotBurned s =
      (view s.link ≡ a)
      ⊎ ((keyset : CardKeys) × (current : AesKey × CardKeys) × IsSettled keyset current
          × BurnFailed Refusal ops (params_of keyset lnurl current) a (view s.link))

module _ {C S Sdm T V : Type 0} {Refusal : Type 0} (h : Heapless) (crypto : Crypto)
    (ops : Ntag424 C S Sdm T) (activate : C → C × Option (List ℕ)) (rng : C → C × List ℕ)
    (debug : Error T → Text) (verify : Sdm → List ℕ → List ℕ → List ℕ → Option V) (file_size : ℕ)
    (view : C → Card Sdm) (law : IsNtag424 ops view Refusal) (steady : IsSteady activate rng view)
    (issuer : Option AesKey) (keys : Option CardKeys) (lnurl : Text) where
  answer_lem :
      (found : Option (List ℕ)) (a : Card Sdm) (keyset : CardKeys) (current : AesKey × CardKeys)
      (s : Esp32BoltyService C) (p : C × Result (Error T) (List ℕ))
      → IsSettled Refusal crypto ops view issuer keys lnurl found a keyset current
      → Outcome view
          (BurnDone Refusal ops (params_of keyset lnurl current) a)
          (BurnFailed Refusal ops (params_of keyset lnurl current) a)
          p
      → Outcome
          (λ s. s)
          (Burned Refusal crypto ops view issuer keys lnurl found a)
          (NotBurned Refusal crypto ops view issuer keys lnurl found a)
          (continued
            (λ uid.
              modify
                (remember_burn h crypto ops activate rng debug verify file_size keyset lnurl uid))
            (record s { link = p.0 }, or_mapped debug p.1))
  unfolding Outcome continued modify remember_burn sync_config seen Burned NotBurned
  answer_lem found a keyset current s (c, ok uid) settled done =
      (keyset, current, settled, (uid, done), refl, refl)
  answer_lem found a keyset current s (c, err e) settled failed =
      inr (keyset, current, settled, failed)

  -- Whatever the card and the link do, a burn of the service changes the card only after its master
  -- key was accepted as the factory's or the new one; the new keys are those that the issuer derives
  -- for the UID that the activation gave, or without an issuer those given. One that succeeds leaves
  -- a card burned with them, and the service knows them; one that fails leaves the card as it was,
  -- or each key old or new.
  pub service_burn_lem :
      (s : Esp32BoltyService C)
      → Outcome
          (λ s. s)
          (Burned Refusal crypto ops view issuer keys lnurl (activate s.link).1 (view s.link))
          (NotBurned Refusal crypto ops view issuer keys lnurl (activate s.link).1 (view s.link))
          (service_burn h crypto ops activate rng debug verify file_size issuer keys lnurl s)
  unfolding service_burn ntag ◌>>=◌ NotBurned
  service_burn_lem s =
      let a = view s.link in
      activate_step h crypto ops activate rng debug verify file_size view law steady a _ _ _ s refl
        (λ s' e. inl e)
        (λ uid given.
          keep_step view a _ _ _ _ _
            (returned-Keeps view a (λ keyset. IsDue crypto issuer keys uid keyset)
              (chosen_keys h crypto (error_result h (codes "missing keys or issuer")) issuer keys
                uid)
              (λ keyset chosen.
                chosen_keys-IsDue h crypto (error_result h (codes "missing keys or issuer")) issuer
                  keys uid keyset chosen))
            (λ s' e. inl e)
            λ keyset chosen.
              keep_step view a _ _ _ _ _
                (current_keys-Keeps h crypto ops activate rng debug verify file_size view law steady
                  a keyset)
                (λ s' e. inl e)
                λ current known.
                  keep_step view a _ _ _ _ _
                    (gen_rnd-Keeps h crypto ops activate rng debug verify file_size view law steady
                      a)
                    (λ s' e. inl e)
                    λ rnd_a _ s' e.
                      let params = params_of keyset lnurl current in
                      let done = burn ops params (record { bytes = rnd_a }) s'.link in
                      answer_lem (activate s.link).1 a keyset current s' done
                        ((uid, given, chosen), known.0, known.1)
                        (subst
                          (λ v.
                            Outcome view (BurnDone Refusal ops params v)
                              (BurnFailed Refusal ops params v) done)
                          e (burn_lem ops view law params (record { bytes = rnd_a }) s'.link)))
