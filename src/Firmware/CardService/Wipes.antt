-- ===== src/Firmware/CardService/Wipes.antt =====
-- apps/bolty-esp32/src/firmware/card_operations.rs: what a wipe of the service promises.
use mathlib.Core.Option
use bolty_rs.Prelude.{
  ℕ, ◌≡◌, ◌⊎◌, inl, inr, refl, subst, ◌∙◌, Bool, true, false, Option, none, some, List, Result, ok,
  err,
}
use bolty_rs.Prelude.Text.{Text, Heapless}
use bolty_rs.Prelude.Act.{Outcome, continued, pure, bind_state, ◌>>=◌}
use bolty_rs.Core.Keys.{AesKey, CardKeys, factory_key}
use bolty_rs.Core.Crypto.{Crypto}
use bolty_rs.Firmware.Workflow.{wipe_refused}
use bolty_rs.Firmware.CardService.{Esp32BoltyService, chosen_keys, modify, seen}
use bolty_rs.Firmware.CardService.Operations.{
  or_mapped, ntag, blank_gate, remember_wipe, service_wipe,
}
use bolty_rs.Firmware.CardService.Due.{IsDue, chosen_keys-IsDue}
use bolty_rs.Firmware.CardService.Cleared.{
  IsSteady, Keeps, pure-Keeps, raise_if-Keeps, keep_step, then-Keeps, attempted-Keeps,
  returned-Keeps, activate_step, gen_rnd-Keeps,
}
use bolty_rs.Ntag.Link.{SessionError, Error, FileSettings, Uid, Ntag424, CardM, call, converted}
use bolty_rs.Ntag.Burn.{wipe}
use bolty_rs.Ntag.Inspect.{
  SdmMirroring, off, mirroring_of, call_ok, mirroring, safe_inspect, read_part,
}
use bolty_rs.Ntag.Wiped.{IsWiped, WipeFailed, wipe_lem}
use bolty_rs.Ntag.Card.{Card, IsNtag424}

-- Looking at the version, the settings and the file without a session changes no card.
pub record IsReadable {C S Sdm T : Type 0} (ops : Ntag424 C S Sdm T) (view : C → Card Sdm)
    : Type 0 where
  pub get_version_law : (c : C) → view (ops.get_version c).0 ≡ view c
  pub get_file_settings_plain_law : (c : C) → view (ops.get_file_settings_plain c).0 ≡ view c
  pub read_file_unauthenticated_law :
      (offset : ℕ) (buf : List ℕ) (c : C)
      → view (ops.read_file_unauthenticated offset buf c).0 ≡ view c

module _ {C S Sdm T V : Type 0} {Refusal : Type 0} (ops : Ntag424 C S Sdm T)
    (verify : Sdm → List ℕ → List ℕ → List ℕ → Option V) (view : C → Card Sdm)
    (law : IsNtag424 ops view Refusal) (readable : IsReadable ops view) (a : Card Sdm) where
  abbrev IsSame : C → Type 0
  IsSame c = view c ≡ a

  uid-IsSame : (c : C) → IsSame c → IsSame (call ops.get_selected_uid c).0
  unfolding call converted Outcome
  uid-IsSame c e = go (ops.get_selected_uid c) (law.get_selected_uid_law c)
    where
      go :
          (p : C × Result (SessionError T) Uid)
          → Outcome view (λ uid card. card ≡ view c) (λ card. (card ≡ view c) × Refusal) p
          → IsSame (converted p).0
      go (c', ok uid) h = h ∙ e
      go (c', err x) h = h.0 ∙ e

  mirroring-IsSame :
      (settings : Option (FileSettings Sdm)) (bytes : Option (List ℕ)) (buf : List ℕ) (c : C)
      → IsSame c
      → IsSame (mirroring ops settings bytes buf c).0
  unfolding mirroring pure call_ok
  mirroring-IsSame none bytes buf c e = e
  mirroring-IsSame (some settings) bytes buf c e = go settings.sdm
    where
      go :
          (sdm : Option Sdm)
          → IsSame
              ((elim sdm as (λ _. CardM C T SdmMirroring) [
                | none ↦ pure off
                | some x ↦ do
                  second ← call_ok (ops.read_file_unauthenticated 0 buf)
                  pure (mirroring_of bytes (Option.map read_part second))
              ])
                c).0
      go none = e
      go (some x) =
          bind_state IsSame IsSame (call_ok (ops.read_file_unauthenticated 0 buf)) _ c
            (readable.read_file_unauthenticated_law 0 buf c ∙ e) (λ _ e'. e') λ r c' e'. e'

  pub safe_inspect_same :
      (k1 k2 : Option AesKey) (c : C) → view c ≡ a → view (safe_inspect ops verify k1 k2 c).0 ≡ a
  unfolding safe_inspect call_ok pure
  safe_inspect_same k1 k2 c e =
      bind_state IsSame IsSame (call ops.get_selected_uid) _ c (uid-IsSame c e) (λ _ e. e)
        λ uid c1 e1.
          bind_state IsSame IsSame (call_ok ops.get_version) _ c1 (readable.get_version_law c1 ∙ e1)
            (λ _ e. e)
            λ version c2 e2.
              bind_state IsSame IsSame (call_ok ops.get_file_settings_plain) _ c2
                (readable.get_file_settings_plain_law c2 ∙ e2) (λ _ e. e)
                λ settings c3 e3.
                  bind_state IsSame IsSame _ _ c3
                    (readable.read_file_unauthenticated_law 0 _ c3 ∙ e3) (λ _ e. e)
                    λ first c4 e4.
                      bind_state IsSame IsSame (mirroring ops settings _ _) _ c4
                        (mirroring-IsSame settings _ _ c4 e4) (λ _ e. e) λ m c5 e5. e5

module _ {C Sdm : Type 0} (Refusal : Type 0) (crypto : Crypto) (view : C → Card Sdm)
    (issuer : Option AesKey) (keys : Option CardKeys) (found : Option (List ℕ)) (a : Card Sdm) where
  -- The keys of the wipe are those of the issuer for the UID that was found, or those given.
  abbrev pub IsChosen : CardKeys → Type 0
  IsChosen wipe_keys = (uid : List ℕ) × (found ≡ some uid) × IsDue crypto issuer keys uid wipe_keys

  -- The card is wiped, and the service knows its keys.
  unfoldable pub Wiped : Unit {0} → Esp32BoltyService C → Type 0
  Wiped r s =
      IsWiped a (view s.link)
      × (s.keys ≡ none)
      × (s.authenticated_key0 ≡ some (record { bytes = factory_key }))

  -- The card is as it was, or a wipe with those keys broke off.
  unfoldable pub NotWiped : Esp32BoltyService C → Type 0
  NotWiped s =
      (view s.link ≡ a)
      ⊎ ((wipe_keys : CardKeys) × IsChosen wipe_keys × WipeFailed Refusal wipe_keys a (view s.link))

module _ {C S Sdm T V : Type 0} {Refusal : Type 0} (h : Heapless) (crypto : Crypto)
    (ops : Ntag424 C S Sdm T) (activate : C → C × Option (List ℕ)) (rng : C → C × List ℕ)
    (debug : Error T → Text) (verify : Sdm → List ℕ → List ℕ → List ℕ → Option V) (file_size : ℕ)
    (view : C → Card Sdm) (law : IsNtag424 ops view Refusal) (steady : IsSteady activate rng view)
    (readable : IsReadable ops view) (issuer : Option AesKey) (keys : Option CardKeys) where
  blank_gate-Keeps :
      (a : Card Sdm) (force_unsafe : Bool)
      → Keeps view a
          (λ _. Unit {0})
          (blank_gate h crypto ops activate rng debug verify file_size force_unsafe)
  unfolding blank_gate
  blank_gate-Keeps a true = pure-Keeps view a (λ _. Unit {0}) tt tt
  blank_gate-Keeps a false =
      then-Keeps view a _ _ _ _
        (attempted-Keeps view a (λ _. Unit {0}) (safe_inspect ops verify none none)
          (λ c e. (safe_inspect_same ops verify view law readable a none none c e, tt)))
        λ answer _. raise_if-Keeps view a _ _

  answer_lem :
      (found : Option (List ℕ)) (a : Card Sdm) (wipe_keys : CardKeys) (s : Esp32BoltyService C)
      (p : C × Result (Error T) (List ℕ))
      → IsChosen Refusal crypto view issuer keys found a wipe_keys
      → Outcome view (λ uid card. IsWiped a card) (WipeFailed Refusal wipe_keys a) p
      → Outcome
          (λ s. s)
          (Wiped Refusal crypto view issuer keys found a)
          (NotWiped Refusal crypto view issuer keys found a)
          (continued
            (λ uid. modify (remember_wipe h crypto ops activate rng debug verify file_size uid))
            (record s { link = p.0 }, or_mapped debug p.1))
  unfolding Outcome continued modify remember_wipe seen Wiped NotWiped
  answer_lem found a wipe_keys s (c, ok uid) chosen done = (done, refl, refl)
  answer_lem found a wipe_keys s (c, err e) chosen failed = inr (wipe_keys, chosen, failed)

  -- Whatever the card and the link do, a wipe of the service that succeeds leaves a wiped card, and
  -- the service knows that it has the factory's keys; one that fails leaves the card as it was, or
  -- each key old or blank.
  pub service_wipe_lem :
      (force_unsafe : Bool) (s : Esp32BoltyService C)
      → Outcome
          (λ s. s)
          (Wiped Refusal crypto view issuer keys (activate s.link).1 (view s.link))
          (NotWiped Refusal crypto view issuer keys (activate s.link).1 (view s.link))
          (service_wipe h crypto ops activate rng debug verify file_size force_unsafe issuer keys s)
  unfolding service_wipe ntag ◌>>=◌ NotWiped
  service_wipe_lem force_unsafe s =
      let a = view s.link in
      activate_step h crypto ops activate rng debug verify file_size view law steady a _ _ _ s refl
        (λ s' e. inl e)
        (λ uid given.
          keep_step view a _ _ _ _ _
            (returned-Keeps view a (λ wipe_keys. IsDue crypto issuer keys uid wipe_keys)
              (chosen_keys h crypto wipe_refused issuer keys uid)
              (λ wipe_keys chosen.
                chosen_keys-IsDue h crypto wipe_refused issuer keys uid wipe_keys chosen))
            (λ s' e. inl e)
            λ wipe_keys chosen.
              keep_step view a _ _ _ _ _ (blank_gate-Keeps a force_unsafe) (λ s' e. inl e)
                λ _ _.
                  keep_step view a _ _ _ _ _
                    (gen_rnd-Keeps h crypto ops activate rng debug verify file_size view law steady
                      a)
                    (λ s' e. inl e)
                    λ rnd_a _ s' e.
                      let done = wipe ops wipe_keys (record { bytes = rnd_a }) s'.link in
                      answer_lem (activate s.link).1 a wipe_keys s' done (uid, given, chosen)
                        (subst
                          (λ v.
                            Outcome view (λ uid card. IsWiped v card)
                              (WipeFailed Refusal wipe_keys v) done)
                          e (wipe_lem ops view law wipe_keys (record { bytes = rnd_a }) s'.link)))
