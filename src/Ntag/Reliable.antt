-- ===== src/Ntag/Reliable.antt =====
-- Burning and wiping over a link that does not break: both end, and with success.
use bolty_rs.Prelude.{
  ℕ, ◌≡◌, refl, sym, ap, subst, ◌∙◌, Bool, false, arith, inl, inr, true, List, [], ◌∷◌, length,
  copy_at, length-copy_at, Result, ok, err,
}
use bolty_rs.Core.Keys.{AesKey, CardKeys}
use bolty_rs.Prelude.Act.{Outcome}
use bolty_rs.Ntag.Link.{key0, key1, key2, key3, key4, Ntag424, SdmUrlPlan}
use bolty_rs.Ntag.Burn.{BurnParams, wipe, burn, standardize_url_template}
use bolty_rs.Ntag.Card.{Card, has_room, IsNtag424}
use bolty_rs.Ntag.Recovery.{
  KeyFault, broken, wrong_key0, wrong_key1, wrong_key2, wrong_key3, wrong_key4,
}
use bolty_rs.Ntag.Burned.{BurnDone, BurnFailed, BurnFault, IsBurned, burn_lem}
use bolty_rs.Ntag.Wiped.{IsWiped, WipeFailed, wipe_lem}

-- Work that cannot fail ends with a result.
succeeded :
    {C E A V : Type 0} (view : C → V) (Q : A → V → Type 0) (X : V → Type 0) (p : C × Result E A)
    → Outcome view Q X p
    → ((v : V) → X v → ⊥)
    → (a : A) × (c : C) × (p ≡ (c, ok a)) × Q a (view c)
unfolding Outcome
succeeded view Q X (c, ok a) h never = (a, c, refl, h)
succeeded view Q X (c, err e) h never = absurd (never (view c) h)

true_ne_false : (b : Bool) → b ≡ true → b ≡ false → ⊥
true_ne_false b h k = ground arith

ok-ne-err : {E A : Type 0} (r : Result E A) (a : A) (e : E) → r ≡ ok a → r ≡ err e → ⊥
ok-ne-err r a e h k = ground arith

ok-injective : (E : Type 0) {A : Type 0} (a b : A) → ◌≡◌ {A = Result E A} (ok a) (ok b) → a ≡ b
ok-injective E a b h = ground arith

module _ {Sdm : Type 0} where
  -- The caller knows the keys of the card.
  unfoldable pub Knows : List ℕ → CardKeys → Card Sdm → Type 0
  Knows master keys a =
      (master ≡ a.keys key0)
      × (keys.k1.bytes ≡ a.keys key1)
      × (keys.k2.bytes ≡ a.keys key2)
      × (keys.k3.bytes ≡ a.keys key3)
      × (keys.k4.bytes ≡ a.keys key4)

  -- Writing into the file leaves its room.
  still_has_room :
      (a b : Card Sdm) (bytes : List ℕ)
      → b.ndef ≡ copy_at 0 bytes a.ndef
      → has_room 0 (0 ∷ 0 ∷ []) a ≡ true
      → has_room 0 (0 ∷ 0 ∷ []) b ≡ true
  still_has_room a b bytes e room =
      let same : length b.ndef ≡ length a.ndef = ap length e ∙ length-copy_at 0 bytes a.ndef in
      rw same room

  no_fault :
      (master : List ℕ) (keys : CardKeys) (a : Card Sdm)
      → Knows master keys a
      → KeyFault ⊥ master keys a
      → ⊥
  unfolding Knows
  no_fault master keys a h (broken r) = r
  no_fault master keys a h (wrong_key0 n) = n h.0
  no_fault master keys a h (wrong_key1 n) = n h.1
  no_fault master keys a h (wrong_key2 n) = n h.2
  no_fault master keys a h (wrong_key3 n) = n h.3
  no_fault master keys a h (wrong_key4 n) = n h.4

module _ {C S Sdm T : Type 0} (ops : Ntag424 C S Sdm T) (view : C → Card Sdm)
    (law : IsNtag424 ops view ⊥) where
  -- Wiping a card whose keys are known succeeds.
  wipe_succeeds :
      (keys : CardKeys) (rnd_a : AesKey) (c : C)
      → Knows keys.k0.bytes keys (view c)
      → has_room 0 (0 ∷ 0 ∷ []) (view c) ≡ true
      → (uid : List ℕ) × (c' : C) × (wipe ops keys rnd_a c ≡ (c', ok uid))
        × IsWiped (view c) (view c')
  unfolding WipeFailed
  wipe_succeeds keys rnd_a c h room =
      succeeded view _ _ (wipe ops keys rnd_a c) (wipe_lem ops view law keys rnd_a c) (λ v x.
        elim x.0 [ inl fault ↦ no_fault _ _ _ h fault | inr full ↦ true_ne_false _ room full ])

  -- Burning a card whose keys are known, with a template that the library takes, succeeds.
  burn_succeeds :
      (params : BurnParams) (rnd_a : AesKey) (plan : SdmUrlPlan Sdm) (c : C)
      → Knows params.current_key.bytes params.previous_keys (view c)
      → ops.sdm_url_config (standardize_url_template params.lnurl) key1 key2 ≡ ok plan
      → has_room 0 plan.ndef_bytes (view c) ≡ true
      → (uid : List ℕ) × (c' : C) × (burn ops params rnd_a c ≡ (c', ok uid))
        × BurnDone ⊥ ops params (view c) uid (view c')
  unfolding BurnFailed BurnFault
  burn_succeeds params rnd_a plan c h p room =
      succeeded view _ _ (burn ops params rnd_a c) (burn_lem ops view law params rnd_a c) (λ v x.
        elim x.0 [
          | inl fault ↦ no_fault _ _ _ h fault
          | inr (inl refused) ↦ ok-ne-err _ _ _ p refused.1
          | inr (inr full) ↦ true_ne_false _ room (
              subst (λ (x : SdmUrlPlan Sdm). has_room 0 x.ndef_bytes (view c) ≡ false)
                (ok-injective _ _ _ (sym full.1 ∙ p)) full.2)
        ])

  -- Over a link that does not break, on a card whose keys the caller knows, with a template that the
  -- library takes and room for what it makes, burning the card and then wiping it with the keys it was burned with both
  -- succeed, and leave a burned card and then a wiped one.
  pub wipe-burn :
      (params : BurnParams) (rnd_a rnd_b : AesKey) (plan : SdmUrlPlan Sdm) (c : C)
      → Knows params.current_key.bytes params.previous_keys (view c)
      → ops.sdm_url_config (standardize_url_template params.lnurl) key1 key2 ≡ ok plan
      → has_room 0 plan.ndef_bytes (view c) ≡ true
      → has_room 0 (0 ∷ 0 ∷ []) (view c) ≡ true
      → (burned_uid wiped_uid : List ℕ) × (burned wiped : C) × (burn ops params rnd_a c
          ≡ (burned, ok burned_uid))
        × BurnDone ⊥ ops params (view c) burned_uid (view burned)
        × (wipe ops params.keys rnd_b burned ≡ (wiped, ok wiped_uid))
        × IsWiped (view burned) (view wiped)
  unfolding BurnDone IsBurned Knows
  wipe-burn params rnd_a rnd_b plan c h p room two =
      let (burned_uid, burned, e, done) = burn_succeeds params rnd_a plan c h p room in
      let keys = done.2.0 in
      let (wiped_uid, wiped, e', wiped_done) =
        wipe_succeeds params.keys rnd_b burned
          (sym (keys key0), sym (keys key1), sym (keys key2), sym (keys key3), sym (keys key4))
          (still_has_room (view c) (view burned) _ done.2.2 two) in
      (burned_uid, wiped_uid, burned, wiped, e, done, e', wiped_done)
