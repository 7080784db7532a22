-- ===== src/Ntag/Burned.antt =====
-- What `burn` of crates/bolty-ntag/src/lib.rs promises.
use bolty_rs.Prelude.{
  ℕ, ◌≡◌, ◌⊎◌, inl, inr, refl, sym, subst, false, some, List, ok, err, copy_at, Result,
}
use bolty_rs.Prelude.Text.{Text}
use bolty_rs.Core.Keys.{AesKey}
use bolty_rs.Prelude.Act.{Outcome, continued, continued_step, pure_lem, raise_if_step, ◌>>=◌}
use bolty_rs.Ntag.Link.{
  KeyNumber, key0, key1, key2, SdmUrlPlan, Ntag424, CardM, sdm_url, Error,
  burned_ndef_access_rights,
}
use bolty_rs.Ntag.Burn.{BurnParams, burn_key_updates, burn, sdm_url_plan, standardize_url_template}
use bolty_rs.Ntag.Card.{Card, with_key, has_room, IsNtag424}
use bolty_rs.Ntag.Steps.{
  get_selected_uid_step, authenticate_step, get_file_settings_step, change_master_key_step,
}
use bolty_rs.Ntag.Provisioning.{change_keys_lem, burn_file_lem, filed, change_all}
use bolty_rs.Ntag.Recovery.{
  keys_of, each_key, IsRecoverable, partly, wholly, KeyFault, broken, wrong_key0, covers,
}

module _ {Sdm : Type 0} where
  -- The card has the keys in their version, the plan's bytes at the front of its file, and messages
  -- as the plan says, which only the master key can change.
  unfoldable pub IsBurned : BurnParams → SdmUrlPlan Sdm → Card Sdm → Card Sdm → Type 0
  IsBurned params plan a card =
      ((kn : KeyNumber) → card.keys kn ≡ keys_of params.keys kn)
      × ((kn : KeyNumber) → card.versions kn ≡ params.key_version)
      × (card.ndef ≡ copy_at 0 plan.ndef_bytes a.ndef)
      × (card.settings ≡ record {
        comm_mode = a.settings.comm_mode;
        access_rights = burned_ndef_access_rights;
        sdm = some plan.sdm_settings;
      })

  all_new :
      (params : BurnParams) (plan : SdmUrlPlan Sdm) (a : Card Sdm)
      → IsRecoverable params.keys a (
          with_key key0 params.keys.k0.bytes params.key_version
            (change_all params.key_version (burn_key_updates params) (filed plan a)))
  unfolding change_all filed
  all_new params plan a = wholly params.keys a _ (each_key _ refl refl refl refl refl)

  all_new-IsBurned :
      (params : BurnParams) (plan : SdmUrlPlan Sdm) (a : Card Sdm)
      → IsBurned params plan a (
          with_key key0 params.keys.k0.bytes params.key_version
            (change_all params.key_version (burn_key_updates params) (filed plan a)))
  unfolding change_all IsBurned filed
  all_new-IsBurned params plan a =
      (each_key _ refl refl refl refl refl, each_key _ refl refl refl refl refl, refl, refl)

module _ {C S Sdm T : Type 0} (Refusal : Type 0) (ops : Ntag424 C S Sdm T) where
  -- Why a burn can fail: the link, a key that is not the card's, the template, or the room
  -- for what it makes.
  unfoldable pub BurnFault : BurnParams → Card Sdm → Type 0
  BurnFault params a =
      KeyFault Refusal params.current_key.bytes params.previous_keys a
      ⊎ ((e : Text) × (ops.sdm_url_config (standardize_url_template params.lnurl) key1 key2
            ≡ err e))
      ⊎ ((plan : SdmUrlPlan Sdm) × (ops.sdm_url_config (standardize_url_template params.lnurl) key1
              key2
            ≡ ok plan)
          × (has_room 0 plan.ndef_bytes a ≡ false))

  -- What a burn that failed leaves.
  unfoldable pub BurnFailed : BurnParams → Card Sdm → Card Sdm → Type 0
  BurnFailed params a card = BurnFault params a × IsRecoverable params.keys a card

  -- What a burn that succeeded leaves.
  unfoldable pub BurnDone : BurnParams → Card Sdm → List ℕ → Card Sdm → Type 0
  BurnDone params a uid card =
      (plan : SdmUrlPlan Sdm) × (ops.sdm_url_config (standardize_url_template params.lnurl) key1
          key2
        ≡ ok plan)
      × IsBurned params plan a card

module _ {C S Sdm T : Type 0} {Refusal : Type 0} (ops : Ntag424 C S Sdm T) (view : C → Card Sdm)
    (law : IsNtag424 ops view Refusal) where
  plan_step :
      {B : Type 0} (X : Card Sdm → Type 0) (R : B → Card Sdm → Type 0) (lnurl : Text)
      (f : SdmUrlPlan Sdm → CardM C T B) (c : C)
      → ((e : Text)
          → ops.sdm_url_config (standardize_url_template lnurl) key1 key2 ≡ err e
          → X (view c))
      → ((plan : SdmUrlPlan Sdm)
          → ops.sdm_url_config (standardize_url_template lnurl) key1 key2 ≡ ok plan
          → Outcome view R X (f plan c))
      → Outcome view R X ((sdm_url_plan ops lnurl >>= f) c)
  unfolding sdm_url_plan ◌>>=◌ continued Outcome
  plan_step X R lnurl f c = go (ops.sdm_url_config (standardize_url_template lnurl) key1 key2) refl
    where
      go :
          (r : Result Text (SdmUrlPlan Sdm))
          → ops.sdm_url_config (standardize_url_template lnurl) key1 key2 ≡ r
          → ((e : Text)
              → ops.sdm_url_config (standardize_url_template lnurl) key1 key2 ≡ err e
              → X (view c))
          → ((plan : SdmUrlPlan Sdm)
              → ops.sdm_url_config (standardize_url_template lnurl) key1 key2 ≡ ok plan
              → Outcome view R X (f plan c))
          → Outcome view R X
              (continued f (elim r [ ok plan ↦ (c, ok plan) | err e' ↦ (c, err (sdm_url e')) ]))
      go (ok plan) e failed next = next plan e
      go (err e') e failed next = failed e' e

  -- Whatever the link does: a burn that succeeds leaves a burned card, and one that fails had the
  -- link break, a wrong key, a refused template or no room, and leaves each key old or new, with a new master
  -- key only when all keys are new.
  pub burn_lem :
      (params : BurnParams) (rnd_a : AesKey) (c : C)
      → Outcome view
          (BurnDone Refusal ops params (view c))
          (BurnFailed Refusal ops params (view c))
          (burn ops params rnd_a c)
  unfolding burn filed change_all BurnFailed BurnFault BurnDone
  burn_lem params rnd_a c =
      let a = view c in
      let old = partly params.keys a a refl (inl refl) (inl refl) (inl refl) (inl refl) in
      plan_step _ _ params.lnurl _ c (λ x p. (inr (inl (x, p)), old))
        λ plan p.
          get_selected_uid_step ops view law _ _ _ a c refl (λ r. (inl (broken r), old))
            λ uid c1 e1.
              authenticate_step ops view law _ _ key0 params.current_key.bytes rnd_a.bytes _ a c1 e1
                (λ w. (inl (elim w [ inl r ↦ broken r | inr n ↦ wrong_key0 n ]), old))
                λ s c2 e2 right.
                  continued_step view _ _ _ _ _ c2
                    (burn_file_lem ops view law _ plan s a c2 e2 (λ w u rest. (
                      elim w [ inl r ↦ inl (broken r) | inr full ↦ inr (inr (plan, p, full)) ],
                      partly _ a _ refl (inl refl) (inl refl) (inl refl) (inl refl),
                    )))
                    λ s1 c3 e3.
                      continued_step view _ _ _ _ _ c3
                        (change_keys_lem ops view law _ params.key_version (burn_key_updates params)
                          s1 _ c3 e3
                          (covers Refusal params.current_key.bytes params.keys params.previous_keys
                            _ a _ (λ y. inl y) refl))
                        λ s2 c4 e4.
                          change_master_key_step ops view law _ _ s2 params.keys.k0.bytes
                            params.key_version _ _ c4 e4
                            (λ r. (
                              (
                                inl (broken r),
                                partly _ a _ refl (inr refl) (inr refl) (inr refl) (inr refl),
                              ),
                              (inl (broken r), all_new params plan a),
                            ))
                            λ s3 c5 e5.
                              authenticate_step ops view law _ _ key0 params.keys.k0.bytes
                                rnd_a.bytes _ _ c5 e5
                                (λ w. (
                                  elim w [ inl r ↦ inl (broken r) | inr n ↦ absurd (n refl) ],
                                  all_new params plan a,
                                ))
                                λ s4 c6 e6 right2.
                                  get_file_settings_step ops view law _ _ s4 _ _ c6 e6
                                    (λ r. (inl (broken r), all_new params plan a))
                                    λ s5 c7 e7. raise_if_step view _ _ _ _ _ c7 refl (
                                      pure_lem (Error T) view _ _ _ c7 (
                                        plan,
                                        p,
                                        subst (IsBurned params plan a) (sym e7)
                                            (all_new-IsBurned params plan a),
                                      ))
