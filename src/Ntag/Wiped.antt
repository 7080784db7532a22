-- ===== src/Ntag/Wiped.antt =====
-- What `wipe` of crates/bolty-ntag/src/lib.rs promises, and wiping what was burned.
use bolty_rs.Prelude.{◌≡◌, ◌⊎◌, inl, inr, refl, sym, subst, false, none, [], ◌∷◌, copy_at}
use bolty_rs.Core.Keys.{AesKey, CardKeys, zeroed_key, factory_key, key_version_blank}
use bolty_rs.Prelude.Act.{Outcome, continued_step, pure_lem, raise_if_step}
use bolty_rs.Ntag.Link.{KeyNumber, key0, Ntag424, Error, factory_ndef_access_rights}
use bolty_rs.Ntag.Burn.{wipe_key_updates, wipe}
use bolty_rs.Ntag.Card.{Card, with_key, with_ndef, with_settings, has_room, IsNtag424}
use bolty_rs.Ntag.Steps.{
  get_selected_uid_step, authenticate_step, get_file_settings_step, change_file_settings_step,
  write_file_plain_step, change_master_key_step,
}
use bolty_rs.Ntag.Provisioning.{change_keys_lem, change_all}
use bolty_rs.Ntag.Recovery.{
  each_key, IsRecoverable, partly, wholly, KeyFault, broken, wrong_key0, covers,
}

abbrev pub factory_keys : CardKeys
factory_keys = record {
  k0 = zeroed_key;
  k1 = zeroed_key;
  k2 = zeroed_key;
  k3 = zeroed_key;
  k4 = zeroed_key;
}

module _ {Sdm : Type 0} where
  -- The card has the factory's keys and settings, and an empty NDEF message at the front of its file.
  unfoldable pub IsWiped : Card Sdm → Card Sdm → Type 0
  IsWiped a card =
      ((kn : KeyNumber) → card.keys kn ≡ factory_key)
      × ((kn : KeyNumber) → card.versions kn ≡ key_version_blank)
      × (card.ndef ≡ copy_at 0 (0 ∷ 0 ∷ []) a.ndef)
      × (card.settings ≡ record {
        comm_mode = a.settings.comm_mode;
        access_rights = factory_ndef_access_rights;
        sdm = none;
      })

  -- What a wipe that failed leaves.
  unfoldable pub WipeFailed : Type 0 → CardKeys → Card Sdm → Card Sdm → Type 0
  WipeFailed Refusal keys a card =
      (KeyFault Refusal keys.k0.bytes keys a ⊎ (has_room 0 (0 ∷ 0 ∷ []) a ≡ false))
      × IsRecoverable factory_keys a card

  unfoldable pub emptied : Card Sdm → Card Sdm
  emptied a =
      with_settings
        (record {
          comm_mode = a.settings.comm_mode;
          access_rights = factory_ndef_access_rights;
          sdm = none;
        })
        (with_ndef (copy_at 0 (0 ∷ 0 ∷ []) a.ndef) a)

  unfoldable pub blanked : CardKeys → Card Sdm → Card Sdm
  unfolding change_all emptied
  blanked keys a =
      with_key key0 factory_key key_version_blank
        (change_all key_version_blank (wipe_key_updates keys) (emptied a))

  blanked-IsRecoverable :
      (keys : CardKeys) (a : Card Sdm) → IsRecoverable factory_keys a (blanked keys a)
  unfolding blanked
  blanked-IsRecoverable keys a =
      wholly factory_keys a (blanked keys a) (each_key _ refl refl refl refl refl)

  blanked-IsWiped : (keys : CardKeys) (a : Card Sdm) → IsWiped a (blanked keys a)
  unfolding blanked IsWiped
  blanked-IsWiped keys a =
      (each_key _ refl refl refl refl refl, each_key _ refl refl refl refl refl, refl, refl)

module _ {C S Sdm T : Type 0} {Refusal : Type 0} (ops : Ntag424 C S Sdm T) (view : C → Card Sdm)
    (law : IsNtag424 ops view Refusal) where
  -- Whatever the link does: a wipe that succeeds leaves a wiped card, and one that fails had the link
  -- break, a wrong key or no room for two bytes, and leaves each key old or blank, with a blank master key only when all
  -- keys are blank.
  pub wipe_lem :
      (keys : CardKeys) (rnd_a : AesKey) (c : C)
      → Outcome view
          (λ uid card. IsWiped (view c) card)
          (WipeFailed Refusal keys (view c))
          (wipe ops keys rnd_a c)
  unfolding wipe WipeFailed blanked
  wipe_lem keys rnd_a c =
      let a = view c in
      let old = partly factory_keys a a refl (inl refl) (inl refl) (inl refl) (inl refl) in
      get_selected_uid_step ops view law _ _ _ a c refl (λ r. (inl (broken r), old))
        λ uid c1 e1.
          authenticate_step ops view law _ _ key0 keys.k0.bytes rnd_a.bytes _ a c1 e1
            (λ w. (inl (elim w [ inl r ↦ broken r | inr n ↦ wrong_key0 n ]), old))
            λ s c2 e2 right.
              get_file_settings_step ops view law _ _ s _ a c2 e2 (λ r. (inl (broken r), old))
                λ s1 c3 e3.
                  change_file_settings_step ops view law _ _ s1 _ _ a c3 e3
                    (λ r. (
                      (inl (broken r), old),
                      (
                        inl (broken r),
                        partly _ a _ refl (inl refl) (inl refl) (inl refl) (inl refl),
                      ),
                    ))
                    λ s2 c4 e4.
                      write_file_plain_step ops view law _ _ s2 0 (0 ∷ 0 ∷ []) _ _ c4 e4
                        (λ w rest. (
                          elim w [ inl r ↦ inl (broken r) | inr full ↦ inr full ],
                          partly _ a _ refl (inl refl) (inl refl) (inl refl) (inl refl),
                        ))
                        λ s3 c5 e5 fits.
                          continued_step view _ _ _ _ _ c5
                            (change_keys_lem ops view law _ key_version_blank
                              (wipe_key_updates keys) s3 _ c5 e5
                              (covers Refusal keys.k0.bytes factory_keys keys _ a _ (λ y. inl y)
                                refl))
                            λ s4 c6 e6.
                              change_master_key_step ops view law _ _ s4 factory_key
                                key_version_blank _ _ c6 e6
                                (λ r. (
                                  (
                                    inl (broken r),
                                    partly _ a _ refl (inr refl) (inr refl) (inr refl) (inr refl),
                                  ),
                                  (inl (broken r), blanked-IsRecoverable keys a),
                                ))
                                λ s5 c7 e7.
                                  authenticate_step ops view law _ _ key0 factory_key rnd_a.bytes _
                                    _ c7 e7
                                    (λ w. (
                                      inl (elim w [ inl r ↦ broken r | inr n ↦ absurd (n refl) ]),
                                      blanked-IsRecoverable keys a,
                                    ))
                                    λ s6 c8 e8 right2.
                                      get_file_settings_step ops view law _ _ s6 _ _ c8 e8
                                        (λ r. (inl (broken r), blanked-IsRecoverable keys a))
                                        λ s7 c9 e9. raise_if_step view _ _ _ _ _ c9 refl (
                                          pure_lem (Error T) view _ _ _ c9
                                            (subst (IsWiped a) (sym e9) (blanked-IsWiped keys a)))
