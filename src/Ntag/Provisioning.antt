-- ===== src/Ntag/Provisioning.antt =====
-- What burning makes of a card: the file, the keys, and every card that a burn which fails can leave.
use bolty_rs.Prelude.{
  ℕ, ◌+◌, ◌≤◌, ◌<◌, ◌≡◌, ◌≢◌, ◌⊎◌, inl, inr, refl, ap, subst, ◌∙◌, true, false, not, none, some,
  List, [], ◌∷◌, arith, ◌&&◌, leb, ◌==◌, length, take, replicate, overwrite, copy_at, Option-cases,
  length-replicate,
}
use bolty_rs.Prelude.Text.{eq, eq_iff}
use bolty_rs.Prelude.Act.{Outcome, continued_step, pure_lem, raise_if_step}
use bolty_rs.Ntag.Link.{
  Error, KeyNumber, FileSettings, SdmUrlPlan, Ntag424, burned_ndef_access_rights,
}
use bolty_rs.Ntag.Burn.{KeyUpdate, change_keys, clear_sdm, is_read_back, burn_file}
use bolty_rs.Ntag.Card.{Card, slot_of, with_key, with_ndef, with_settings, has_room, IsNtag424}
use bolty_rs.Ntag.Steps.{
  get_file_settings_step, change_file_settings_step, write_file_plain_step, read_file_plain_step,
  change_key_step, get_key_version_step,
}

take-overwrite :
    (src dst : List ℕ) → length src ≤ length dst → take (length src) (overwrite src dst) ≡ src
take-overwrite [] dst h = refl
take-overwrite (x ∷ src) [] h = absurd (omega arith)
take-overwrite (x ∷ src) (y ∷ dst) h = ap (λ t. x ∷ t) (take-overwrite src dst (omega arith))

is_read_back_same :
    (bytes buf : List ℕ) (n : ℕ)
    → n ≡ length bytes
    → take (length bytes) buf ≡ bytes
    → is_read_back bytes n buf ≡ true
unfolding is_read_back
is_read_back_same bytes buf n e h =
    let same : eq (take (length bytes) buf) bytes ≡ true = (eq_iff _ _).1 h in ground arith

read_back_holds :
    (bytes old buf : List ℕ) (n : ℕ)
    → (leb (0 + length bytes) (length old) && leb (0 + length bytes) 256) ≡ true
    → (false ≡ true)
      ⊎ (length (replicate {A = ℕ} 256 0) < length bytes)
      ⊎ ((n ≡ length bytes) × (take (length bytes) buf ≡ take (length bytes) (copy_at 0 bytes old)))
    → not (is_read_back bytes n buf) ≡ false
read_back_holds bytes old buf n h (inl wrong) = absurd (ground arith)
read_back_holds bytes old buf n h (inr (inl small)) =
    absurd (ground (arith, length-replicate {A = ℕ} 256 0))
read_back_holds bytes old buf n h (inr (inr (e, same))) =
    ap not (is_read_back_same bytes buf n e (same ∙ take-overwrite bytes old (ground arith)))

unfoldable pub change_all : {Sdm : Type 0} → ℕ → List KeyUpdate → Card Sdm → Card Sdm
change_all version [] a = a
change_all version (u ∷ updates) a =
    change_all version updates (with_key (slot_of u.key_no) u.new_key version a)

unfoldable pub cleared : {Sdm : Type 0} → Card Sdm → Card Sdm
cleared a = with_settings (record a.settings { sdm = none }) a

version_there :
    {Sdm : Type 0} (slot kn : KeyNumber) (k : List ℕ) (version : ℕ) (a : Card Sdm)
    → slot ≡ kn
    → not ((with_key slot k version a).versions kn == version) ≡ false
version_there slot kn k version a e =
    subst (λ n. not ((with_key slot k version a).versions n == version) ≡ false) e (ground arith)

unfoldable pub filed : {Sdm : Type 0} → SdmUrlPlan Sdm → Card Sdm → Card Sdm
filed plan a =
    with_settings
      (record {
        comm_mode = a.settings.comm_mode;
        access_rights = burned_ndef_access_rights;
        sdm = some plan.sdm_settings;
      })
      (with_ndef (copy_at 0 plan.ndef_bytes a.ndef) a)

-- Each update names one slot, and `X` holds of what its change may leave when it fails.
unfoldable pub Covers :
    {Sdm : Type 0} → Type 0 → (Card Sdm → Type 0) → ℕ → List KeyUpdate → Card Sdm → Type 0
Covers Refusal X version [] a = Unit {0}
Covers Refusal X version (u ∷ updates) a =
    (slot_of u.key_no ≡ u.kn)
    × (Refusal ⊎ (u.old_key ≢ a.keys (slot_of u.key_no))
        → X a × X (with_key (slot_of u.key_no) u.new_key version a))
    × Covers Refusal X version updates (with_key (slot_of u.key_no) u.new_key version a)

module _ {C S Sdm T : Type 0} {Refusal : Type 0} (ops : Ntag424 C S Sdm T) (view : C → Card Sdm)
    (law : IsNtag424 ops view Refusal) (X : Card Sdm → Type 0) where
  pub change_keys_lem :
      (version : ℕ) (updates : List KeyUpdate) (s : S) (a : Card Sdm) (c : C)
      → view c ≡ a
      → Covers Refusal X version updates a
      → Outcome view
          (λ s' card. card ≡ change_all version updates a)
          X
          (change_keys ops version updates s c)
  unfolding change_keys change_all Covers
  change_keys_lem version [] s a c e h = pure_lem (Error T) view X _ s c e
  change_keys_lem version (u ∷ updates) s a c e h =
      change_key_step ops view law X _ s u.key_no u.new_key version u.old_key _ a c e h.1
        λ s1 c1 e1.
          get_key_version_step ops view law X _ s1 u.kn _ _ c1 e1 (λ r. (h.1 (inl r)).1)
            λ s2 c2 e2.
              raise_if_step view X _ _ _ _ c2 (version_there _ _ u.new_key version a h.0)
                (change_keys_lem version updates s2 _ c2 e2 h.2)

  -- Writing and configuring the file leaves the keys alone.
  pub clear_sdm_lem :
      (s : S) (a : Card Sdm) (c : C)
      → view c ≡ a
      → (Refusal → X a × X (cleared a))
      → Outcome view (λ s' card. card ≡ cleared a) X (clear_sdm ops a.settings s c)
  unfolding clear_sdm cleared
  clear_sdm_lem s a c e failed = elim (Option-cases a.settings.sdm) [
    | inl off ↦ rw off (
        pure_lem (Error T) view X _ s c
          (e ∙ ap (λ o. with_settings (record a.settings { sdm = o }) a) off))
    | inr (sdm, on) ↦ rw on (
        change_file_settings_step ops view law X _ s (record a.settings { sdm = none }) _ a c e
          failed λ s1 c1 e1. pure_lem (Error T) view X _ s1 c1 e1)
  ]

  pub burn_file_lem :
      (plan : SdmUrlPlan Sdm) (s : S) (a : Card Sdm) (c : C)
      → view c ≡ a
      → (Refusal ⊎ (has_room 0 plan.ndef_bytes a ≡ false)
          → (u : FileSettings Sdm) (rest : List ℕ) → X (with_settings u (with_ndef rest a)))
      → Outcome view (λ s' card. card ≡ filed plan a) X (burn_file ops plan s c)
  unfolding burn_file filed cleared
  burn_file_lem plan s0 a c e failed =
      get_file_settings_step ops view law X _ s0 _ a c e (λ r. failed (inl r) a.settings a.ndef)
        λ s c1 e1.
          continued_step view X _ _ _ _ c1
            (clear_sdm_lem s a c1 e1 (λ r. (
              failed (inl r) a.settings a.ndef,
              failed (inl r) (record a.settings { sdm = none }) a.ndef,
            )))
            λ s1 c2 e2.
              write_file_plain_step ops view law X _ s1 0 plan.ndef_bytes _ _ c2 e2
                (λ w rest. failed w (record a.settings { sdm = none }) rest)
                λ s2 c3 e3 fits.
                  read_file_plain_step ops view law X _ s2 (length plan.ndef_bytes)
                    (replicate 256 0) _ _ c3 e3
                    (λ r. failed (inl r) (record a.settings { sdm = none }) _)
                    λ n buf s3 c4 e4 got.
                      raise_if_step view X _ _ _ _ c4
                        (read_back_holds plan.ndef_bytes a.ndef buf n fits got)
                        (get_file_settings_step ops view law X _ s3 _ _ c4 e4
                          (λ r. failed (inl r) (record a.settings { sdm = none }) _)
                          λ s4 c5 e5.
                            change_file_settings_step ops view law X _ s4 _ _ _ c5 e5
                              (λ r. (failed (inl r) _ _, failed (inl r) _ _))
                              λ s5 c6 e6.
                                get_file_settings_step ops view law X _ s5 _ _ c6 e6
                                  (λ r. failed (inl r) _ _)
                                  λ s6 c7 e7.
                                    raise_if_step view X _ _ _ _ c7 refl
                                      (pure_lem (Error T) view X _ s6 c7 e7))
