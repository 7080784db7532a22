-- ===== src/Cli/Burn/Safety.antt =====
-- What the burn command does to a card, apps/bolty-cli/src/burn.rs.
use bolty_rs.Prelude.{
  ℕ, ◌≡◌, ◌⊎◌, inl, inr, refl, sym, subst, Bool, true, false, Option, some, List, Result, ok, err,
  arith, Bool-cases,
}
use bolty_rs.Prelude.Text.{Text}
use bolty_rs.Prelude.Act.{pure, continued, Outcome, ◌>>=◌}
use bolty_rs.Core.Keys.{CardKeys, factory_key}
use bolty_rs.Cli.Diagnose.{KeyProvenance, factory_default}
use bolty_rs.Cli.Tool.{
  authenticated_with_factory, authenticated_with_provided, burn_starting, Desk, Auth, accepted,
  refused, exhausted, auth_retry_delays, log_event_with_provenance, tried, lifted,
}
use bolty_rs.Cli.Looking.{
  IsStill, desk_view, Looks, pure-Looks, lifted-Looks, raise_if-Looks, then-Looks, log-Looks,
  look_step, look_lem,
}
use bolty_rs.Cli.Looking.AtCard.{
  gen_rnd_a-Looks, ladder-Looks, works-Looks, Proved, preflight-Looks,
}
use bolty_rs.Cli.Wipe.Gates.{PinnedTo, check_uid-Looks}
use bolty_rs.Cli.Burn.{
  BurnOptions, BurnEnd, planned, burned, CurrentKeys, blank_keys, has_placeholders, plan_checked,
  not_delayed, reported, reburn, state_check, keys_after, find_keys, run_burn, burn_for_real,
  burn_card,
}
use bolty_rs.Ntag.Link.{key0, key1, key2, Error, SdmUrlPlan, Ntag424}
use bolty_rs.Ntag.Burn.{BurnParams, standardize_url_template, burn}
use bolty_rs.Ntag.Card.{Card, IsNtag424}
use bolty_rs.Ntag.Burned.{BurnFailed, BurnDone, burn_lem}

abbrev pub params_of : CardKeys → Text → ℕ → CurrentKeys → BurnParams
params_of keys url version current = record {
  lnurl = url;
  keys = keys;
  key_version = version;
  current_key = current.0;
  previous_keys = current.1;
}

module _ {Sdm : Type 0} (keys : CardKeys) (a : Card Sdm) where
  -- The keys that the burn takes the card to have: the factory's or the new ones, and the master key
  -- is the card's.
  unfoldable pub IsCurrent : CurrentKeys → Type 0
  IsCurrent current =
      ((current ≡ blank_keys) ⊎ (current ≡ (keys.k0, keys))) × (current.0.bytes ≡ a.keys key0)

module _ {C S Sdm T : Type 0} (Refusal : Type 0) (ops : Ntag424 C S Sdm T) (keys : CardKeys)
    (url : Text) (opts : BurnOptions) (the_uid : List ℕ) (a : Card Sdm) where
  -- What is known of the card `a` before its first change.
  unfoldable pub IsCleared : CurrentKeys → Type 0
  IsCleared current =
      PinnedTo the_uid opts.confirm_uid
      × ((opts.force ≡ true) ⊎ (has_placeholders url ≡ true))
      × IsCurrent keys a current

  -- A failed command leaves the card as it was, or breaks off in a burn that was cleared.
  unfoldable pub CommandFailed : Card Sdm → Type 0
  CommandFailed card =
      (card ≡ a)
      ⊎ ((current : CurrentKeys) × IsCleared current
          × BurnFailed Refusal ops (params_of keys url opts.version current) a card)

  unfoldable pub CommandDone : BurnEnd → Card Sdm → Type 0
  CommandDone planned card = card ≡ a
  CommandDone burned card =
      (current : CurrentKeys) × IsCleared current
      × ((uid : List ℕ) × BurnDone Refusal ops (params_of keys url opts.version current) a uid card)

module _ {C S Sdm T : Type 0} {Refusal : Type 0} (ops : Ntag424 C S Sdm T)
    (rng : C → C × Option (List ℕ)) (view : C → Card Sdm) (law : IsNtag424 ops view Refusal)
    (the_uid : List ℕ) (still : IsStill ops rng view the_uid) (a : Card Sdm) where
  state_check-Looks : (force : Bool) → Looks T view a (λ _. Unit {0}) (state_check ops rng force)
  unfolding state_check
  state_check-Looks true = pure-Looks T view a _ tt tt
  state_check-Looks false =
      then-Looks T view a _ _ _ _
        (ladder-Looks ops rng view law the_uid still a auth_retry_delays key0 factory_key)
        (λ answer _. go answer)
    where
      go : (answer : Auth) → Looks T view a {A = Unit {0}} (λ _. Unit {0}) (not_delayed answer)
      go accepted = pure-Looks T view a _ tt tt
      go refused = pure-Looks T view a _ tt tt
      go exhausted = lifted-Looks T view a _ _

  reburn-Looks :
      (keys : CardKeys) (provenance : KeyProvenance) (works : Bool)
      → Proved ops rng view law the_uid still a key0 keys.k0.bytes works
      → Looks T view a (IsCurrent keys a) (reburn keys provenance works)
  unfolding reburn IsCurrent
  reburn-Looks keys provenance true h =
      then-Looks T view a _ _ _ _ (log-Looks T view a authenticated_with_provided (some provenance))
        (λ _ _. pure-Looks T view a (IsCurrent keys a) (keys.k0, keys) (inr refl, h))
  reburn-Looks keys provenance false h = lifted-Looks T view a (IsCurrent keys a) _

  keys_after-Looks :
      (keys : CardKeys) (provenance : KeyProvenance) (works : Bool)
      → Proved ops rng view law the_uid still a key0 factory_key works
      → Looks T view a (IsCurrent keys a) (keys_after ops rng keys provenance works)
  unfolding keys_after IsCurrent
  keys_after-Looks keys provenance true h =
      then-Looks T view a _ _ _ _
        (log-Looks T view a authenticated_with_factory (some factory_default))
        (λ _ _. pure-Looks T view a (IsCurrent keys a) blank_keys (inl refl, h))
  keys_after-Looks keys provenance false h =
      then-Looks T view a _ _ _ _ (works-Looks ops rng view law the_uid still a key0 keys.k0.bytes)
        (λ works w. reburn-Looks keys provenance works w)

  find_keys-Looks :
      (keys : CardKeys) (provenance : KeyProvenance)
      → Looks T view a (IsCurrent keys a) (find_keys ops rng keys provenance)
  unfolding find_keys
  find_keys-Looks keys provenance =
      then-Looks T view a _ _ _ _ (works-Looks ops rng view law the_uid still a key0 factory_key)
        (λ works w. keys_after-Looks keys provenance works w)

  module _ (keys : CardKeys) (url : Text) (opts : BurnOptions) (current : CurrentKeys) where
    burn_answer :
        (provenance : KeyProvenance) (d : Desk C) (p : C × Result (Error T) (List ℕ))
        → IsCleared Refusal ops keys url opts the_uid a current
        → Outcome view
            (BurnDone Refusal ops (params_of keys url opts.version current) a)
            (BurnFailed Refusal ops (params_of keys url opts.version current) a)
            p
        → Outcome
            (desk_view view)
            (CommandDone Refusal ops keys url opts the_uid a)
            (CommandFailed Refusal ops keys url opts the_uid a)
            (reported provenance p.1 (record d { card = p.0 }))
    unfolding Outcome reported continued ◌>>=◌ log_event_with_provenance lifted pure CommandDone
        CommandFailed
    burn_answer provenance d (c, ok uid) clear h = (current, clear, (uid, h))
    burn_answer provenance d (c, err e) clear h = inr (current, clear, h)

    run_burn_lem :
        (uid : List ℕ) (provenance : KeyProvenance)
        → IsCleared Refusal ops keys url opts the_uid a current
        → (d : Desk C) → view d.card ≡ a
        → Outcome
            (desk_view view)
            (CommandDone Refusal ops keys url opts the_uid a)
            (CommandFailed Refusal ops keys url opts the_uid a)
            (run_burn ops rng keys url opts.version uid provenance current d)
    unfolding run_burn tried ◌>>=◌ continued CommandFailed
    run_burn_lem uid provenance clear =
        look_step T view a _ _ _ _ _ (gen_rnd_a-Looks ops rng view law the_uid still a) (inl refl)
          λ rnd_a _.
            look_step T view a _ _ _ _ _
              (log-Looks T view a (burn_starting uid opts.version url) (some provenance)) (inl refl)
              λ _ _ d e.
                let params = params_of keys url opts.version current in
                let done = burn ops params (record { bytes = rnd_a }) d.card in
                burn_answer provenance d done clear (
                  subst
                    (λ v.
                      Outcome view (BurnDone Refusal ops params v) (BurnFailed Refusal ops params v)
                        done)
                    e (burn_lem ops view law params (record { bytes = rnd_a }) d.card))

  for_real_lem :
      (keys : CardKeys) (url : Text) (opts : BurnOptions) (uid : List ℕ)
      (provenance : KeyProvenance)
      → PinnedTo the_uid opts.confirm_uid
      → (d : Desk C) → view d.card ≡ a
      → Outcome
          (desk_view view)
          (CommandDone Refusal ops keys url opts the_uid a)
          (CommandFailed Refusal ops keys url opts the_uid a)
          (burn_for_real ops rng keys url opts uid provenance d)
  unfolding burn_for_real IsCleared CommandFailed
  for_real_lem keys url opts uid provenance pinned =
      look_step T view a _ _ _ _ _
        (raise_if-Looks T view a (λ _. (opts.force ≡ true) ⊎ (has_placeholders url ≡ true)) _ _
          (λ f. ground (arith, f)))
        (inl refl)
        λ _ template. look_step T view a _ _ _ _ _ (state_check-Looks opts.force) (inl refl) λ _ _.
          look_step T view a _ _ _ _ _ (find_keys-Looks keys provenance) (inl refl) λ current known.
            run_burn_lem keys url opts current uid provenance (pinned, template, known)

  plan-Looks :
      (r : Result Text (SdmUrlPlan Sdm)) → Looks T view a (λ e. e ≡ planned) (plan_checked r)
  unfolding plan_checked
  plan-Looks (ok plan) = pure-Looks T view a (λ e. e ≡ planned) planned refl
  plan-Looks (err e) = lifted-Looks T view a (λ e. e ≡ planned) _

module _ {C S Sdm T : Type 0} {Refusal : Type 0} (ops : Ntag424 C S Sdm T)
    (rng : C → C × Option (List ℕ)) (view : C → Card Sdm) (law : IsNtag424 ops view Refusal)
    (the_uid : List ℕ) (still : IsStill ops rng view the_uid) where
  -- Whatever the card and the link do: a dry run and every refusal leave the card as it was. A burn is begun only on
  -- a card with the UID that the user named, if one was, with a template that has both placeholders unless it is
  -- forced, and with a master key of the factory or of the new keys. One that succeeds leaves a burned card, and one
  -- that breaks off each key old or new.
  pub burn_card_lem :
      (assume_ntag424 : Bool) (keys : CardKeys) (url : Text) (opts : BurnOptions)
      (provenance : KeyProvenance) (d : Desk C)
      → Outcome
          (desk_view view)
          (CommandDone Refusal ops keys url opts the_uid (view d.card))
          (CommandFailed Refusal ops keys url opts the_uid (view d.card))
          (burn_card ops rng assume_ntag424 keys url opts provenance d)
  unfolding burn_card CommandFailed CommandDone IsCleared
  burn_card_lem assume_ntag424 keys url opts provenance d =
      let a = view d.card in
      look_step T view a _ _ _ _ _ (preflight-Looks ops rng view law the_uid still a assume_ntag424)
        (inl refl)
        (λ uid same.
          look_step T view a _ _ _ _ _ (check_uid-Looks T view a opts.confirm_uid uid) (inl refl)
            λ _ pinned. elim (Bool-cases opts.dry_run) [
              | inl t ↦ rw t (
                  look_lem T view a (λ e. e ≡ planned) _ _ _
                    (plan-Looks ops rng view law the_uid still a
                      (ops.sdm_url_config (standardize_url_template url) key1 key2))
                    (inl refl)
                    (λ e f.
                      subst (λ e. CommandDone Refusal ops keys url opts the_uid a e a) (sym f)
                        refl))
              | inr f ↦ rw f (
                  for_real_lem ops rng view law the_uid still a keys url opts uid provenance
                    (subst (λ u. PinnedTo u opts.confirm_uid) same pinned))
            ])
        d refl
