-- ===== src/Cli/Wipe/Safety.antt =====
-- What the wipe command does to a card, apps/bolty-cli/src/wipe.rs.
use bolty_rs.Prelude.{
  ℕ, ◌≡◌, ◌⊎◌, inl, inr, refl, sym, subst, ap, ◌∙◌, Bool, false, not, ◌&&◌, Option, none, some,
  List, [], ◌∷◌, Result, ok, err, arith, Bool-cases,
}
use bolty_rs.Prelude.Text.{codes, is_some}
use bolty_rs.Prelude.Act.{pure, continued, Outcome, Outcome-mono, ◌>>=◌}
use bolty_rs.Core.Crypto.{Crypto}
use bolty_rs.Core.Keys.{AesKey, CardKeys, factory_key}
use bolty_rs.Core.Derivation.{CardKeySet, card_keys}
use bolty_rs.Cli.Diagnose.{KeyProvenance}
use bolty_rs.Cli.Tool.{Desk, bail, log_event_with_provenance, wipe_starting, tried, lifted}
use bolty_rs.Cli.Looking.{
  IsStill, desk_view, pure-Looks, lifted-Looks, raise_if-Looks, then-Looks, weaken-Looks, log-Looks,
  or_bail-Looks, look_step, look_lem, either_lem,
}
use bolty_rs.Cli.Looking.AtCard.{gen_rnd_a-Looks, authenticate-Looks, preflight-Looks}
use bolty_rs.Cli.Wipe.{
  WipeKeySource, WipeOptions, WipeEnd, planned, nothing_to_do, wiped, keyset_of, run_wipe, reported,
  wipe_provisioned, wipe_checked, wipe_with, cmd_wipe,
}
use bolty_rs.Cli.Wipe.Gates.{
  PinnedTo, check_uid-Looks, pc_gate-Looks, authenticate_slot-Looks, RawKnown, raw_gate-Looks,
  residue-Looks,
}
use bolty_rs.Ntag.Link.{KeyNumber, key0, SessionError, Error, Ntag424}
use bolty_rs.Ntag.Burn.{wipe}
use bolty_rs.Ntag.Card.{Card, has_room, IsNtag424}
use bolty_rs.Ntag.Recovery.{
  keys_of, each_key, IsRecoverable, KeyFault, broken, wrong_key0, wrong_key1, wrong_key2,
  wrong_key3, wrong_key4,
}
use bolty_rs.Ntag.Wiped.{factory_keys, IsWiped, WipeFailed, wipe_lem}

module _ {Sdm : Type 0} (confirm_uid : Option (List ℕ)) (the_uid : List ℕ) (a : Card Sdm) where
  -- Raw keys are only used on the card that the user named, and only if all five are that card's.
  abbrev pub RawProved : Option CardKeys → Type 0
  RawProved none = Unit {0}
  RawProved (some raw) =
      (confirm_uid ≡ some the_uid) × ((kn : KeyNumber) → keys_of raw kn ≡ a.keys kn)

module _ {Sdm : Type 0} (Refusal : Type 0) (crypto : Crypto) (source : WipeKeySource)
    (confirm_uid : Option (List ℕ)) (the_uid : List ℕ) (a : Card Sdm) where
  -- What is known of the card `a` before its first change: its UID is the one that was named, and the
  -- keys that the source gives for it have the card's master key.
  unfoldable pub IsCleared : CardKeySet → Type 0
  IsCleared keys =
      ((provenance : KeyProvenance) × (keyset_of crypto the_uid source ≡ some (keys, provenance)))
      × PinnedTo the_uid confirm_uid
      × (keys.k0.bytes ≡ a.keys key0)
      × RawProved confirm_uid the_uid a source.raw_keys

  -- Why a wipe can break off: with raw keys, never for a key.
  abbrev pub BrokeOff : CardKeySet → Option CardKeys → Type 0
  BrokeOff keys none =
      KeyFault Refusal keys.k0.bytes (card_keys crypto keys) a ⊎ (has_room 0 (0 ∷ 0 ∷ []) a ≡ false)
  BrokeOff keys (some raw) = Refusal ⊎ (has_room 0 (0 ∷ 0 ∷ []) a ≡ false)

  -- A failed command leaves the card as it was, or breaks off in a wipe that was cleared.
  unfoldable pub CommandFailed : Card Sdm → Type 0
  CommandFailed card =
      (card ≡ a)
      ⊎ ((keys : CardKeySet) × IsCleared keys
          × BrokeOff keys source.raw_keys
          × IsRecoverable factory_keys a card)

  unfoldable pub CommandDone : WipeEnd → Card Sdm → Type 0
  CommandDone planned card = card ≡ a
  CommandDone nothing_to_do card = card ≡ a
  CommandDone wiped card = ((keys : CardKeySet) × IsCleared keys) × IsWiped a card

-- A fault of a key is none where all keys are the card's.
only_broken :
    {Sdm Refusal : Type 0} (keys : CardKeys) (a : Card Sdm)
    → keys.k0.bytes ≡ a.keys key0
    → ((kn : KeyNumber) → keys_of keys kn ≡ a.keys kn)
    → KeyFault Refusal keys.k0.bytes keys a
    → Refusal
only_broken keys a e0 e (broken r) = r
only_broken keys a e0 e (wrong_key0 n) = absurd (n e0)
only_broken keys a e0 e (wrong_key1 n) = absurd (n (e bolty_rs.Ntag.Link.key1))
only_broken keys a e0 e (wrong_key2 n) = absurd (n (e bolty_rs.Ntag.Link.key2))
only_broken keys a e0 e (wrong_key3 n) = absurd (n (e bolty_rs.Ntag.Link.key3))
only_broken keys a e0 e (wrong_key4 n) = absurd (n (e bolty_rs.Ntag.Link.key4))

module _ {C S Sdm T : Type 0} {Refusal : Type 0} (crypto : Crypto) (ops : Ntag424 C S Sdm T)
    (rng : C → C × Option (List ℕ)) (view : C → Card Sdm) (law : IsNtag424 ops view Refusal)
    (the_uid : List ℕ) (still : IsStill ops rng view the_uid) (a : Card Sdm) where
  wipe_answer :
      (keys : CardKeySet) (provenance : KeyProvenance) (d : Desk C)
      (p : C × Result (Error T) (List ℕ))
      → Outcome view (λ uid card. IsWiped a card) (WipeFailed Refusal (card_keys crypto keys) a) p
      → Outcome
          (desk_view view)
          (λ e card. (e ≡ wiped) × IsWiped a card)
          (λ card. (card ≡ a) ⊎ WipeFailed Refusal (card_keys crypto keys) a card)
          (reported provenance p.1 (record d { card = p.0 }))
  unfolding Outcome reported continued ◌>>=◌ log_event_with_provenance lifted pure
  wipe_answer keys provenance d (c, ok uid) h = (refl, h)
  wipe_answer keys provenance d (c, err e) h = inr h

  run_wipe_lem :
      (keys : CardKeySet) (uid : List ℕ) (version : ℕ) (provenance : KeyProvenance) (d : Desk C)
      → view d.card ≡ a
      → Outcome
          (desk_view view)
          (λ e card. (e ≡ wiped) × IsWiped a card)
          (λ card. (card ≡ a) ⊎ WipeFailed Refusal (card_keys crypto keys) a card)
          (run_wipe crypto ops rng keys uid version provenance d)
  unfolding run_wipe tried ◌>>=◌ continued
  run_wipe_lem keys uid version provenance =
      look_step T view a _ _ _ _ _ (gen_rnd_a-Looks ops rng view law the_uid still a) (inl refl)
        λ rnd_a _.
          look_step T view a _ _ _ _ _
            (log-Looks T view a (wipe_starting uid version) (some provenance)) (inl refl)
            λ _ _ d e.
              wipe_answer keys provenance d
                (wipe ops (card_keys crypto keys) (record { bytes = rnd_a }) d.card)
                (subst
                  (λ v.
                    Outcome view (λ uid card. IsWiped v card)
                      (WipeFailed Refusal (card_keys crypto keys) v)
                      (wipe ops (card_keys crypto keys) (record { bytes = rnd_a }) d.card))
                  e
                  (wipe_lem ops view law (card_keys crypto keys) (record { bytes = rnd_a }) d.card))

  -- What was found out before the library's wipe.
  module _ (source : WipeKeySource) (opts : WipeOptions) (keys : CardKeySet)
      (provenance : KeyProvenance)
      (given : keyset_of crypto the_uid source ≡ some (keys, provenance))
      (pinned : PinnedTo the_uid opts.confirm_uid)
      (named : (is_some source.raw_keys && not (is_some opts.confirm_uid)) ≡ false) where
    k_matches :
        (raw : CardKeys)
        → source.raw_keys ≡ some raw
        → (keys.k0 ≡ raw.k0)
          × (keys.k1 ≡ raw.k1)
          × (keys.k2 ≡ raw.k2)
          × (keys.k3 ≡ raw.k3)
          × (keys.k4 ≡ raw.k4)
    unfolding keyset_of
    k_matches raw e = ground (arith, e, given)

    named_uid :
        (raw : CardKeys) (confirm_uid : Option (List ℕ))
        → source.raw_keys ≡ some raw
        → opts.confirm_uid ≡ confirm_uid
        → PinnedTo the_uid confirm_uid
        → confirm_uid ≡ some the_uid
    named_uid raw none e c p = absurd (ground (arith, e, c, named))
    named_uid raw (some expected) e c p = ap some p

    proved :
        (raw : Option CardKeys)
        → source.raw_keys ≡ raw
        → keys.k0.bytes ≡ a.keys key0
        → RawKnown crypto ops rng view law the_uid still a raw keys
        → RawProved opts.confirm_uid the_uid a raw
    proved none e e0 known = tt
    proved (some raw) e e0 known =
        let m = k_matches raw e in
        (
          named_uid raw opts.confirm_uid e refl pinned,
          each_key (λ kn. keys_of raw kn ≡ a.keys kn) (ap (λ (k : AesKey). k.bytes) (sym m.0) ∙ e0)
              (ap (λ (k : AesKey). k.bytes) (sym m.1) ∙ known.0)
              (ap (λ (k : AesKey). k.bytes) (sym m.2) ∙ known.1)
              (ap (λ (k : AesKey). k.bytes) (sym m.3) ∙ known.2)
              (ap (λ (k : AesKey). k.bytes) (sym m.4) ∙ known.3),
        )

    broke_off :
        (raw : Option CardKeys)
        → keys.k0.bytes ≡ a.keys key0
        → RawKnown crypto ops rng view law the_uid still a raw keys
        → KeyFault Refusal keys.k0.bytes (card_keys crypto keys) a
          ⊎ (has_room 0 (0 ∷ 0 ∷ []) a ≡ false)
        → BrokeOff Refusal crypto source opts.confirm_uid the_uid a keys raw
    broke_off none e0 known w = w
    broke_off (some raw) e0 known (inr full) = inr full
    broke_off (some raw) e0 known (inl fault) = inl (
        only_broken (card_keys crypto keys) a e0
          (each_key (λ kn. keys_of (card_keys crypto keys) kn ≡ a.keys kn) e0 known.0 known.1
            known.2 known.3)
          fault)

    cleared :
        keys.k0.bytes ≡ a.keys key0
        → RawKnown crypto ops rng view law the_uid still a source.raw_keys keys
        → IsCleared Refusal crypto source opts.confirm_uid the_uid a keys
    unfolding IsCleared
    cleared e0 known = ((provenance, given), pinned, e0, proved source.raw_keys refl e0 known)

    Failed : Card Sdm → Type 0
    Failed = CommandFailed Refusal crypto source opts.confirm_uid the_uid a

    Done : WipeEnd → Card Sdm → Type 0
    Done = CommandDone Refusal crypto source opts.confirm_uid the_uid a

    provisioned_lem :
        (d : Desk C)
        → view d.card ≡ a
        → Outcome
            (desk_view view)
            Done
            Failed
            (wipe_provisioned crypto ops rng source opts the_uid keys provenance d)
    unfolding wipe_provisioned Done Failed CommandDone CommandFailed IsCleared WipeFailed
    provisioned_lem =
        look_step T view a
          (λ _.
            (keys.k0.bytes ≡ a.keys key0)
            × RawKnown crypto ops rng view law the_uid still a source.raw_keys keys)
          _ _ _ _
          (then-Looks T view a _ _ _ _
            (then-Looks T view a _ _ _ _
              (pc_gate-Looks crypto ops rng view law the_uid still a opts.skip_preverify keys
                the_uid provenance)
              (λ _ _. or_bail-Looks T view a _ (bail (codes "K0 authentication failed")) _ (
                authenticate_slot-Looks crypto ops rng view law the_uid still a key0
                  keys.k0.bytes)))
            (λ _ e0.
              weaken-Looks T view a _ _ _
                (raw_gate-Looks crypto ops rng view law the_uid still a source.raw_keys keys
                  provenance)
                (λ _ known. (e0, known))))
          (inl refl)
          (λ _ q d e.
            Outcome-mono (desk_view view) _ _ _ _
              (run_wipe crypto ops rng keys the_uid source.version provenance d)
              (run_wipe_lem keys the_uid source.version provenance d e)
              (λ r card h.
                subst (λ r. CommandDone Refusal crypto source opts.confirm_uid the_uid a r card)
                  (sym h.0) ((keys, cleared q.0 q.1), h.1))
              (λ card h. elim h [
                | inl same ↦ inl same
                | inr f ↦ inr (keys, cleared q.0 q.1, broke_off source.raw_keys q.0 q.1 f.0, f.1)
              ]))

    checked_lem :
        (d : Desk C)
        → view d.card ≡ a
        → Outcome
            (desk_view view)
            Done
            Failed
            (wipe_checked crypto ops rng source opts the_uid keys provenance d)
    unfolding wipe_checked Done Failed CommandDone CommandFailed
    checked_lem =
        look_step T view a _ _ _ _ _ (gen_rnd_a-Looks ops rng view law the_uid still a) (inl refl)
          λ rnd_a _.
            look_step T view a _ _ _ _ _
              (authenticate-Looks ops rng view law the_uid still a key0 factory_key rnd_a)
              (inl refl)
              λ first _ d1 e1.
                either_lem T view a Done Failed _ _ first d1
                  (λ session.
                    look_lem T view a (λ _. ⊥) Done Failed
                      (lifted (err (bail (codes "card has factory K0"))))
                      (lifted-Looks T view a (λ _. ⊥) _) (inl refl) (λ r f. absurd f) d1 e1)
                  (look_step T view a _ _ _ _ _ (gen_rnd_a-Looks ops rng view law the_uid still a)
                    (inl refl)
                    (λ rnd_b _.
                      look_step T view a _ _ _ _ _
                        (authenticate-Looks ops rng view law the_uid still a key0 factory_key rnd_b)
                        (inl refl)
                        λ second _ d2 e2.
                          either_lem T view a Done Failed _ _ second d2
                            (λ session.
                              look_lem T view a (λ r. r ≡ nothing_to_do) Done Failed _
                                (residue-Looks crypto ops rng view law the_uid still a session)
                                (inl refl) (λ r f. subst (λ r. Done r a) (sym f) refl) d2 e2)
                            (provisioned_lem d2 e2))
                    d1 e1)

  with_lem :
      (source : WipeKeySource) (opts : WipeOptions) (o : Option (CardKeySet × KeyProvenance))
      → keyset_of crypto the_uid source ≡ o
      → PinnedTo the_uid opts.confirm_uid
      → (is_some source.raw_keys && not (is_some opts.confirm_uid)) ≡ false
      → (d : Desk C) → view d.card ≡ a
      → Outcome
          (desk_view view)
          (CommandDone Refusal crypto source opts.confirm_uid the_uid a)
          (CommandFailed Refusal crypto source opts.confirm_uid the_uid a)
          (wipe_with crypto ops rng source opts the_uid o d)
  unfolding wipe_with CommandDone CommandFailed Done Failed
  with_lem source opts none given pinned named =
      look_lem T view a (λ _. ⊥) _ _ _ (lifted-Looks T view a (λ _. ⊥) _) (inl refl)
        (λ r f. absurd f)
  with_lem source opts (some (keys, provenance)) given pinned named =
      elim (Bool-cases opts.dry_run) [
        | inl t ↦ rw t (
            look_lem T view a (λ r. r ≡ planned) _ _ _
              (pure-Looks T view a (λ r. r ≡ planned) planned refl) (inl refl)
              (λ r f.
                subst (λ r. CommandDone Refusal crypto source opts.confirm_uid the_uid a r a)
                  (sym f) refl))
        | inr f ↦ rw f (checked_lem source opts keys provenance given pinned named)
      ]

module _ {C S Sdm T : Type 0} {Refusal : Type 0} (crypto : Crypto) (ops : Ntag424 C S Sdm T)
    (rng : C → C × Option (List ℕ)) (view : C → Card Sdm) (law : IsNtag424 ops view Refusal)
    (the_uid : List ℕ) (still : IsStill ops rng view the_uid) where
  -- Whatever the card and the link do: a dry run, a card with nothing to wipe and every refusal leave the card as it
  -- was. A wipe is begun only on a card with the UID that the user named, if one was, whose master key is the source's;
  -- with raw keys only if a UID was named and all five are the card's, so that it then breaks off for the link or for
  -- want of room, never for a key. One that succeeds leaves a wiped card, and one that breaks off each key old
  -- or blank.
  pub cmd_wipe_lem :
      (assume_ntag424 : Bool) (source : WipeKeySource) (opts : WipeOptions) (d : Desk C)
      → Outcome
          (desk_view view)
          (CommandDone Refusal crypto source opts.confirm_uid the_uid (view d.card))
          (CommandFailed Refusal crypto source opts.confirm_uid the_uid (view d.card))
          (cmd_wipe crypto ops rng assume_ntag424 source opts d)
  unfolding cmd_wipe CommandFailed
  cmd_wipe_lem assume_ntag424 source opts d =
      let a = view d.card in
      look_step T view a _ _ _ _ _
        (raise_if-Looks T view a
          (λ _. (is_some source.raw_keys && not (is_some opts.confirm_uid)) ≡ false) _ _ (λ f. f))
        (inl refl)
        (λ _ named.
          look_step T view a _ _ _ _ _
            (preflight-Looks ops rng view law the_uid still a assume_ntag424) (inl refl)
            λ uid same.
              look_step T view a _ _ _ _ _ (check_uid-Looks T view a opts.confirm_uid uid)
                (inl refl)
                λ _ pinned.
                  subst
                    (λ u.
                      PinnedTo u opts.confirm_uid
                      → (d' : Desk C) → view d'.card ≡ a
                      → Outcome (desk_view view)
                          (CommandDone Refusal crypto source opts.confirm_uid the_uid a)
                          (CommandFailed Refusal crypto source opts.confirm_uid the_uid a)
                          (wipe_with crypto ops rng source opts u (keyset_of crypto u source) d'))
                    (sym same)
                    (λ p.
                      with_lem crypto ops rng view law the_uid still a source opts _ refl p named)
                    pinned)
        d refl
