-- ===== src/Cli/Wipe/Gates.antt =====
-- What the checks before a wipe find out, apps/bolty-cli/src/wipe.rs.
use bolty_rs.Prelude.{
  ℕ, ◌≡◌, inl, inr, refl, Bool, true, false, not, ◌&&◌, ◌||◌, ◌==◌, leb, Option, none, some, List,
  [], ◌∷◌, err, All, Bool-cases, if◌then◌else◌, get_or, replicate, take, arith,
}
use bolty_rs.Prelude.Text.{codes, eq, eq_iff}
use bolty_rs.Core.Crypto.{Crypto}
use bolty_rs.Core.Keys.{CardKeys}
use bolty_rs.Core.Derivation.{CardKeySet}
use bolty_rs.Core.Picc.{extract_p_and_c}
use bolty_rs.Ntag.Ndef.{NdefUri, parse_ndef_uri}
use bolty_rs.Prelude.Act.{pure}
use bolty_rs.Cli.Diagnose.{KeyProvenance}
use bolty_rs.Cli.Tool.{
  pre_verification_skipped, raw_keyset_verified, bail, slot_rejected, uid_mismatch, residual_state,
  lifted, is_sdm_functionally_active,
}
use bolty_rs.Cli.Looking.{
  IsStill, Looks, pure-Looks, lifted-Looks, raise_if-Looks, then-Looks, weaken-Looks, log-Looks,
  or_bail-Looks,
}
use bolty_rs.Cli.Looking.AtCard.{
  works-Looks, Proved, get_file_settings-Looks, read_file_plain-Looks,
  read_file_unauthenticated-Looks,
}
use bolty_rs.Cli.Wipe.{
  nothing_to_do, PreVerify, skipped, verified, undecryptable, foreign_uid, wrong_mac, passed,
  check_uid, pre_verify_pc, authenticate_slot_with_retry, residue, verify_raw_keys, raw_gate,
  pc_gate, url_verdict,
}
use bolty_rs.Ntag.Link.{KeyNumber, key1, key2, key3, key4, FileSettings, Ntag424}
use bolty_rs.Ntag.Card.{Card, IsNtag424}

-- The UID that the user named, if any
abbrev pub PinnedTo : List ℕ → Option (List ℕ) → Type 0
PinnedTo uid none = Unit {0}
PinnedTo uid (some expected) = expected ≡ uid

module _ {C Sdm : Type 0} (T : Type 0) (view : C → Card Sdm) (a : Card Sdm) where
  pub check_uid-Looks :
      (confirm_uid : Option (List ℕ)) (uid : List ℕ)
      → Looks T view a (λ _. PinnedTo uid confirm_uid) (check_uid confirm_uid uid)
  unfolding check_uid
  check_uid-Looks none uid = pure-Looks T view a _ tt tt
  check_uid-Looks (some expected) uid =
      raise_if-Looks T view a (λ _. expected ≡ uid) (not (eq uid expected))
        (uid_mismatch expected uid) (λ f. ground (arith, f, eq_iff uid expected))

  passed-Looks : (v : PreVerify) → Looks T view a (λ _. Unit {0}) (passed v)
  unfolding passed
  passed-Looks skipped = pure-Looks T view a _ tt tt
  passed-Looks verified = pure-Looks T view a _ tt tt
  passed-Looks undecryptable = lifted-Looks T view a _ _
  passed-Looks foreign_uid = lifted-Looks T view a _ _
  passed-Looks wrong_mac = lifted-Looks T view a _ _

module _ {C S Sdm T : Type 0} {Refusal : Type 0} (crypto : Crypto) (ops : Ntag424 C S Sdm T)
    (rng : C → C × Option (List ℕ)) (view : C → Card Sdm) (law : IsNtag424 ops view Refusal)
    (the_uid : List ℕ) (still : IsStill ops rng view the_uid) (a : Card Sdm) where
  pre_verify_pc-Looks :
      (keys : CardKeySet) (uid : List ℕ)
      → Looks T view a (λ _. Unit {0}) (pre_verify_pc crypto ops rng keys uid)
  unfolding pre_verify_pc
  pre_verify_pc-Looks keys uid =
      then-Looks T view a _ _ _ _
        (read_file_unauthenticated-Looks ops rng view law the_uid still a
          (codes "failed to read NDEF") 0 (replicate 256 0))
        (λ r _. go (parse_ndef_uri (take r.0 r.1)))
    where
      go :
          (o : Option NdefUri)
          → Looks T view a {A = Unit {0}}
              (λ _. Unit {0})
              (elim o [
                | none ↦ lifted (err (bail (codes "NDEF unreadable")))
                | some parsed ↦ passed (url_verdict crypto keys uid (extract_p_and_c parsed.url))
              ])
      go none = lifted-Looks T view a _ _
      go (some parsed) = passed-Looks T view a _

  pub pc_gate-Looks :
      (skip : Bool) (keys : CardKeySet) (uid : List ℕ) (provenance : KeyProvenance)
      → Looks T view a (λ _. Unit {0}) (pc_gate crypto ops rng skip keys uid provenance)
  unfolding pc_gate
  pc_gate-Looks true keys uid provenance =
      log-Looks T view a pre_verification_skipped (some provenance)
  pc_gate-Looks false keys uid provenance = pre_verify_pc-Looks keys uid

  pub authenticate_slot-Looks :
      (slot : KeyNumber) (k : List ℕ)
      → Looks T view a (λ _. k ≡ a.keys slot) (authenticate_slot_with_retry crypto ops rng slot k)
  unfolding authenticate_slot_with_retry
  authenticate_slot-Looks slot k =
      then-Looks T view a _ _ _ _ (works-Looks ops rng view law the_uid still a slot k)
        (λ right h. raise_if-Looks T view a (λ _. k ≡ a.keys slot) (not right) _ (go right h))
    where
      go :
          (right : Bool)
          → Proved ops rng view law the_uid still a slot k right
          → not right ≡ false
          → k ≡ a.keys slot
      go true h f = h
      go false h f = absurd (ground (arith, f))

  verify_raw_keys-Looks :
      (slots : List (KeyNumber × List ℕ))
      → Looks T view a
          (λ _. All (λ p. p.1 ≡ a.keys p.0) slots)
          (verify_raw_keys crypto ops rng slots)
  unfolding verify_raw_keys
  verify_raw_keys-Looks [] = pure-Looks T view a _ tt tt
  verify_raw_keys-Looks ((slot, k) ∷ slots) =
      then-Looks T view a (λ _. k ≡ a.keys slot) _ _ _
        (or_bail-Looks T view a (λ _. k ≡ a.keys slot) (slot_rejected slot) _
          (authenticate_slot-Looks slot k))
        λ _ right. weaken-Looks T view a _ _ _ (verify_raw_keys-Looks slots) (λ _ all. (right, all))

  -- The raw keys of the slots 1 to 4 are the card's.
  abbrev pub RawKnown : Option CardKeys → CardKeySet → Type 0
  RawKnown none keys = Unit {0}
  RawKnown (some raw) keys =
      (keys.k1.bytes ≡ a.keys key1)
      × (keys.k2.bytes ≡ a.keys key2)
      × (keys.k3.bytes ≡ a.keys key3)
      × (keys.k4.bytes ≡ a.keys key4)

  pub raw_gate-Looks :
      (raw : Option CardKeys) (keys : CardKeySet) (provenance : KeyProvenance)
      → Looks T view a (λ _. RawKnown raw keys) (raw_gate crypto ops rng raw keys provenance)
  unfolding raw_gate
  raw_gate-Looks none keys provenance = pure-Looks T view a _ tt tt
  raw_gate-Looks (some raw) keys provenance =
      then-Looks T view a _ _ _ _
        (verify_raw_keys-Looks (
          (key1, keys.k1.bytes)
          ∷ (key2, keys.k2.bytes)
          ∷ (key3, keys.k3.bytes)
          ∷ (key4, keys.k4.bytes)
          ∷ []))
        (λ _ all.
          weaken-Looks T view a _ _ _ (log-Looks T view a raw_keyset_verified (some provenance))
            (λ _ _. (all.0, all.1.0, all.1.1.0, all.1.1.1.0)))

  pub residue-Looks : (s : S) → Looks T view a (λ e. e ≡ nothing_to_do) (residue crypto ops rng s)
  unfolding residue
  residue-Looks s =
      then-Looks T view a _ _ _ _
        (get_file_settings-Looks ops rng view law the_uid still a
          (codes "failed to read file settings") s)
        λ r _.
          then-Looks T view a _ _ _ _
            (read_file_plain-Looks ops rng view law the_uid still a (codes "failed to read NDEF")
              r.1 0 (replicate 256 0))
            λ q _. go r.0 q
    where
      go :
          (settings : FileSettings Sdm) (q : ℕ × List ℕ × S)
          → Looks T view a
              (λ e. e ≡ nothing_to_do)
              (let has_sdm = is_sdm_functionally_active ops settings.sdm in
                let has_ndef =
                  leb 2 q.0 && (not (get_or q.1 0 0 == 0) || not (get_or q.1 1 0 == 0)) in
                if not has_sdm && not has_ndef
                then pure nothing_to_do
                else lifted (err (residual_state has_sdm (if has_ndef then q.0 else 0))))
      go settings q =
          elim (Bool-cases (
            not (is_sdm_functionally_active ops settings.sdm)
            && not (leb 2 q.0 && (not (get_or q.1 0 0 == 0) || not (get_or q.1 1 0 == 0))))) [
              | inl t ↦ rw t (pure-Looks T view a (λ e. e ≡ nothing_to_do) nothing_to_do refl)
              | inr f ↦ rw f (lifted-Looks T view a (λ e. e ≡ nothing_to_do) _)
            ]
