-- ===== src/Core/Issuer/Classify.antt =====
-- What `assess_card` answers.
use bolty_rs.Prelude.{
  ℕ, suc, ◌+◌, ◌≡◌, ◌≢◌, ◌↔◌, inl, inr, refl, sym, ap, ◌∙◌, overwrite-append, take-append,
  length-copy_at, arith, true, false, Option, some, List, [], ◌∷◌, ◌==◌, length, get_elem?, get_or,
  All, Bool-cases, take, copy_at, replicate,
}
use bolty_rs.Core.Keys.{CardUid, IssuerConfig, num_keys}
use bolty_rs.Core.Crypto.{Crypto}
use bolty_rs.Core.Derivation.{CardKeySet}
use bolty_rs.Core.Assessment.{CardState, CardAssessment, IdleCardKind, KeyConfidence, same_uid}
use bolty_rs.Core.Assessment.SameUid.{same_uid_iff}
use bolty_rs.Core.Issuer.{
  all_blank, base_assessment, find_issuer, match_issuer, assess_matched, assess_card,
}

-- The issuer at index `i` has the key version `v`, and none in front of it has.
abbrev pub FirstMatch : ℕ → List IssuerConfig → ℕ → Type 0
FirstMatch v issuers i =
    ((x : IssuerConfig) × (get_elem? issuers i ≡ some x) × (x.key_version ≡ v))
    × All (λ x. x.key_version ≢ v) (take i issuers)

abbrev pub NoMatch : ℕ → List IssuerConfig → Type 0
NoMatch v issuers = All (λ x. x.key_version ≢ v) issuers

abbrev pub IsBlank : List ℕ → Type 0
IsBlank versions = All (λ v. v ≡ 0) versions

abbrev Found : ℕ → ℕ → List IssuerConfig → Option (ℕ × CardKeySet) → Type 0
Found v idx issuers Option.none = NoMatch v issuers
Found v idx issuers (some (j, keys)) = (i : ℕ) × (j ≡ idx + i) × FirstMatch v issuers i

Found-cons :
    (v idx : ℕ) (x : IssuerConfig) (issuers : List IssuerConfig) (r : Option (ℕ × CardKeySet))
    → x.key_version ≢ v
    → Found v (idx + 1) issuers r
    → Found v idx (x ∷ issuers) r
Found-cons v idx x issuers Option.none ne h = (ne, h)
Found-cons v idx x issuers (some (j, keys)) ne (i, e, (at, before)) =
    (suc i, omega arith, (at, (ne, before)))

module _ (c : Crypto) (uid : CardUid) where
  find_issuer_lem :
      (v idx : ℕ) (issuers : List IssuerConfig)
      → Found v idx issuers (find_issuer c uid v idx issuers)
  unfolding find_issuer
  find_issuer_lem v idx [] = tt
  find_issuer_lem v idx (x ∷ issuers) = elim (Bool-cases (x.key_version == v)) [
    | inl e ↦ rw e (0, omega arith, ((x, refl, ground arith), tt))
    | inr e ↦
        rw e (Found-cons v idx x issuers _ (ground arith) (find_issuer_lem v (idx + 1) issuers))
  ]

  match_issuer_lem :
      (v : ℕ) (issuers : List IssuerConfig) → Found v 0 issuers (match_issuer c uid v issuers)
  unfolding match_issuer
  match_issuer_lem v issuers = find_issuer_lem v 0 issuers

all_blank_iff : (versions : List ℕ) → (all_blank versions ≡ true) ↔ IsBlank versions
unfolding all_blank
all_blank_iff [] = ground arith
all_blank_iff (v ∷ versions) = ground (arith, all_blank_iff versions)

-- The state that is due: blank if every key version is 0, else the first issuer whose key version
-- is that of key 1, else foreign.
pub data Classified (versions : List ℕ) (issuers : List IssuerConfig) : CardState → Type 0 where
  blank : IsBlank versions → Classified versions issuers CardState.blank
  provisioned :
      (i : ℕ)
      → ¬ IsBlank versions
      → FirstMatch (get_or versions 1 0) issuers i
      → Classified versions issuers (CardState.provisioned i)
  foreign :
      ¬ IsBlank versions
      → NoMatch (get_or versions 1 0) issuers
      → Classified versions issuers CardState.foreign

-- Which kind, key confidence and marks go with a state.
abbrev pub Agrees : CardState → CardAssessment → Type 0
Agrees CardState.unknown a = ⊥
Agrees CardState.blank a =
    (a.kind ≡ IdleCardKind.blank)
    × (a.zero_key_auth_ok ≡ true)
    × (a.reset_eligible ≡ true)
    × (a.looks_like_boltcard ≡ false)
    × (a.deterministic_full_match ≡ false)
    × (a.deterministic_k1_match ≡ false)
    × (a.key_confidence ≡ replicate num_keys KeyConfidence.none)
Agrees (CardState.provisioned i) a =
    (a.kind ≡ IdleCardKind.provisioned)
    × (a.zero_key_auth_ok ≡ false)
    × (a.reset_eligible ≡ true)
    × (a.looks_like_boltcard ≡ true)
    × (a.deterministic_full_match ≡ true)
    × (a.deterministic_k1_match ≡ true)
    × (a.key_confidence ≡ replicate num_keys KeyConfidence.full)
Agrees CardState.foreign a =
    (a.kind ≡ IdleCardKind.unknown)
    × (a.zero_key_auth_ok ≡ false)
    × (a.reset_eligible ≡ false)
    × (a.looks_like_boltcard ≡ true)
    × (a.deterministic_full_match ≡ false)
    × (a.deterministic_k1_match ≡ false)
    × (a.key_confidence ≡ replicate num_keys KeyConfidence.none)

assess_matched_lem :
    (versions : List ℕ) (issuers : List IssuerConfig) (a : CardAssessment)
    → ¬ IsBlank versions
    → a.zero_key_auth_ok ≡ false
    → a.reset_eligible ≡ false
    → a.deterministic_full_match ≡ false
    → a.deterministic_k1_match ≡ false
    → a.key_confidence ≡ replicate num_keys KeyConfidence.none
    → (r : Option (ℕ × CardKeySet)) → Found (get_or versions 1 0) 0 issuers r
    → Classified versions issuers (assess_matched a r).state
      × Agrees (assess_matched a r).state (assess_matched a r)
assess_matched_lem versions issuers a nb z q d k o Option.none h =
    (foreign nb h, (refl, z, q, refl, d, k, o))
assess_matched_lem versions issuers a nb z q d k o (some (j, keys)) (i, e, found) =
    let at : j ≡ i = omega arith in
    (provisioned j nb (rw at found), (refl, z, refl, refl, refl, refl, refl))

-- `assess_card` answers the state that is due, with the kind, the confidence in each key and the marks
-- (zero key, reset, looks, key 1 and full match) that go with it.
pub assess_card_lem :
    (c : Crypto) (uid : CardUid) (versions : List ℕ) (issuers : List IssuerConfig)
    → let a = assess_card c uid versions issuers in
      Classified versions issuers a.state × Agrees a.state a
unfolding assess_card
assess_card_lem c uid versions issuers = elim (Bool-cases (all_blank versions)) [
  | inl e ↦ rw e (blank ((all_blank_iff versions).0 e), (refl, refl, refl, refl, refl, refl, refl))
  | inr e ↦ rw e (
      assess_matched_lem versions issuers (base_assessment uid versions)
        (λ h. cc (e, (all_blank_iff versions).1 h)) refl refl refl refl refl _
        (match_issuer_lem c uid (get_or versions 1 0) issuers))
]

abbrev stored : CardUid → List ℕ
stored uid = copy_at 0 uid.bytes (replicate 12 0)

assess_card_identity :
    (c : Crypto) (uid : CardUid) (versions : List ℕ) (issuers : List IssuerConfig)
    → let a = assess_card c uid versions issuers in
      (a.present ≡ true) × (a.uid_len ≡ 7) × (a.uid ≡ some (stored uid))
unfolding assess_card
assess_card_identity c uid versions issuers = ground arith

take-stored : (uid : CardUid) → length uid.bytes ≡ 7 → take 7 (stored uid) ≡ uid.bytes
take-stored uid h =
    ap (take 7) (overwrite-append uid.bytes (replicate 7 0) (replicate 5 0) (sym h))
    ∙ take-append uid.bytes (replicate 5 0) 7 h

-- The assessed card is the card with that UID, and no other.
pub same_uid-assess_card :
    (c : Crypto) (uid : CardUid) (other versions : List ℕ) (issuers : List IssuerConfig)
    → length uid.bytes ≡ 7
    → length other ≡ 7
    → (same_uid (assess_card c uid versions issuers) other ≡ true) ↔ (uid.bytes ≡ other)
same_uid-assess_card c uid other versions issuers p q =
    let (here, seven, kept) = assess_card_identity c uid versions issuers in
    rw (take-stored uid p) at (
      same_uid_iff (assess_card c uid versions issuers) (stored uid) other here seven kept
        (omega (arith, length-copy_at 0 uid.bytes (replicate 12 0))) q)
