-- ===== src/Ntag/Recovery.antt =====
-- Which keys a card has when work on it breaks off, and what can break it off.
use bolty_rs.Prelude.{ℕ, ◌≡◌, ◌≢◌, ◌⊎◌, inl, inr, refl, subst, List, [], ◌∷◌}
use bolty_rs.Core.Keys.{CardKeys}
use bolty_rs.Ntag.Link.{
  KeyNumber, key0, key1, key2, key3, key4, non_master_key1, non_master_key2, non_master_key3,
  non_master_key4,
}
use bolty_rs.Ntag.Burn.{KeyUpdate}
use bolty_rs.Ntag.Card.{Card}
use bolty_rs.Ntag.Provisioning.{Covers}

abbrev pub keys_of : CardKeys → KeyNumber → List ℕ
keys_of keys key0 = keys.k0.bytes
keys_of keys key1 = keys.k1.bytes
keys_of keys key2 = keys.k2.bytes
keys_of keys key3 = keys.k3.bytes
keys_of keys key4 = keys.k4.bytes

pub each_key :
    (P : KeyNumber → Type 0) → P key0 → P key1 → P key2 → P key3 → P key4 → (kn : KeyNumber) → P kn
each_key P p0 p1 p2 p3 p4 key0 = p0
each_key P p0 p1 p2 p3 p4 key1 = p1
each_key P p0 p1 p2 p3 p4 key2 = p2
each_key P p0 p1 p2 p3 p4 key3 = p3
each_key P p0 p1 p2 p3 p4 key4 = p4

module _ {Sdm : Type 0} where
  -- Each key is the old or the new one, and the master key is new only when all of them are.
  unfoldable pub IsRecoverable : CardKeys → Card Sdm → Card Sdm → Type 0
  IsRecoverable keys a card =
      ((kn : KeyNumber) → (card.keys kn ≡ a.keys kn) ⊎ (card.keys kn ≡ keys_of keys kn))
      × ((card.keys key0 ≡ a.keys key0) ⊎ ((kn : KeyNumber) → card.keys kn ≡ keys_of keys kn))

  pub partly :
      (keys : CardKeys) (a card : Card Sdm)
      → card.keys key0 ≡ a.keys key0
      → (card.keys key1 ≡ a.keys key1) ⊎ (card.keys key1 ≡ keys.k1.bytes)
      → (card.keys key2 ≡ a.keys key2) ⊎ (card.keys key2 ≡ keys.k2.bytes)
      → (card.keys key3 ≡ a.keys key3) ⊎ (card.keys key3 ≡ keys.k3.bytes)
      → (card.keys key4 ≡ a.keys key4) ⊎ (card.keys key4 ≡ keys.k4.bytes)
      → IsRecoverable keys a card
  unfolding IsRecoverable
  partly keys a card h0 h1 h2 h3 h4 = (
    each_key (λ kn. (card.keys kn ≡ a.keys kn) ⊎ (card.keys kn ≡ keys_of keys kn)) (inl h0) h1 h2 h3
        h4,
    inl h0,
  )

  pub wholly :
      (keys : CardKeys) (a card : Card Sdm)
      → ((kn : KeyNumber) → card.keys kn ≡ keys_of keys kn)
      → IsRecoverable keys a card
  unfolding IsRecoverable
  wholly keys a card h = (λ kn. inr (h kn), inr h)

-- The link broke, or a key is not the card's.
pub data KeyFault {Sdm : Type 0} (Refusal : Type 0) (master : List ℕ) (previous : CardKeys)
    (a : Card Sdm) : Type 0 where
  broken : Refusal → KeyFault Refusal master previous a
  wrong_key0 : master ≢ a.keys key0 → KeyFault Refusal master previous a
  wrong_key1 : previous.k1.bytes ≢ a.keys key1 → KeyFault Refusal master previous a
  wrong_key2 : previous.k2.bytes ≢ a.keys key2 → KeyFault Refusal master previous a
  wrong_key3 : previous.k3.bytes ≢ a.keys key3 → KeyFault Refusal master previous a
  wrong_key4 : previous.k4.bytes ≢ a.keys key4 → KeyFault Refusal master previous a

-- The rows of the table of key updates.
abbrev pub key_updates_of : CardKeys → CardKeys → List KeyUpdate
key_updates_of keys previous =
    record {
      key_no = non_master_key1;
      kn = key1;
      new_key = keys.k1.bytes;
      old_key = previous.k1.bytes;
    }
    ∷ record {
      key_no = non_master_key2;
      kn = key2;
      new_key = keys.k2.bytes;
      old_key = previous.k2.bytes;
    }
    ∷ record {
      key_no = non_master_key3;
      kn = key3;
      new_key = keys.k3.bytes;
      old_key = previous.k3.bytes;
    }
    ∷ record {
      key_no = non_master_key4;
      kn = key4;
      new_key = keys.k4.bytes;
      old_key = previous.k4.bytes;
    }
    ∷ []

module _ {Sdm : Type 0} (Refusal : Type 0) {Fault : Type 0} (master : List ℕ) where
  -- On a card with the keys of `a`, breaking off within the table leaves a recoverable card.
  pub covers :
      (keys previous : CardKeys) (version : ℕ) (a b : Card Sdm)
      → (KeyFault Refusal master previous a → Fault)
      → a.keys ≡ b.keys
      → Covers Refusal
          (λ card. Fault × IsRecoverable keys a card)
          version
          (key_updates_of keys previous)
          b
  unfolding Covers
  covers keys previous version a b fault e =
      subst
        (λ (k : KeyNumber → List ℕ).
          Covers Refusal (λ card. Fault × IsRecoverable keys a card) version
            (key_updates_of keys previous) (record b { keys = k }))
        e
        (
          refl,
          λ w.
              let y = fault (elim w [ inl r ↦ broken r | inr n ↦ wrong_key1 n ]) in
              (
                (y, partly _ a _ refl (inl refl) (inl refl) (inl refl) (inl refl)),
                (y, partly _ a _ refl (inr refl) (inl refl) (inl refl) (inl refl)),
              ),
          (
            refl,
            λ w.
                let y = fault (elim w [ inl r ↦ broken r | inr n ↦ wrong_key2 n ]) in
                (
                  (y, partly _ a _ refl (inr refl) (inl refl) (inl refl) (inl refl)),
                  (y, partly _ a _ refl (inr refl) (inr refl) (inl refl) (inl refl)),
                ),
            (
              refl,
              λ w.
                  let y = fault (elim w [ inl r ↦ broken r | inr n ↦ wrong_key3 n ]) in
                  (
                    (y, partly _ a _ refl (inr refl) (inr refl) (inl refl) (inl refl)),
                    (y, partly _ a _ refl (inr refl) (inr refl) (inr refl) (inl refl)),
                  ),
              (
                refl,
                λ w.
                    let y = fault (elim w [ inl r ↦ broken r | inr n ↦ wrong_key4 n ]) in
                    (
                      (y, partly _ a _ refl (inr refl) (inr refl) (inr refl) (inl refl)),
                      (y, partly _ a _ refl (inr refl) (inr refl) (inr refl) (inr refl)),
                    ),
                tt,
              ),
            ),
          ),
        )
