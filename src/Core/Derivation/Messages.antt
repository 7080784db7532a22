-- ===== src/Core/Derivation/Messages.antt =====
-- What goes under the MACs of the key derivation.
use bolty_rs.Prelude.{
  ℕ, ◌^◌, ◌<◌, ◌≡◌, ◌≢◌, refl, ◌∙◌, sym, ap, arith, List, [], ◌++◌, length, copy_at-append, copy_at,
  overwrite, replicate, append-injective, length-copy_at, length-overwrite,
}
use bolty_rs.Core.Keys.{CardUid}
use bolty_rs.Core.Derivation.{
  tag, tag_card_key, tag_card_id, to_le_bytes, card_key_message, card_id_message,
}

-- Four bytes hold a `u32`.
to_le_bytes-injective : (v w : ℕ) → v < 2 ^ 32 → w < 2 ^ 32 → to_le_bytes v ≡ to_le_bytes w → v ≡ w
to_le_bytes-injective v w p q e = ground arith

-- For a 7-byte UID, the message under the MAC of the card key is the tag, the UID and the version,
-- end to end.
pub card_key_message_lem :
    (uid : CardUid) (version : ℕ)
    → length uid.bytes ≡ 7
    → card_key_message uid version ≡ tag_card_key ++ (uid.bytes ++ to_le_bytes version)
unfolding card_key_message
card_key_message_lem uid version h =
    ap (copy_at 11 (to_le_bytes version))
      (copy_at-append tag_card_key uid.bytes (replicate 7 0) (replicate 4 0) 4 refl (sym h))
    ∙ copy_at-append (tag_card_key ++ uid.bytes) (to_le_bytes version) (replicate 4 0) [] 11
        (omega arith) refl

-- For a 7-byte UID, the message under the MAC of the card id is the tag and the UID.
pub card_id_message_lem :
    (uid : CardUid) → length uid.bytes ≡ 7 → card_id_message uid ≡ tag_card_id ++ (uid.bytes ++ [])
unfolding card_id_message
card_id_message_lem uid h = copy_at-append tag_card_id uid.bytes (replicate 7 0) [] 4 refl (sym h)

-- No two pairs of a 7-byte UID and a 32-bit version share a message, so a new version gives the PRF
-- a new input.
pub card_key_message-injective :
    (uid uid' : CardUid) (version version' : ℕ)
    → length uid.bytes ≡ 7
    → length uid'.bytes ≡ 7
    → version < 2 ^ 32
    → version' < 2 ^ 32
    → card_key_message uid version ≡ card_key_message uid' version'
    → (uid.bytes ≡ uid'.bytes) × (version ≡ version')
card_key_message-injective uid uid' version version' n n' p p' e =
    let laid_out =
      sym (card_key_message_lem uid version n) ∙ e ∙ card_key_message_lem uid' version' n' in
    let behind_tag = (append-injective tag_card_key _ tag_card_key _ refl laid_out).1 in
    let (uids, versions) = append-injective uid.bytes _ uid'.bytes _ (omega arith) behind_tag in
    (uids, to_le_bytes-injective version version' p p' versions)

length-card_key_message : (uid : CardUid) (v : ℕ) → length (card_key_message uid v) ≡ 15
unfolding card_key_message
length-card_key_message uid v = omega (
  arith,
  length-copy_at 7 (to_le_bytes v) (overwrite uid.bytes (replicate 11 0)),
  length-overwrite uid.bytes (replicate 11 0),
)

length-card_id_message : (uid : CardUid) → length (card_id_message uid) ≡ 11
unfolding card_id_message
length-card_id_message uid = omega (arith, length-overwrite uid.bytes (replicate 7 0))

ne_of_length : (xs ys : List ℕ) → length xs ≢ length ys → xs ≢ ys
ne_of_length xs ys h e = h (ap length e)

-- The three kinds of message under one issuer key differ in length, so none is another.
pub issuer_messages_apart :
    (uid uid' : CardUid) (version last : ℕ)
    → (card_key_message uid version ≢ card_id_message uid')
      × (card_key_message uid version ≢ tag last)
      × (card_id_message uid' ≢ tag last)
issuer_messages_apart uid uid' version last =
    let long = length-card_key_message uid version in
    let short = length-card_id_message uid' in
    (ne_of_length _ _ (omega arith), ne_of_length _ _ (omega arith), ne_of_length _ _ (omega arith))
