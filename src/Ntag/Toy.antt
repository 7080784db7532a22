-- ===== src/Ntag/Toy.antt =====
-- A card that answers as the data sheet says, over a link that does not break, for the tests.
use bolty_rs.Prelude.{
  ℕ, ◌+◌, ◌≡◌, ◌≢◌, ◌⊎◌, ◌&&◌, inl, inr, refl, Bool, true, false, none, List, [], ◌∷◌, ok, err,
  arith, leb, if◌then◌else◌, length, replicate, copy_at,
}
use bolty_rs.Prelude.Text.{codes, eq, eq_iff}
use bolty_rs.Core.Keys.{AesKey, CardKeys, factory_key, zeroed_key}
use bolty_rs.Prelude.Act.{Outcome}
use bolty_rs.Ntag.Link.{
  KeyNumber, SessionError, key0, error_response, other_status, fixed, Ntag424,
  factory_ndef_access_rights,
}
use bolty_rs.Ntag.Burn.{BurnParams}
use bolty_rs.Ntag.Card.{Card, slot_of, with_key, with_ndef, has_room, with_settings, IsNtag424}
use bolty_rs.Ntag.Wiped.{factory_keys}

abbrev pub ToyCard : Type 0
ToyCard = Card ℕ

-- A card of 20 bytes is enough for a test; the transport is the card, a session is nothing.
abbrev pub toy : Ntag424 ToyCard (Unit {0}) ℕ ℕ
toy = record {
  sdm_url_config = λ t k1 k2. ok (record { ndef_bytes = 5 ∷ 6 ∷ 7 ∷ []; sdm_settings = 9 });
  has_picc_data = λ sdm. true;
  has_file_read = λ sdm. true;
  get_selected_uid = λ c. (c, ok (fixed (4 ∷ 1 ∷ 2 ∷ 3 ∷ 4 ∷ 5 ∷ 6 ∷ [])));
  get_version = λ c. (c, ok (record { hw_vendor_id = 4; hw_type = 4 }));
  get_file_settings_plain = λ c. (c, ok c.settings);
  read_file_unauthenticated = λ offset buf c. (c, ok (length c.ndef, copy_at 0 c.ndef buf));
  authenticate_aes = λ kn k rnd_a c.
      (c, if eq k (c.keys kn) then ok tt else err (error_response (other_status 0xae)));
  get_file_settings = λ s c. (c, ok (c.settings, tt));
  change_file_settings = λ s u c. (with_settings u c, ok tt);
  write_file_plain = λ s offset bytes c.
      if leb (offset + length bytes) (length c.ndef) && leb (offset + length bytes) 256
      then (with_ndef (copy_at offset bytes c.ndef) c, ok tt)
      else (c, err (error_response (other_status 0xbe)));
  read_file_plain = λ s offset len buf c. (c, ok (len, c.ndef, tt));
  change_key = λ s n k version old c.
      if eq old (c.keys (slot_of n))
      then (with_key (slot_of n) k version c, ok tt)
      else (c, err (error_response (other_status 0x1e)));
  get_key_version = λ s kn c. (c, ok (c.versions kn, tt));
  change_master_key = λ s k version c. (with_key key0 k version c, ok tt);
}

authenticates :
    (k : List ℕ) (kn : KeyNumber) (c : ToyCard) (same : Bool)
    → eq k (c.keys kn) ≡ same
    → Outcome {E = SessionError ℕ}
        (λ v. v)
        (λ s card. (card ≡ c) × (k ≡ c.keys kn))
        (λ card. (card ≡ c) × (⊥ ⊎ (k ≢ c.keys kn)))
        (c, if same then ok tt else err (error_response (other_status 0xae)))
unfolding Outcome
authenticates k kn c true e = (refl, (eq_iff _ _).0 e)
authenticates k kn c false e = (refl, inr λ same. ground (arith, (eq_iff _ _).1 same))

writes :
    (offset : ℕ) (bytes : List ℕ) (c : ToyCard) (room : Bool)
    → has_room offset bytes c ≡ room
    → Outcome {E = SessionError ℕ}
        (λ v. v)
        (λ s card.
          (card ≡ with_ndef (copy_at offset bytes c.ndef) c) × (has_room offset bytes c ≡ true))
        (λ card.
          ((rest : List ℕ) × (card ≡ with_ndef rest c)) × (⊥ ⊎ (has_room offset bytes c ≡ false)))
        (if room
          then (with_ndef (copy_at offset bytes c.ndef) c, ok tt)
          else (c, err (error_response (other_status 0xbe))))
unfolding Outcome
writes offset bytes c true e = (refl, e)
writes offset bytes c false e = ((c.ndef, refl), inr e)

changes :
    (k old : List ℕ) (version : ℕ) (kn : KeyNumber) (c : ToyCard) (same : Bool)
    → eq old (c.keys kn) ≡ same
    → Outcome {E = SessionError ℕ}
        (λ v. v)
        (λ s card. card ≡ with_key kn k version c)
        (λ card. ((card ≡ c) ⊎ (card ≡ with_key kn k version c)) × (⊥ ⊎ (old ≢ c.keys kn)))
        (if same
          then (with_key kn k version c, ok tt)
          else (c, err (error_response (other_status 0x1e))))
unfolding Outcome
changes k old version kn c true e = refl
changes k old version kn c false e = (inl refl, inr λ same. ground (arith, (eq_iff _ _).1 same))

pub toy-IsNtag424 : IsNtag424 toy (λ c. c) ⊥
unfolding Outcome
toy-IsNtag424 = record {
  get_selected_uid_law = λ c. refl;
  authenticate_aes_law = λ kn k rnd_a c. authenticates k kn c _ refl;
  get_file_settings_law = λ s c. (refl, refl);
  change_file_settings_law = λ s u c. refl;
  write_file_plain_law = λ s offset bytes c. writes offset bytes c _ refl;
  read_file_plain_law = λ s len buf c. (refl, inr (inr (refl, refl)));
  change_key_law = λ s n k version old c. changes k old version (slot_of n) c _ refl;
  get_key_version_law = λ s kn c. (refl, refl);
  change_master_key_law = λ s k version c. refl;
}

abbrev pub key_of : ℕ → AesKey
key_of n = record { bytes = replicate 16 n }

abbrev pub burn_keys : CardKeys
burn_keys = record {
  k0 = key_of 10;
  k1 = key_of 11;
  k2 = key_of 12;
  k3 = key_of 13;
  k4 = key_of 14;
}

abbrev pub burn_params : BurnParams
burn_params = record {
  lnurl = codes "a.com/?p={picc}&c={mac}";
  keys = burn_keys;
  key_version = 1;
  current_key = zeroed_key;
  previous_keys = factory_keys;
}

abbrev pub blank_card : ToyCard
blank_card = record {
  keys = λ kn. factory_key;
  versions = λ kn. 0;
  ndef = replicate 20 0;
  settings = record { comm_mode = 0; access_rights = factory_ndef_access_rights; sdm = none };
}
