-- ===== src/Ntag/Card.antt =====
-- What a card holds, and what crates/bolty-ntag relies on of it: the documented behaviour of the
-- calls of the library ntag424 on the card, as laws of its interface.
use bolty_rs.Prelude.{
  ℕ, ◌+◌, ◌<◌, ◌≡◌, ◌≢◌, ◌⊎◌, Bool, true, false, ◌&&◌, leb, List, ◌==◌, if◌then◌else◌, length, take,
  copy_at,
}
use bolty_rs.Prelude.Text.{is_some}
use bolty_rs.Prelude.Act.{Outcome}
use bolty_rs.Ntag.Link.{
  KeyNumber, key0, key1, key2, key3, key4, number_of, NonMasterKeyNumber, non_master_key1,
  non_master_key2, non_master_key3, non_master_key4, FileSettings, Ntag424,
}

-- The keys, their versions, the NDEF file and its settings. The counters of a card are left out: the
-- one that each failed authentication raises and that can delay or lock a key, and the read counter
-- of dynamic messaging. That the first can make the card answer with a delay is a refusal for another
-- reason than a key.
pub record Card (Sdm : Type 0) : Type 0 where
  pub keys : KeyNumber → List ℕ
  pub versions : KeyNumber → ℕ
  pub ndef : List ℕ
  pub settings : FileSettings Sdm

abbrev pub slot_of : NonMasterKeyNumber → KeyNumber
slot_of non_master_key1 = key1
slot_of non_master_key2 = key2
slot_of non_master_key3 = key3
slot_of non_master_key4 = key4

module _ {Sdm : Type 0} where
  abbrev pub with_key : KeyNumber → List ℕ → ℕ → Card Sdm → Card Sdm
  with_key kn k version card = record card {
    keys = λ n. if number_of n == number_of kn then k else card.keys n;
    versions = λ n. if number_of n == number_of kn then version else card.versions n;
  }

  abbrev pub with_ndef : List ℕ → Card Sdm → Card Sdm
  with_ndef bytes card = record card { ndef = bytes }

  abbrev pub with_settings : FileSettings Sdm → Card Sdm → Card Sdm
  with_settings settings card = record card { settings = settings }

  -- A write stays within the file, which has at most 256 bytes.
  abbrev pub has_room : ℕ → List ℕ → Card Sdm → Bool
  has_room offset bytes card =
      leb (offset + length bytes) (length card.ndef) && leb (offset + length bytes) 256

-- `view` is the card behind a transport. `Refusal` says that the link broke, or that the card refused
-- for another reason than a key. A call that failed may have been carried out: its answer is lost.
pub record IsNtag424 {C S Sdm T : Type 0} (ops : Ntag424 C S Sdm T) (view : C → Card Sdm)
    (Refusal : Type 0) : Type 0 where
  pub get_selected_uid_law :
      (c : C)
      → Outcome view
          (λ uid card. card ≡ view c)
          (λ card. (card ≡ view c) × Refusal)
          (ops.get_selected_uid c)
  pub authenticate_aes_law :
      (kn : KeyNumber) (k rnd_a : List ℕ) (c : C)
      → Outcome view
          (λ s card. (card ≡ view c) × (k ≡ (view c).keys kn))
          (λ card. (card ≡ view c) × (Refusal ⊎ (k ≢ (view c).keys kn)))
          (ops.authenticate_aes kn k rnd_a c)
  pub get_file_settings_law :
      (s : S) (c : C)
      → Outcome view
          (λ r card. (card ≡ view c) × (r.0 ≡ (view c).settings))
          (λ card. (card ≡ view c) × Refusal)
          (ops.get_file_settings s c)
  pub change_file_settings_law :
      (s : S) (u : FileSettings Sdm) (c : C)
      → Outcome view
          (λ s' card. card ≡ with_settings u (view c))
          (λ card. ((card ≡ view c) ⊎ (card ≡ with_settings u (view c))) × Refusal)
          (ops.change_file_settings s u c)
  -- A write within the file; one that breaks off leaves any content.
  pub write_file_plain_law :
      (s : S) (offset : ℕ) (bytes : List ℕ) (c : C)
      → Outcome view
          (λ s' card.
            (card ≡ with_ndef (copy_at offset bytes (view c).ndef) (view c))
            × (has_room offset bytes (view c) ≡ true))
          (λ card.
            ((rest : List ℕ) × (card ≡ with_ndef rest (view c)))
            × (Refusal ⊎ (has_room offset bytes (view c) ≡ false)))
          (ops.write_file_plain s offset bytes c)
  -- A read into a buffer that is large enough gives the file, unless the card mirrors into it.
  pub read_file_plain_law :
      (s : S) (len : ℕ) (buf : List ℕ) (c : C)
      → Outcome view
          (λ r card.
            (card ≡ view c)
            × ((is_some (view c).settings.sdm ≡ true)
                ⊎ (length buf < len)
                ⊎ ((r.0 ≡ len) × (take len r.1 ≡ take len (view c).ndef))))
          (λ card. (card ≡ view c) × Refusal)
          (ops.read_file_plain s 0 len buf c)
  pub change_key_law :
      (s : S) (n : NonMasterKeyNumber) (k : List ℕ) (version : ℕ) (old : List ℕ) (c : C)
      → Outcome view
          (λ s' card. card ≡ with_key (slot_of n) k version (view c))
          (λ card.
            ((card ≡ view c) ⊎ (card ≡ with_key (slot_of n) k version (view c)))
            × (Refusal ⊎ (old ≢ (view c).keys (slot_of n))))
          (ops.change_key s n k version old c)
  pub get_key_version_law :
      (s : S) (kn : KeyNumber) (c : C)
      → Outcome view
          (λ r card. (card ≡ view c) × (r.0 ≡ (view c).versions kn))
          (λ card. (card ≡ view c) × Refusal)
          (ops.get_key_version s kn c)
  pub change_master_key_law :
      (s : S) (k : List ℕ) (version : ℕ) (c : C)
      → Outcome view
          (λ s' card. card ≡ with_key key0 k version (view c))
          (λ card. ((card ≡ view c) ⊎ (card ≡ with_key key0 k version (view c))) × Refusal)
          (ops.change_master_key s k version c)
