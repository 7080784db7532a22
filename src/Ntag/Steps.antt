-- ===== src/Ntag/Steps.antt =====
-- One call on the card at a time: what the work that begins with it comes to, from what the call does
-- to a card `a`, for each call that crates/bolty-ntag makes. `X` holds of the card when the work
-- fails.
use bolty_rs.Prelude.{
  ℕ, ◌<◌, ◌≡◌, ◌≢◌, ◌⊎◌, inl, inr, sym, ap, subst, ◌∙◌, true, false, List, Result, ok, err, length,
  take, copy_at,
}
use bolty_rs.Prelude.Text.{is_some}
use bolty_rs.Prelude.Act.{continued_step, Outcome, ◌>>=◌}
use bolty_rs.Ntag.Link.{
  KeyNumber, key0, NonMasterKeyNumber, SessionError, Error, Uid, FileSettings, Ntag424, CardM,
  converted, call,
}
use bolty_rs.Ntag.Card.{Card, slot_of, with_key, with_ndef, with_settings, has_room, IsNtag424}

module _ {C A T V : Type 0} (view : C → V) (X : V → Type 0) where
  call_lem :
      (op : C → C × Result (SessionError T) A) (Q : A → V → Type 0) (Y : V → Type 0) (c : C)
      → Outcome view Q Y (op c)
      → ((v : V) → Y v → X v)
      → Outcome view Q X (call op c)
  unfolding Outcome call converted
  call_lem op Q Y c = run (op c)
    where
      run :
          (p : C × Result (SessionError T) A)
          → Outcome view Q Y p
          → ((v : V) → Y v → X v)
          → Outcome {E = Error T} view Q X (converted p)
      run (c', ok a) h failed = h
      run (c', err e) h failed = failed (view c') h

module _ {C A B T V : Type 0} (view : C → V) (X : V → Type 0) where
  call_step :
      (f : A → CardM C T B) (op : C → C × Result (SessionError T) A) (Q : A → V → Type 0)
      (Y : V → Type 0) (R : B → V → Type 0) (c : C)
      → Outcome view Q Y (op c)
      → ((v : V) → Y v → X v)
      → ((r : A) (c' : C) → Q r (view c') → Outcome view R X (f r c'))
      → Outcome view R X ((call op >>= f) c)
  call_step f op Q Y R c h failed next =
      continued_step view X (call op) f Q R c (call_lem view X op Q Y c h failed) next

module _ {C S Sdm T : Type 0} {Refusal : Type 0} (ops : Ntag424 C S Sdm T) (view : C → Card Sdm)
    (law : IsNtag424 ops view Refusal) (X : Card Sdm → Type 0) where
  pub get_selected_uid_step :
      {B : Type 0} (R : B → Card Sdm → Type 0) (f : Uid → CardM C T B) (a : Card Sdm) (c : C)
      → view c ≡ a
      → (Refusal → X a)
      → ((uid : Uid) (c' : C) → view c' ≡ a → Outcome view R X (f uid c'))
      → Outcome view R X ((call ops.get_selected_uid >>= f) c)
  get_selected_uid_step R f a c e failed next =
      call_step view X f _ _ _ _ c (law.get_selected_uid_law c)
        (λ card y. subst X (sym (y.0 ∙ e)) (failed y.1)) (λ uid c' q. next uid c' (q ∙ e))

  pub authenticate_step :
      {B : Type 0} (R : B → Card Sdm → Type 0) (kn : KeyNumber) (k rnd_a : List ℕ)
      (f : S → CardM C T B) (a : Card Sdm) (c : C)
      → view c ≡ a
      → (Refusal ⊎ (k ≢ a.keys kn) → X a)
      → ((s : S) (c' : C) → view c' ≡ a → k ≡ a.keys kn → Outcome view R X (f s c'))
      → Outcome view R X ((call (ops.authenticate_aes kn k rnd_a) >>= f) c)
  authenticate_step R kn k rnd_a f a c e failed next =
      call_step view X f _ _ _ _ c (law.authenticate_aes_law kn k rnd_a c)
        (λ card y. subst X (sym (y.0 ∙ e)) (failed (subst (λ v. Refusal ⊎ (k ≢ v.keys kn)) e y.1)))
        (λ s c' q. next s c' (q.0 ∙ e) (subst (λ v. k ≡ v.keys kn) e q.1))

  pub get_file_settings_step :
      {B : Type 0} (R : B → Card Sdm → Type 0) (s : S) (f : FileSettings Sdm × S → CardM C T B)
      (a : Card Sdm) (c : C)
      → view c ≡ a
      → (Refusal → X a)
      → ((s' : S) (c' : C) → view c' ≡ a → Outcome view R X (f (a.settings, s') c'))
      → Outcome view R X ((call (ops.get_file_settings s) >>= f) c)
  get_file_settings_step R s f a c e failed next =
      call_step view X f _ _ _ _ c (law.get_file_settings_law s c)
        (λ card y. subst X (sym (y.0 ∙ e)) (failed y.1))
        (λ r c' q.
          subst (λ settings. Outcome view R X (f (settings, r.1) c'))
            (sym (q.1 ∙ ap (λ (v : Card Sdm). v.settings) e)) (next r.1 c' (q.0 ∙ e)))

  pub change_file_settings_step :
      {B : Type 0} (R : B → Card Sdm → Type 0) (s : S) (u : FileSettings Sdm) (f : S → CardM C T B)
      (a : Card Sdm) (c : C)
      → view c ≡ a
      → (Refusal → X a × X (with_settings u a))
      → ((s' : S) (c' : C) → view c' ≡ with_settings u a → Outcome view R X (f s' c'))
      → Outcome view R X ((call (ops.change_file_settings s u) >>= f) c)
  change_file_settings_step R s u f a c e failed next =
      call_step view X f _ _ _ _ c (law.change_file_settings_law s u c)
        (λ card y. elim y.0 [
          | inl same ↦ subst X (sym (same ∙ e)) (failed y.1).0
          | inr done ↦ subst X (sym (done ∙ ap (with_settings u) e)) (failed y.1).1
        ])
        (λ s' c' q. next s' c' (q ∙ ap (with_settings u) e))

  pub write_file_plain_step :
      {B : Type 0} (R : B → Card Sdm → Type 0) (s : S) (offset : ℕ) (bytes : List ℕ)
      (f : S → CardM C T B) (a : Card Sdm) (c : C)
      → view c ≡ a
      → (Refusal ⊎ (has_room offset bytes a ≡ false) → (rest : List ℕ) → X (with_ndef rest a))
      → ((s' : S) (c' : C)
          → view c' ≡ with_ndef (copy_at offset bytes a.ndef) a
          → has_room offset bytes a ≡ true
          → Outcome view R X (f s' c'))
      → Outcome view R X ((call (ops.write_file_plain s offset bytes) >>= f) c)
  write_file_plain_step R s offset bytes f a c e failed next =
      call_step view X f _ _ _ _ c (law.write_file_plain_law s offset bytes c)
        (λ card y.
          subst X (sym (y.0.1 ∙ ap (with_ndef y.0.0) e))
            (failed (subst (λ v. Refusal ⊎ (has_room offset bytes v ≡ false)) e y.1) y.0.0))
        (λ s' c' q.
          next s' c' (q.0 ∙ ap (λ (v : Card Sdm). with_ndef (copy_at offset bytes v.ndef) v) e)
            (subst (λ v. has_room offset bytes v ≡ true) e q.1))

  pub read_file_plain_step :
      {B : Type 0} (R : B → Card Sdm → Type 0) (s : S) (len : ℕ) (buf : List ℕ)
      (f : ℕ × List ℕ × S → CardM C T B) (a : Card Sdm) (c : C)
      → view c ≡ a
      → (Refusal → X a)
      → ((n : ℕ) (buf' : List ℕ) (s' : S) (c' : C)
          → view c' ≡ a
          → (is_some a.settings.sdm ≡ true)
            ⊎ (length buf < len)
            ⊎ ((n ≡ len) × (take len buf' ≡ take len a.ndef))
          → Outcome view R X (f (n, buf', s') c'))
      → Outcome view R X ((call (ops.read_file_plain s 0 len buf) >>= f) c)
  read_file_plain_step R s len buf f a c e failed next =
      call_step view X f _ _ _ _ c (law.read_file_plain_law s len buf c)
        (λ card y. subst X (sym (y.0 ∙ e)) (failed y.1))
        (λ r c' q. next r.0 r.1 r.2 c' (q.0 ∙ e) (
          subst
            (λ v.
              (is_some v.settings.sdm ≡ true)
              ⊎ (length buf < len)
              ⊎ ((r.0 ≡ len) × (take len r.1 ≡ take len v.ndef)))
            e q.1))

  pub change_key_step :
      {B : Type 0} (R : B → Card Sdm → Type 0) (s : S) (n : NonMasterKeyNumber) (k : List ℕ)
      (version : ℕ) (old : List ℕ) (f : S → CardM C T B) (a : Card Sdm) (c : C)
      → view c ≡ a
      → (Refusal ⊎ (old ≢ a.keys (slot_of n)) → X a × X (with_key (slot_of n) k version a))
      → ((s' : S) (c' : C)
          → view c' ≡ with_key (slot_of n) k version a
          → Outcome view R X (f s' c'))
      → Outcome view R X ((call (ops.change_key s n k version old) >>= f) c)
  change_key_step R s n k version old f a c e failed next =
      call_step view X f _ _ _ _ c (law.change_key_law s n k version old c)
        (λ card y.
          let both = failed (subst (λ v. Refusal ⊎ (old ≢ v.keys (slot_of n))) e y.1) in
          elim y.0 [
            | inl same ↦ subst X (sym (same ∙ e)) both.0
            | inr done ↦ subst X (sym (done ∙ ap (with_key (slot_of n) k version) e)) both.1
          ])
        (λ s' c' q. next s' c' (q ∙ ap (with_key (slot_of n) k version) e))

  pub get_key_version_step :
      {B : Type 0} (R : B → Card Sdm → Type 0) (s : S) (kn : KeyNumber) (f : ℕ × S → CardM C T B)
      (a : Card Sdm) (c : C)
      → view c ≡ a
      → (Refusal → X a)
      → ((s' : S) (c' : C) → view c' ≡ a → Outcome view R X (f (a.versions kn, s') c'))
      → Outcome view R X ((call (ops.get_key_version s kn) >>= f) c)
  get_key_version_step R s kn f a c e failed next =
      call_step view X f _ _ _ _ c (law.get_key_version_law s kn c)
        (λ card y. subst X (sym (y.0 ∙ e)) (failed y.1))
        (λ r c' q.
          subst (λ v. Outcome view R X (f (v, r.1) c'))
            (sym (q.1 ∙ ap (λ (v : Card Sdm). v.versions kn) e)) (next r.1 c' (q.0 ∙ e)))

  pub change_master_key_step :
      {B : Type 0} (R : B → Card Sdm → Type 0) (s : S) (k : List ℕ) (version : ℕ)
      (f : S → CardM C T B) (a : Card Sdm) (c : C)
      → view c ≡ a
      → (Refusal → X a × X (with_key key0 k version a))
      → ((s' : S) (c' : C) → view c' ≡ with_key key0 k version a → Outcome view R X (f s' c'))
      → Outcome view R X ((call (ops.change_master_key s k version) >>= f) c)
  change_master_key_step R s k version f a c e failed next =
      call_step view X f _ _ _ _ c (law.change_master_key_law s k version c)
        (λ card y. elim y.0 [
          | inl same ↦ subst X (sym (same ∙ e)) (failed y.1).0
          | inr done ↦ subst X (sym (done ∙ ap (with_key key0 k version) e)) (failed y.1).1
        ])
        (λ s' c' q. next s' c' (q ∙ ap (with_key key0 k version) e))
