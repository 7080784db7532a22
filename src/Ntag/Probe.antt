-- ===== src/Ntag/Probe.antt =====
-- crates/bolty-ntag/src/lib.rs, lines 1157 to 1313: the probe that interleaves reads and writes.
use bolty_rs.Prelude.{
  ℕ, zero, suc, ◌+◌, ◌≡◌, ◌⊎◌, inl, inr, refl, sym, subst, Bool, true, false, not, ◌&&◌, List, [],
  ◌∷◌, Result, ok, err, leb, ◌==◌, if◌then◌else◌, length, take, replicate,
}
use bolty_rs.Prelude.Act.{continued, pure, raise_if, ◌>>=◌, ◌>>◌}
use bolty_rs.Ntag.Link.{key0, SessionError, ndef_not_empty, Ntag424, CardM, call, converted}

pub record F5ProbeReport : Type 0 where
  pub read_f5 : ℕ
  pub read_ad : ℕ
  pub write_f5 : ℕ
  pub write_8d : ℕ
  pub write_skipped : Bool

abbrev pub report : ℕ → ℕ → ℕ → ℕ → Bool → F5ProbeReport
report f5a ad f5w wd skipped = record {
  read_f5 = f5a;
  read_ad = ad;
  write_f5 = f5w;
  write_8d = wd;
  write_skipped = skipped;
}

-- `snapshot.iter().all(|&b| b == 0)`, the negation of the `any` of the gate
unfoldable pub is_blank : List ℕ → Bool
is_blank [] = true
is_blank (b ∷ bytes) = b == 0 && is_blank bytes

-- `snapshot.get(..ndef_len).unwrap_or(&snapshot)`
abbrev pub window : ℕ → List ℕ → List ℕ
window len buf = if leb len (length buf) then take len buf else buf

-- How the rounds of reads end: with both counts, or by an early report.
pub data Rounds (S : Type 0) : Type 0 where
  finished : ℕ → ℕ → S → Rounds S
  stopped : F5ProbeReport → Rounds S

module _ {C T A : Type 0} where
  -- `match` on the result of a call
  unfoldable pub attempt :
      (C → C × Result (SessionError T) A) → CardM C T (Result (SessionError T) A)
  attempt op c = let (c', r) = op c in (c', ok r)

module _ {C S Sdm T : Type 0} (ops : Ntag424 C S Sdm T) where
  -- A length of 0 reads the whole file; a card that answers with nothing is asked for 16 bytes.
  unfoldable pub take_snapshot : S → CardM C T (ℕ × List ℕ × S)
  take_snapshot s = do
    (len, buf, s1) ← call (ops.read_file_plain s 0 0 (replicate 256 0))
    if len == 0 then call (ops.read_file_plain s1 0 16 buf) else pure (len, buf, s1)

  unfoldable pub read_rounds : ℕ → ℕ → ℕ → S → CardM C T (Rounds S)
  unfolding attempt
  read_rounds zero f5a ad s = pure (finished f5a ad s)
  read_rounds (suc n) f5a ad s = do
    settings ← attempt (ops.get_file_settings s)
    elim settings [
      | err e ↦ pure (stopped (report f5a ad 0 0 false))
      | ok (settings, s1) ↦ do
        bytes ← attempt (ops.read_file_plain s1 0 4 (replicate 8 0))
        elim bytes [
          | err e ↦ pure (stopped (report (f5a + 1) ad 0 0 false))
          | ok (len, buf, s2) ↦ read_rounds n (f5a + 1) (ad + 1) s2
        ]
    ]

  -- The write leg: the first bytes of the snapshot go back.
  unfoldable pub write_leg : List ℕ → ℕ → ℕ → S → CardM C T F5ProbeReport
  unfolding attempt
  write_leg snapshot f5a ad s = do
    settings ← attempt (ops.get_file_settings s)
    elim settings [
      | err e ↦ pure (report f5a ad 0 0 false)
      | ok (settings, s1) ↦ elim (take 4 snapshot) [
        | [] ↦ pure (report f5a ad 1 0 false)
        | b ∷ payload ↦ do
          written ← attempt (ops.write_file_plain s1 0 (b ∷ payload))
          elim written [
            | err e ↦ pure (report f5a ad 1 0 false)
            | ok s2 ↦ do
              last ← attempt (ops.get_file_settings s2)
              elim last [
                | err e ↦ pure (report f5a ad 1 1 false)
                | ok r ↦ pure (report f5a ad 2 1 false)
              ]
          ]
      ]
    ]

  -- After the snapshot; `blank` is whether it is.
  unfoldable pub probed : Bool → Bool → ℕ → List ℕ → S → CardM C T F5ProbeReport
  unfolding read_rounds write_leg
  probed blank force ndef_len snapshot s = do
    raise_if (not force && not blank) (ndef_not_empty ndef_len)
    rounds ← read_rounds 3 0 0 s
    elim rounds [
      | stopped r ↦ pure r
      | finished f5a ad s1 ↦
          if blank then write_leg snapshot f5a ad s1 else pure (report f5a ad 0 0 true)
    ]

  unfoldable pub probe_on : Bool → ℕ → List ℕ → S → CardM C T F5ProbeReport
  unfolding is_blank probed
  probe_on force ndef_len snapshot s = probed (is_blank snapshot) force ndef_len snapshot s

  unfoldable pub f5probe : List ℕ → Bool → CardM C T F5ProbeReport
  unfolding take_snapshot probe_on
  f5probe rnd_a force = do
    s ← call (ops.authenticate_aes key0 (replicate 16 0) rnd_a)
    (ndef_len, buf, s1) ← take_snapshot s
    probe_on force ndef_len (window ndef_len buf) s1

  -- The library with another way to write
  abbrev pub with_write : (S → ℕ → List ℕ → C → C × Result (SessionError T) S) → Ntag424 C S Sdm T
  with_write write = record ops { write_file_plain = write }

module _ {C S Sdm T : Type 0} (ops : Ntag424 C S Sdm T) where
  not_blank :
      (write : S → ℕ → List ℕ → C → C × Result (SessionError T) S) (force : Bool) (ndef_len : ℕ)
      (snapshot : List ℕ) (s : S) (c : C)
      → (probed ops false force ndef_len snapshot s c
          ≡ probed (with_write ops write) false force ndef_len snapshot s c)
        × ((force ≡ true)
            ⊎ (probed ops false force ndef_len snapshot s c ≡ (c, err (ndef_not_empty ndef_len))))
  unfolding probed read_rounds raise_if ◌>>=◌ continued attempt pure
  not_blank write true ndef_len snapshot s c = (refl, inl refl)
  not_blank write false ndef_len snapshot s c = (refl, inr refl)

  probe_on_lem :
      (write : S → ℕ → List ℕ → C → C × Result (SessionError T) S) (force : Bool) (ndef_len : ℕ)
      (snapshot : List ℕ) (s : S) (c : C)
      → is_blank snapshot ≡ false
      → (probe_on ops force ndef_len snapshot s c
          ≡ probe_on (with_write ops write) force ndef_len snapshot s c)
        × ((force ≡ true)
            ⊎ (probe_on ops force ndef_len snapshot s c ≡ (c, err (ndef_not_empty ndef_len))))
  unfolding probe_on
  probe_on_lem write force ndef_len snapshot s c h =
      subst
        (λ b.
          (probed ops b force ndef_len snapshot s c
            ≡ probed (with_write ops write) b force ndef_len snapshot s c)
          × ((force ≡ true)
              ⊎ (probed ops b force ndef_len snapshot s c ≡ (c, err (ndef_not_empty ndef_len)))))
        (sym h) (not_blank write force ndef_len snapshot s c)

module _ {C S Sdm T : Type 0} (ops : Ntag424 C S Sdm T) where
  -- What the file reads as in the session `s`: the answer to a read of the whole file, or, where that
  -- is empty, to a read of the first 16 bytes.
  pub data ReadsAs (s : S) (c : C) : C → ℕ → List ℕ → S → Type 0 where
    whole :
        {c' : C} {len : ℕ} {buf : List ℕ} {s' : S}
        → ops.read_file_plain s 0 0 (replicate 256 0) c ≡ (c', ok (len, buf, s'))
        → (len == 0) ≡ false
        → ReadsAs s c c' len buf s'
    first_bytes :
        {c' c'' : C} {len : ℕ} {buf' buf : List ℕ} {s' s'' : S}
        → ops.read_file_plain s 0 0 (replicate 256 0) c ≡ (c', ok (0, buf', s'))
        → ops.read_file_plain s' 0 16 buf' c' ≡ (c'', ok (len, buf, s''))
        → ReadsAs s c c'' len buf s''

  -- When the master key is accepted as the factory's and the bytes that the file reads as hold data,
  -- the probe never writes: it does the same for every way to write, and without force it ends behind
  -- the reads with an error that names the number of those bytes. What the file reads as is the
  -- answer to a read of the whole file, or, where that is empty, of its first 16 bytes.
  pub f5probe_lem :
      (write : S → ℕ → List ℕ → C → C × Result (SessionError T) S) (rnd_a : List ℕ) (force : Bool)
      (s s' : S) (c c1 c2 : C) (len : ℕ) (buf : List ℕ)
      → ops.authenticate_aes key0 (replicate 16 0) rnd_a c ≡ (c1, ok s)
      → ReadsAs s c1 c2 len buf s'
      → is_blank (window len buf) ≡ false
      → (f5probe ops rnd_a force c ≡ f5probe (with_write ops write) rnd_a force c)
        × ((force ≡ true) ⊎ (f5probe ops rnd_a force c ≡ (c2, err (ndef_not_empty len))))
  unfolding f5probe take_snapshot ◌>>=◌ continued call converted pure
  f5probe_lem write rnd_a force s s' c c1 c2 len buf opened (whole read more) h =
      rw (opened, read, more) (probe_on_lem ops write force len (window len buf) s' c2 h)
  f5probe_lem write rnd_a force s s' c c1 c2 len buf opened (first_bytes read again) h =
      rw (opened, read, again) (probe_on_lem ops write force len (window len buf) s' c2 h)
