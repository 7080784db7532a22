-- ===== src/Firmware/OtaServer/Install.antt =====
-- What a push leaves of the update, apps/bolty-esp32/src/ota_server.rs.
use Prim.Native.Nat.{min}
use bolty_rs.Prelude.{
  ℕ, zero, suc, ◌+◌, ◌-◌, ◌≤◌, ◌≡◌, refl, sym, ap, subst, ◌∙◌, inl, inr, Option, none, some, List,
  [], ◌++◌, Result, ok, err, ◌==◌, if◌then◌else◌, arith, length, length-append, Bool-cases,
  Option-cases, take,
}
use bolty_rs.Prelude.Act.{continued, ◌>>=◌, ◌>>◌, Outcome, continued_step, pure_lem}
use bolty_rs.Prelude.Text.{Text, codes, eq}
use bolty_rs.Firmware.OtaHeader.{magic_v2, token_len, validate_size, authorize}
use bolty_rs.Firmware.OtaHeader.Gate.{Entitled, authorize_iff, validate_size_iff}
use bolty_rs.Firmware.OtaServer.{
  OtaHost, chunk, announced_size, checked_call, checked_read, lift_text, read_or, write_or,
  stream_image, or_abort, install, fits_partition, authenticated, handle,
}
use bolty_rs.Firmware.OtaServer.Slots.{
  Slot, closed, opened, verified, booting, IsOtaHost, called, has_read, Wrote, Verified, Boots,
  wrote, Harmless, Anything, anything, weaker, FitsPartition, IsPushed, without_token,
}

module _ {C : Type 0} (host : OtaHost C) (slot : C → Slot) (laws : IsOtaHost host slot) where
  read_step :
      (message : Text) (n : ℕ) (c : C) (X : Slot → Type 0)
      → X (slot c)
      → Outcome slot (λ bs s. (length bs ≡ n) × (s ≡ slot c)) X (read_or host message n c)
  read_step message n c X x =
      has_read slot (λ bs s. (length bs ≡ n) × (s ≡ slot c)) X message (host.read_exact c n)
        (λ bs e. (laws.read_length c n bs e, laws.read_law c n))
        (subst X (sym (laws.read_law c n)) x)

  write_step :
      (message : Text) (bs out : List ℕ) (c : C)
      → slot c ≡ opened out
      → Outcome slot (λ _ s. s ≡ opened (out ++ bs)) Anything (write_or host message bs c)
  unfolding Anything
  write_step message bs out c e =
      called slot (λ s. s ≡ opened (out ++ bs)) Anything message (host.esp_ota_write c bs)
        (laws.write_law c bs out e) (λ _. tt)

  stream_step :
      (fuel remaining n : ℕ) (c : C)
      → remaining ≤ fuel
      → Wrote n (slot c)
      → Outcome slot (λ _. Wrote (n + remaining)) Anything (stream_image host fuel remaining c)
  unfolding stream_image Wrote
  stream_step zero remaining n c h w =
      let none_left : n + remaining ≡ n = omega arith in
      rw none_left (pure_lem Text slot Anything (λ _. Wrote n) tt c w)
  stream_step (suc fuel) remaining n c h (out, long, is) = elim (Bool-cases (remaining == 0)) [
    | inl e ↦
        let none_left : n + remaining ≡ n = ground (arith, e) in
        rw (e, none_left)
          (pure_lem Text slot Anything (λ _. Wrote n) tt c (wrote n (slot c) out long is))
    | inr e ↦ rw e (
        continued_step slot Anything
          (read_or host (codes "image read failed") (min remaining chunk))
          (λ bytes.
            write_or host (codes "esp_ota_write failed") bytes
            >> stream_image host fuel (remaining - min remaining chunk))
          (λ bs s. (length bs ≡ min remaining chunk) × (s ≡ slot c)) (λ _. Wrote (n + remaining)) c
          (read_step (codes "image read failed") (min remaining chunk) c Anything
            (anything (slot c)))
          (λ bs c' got.
            continued_step slot Anything (write_or host (codes "esp_ota_write failed") bs)
              (λ _. stream_image host fuel (remaining - min remaining chunk))
              (λ _ s. s ≡ opened (out ++ bs)) (λ _. Wrote (n + remaining)) c'
              (write_step (codes "esp_ota_write failed") bs out c' (got.1 ∙ is))
              (λ _ d put.
                let fits : remaining - min remaining chunk ≤ fuel = ground (arith, e) in
                let total : n + min remaining chunk + (remaining - min remaining chunk)
                    ≡ n + remaining =
                  omega arith in
                subst
                  (λ k.
                    Outcome slot (λ _. Wrote k) Anything
                      (stream_image host fuel (remaining - min remaining chunk) d))
                  total
                  (stream_step fuel (remaining - min remaining chunk) (n + min remaining chunk) d
                    fits
                    (wrote (n + min remaining chunk) (slot d) (out ++ bs)
                      (length-append out bs
                        ∙ (ap (λ k. k + length bs) long ∙ ap (λ k. n + k) got.0))
                      put)))))
  ]

  aborted :
      (n : ℕ) (p : C × Result Text (Unit {0}))
      → Outcome slot (λ _. Wrote n) Anything p
      → Outcome slot (λ _. Wrote n) Harmless (or_abort host p)
  unfolding Outcome or_abort Harmless
  aborted n (c, ok x) h = h
  aborted n (c, err message) h = inl (laws.abort_law c)

  begin_step :
      (c : C)
      → slot c ≡ closed
      → Outcome slot
          (λ _. Wrote 0)
          Harmless
          (checked_call (codes "esp_ota_begin failed") (host.esp_ota_begin c))
  unfolding Wrote Harmless
  begin_step c e =
      called slot (Wrote 0) Harmless (codes "esp_ota_begin failed") (host.esp_ota_begin c)
        (λ t. ([], refl, laws.begin_law c e ∙ ap (λ b. if b then opened [] else closed) t))
        (λ f. inl (laws.begin_law c e ∙ ap (λ b. if b then opened [] else closed) f))

  end_step :
      (n : ℕ) (c : C)
      → Wrote n (slot c)
      → Outcome slot
          (λ _. Verified n)
          Harmless
          (checked_call (codes "esp_ota_end failed — image rejected") (host.esp_ota_end c))
  unfolding Wrote Verified Harmless
  end_step n c (out, long, is) =
      called slot (Verified n) Harmless (codes "esp_ota_end failed — image rejected")
        (host.esp_ota_end c)
        (λ t. (out, long, laws.end_law c out is ∙ ap (λ b. if b then verified out else closed) t))
        (λ f. inl (laws.end_law c out is ∙ ap (λ b. if b then verified out else closed) f))

  boot_step :
      (n : ℕ) (c : C)
      → Verified n (slot c)
      → Outcome slot
          (λ _. Boots n)
          Harmless
          (checked_call (codes "set_boot_partition failed") (host.esp_ota_set_boot_partition c))
  unfolding Verified Boots Harmless
  boot_step n c (out, long, is) =
      called slot (Boots n) Harmless (codes "set_boot_partition failed")
        (host.esp_ota_set_boot_partition c)
        (λ t.
          (out, long, laws.boot_law c out is ∙ ap (λ b. if b then booting out else verified out) t))
        (λ f.
          inr (out, laws.boot_law c out is ∙ ap (λ b. if b then booting out else verified out) f))

  install_step :
      (size : ℕ) (c : C)
      → slot c ≡ closed
      → Outcome slot (λ _. Boots size) Harmless (install host size c)
  unfolding install
  install_step size c e =
      continued_step slot Harmless _ _ (λ _. Verified size) (λ _. Boots size) c
        (continued_step slot Harmless _ _ (λ _. Wrote size) (λ _. Verified size) c
          (continued_step slot Harmless _ _ (λ _. Wrote 0) (λ _. Wrote size) c (begin_step c e)
            (λ _ d w.
              let all : 0 + size ≡ size = omega arith in
              aborted size (stream_image host size size d) (
                subst (λ k. Outcome slot (λ _. Wrote k) Anything (stream_image host size size d))
                  all (stream_step size size 0 d (omega arith) w))))
          (λ _. end_step size))
        (λ _. boot_step size)

  -- A test that fails here leaves the slot closed.
  lift_step :
      (P : Type 0) (r : Result Text (Unit {0})) (c : C)
      → slot c ≡ closed
      → (r ≡ ok tt → P)
      → Outcome slot (λ _ s. P × (s ≡ closed)) Harmless (lift_text r c)
  unfolding Outcome lift_text Harmless
  lift_step P (ok x) c e h = (h refl, e)
  lift_step P (err message) c e h = inl e

  token_step :
      (expected : Option (List ℕ)) (magic : List ℕ) (p : C × Option (List ℕ))
      → slot p.0 ≡ closed
      → Outcome slot
          (λ _ s. Entitled magic p.1 expected × (s ≡ closed))
          Harmless
          (continued
            (λ token. lift_text (authorize magic (some token) expected))
            (checked_read (codes "token read failed") p))
  unfolding continued checked_read Outcome Harmless
  token_step expected magic (c, none) e = inl e
  token_step expected magic (c, some token) e =
      lift_step (Entitled magic (some token) expected) (authorize magic (some token) expected) c e
        ((authorize_iff magic (some token) expected).0)

  authenticated_step :
      (expected : Option (List ℕ)) (magic : List ℕ) (c : C)
      → slot c ≡ closed
      → Outcome slot
          (λ _ s. Entitled magic (host.read_exact c token_len).1 expected × (s ≡ closed))
          Harmless
          (authenticated host expected magic c)
  unfolding authenticated ◌>>=◌
  authenticated_step expected magic c e = elim (Bool-cases (eq magic magic_v2)) [
    | inl t ↦
        rw t
          (token_step expected magic (host.read_exact c token_len) (laws.read_law c token_len ∙ e))
    | inr f ↦ rw f (
        lift_step (Entitled magic (host.read_exact c token_len).1 expected)
          (authorize magic none expected) c e
          (λ h.
            without_token magic (host.read_exact c token_len).1 expected
              ((authorize_iff magic none expected).0 h)))
  ]

  fits_partition_lem : (size : ℕ) → fits_partition host size ≡ ok tt → FitsPartition host size
  unfolding fits_partition FitsPartition
  fits_partition_lem size h = elim (Option-cases host.next_update_partition) [
    | inl e ↦ absurd (ground (arith, h, e))
    | inr (partition_size, e) ↦
        let fits : validate_size size partition_size ≡ ok tt = ground (arith, h, e) in
        let bounds = (validate_size_iff size partition_size).0 fits in
        (partition_size, e, bounds.0, bounds.1)
  ]

  gate_step :
      (P : Type 0) (r : Result Text (Unit {0})) (expected : Option (List ℕ)) (magic : List ℕ)
      (c : C)
      → slot c ≡ closed
      → (r ≡ ok tt → P)
      → Outcome slot
          (λ _ s. (P × Entitled magic (host.read_exact c token_len).1 expected) × (s ≡ closed))
          Harmless
          ((lift_text r >> authenticated host expected magic) c)
  unfolding ◌>>=◌ continued lift_text Outcome Harmless
  gate_step P (err message) expected magic c e h = inl e
  gate_step P (ok x) expected magic c e h =
      weaker slot Harmless
        (λ _ s. Entitled magic (host.read_exact c token_len).1 expected × (s ≡ closed))
        (λ _ s. (P × Entitled magic (host.read_exact c token_len).1 expected) × (s ≡ closed))
        (authenticated host expected magic c) (authenticated_step expected magic c e)
        (λ a s q. ((h refl, q.0), q.1))

  header_step :
      (expected : Option (List ℕ)) (p : C × Option (List ℕ))
      → slot p.0 ≡ closed
      → Outcome slot
          (λ _. IsPushed host expected p)
          Harmless
          (continued
            (λ header.
              lift_text (fits_partition host (announced_size header))
              >> authenticated host expected (take 4 header)
              >> install host (announced_size header))
            (checked_read (codes "header read failed") p))
  unfolding continued checked_read Outcome Harmless IsPushed
  header_step expected (c, none) e = inl e
  header_step expected (c, some header) e =
      continued_step slot Harmless _ _
        (λ _ s.
          (FitsPartition host (announced_size header)
            × Entitled (take 4 header) (host.read_exact c token_len).1 expected)
          × (s ≡ closed))
        (λ _. IsPushed host expected (c, some header)) c
        (gate_step (FitsPartition host (announced_size header))
          (fits_partition host (announced_size header)) expected (take 4 header) c e
          (fits_partition_lem (announced_size header)))
        (λ _ d q.
          weaker slot Harmless (λ _. Boots (announced_size header))
            (λ _. IsPushed host expected (c, some header)) (install host (announced_size header) d)
            (install_step (announced_size header) d q.1)
            (λ a s boots. (header, refl, q.0.0, q.0.1, boots)))

  -- From a closed slot, a push that succeeds leaves an image that will boot, of exactly the bytes its
  -- header announced, which fit the partition, and its header and the token behind it pass the gate;
  -- one that fails leaves no handle open and nothing that will boot.
  pub handle_lem :
      (expected : Option (List ℕ)) (c : C)
      → slot c ≡ closed
      → Outcome slot
          (λ _. IsPushed host expected (host.read_exact c 8))
          Harmless
          (handle host expected c)
  unfolding handle ◌>>=◌
  handle_lem expected c e = header_step expected (host.read_exact c 8) (laws.read_law c 8 ∙ e)
