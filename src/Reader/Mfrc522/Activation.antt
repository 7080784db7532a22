-- ===== src/Reader/Mfrc522/Activation.antt =====
-- How activation by the MFRC522 retries, and what its answers are cut from.
use bolty_rs.Prelude.{
  ℕ, zero, suc, ◌+◌, ◌-◌, ◌≤◌, ◌≡◌, refl, ap, ◌∙◌, Bool, true, false, List, [], ◌∷◌, ◌++◌, Result,
  ok, err, arith, ltb, length, get_or, take-append, length-append,
}
use bolty_rs.Prelude.Act.{Act, pure, raise_if, bind_state}
use bolty_rs.Reader.IsoDep.{from_connect, connected}
use bolty_rs.Reader.Mfrc522.{
  Error, mfrc522, activation, Activated, Mfrc522, Transport, split_response, activation_settle_ms,
  woken, prepared, rounds, activate_with_delays, from_activation, connect, drive, give,
  frame_wait_time_ms,
}

get_or-append :
    (xs ys : List ℕ) (n m d : ℕ) → m ≡ length xs + n → get_or (xs ++ ys) m d ≡ get_or ys n d
get_or-append [] ys n m d e = let same : m ≡ n = omega arith in ap (λ k. get_or ys k d) same
get_or-append (x ∷ xs) ys n zero d e = absurd (omega arith)
get_or-append (x ∷ xs) ys n (suc m) d e = get_or-append xs ys n m d (omega arith)

module _ {M A : Type 0} where
  -- An answer that ends in two status bytes is split into the bytes before them and the two.
  pub split_response-append :
      (bytes : List ℕ) (sw1 sw2 : ℕ)
      → split_response {M = M} {A = A} (bytes ++ (sw1 ∷ sw2 ∷ []))
        ≡ ok (record { bytes = bytes; sw1 = sw1; sw2 = sw2 })
  unfolding split_response
  split_response-append bytes sw1 sw2 =
      let all : length (bytes ++ (sw1 ∷ sw2 ∷ [])) ≡ length bytes + 2 =
        length-append bytes (sw1 ∷ sw2 ∷ []) in
      let long : ltb (length bytes + 2) 2 ≡ false = ground arith in
      let cut : length bytes + 2 - 2 ≡ length bytes = omega arith in
      rw (split_response, all, long, cut)
        (rw (take-append bytes (sw1 ∷ sw2 ∷ []) (length bytes) refl) (
          rw (get_or-append bytes (sw1 ∷ sw2 ∷ []) 0 (length bytes) 0 (omega arith))
            (rw (get_or-append bytes (sw1 ∷ sw2 ∷ []) 1 (length bytes + 1) 0 refl) refl)))

module _ {H B C M A : Type 0} (chip : Mfrc522 H B C M A) (wakes : C → ℕ) where
  -- Only a wake-up counts as one.
  pub record CountsWakes : Type 0 where
    pub wakeup_law : (c : C) → wakes (chip.wakeup c).0 ≡ wakes c + 1
    pub prepare_law : (c : C) → wakes (chip.prepare_for_activation_with_delays c).0 ≡ wakes c
    pub delay_law : (c : C) (ms : ℕ) → wakes (chip.delay_ms c ms) ≡ wakes c
    pub transceive_law : (c : C) (frame : List ℕ) → wakes (chip.iso.transceive c frame).0 ≡ wakes c
    pub try_enable_law : (c : C) → wakes (chip.iso.try_enable_hw_crc c).0 ≡ wakes c
    pub enable_law : (c : C) → wakes (chip.enable_hw_crc c).0 ≡ wakes c
    pub set_timeout_law : (c : C) (ms : ℕ) → wakes (chip.set_timeout_ms c ms).0 ≡ wakes c

module _ {H B C M A : Type 0} (chip : Mfrc522 H B C M A) (wakes : C → ℕ)
    (law : CountsWakes chip wakes) where
  connected_same :
      (hw_crc : Bool) (fsdi cid : ℕ) (p : C × Result M (List ℕ))
      → (connected chip.iso hw_crc fsdi cid p).0 ≡ p.0
  connected_same hw_crc fsdi cid (c, ok resp) = refl
  connected_same hw_crc fsdi cid (c, err e) = refl

  raise_wakes : (t : Bool) (e : Error M A) (c : C) → wakes (raise_if t e c).0 ≡ wakes c
  unfolding raise_if
  raise_wakes true e c = refl
  raise_wakes false e c = refl

  connect_wakes : (cid : ℕ) (c : C) → wakes (connect chip cid c).0 ≡ wakes c
  unfolding connect from_connect
  connect_wakes cid c =
      ap wakes (connected_same _ chip.fsd64 cid _) ∙ law.transceive_law _ _ ∙ law.try_enable_law c

  drive_wakes :
      {D : Type 0} (f : C → C × Result M D) (c : C)
      → wakes (f c).0 ≡ wakes c
      → wakes (drive chip f c).0 ≡ wakes c
  unfolding drive
  drive_wakes f c h = h

  -- A card that answered is set up without a further wake-up.
  answered_wakes : (a : Activated) (c : C) → wakes (from_activation chip a c).0 ≡ wakes c
  unfolding from_activation give pure
  answered_wakes a c =
      let same : C → Type 0 = λ x. wakes x ≡ wakes c in
      bind_state same same _ _ c (raise_wakes _ _ c) (λ x h. h)
        λ u0 c0 h0.
          bind_state same same (give chip _) _ c0 h0 (λ x h. h)
            λ u1 c1 h1.
              bind_state same same (give chip _) _ c1 h1 (λ x h. h)
                λ cid c2 h2.
                  bind_state same same (connect chip cid) _ c2 (connect_wakes cid c2 ∙ h2)
                    (λ x h. h)
                    λ ats c3 h3.
                      bind_state same same (drive chip chip.enable_hw_crc) _ c3
                        (drive_wakes chip.enable_hw_crc c3 (law.enable_law c3) ∙ h3) (λ x h. h)
                        λ u4 c4 h4.
                          bind_state same same
                            (drive chip (λ x. chip.set_timeout_ms x (frame_wait_time_ms ats.1))) _
                            c4
                            (drive_wakes (λ x. chip.set_timeout_ms x (frame_wait_time_ms ats.1)) c4
                                (law.set_timeout_law c4 _)
                              ∙ h4)
                            (λ x h. h) λ u5 c5 h5. h5

  woken_wakes :
      (next : Error M A → Act C (Error M A) (Transport H)) (n left : ℕ) (q : C × Result A Activated)
      → wakes q.0 ≤ n + 1
      → ((e : Error M A) (c : C) → wakes (next e c).0 ≤ wakes c + left)
      → wakes (woken chip next q).0 ≤ n + suc left
  woken_wakes next n left (c, ok a) h k = omega (arith, answered_wakes a c)
  woken_wakes next n left (c, err e) h k = omega (arith, k (activation e) c)

  prepared_wakes :
      (next : Error M A → Act C (Error M A) (Transport H)) (n left : ℕ)
      (p : C × Result M (Unit {0}))
      → wakes p.0 ≡ n
      → ((e : Error M A) (c : C) → wakes (next e c).0 ≤ wakes c + left)
      → wakes (prepared chip next p).0 ≤ n + suc left
  prepared_wakes next n left (c, err e) h k = omega (arith, k (mfrc522 e) c)
  prepared_wakes next n left (c, ok x) h k =
      let settled : C = chip.delay_ms c activation_settle_ms in
      woken_wakes next n left (chip.wakeup settled)
        (omega (arith, law.wakeup_law settled, law.delay_law c activation_settle_ms)) k

  rounds_wakes :
      (left : ℕ) (last_err : Error M A) (c : C)
      → wakes (rounds chip left last_err c).0 ≤ wakes c + left
  unfolding rounds
  rounds_wakes zero last_err c = omega arith
  rounds_wakes (suc left) last_err c =
      prepared_wakes (rounds chip left) (wakes c) left (chip.prepare_for_activation_with_delays c)
        (law.prepare_law c) (rounds_wakes left)

  -- However the card behaves, an activation with retries ends after four wake-ups at most, and a card
  -- that answered one is set up without another.
  pub activate_with_delays_lem :
      (a : Activated) (c : C)
      → (wakes (activate_with_delays chip c).0 ≤ wakes c + 4)
        × (wakes (from_activation chip a c).0 ≡ wakes c)
  unfolding activate_with_delays
  activate_with_delays_lem a c = (rounds_wakes 4 (mfrc522 chip.timeout_error) c, answered_wakes a c)
