-- ===== src/Reader/IsoDep/Chaining.antt =====
-- That the loop which sends an APDU in chunks, crates/iso14443-session/src/lib.rs, lines 186 to 215,
-- comes to an end.
use bolty_rs.Prelude.{
  ℕ, zero, suc, ◌+◌, ◌-◌, ◌≤◌, ◌<◌, ◌≢◌, Bool, true, false, Option, none, some, List, [], ◌∷◌,
  Result, ok, err, arith, ltb, if◌then◌else◌, length, take, drop,
}
use bolty_rs.Prelude.Act.{Act, pure, continued, ◌>>=◌}
use bolty_rs.Reader.IsoDep.{
  PcdError, Action, complete, reply, chaining_ack, chaining_retransmit, other_action, Iso14443,
  Link, handle, chain_on, transceive_with_recovery, send_apdu,
}

module _ {C E A : Type 0} where
  -- What is counted of the work behind a step; an error ends it.
  abbrev pub counted : (A → C → ℕ) → C × Result E A → ℕ
  counted n (c, ok a) = n a c
  counted n (c, err e) = 0

  -- A result that the work behind a step never gives within the count is not given by both.
  step_never :
      {B : Type 0} (m : Act C E A) (f : A → Act C E B) (n : A → C → ℕ) (size fuel : ℕ) (c : C)
      (b : B)
      → ((a : A) (c' : C) → size + n a c' < fuel → (f a c').1 ≢ ok b)
      → size + counted n (m c) < fuel
      → ((m >>= f) c).1 ≢ ok b
  unfolding ◌>>=◌ continued
  step_never m f n size fuel c b = run (m c)
    where
      run :
          (p : C × Result E A)
          → ((a : A) (c' : C) → size + n a c' < fuel → (f a c').1 ≢ ok b)
          → size + counted n p < fuel
          → (continued f p).1 ≢ ok b
      run (c', ok a) k h = k a c' h
      run (c', err x) k h = λ e. ground (arith, e)

length-drop : (n : ℕ) (xs : List ℕ) → length (drop (suc n) xs) ≤ length xs - 1
length-drop n [] = omega arith
length-drop zero (x ∷ xs) = omega arith
length-drop (suc n) (x ∷ xs) = omega (arith, length-drop n xs)

module _ {H B C E : Type 0} (iso : Iso14443 H B C E) where
  abbrev pub repeated : (Link H C → ℕ) → (Link H C → ℕ) → Action B → Link H C → ℕ
  repeated next again chaining_ack l = next l
  repeated next again chaining_retransmit l = again l + 1
  repeated next again _ l = 0

  -- How many chunks the card asks for again in the run of the loop from `l` on
  unfoldable pub repeats : ℕ → ℕ → List ℕ → Link H C → ℕ
  repeats zero max_inf apdu l = 0
  repeats (suc fuel) max_inf [] l = 0
  repeats (suc fuel) max_inf (a ∷ apdu) l =
      let rest = drop max_inf (a ∷ apdu) in
      let next = repeats fuel max_inf rest in
      let again = repeats fuel max_inf (a ∷ apdu) in
      counted {E = PcdError E}
        (λ iblock l1.
          counted
            (λ resp l2.
              if ltb 0 (length rest)
              then counted {E = PcdError E} (repeated next again)
                  (handle (λ h. iso.process_received h resp) l2)
              else 0)
            (transceive_with_recovery iso iblock false l1))
        (handle (λ h. iso.build_iblock h (take max_inf (a ∷ apdu)) (ltb 0 (length rest))) l)

  last_or_more :
      (more : Bool) (m : Act (Link H C) (PcdError E) (Option (Option B))) (n size fuel : ℕ)
      (resp : B) (l : Link H C)
      → (size + n < fuel → (m l).1 ≢ ok none)
      → size + (if more then n else 0) < fuel
      → ((if more then m else pure (some (some resp))) l).1 ≢ ok none
  unfolding pure
  last_or_more true m n size fuel resp l k h = k h
  last_or_more false m n size fuel resp l k h = λ e. ground (arith, e)

  chain_case :
      (next again : Act (Link H C) (PcdError E) (Option (Option B))) (n m : Link H C → ℕ)
      (size fuel : ℕ)
      → ((l : Link H C) → size + n l < fuel → (next l).1 ≢ ok none)
      → ((l : Link H C) → size + (m l + 1) < fuel → (again l).1 ≢ ok none)
      → (action : Action B) (l : Link H C) → size + repeated n m action l < fuel
      → (chain_on iso next again action l).1 ≢ ok none
  chain_case next again n m size fuel k r chaining_ack l h = k l h
  chain_case next again n m size fuel k r chaining_retransmit l h = r l h
  chain_case next again n m size fuel k r (complete bytes) l h = λ e. ground (arith, e)
  chain_case next again n m size fuel k r (reply block) l h = λ e. ground (arith, e)
  chain_case next again n m size fuel k r other_action l h = λ e. ground (arith, e)

  -- The APDU is sent within one round for each of its bytes and one for each chunk that the card asks
  -- for again: a loop with more fuel than that does not run out of it, whatever the card answers.
  pub send_apdu_ends :
      (fuel max_inf : ℕ) (apdu : List ℕ) (l : Link H C)
      → 0 < max_inf
      → length apdu + repeats fuel max_inf apdu l < fuel
      → (send_apdu iso fuel max_inf apdu l).1 ≢ ok none
  unfolding send_apdu repeats pure
  send_apdu_ends zero max_inf apdu l pos h = absurd (omega arith)
  send_apdu_ends (suc fuel) max_inf [] l pos h = λ e. ground (arith, e)
  send_apdu_ends (suc fuel) zero (a ∷ apdu) l pos h = absurd (omega arith)
  send_apdu_ends (suc fuel) (suc m) (a ∷ apdu) l pos h =
      let size = length (a ∷ apdu) in
      let rest = drop (suc m) (a ∷ apdu) in
      step_never _ _ _ size (suc fuel) l none
        (λ iblock l1. step_never _ _ _ size (suc fuel) l1 none λ resp l2.
          last_or_more (ltb 0 (length rest)) _ _ size (suc fuel) resp l2 (
            step_never _ _ _ size (suc fuel) l2 none (
              chain_case (send_apdu iso fuel (suc m) rest) (send_apdu iso fuel (suc m) (a ∷ apdu))
                (repeats fuel (suc m) rest) (repeats fuel (suc m) (a ∷ apdu)) size (suc fuel)
                (λ l3 h3.
                  send_apdu_ends fuel (suc m) rest l3 pos (omega (arith, length-drop m (a ∷ apdu))))
                (λ l3 h3. send_apdu_ends fuel (suc m) (a ∷ apdu) l3 pos (omega arith)))))
        h
