-- ===== src/Reader/IsoDep/Recovery.antt =====
-- What the recovery of crates/iso14443-session/src/lib.rs, lines 284 to 346, puts on the air, and what
-- it takes from it.
use bolty_rs.Prelude.{
  ℕ, zero, suc, ◌+◌, ◌≤◌, ◌≡◌, refl, ap, ◌∙◌, Bool, true, false, Option, none, some, List, ◌∷◌,
  Result, ok, err, arith, length,
}
use bolty_rs.Prelude.Act.{Act, pure, continued, ◌>>=◌, raise_if, bind_state}
use bolty_rs.Reader.IsoDep.{
  TypeAError, PcdError, with_transceiver, sent_frame, caught, Iso14443, Link, lift, handle, send,
  frame_of, effective, receive, transceive_bytes, transceive_block, retry_loop, try_block, or_else,
  recover_once, transceive_with_recovery,
}

module _ {H B C E : Type 0} (iso : Iso14443 H B C E) where
  pub lift_same :
      {A : Type 0} (r : Result TypeAError A) (l : Link H C)
      → (lift {H = H} {C = C} {E = E} r l).0 ≡ l
  unfolding lift
  lift_same (ok a) l = refl
  lift_same (err e) l = refl

  raise_same : (t : Bool) (e : PcdError E) (l : Link H C) → (raise_if {E = PcdError E} t e l).0 ≡ l
  unfolding raise_if
  raise_same true e l = refl
  raise_same false e l = refl

  pub receive_same : (resp : List ℕ) (l : Link H C) → (receive iso resp l).0 ≡ l
  unfolding receive
  receive_same resp l =
      bind_state (λ x. x ≡ l) (λ x. x ≡ l) _ _ l (raise_same _ _ l) (λ x h. h)
        λ a x h. lift_same _ x ∙ h

  pub sent_same :
      (l : Link H C) (p : C × Result E (List ℕ)) → (sent_frame iso l p).0 ≡ with_transceiver p.0 l
  sent_same l (c, ok resp) = refl
  sent_same l (c, err e) = refl

  pub caught_same : (p : Link H C × Result (PcdError E) B) → (caught iso p).0 ≡ p.0
  caught_same (l, ok resp) = refl
  caught_same (l, err e) = refl

  bytes_sent :
      (bytes : List ℕ) (l : Link H C)
      → (transceive_bytes iso bytes l).0
        ≡ with_transceiver (iso.transceive l.t (frame_of iso l.session.hw_crc bytes)).0 l
  unfolding transceive_bytes send
  bytes_sent bytes l =
      let after = with_transceiver (iso.transceive l.t (frame_of iso l.session.hw_crc bytes)).0 l in
      bind_state (λ x. x ≡ after) (λ x. x ≡ after) _ _ l (sent_same l _) (λ x h. h)
        λ resp x h. receive_same resp x ∙ h

  abbrev pub after_block : Result TypeAError (List ℕ) → Link H C → Link H C
  after_block (ok bytes) l =
      with_transceiver (iso.transceive l.t (frame_of iso l.session.hw_crc bytes)).0 l
  after_block (err e) l = l

  -- A block that has bytes goes out in one frame; a block that has none does nothing.
  block_sent :
      (block : B) (r : Result TypeAError (List ℕ)) (l : Link H C)
      → iso.to_bytes_without_crc block ≡ r
      → (try_block iso block l).0 ≡ after_block r l
  unfolding try_block transceive_block ◌>>=◌ continued lift
  block_sent block (ok bytes) l e =
      ◌∙◌ {b = (transceive_block iso block l).0} (caught_same _) (rw e (bytes_sent bytes l))
  block_sent block (err x) l e =
      ◌∙◌ {b = (transceive_block iso block l).0} (caught_same _) (rw e refl)

  -- A response that is accepted came in a frame that, with its checksum, is no longer than the FSD.
  pub receive_fits :
      (resp : List ℕ) (l l' : Link H C) (block : B)
      → receive iso resp l ≡ (l', ok block)
      → effective iso l.session.hw_crc resp ≤ l.session.fsd
  unfolding receive lift ◌>>=◌ continued raise_if
  receive_fits resp l l' block e = ground arith

module _ {H B C E : Type 0} (iso : Iso14443 H B C E) (log : C → List (List ℕ))
    (records : (c : C) (frame : List ℕ) → log (iso.transceive c frame).0 ≡ frame ∷ log c) where
  -- The loop sends at most one frame for each retry.
  loop_sends :
      (n : ℕ) (retry : Act (Link H C) (PcdError E) (Option B)) (l : Link H C)
      → ((x : Link H C) → length (log (retry x).0.t) ≤ length (log x.t) + 1)
      → length (log (retry_loop iso n retry l).0.t) ≤ length (log l.t) + n
  unfolding retry_loop pure
  loop_sends zero retry l h = omega arith
  loop_sends (suc n) retry l h =
      bind_state (λ x. length (log x.t) ≤ length (log l.t) + 1)
        (λ x. length (log x.t) ≤ length (log l.t) + suc n) retry _ l (h l) (λ x k. omega arith)
        λ answer x k. next answer x k (loop_sends n retry x h)
    where
      next :
          (answer : Option B) (x : Link H C)
          → length (log x.t) ≤ length (log l.t) + 1
          → length (log (retry_loop iso n retry x).0.t) ≤ length (log x.t) + n
          → length (log (or_else iso (retry_loop iso n retry) answer x).0.t)
            ≤ length (log l.t) + suc n
      next (some resp) x k r = omega arith
      next none x k r = omega arith

  try_sends :
      (block : B) (l : Link H C) → length (log (try_block iso block l).0.t) ≤ length (log l.t) + 1
  try_sends block l =
      rw (block_sent iso block (iso.to_bytes_without_crc block) l refl)
        (sends (iso.to_bytes_without_crc block))
    where
      sends :
          (r : Result TypeAError (List ℕ))
          → length (log (after_block iso r l).t) ≤ length (log l.t) + 1
      sends (ok bytes) = rw (records l.t (frame_of iso l.session.hw_crc bytes)) (omega arith)
      sends (err e) = omega arith

  once_sends :
      (block : B) (receiving_chain : Bool) (l : Link H C)
      → length (log (recover_once iso block receiving_chain l).0.t) ≤ length (log l.t) + 1
  unfolding recover_once handle
  once_sends block true l = try_sends block l
  once_sends block false l =
      bind_state (λ x. log x.t ≡ log l.t) (λ x. length (log x.t) ≤ length (log l.t) + 1) _ _ l
        (ap (λ x. log x.t) (lift_same iso _ _)) (λ x h. rw h (omega arith))
        λ recovery x h. omega (arith, try_sends recovery x, ap length h)

  -- However the card and the link behave, one block costs at most three frames: the recovery stops
  -- after its retries.
  pub transceive_with_recovery_lem :
      (block : B) (receiving_chain : Bool) (l : Link H C)
      → length (log (transceive_with_recovery iso block receiving_chain l).0.t)
        ≤ length (log l.t) + 3
  unfolding transceive_with_recovery pure
  transceive_with_recovery_lem block receiving_chain l =
      bind_state (λ x. length (log x.t) ≤ length (log l.t) + 1)
        (λ x. length (log x.t) ≤ length (log l.t) + 3) _ _ l (try_sends block l)
        (λ x k. omega arith)
        λ answer x k. next answer x k (
          loop_sends 2 (recover_once iso block receiving_chain) x
            (λ y. once_sends block receiving_chain y))
    where
      next :
          (answer : Option B) (x : Link H C)
          → length (log x.t) ≤ length (log l.t) + 1
          → length (log (retry_loop iso 2 (recover_once iso block receiving_chain) x).0.t)
            ≤ length (log x.t) + 2
          → length (
              log
                (or_else iso
                  (retry_loop iso 2 (recover_once iso block receiving_chain))
                  answer
                  x).0.t)
            ≤ length (log l.t) + 3
      next (some resp) x k r = omega arith
      next none x k r = omega arith
