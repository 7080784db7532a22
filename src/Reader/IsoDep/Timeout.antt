-- ===== src/Reader/IsoDep/Timeout.antt =====
-- The transceiver's timeout over a response, crates/iso14443-session/src/lib.rs, lines 249 to 346.
use bolty_rs.Prelude.{
  ℕ, zero, suc, ◌≡◌, inl, inr, sym, subst, ◌∙◌, Bool, true, false, Option, none, some, List, Result,
  ltb, ◌&&◌, Bool-cases,
}
use bolty_rs.Prelude.Act.{Act, pure, continued, ◌>>=◌, ◌>>◌, bind_state}
use bolty_rs.Reader.IsoDep.{
  TypeAError, PcdError, Action, complete, reply, chaining_ack, chaining_retransmit, other_action,
  Iso14443, Link, with_transceiver, lift, handle, restored, send, receive, transceive_bytes,
  transceive_block, or_else, retry_loop, try_block, recover_once, transceive_with_recovery,
  set_timeout, reply_extended, extended_ms, send_reply, act_on, collect_response,
}
use bolty_rs.Reader.IsoDep.Recovery.{lift_same, receive_same, sent_same, caught_same}

module _ {H B C E : Type 0} (iso : Iso14443 H B C E) (timer : C → ℕ) where
  -- An exchange leaves the timeout, and setting it sets it.
  pub record KeepsTime : Type 0 where
    pub transceive_law : (c : C) (frame : List ℕ) → timer (iso.transceive c frame).0 ≡ timer c
    pub try_set_timeout_ms_law : (c : C) (ms : ℕ) → timer (iso.try_set_timeout_ms c ms) ≡ ms

-- The timeout `ms`, and the session's own `b`
unfoldable pub HasTime : {H C : Type 0} → (C → ℕ) → ℕ → ℕ → Link H C → Type 0
HasTime timer ms b l = (timer l.t ≡ ms) × (l.session.base_fwt_ms ≡ b)

module _ {H C : Type 0} {E A : Type 0} (timer : C → ℕ) (ms b : ℕ) where
  -- Work that leaves both as they are
  unfoldable pub KeepsBoth : Act (Link H C) (PcdError E) A → Type 0
  KeepsBoth m = (l : Link H C) → HasTime timer ms b l → HasTime timer ms b (m l).0

module _ {H B C E A : Type 0} (iso : Iso14443 H B C E) (timer : C → ℕ) (ms b : ℕ) where
  lift_keeps : (r : Result TypeAError A) → KeepsBoth {H = H} {E = E} timer ms b (lift r)
  unfolding KeepsBoth
  lift_keeps r l h = subst (HasTime timer ms b) (sym (lift_same iso r l)) h

  pure_keeps : (a : A) → KeepsBoth {H = H} {E = E} timer ms b (pure a)
  unfolding KeepsBoth pure
  pure_keeps a l h = h

  handle_keeps : (f : H → H × Result TypeAError A) → KeepsBoth {E = E} timer ms b (handle f)
  unfolding KeepsBoth handle HasTime
  handle_keeps f l h = subst (HasTime timer ms b) (sym (lift_same iso (f l.session.handler).1 _)) h

module _ {H C E A D : Type 0} (timer : C → ℕ) (ms b : ℕ) where
  then_keeps :
      (m : Act (Link H C) (PcdError E) A) (f : A → Act (Link H C) (PcdError E) D)
      → KeepsBoth timer ms b m
      → ((a : A) → KeepsBoth timer ms b (f a))
      → KeepsBoth timer ms b (m >>= f)
  unfolding KeepsBoth
  then_keeps m f h k l w =
      bind_state (HasTime timer ms b) (HasTime timer ms b) m f l (h l w) (λ x y. y) λ a x y. k a x y

module _ {H B C E : Type 0} (iso : Iso14443 H B C E) (timer : C → ℕ) (law : KeepsTime iso timer)
    (ms b : ℕ) where
  send_keeps : (bytes : List ℕ) → KeepsBoth timer ms b (send iso bytes)
  unfolding KeepsBoth send HasTime
  send_keeps bytes l h =
      subst (HasTime timer ms b) (sym (sent_same iso l (iso.transceive l.t bytes)))
        (law.transceive_law l.t bytes ∙ h.0, h.1)

  receive_keeps : (resp : List ℕ) → KeepsBoth timer ms b (receive iso resp)
  unfolding KeepsBoth
  receive_keeps resp l h = subst (HasTime timer ms b) (sym (receive_same iso resp l)) h

  block_keeps : (block : B) → KeepsBoth timer ms b (transceive_block iso block)
  unfolding transceive_block transceive_bytes KeepsBoth
  block_keeps block =
      then_keeps timer ms b _ _ (lift_keeps iso timer ms b _)
        λ bytes l. then_keeps timer ms b (send iso _) (receive iso) (send_keeps _) receive_keeps l

  try_keeps : (block : B) → KeepsBoth timer ms b (try_block iso block)
  unfolding try_block KeepsBoth
  try_keeps block l h =
      subst (HasTime timer ms b) (sym (caught_same iso (transceive_block iso block l)))
        (block_keeps block l h)

  once_keeps :
      (block : B) (receiving_chain : Bool)
      → KeepsBoth timer ms b (recover_once iso block receiving_chain)
  unfolding recover_once
  once_keeps block true = try_keeps block
  once_keeps block false = then_keeps timer ms b _ _ (handle_keeps iso timer ms b _) try_keeps

  or_else_keeps :
      (next : Act (Link H C) (PcdError E) B) (answer : Option B)
      → KeepsBoth timer ms b next
      → KeepsBoth timer ms b (or_else iso next answer)
  or_else_keeps next (some resp) h = pure_keeps iso timer ms b resp
  or_else_keeps next none h = h

  loop_keeps :
      (n : ℕ) (retry : Act (Link H C) (PcdError E) (Option B))
      → KeepsBoth timer ms b retry
      → KeepsBoth timer ms b (retry_loop iso n retry)
  unfolding retry_loop KeepsBoth
  loop_keeps zero retry h l w = w
  loop_keeps (suc n) retry h l w =
      then_keeps timer ms b retry _ h
        (λ answer. or_else_keeps (retry_loop iso n retry) answer (loop_keeps n retry h)) l w

  recovery_keeps :
      (block : B) (receiving_chain : Bool)
      → KeepsBoth timer ms b (transceive_with_recovery iso block receiving_chain)
  unfolding transceive_with_recovery
  recovery_keeps block receiving_chain = then_keeps timer ms b _ _ (try_keeps block) λ answer.
      or_else_keeps _ answer
        (loop_keeps 2 (recover_once iso block receiving_chain) (once_keeps block receiving_chain))

module _ {H B C E : Type 0} (iso : Iso14443 H B C E) (timer : C → ℕ) (law : KeepsTime iso timer)
    (b : ℕ) where
  restored_time :
      (p : Link H C × Result (PcdError E) B)
      → p.0.session.base_fwt_ms ≡ b
      → HasTime timer b b (restored iso b p).0
  unfolding HasTime
  restored_time (l, r) h = (law.try_set_timeout_ms_law l.t b, h)

  set_keeps :
      (block : B) (ms : ℕ) (l : Link H C)
      → l.session.base_fwt_ms ≡ b
      → ((set_timeout iso ms >> transceive_with_recovery iso block true) l).0.session.base_fwt_ms
        ≡ b
  unfolding set_timeout ◌>>=◌ continued HasTime KeepsBoth
  set_keeps block ms l h =
      (recovery_keeps iso timer law ms b block true
        (with_transceiver (iso.try_set_timeout_ms l.t ms) l)
        (law.try_set_timeout_ms_law l.t ms, h)).1

  extended_keeps : (block : B) → KeepsBoth timer b b (reply_extended iso block)
  unfolding reply_extended KeepsBoth HasTime
  extended_keeps block l h =
      subst
        (λ base.
          HasTime timer b b
            (restored iso base (
              (set_timeout iso (extended_ms iso block l.session.base_fwt_ms)
                  >> transceive_with_recovery iso block true)
                l)).0)
        (sym h.1)
        (restored_time
          ((set_timeout iso (extended_ms iso block l.session.base_fwt_ms)
              >> transceive_with_recovery iso block true)
            l)
          (set_keeps block _ l h.1))

  reply_keeps : (block : B) → KeepsBoth timer b b (send_reply iso block)
  unfolding send_reply KeepsBoth
  reply_keeps block l h = elim (Bool-cases (iso.is_wtx block && ltb 0 l.session.base_fwt_ms)) [
    | inl wtx ↦ rw wtx (extended_keeps block l h)
    | inr plain ↦ rw plain (recovery_keeps iso timer law b b block true l h)
  ]

  act_keeps :
      (next : B → Act (Link H C) (PcdError E) (Option (List ℕ)))
      → ((block : B) → KeepsBoth timer b b (next block))
      → (action : Action B) → KeepsBoth timer b b (act_on iso next action)
  unfolding KeepsBoth
  act_keeps next k (complete bytes) l h = h
  act_keeps next k (reply answer) l h =
      then_keeps timer b b (send_reply iso answer) next (reply_keeps answer) k l h
  act_keeps next k chaining_ack l h = h
  act_keeps next k chaining_retransmit l h = h
  act_keeps next k other_action l h = h

  -- Whatever the card answers, requests for more time included, and however the response ends, the
  -- transceiver is left with the session's own timeout when it had it before.
  pub collect_response-HasTime :
      (fuel : ℕ) (block : B) (l : Link H C)
      → HasTime timer b b l
      → HasTime timer b b (collect_response iso fuel block l).0
  unfolding collect_response KeepsBoth pure
  collect_response-HasTime zero block l h = h
  collect_response-HasTime (suc fuel) block l h =
      then_keeps timer b b _ _ (handle_keeps iso timer b b _)
        (λ action. act_keeps (collect_response iso fuel) (collect_response-HasTime fuel) action) l h
