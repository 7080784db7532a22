-- ===== src/Reader/IsoDep.antt =====
-- crates/iso14443-session/src/lib.rs: the exchange of APDUs over ISO 14443-4. The crate iso14443,
-- which is not in the repository, and the transceiver are the interface `Iso14443`: `H` is its
-- protocol handler, `B` a block, `C` what is behind the transceiver, and `E` the transceiver's errors.
pub mod Crc
pub mod Recovery
pub mod Timeout
pub mod Chaining
use bolty_rs.Prelude.{
  ℕ, zero, suc, ◌+◌, ◌-◌, ◌*◌, ◌%◌, Bool, true, false, not, ◌||◌, ◌&&◌, Option, none, some, List,
  [], ◌∷◌, ◌++◌, Result, ok, err, ltb, ◌==◌, if◌then◌else◌, length, get_or, take, drop,
}
use bolty_rs.Prelude.Act.{Act, pure, ◌>>=◌, ◌>>◌, raise_if}
use bolty_rs.Reader.IsoDep.Crc.{crc_a}

-- `TypeAError`: the two that the code makes, and those of the crate
pub data TypeAError : Type 0 where
  other frame_size : TypeAError
  of_crate : ℕ → TypeAError

pub data PcdError (E : Type 0) : Type 0 where
  pcd_transceiver : E → PcdError E
  protocol : TypeAError → PcdError E

-- `Action` of the handler; those that the code does not name are one.
pub data Action (B : Type 0) : Type 0 where
  complete : List ℕ → Action B
  reply : B → Action B
  chaining_ack chaining_retransmit other_action : Action B

-- What the code reads of an answer to select: the frame size of the card, and its serialisation.
pub record Ats : Type 0 where
  pub fsc : ℕ
  pub to_bytes : Option (List ℕ)

pub record Iso14443 (H B C E : Type 0) : Type 0 where
  pub new_handler : Option ℕ → H
  pub fsd_of : ℕ → ℕ
  pub rats_byte : ℕ → ℕ → ℕ
  pub ats_from_crc_verified : List ℕ → Result TypeAError Ats
  pub ats_try_from : List ℕ → Result TypeAError Ats
  pub begin_exchange : H → H
  pub build_iblock : H → List ℕ → Bool → H × Result TypeAError B
  pub build_deselect : H → H × Result TypeAError B
  pub build_rnak : H → H × Result TypeAError B
  pub process_received : H → B → H × Result TypeAError (Action B)
  pub has_cid : B → Bool
  pub is_deselect : B → Bool
  pub is_wtx : B → Bool
  pub payload : B → List ℕ
  pub to_bytes_without_crc : B → Result TypeAError (List ℕ)
  pub from_crc_verified : List ℕ → Result TypeAError B
  pub block_try_from : List ℕ → Result TypeAError B
  pub try_enable_hw_crc : C → C × Bool
  pub transceive : C → List ℕ → C × Result E (List ℕ)
  pub try_set_timeout_ms : C → ℕ → C

pub record PcdSession (H : Type 0) : Type 0 where
  pub hw_crc : Bool
  pub fsc : ℕ
  pub fsd : ℕ
  pub handler : H
  pub base_fwt_ms : ℕ

-- The session and its transceiver
pub record Link (H C : Type 0) : Type 0 where
  pub session : PcdSession H
  pub t : C

abbrev pub append_crc_a : List ℕ → List ℕ
append_crc_a bytes = let (c1, c2) = crc_a bytes in bytes ++ (c1 ∷ c2 ∷ [])

abbrev pub max_retries : ℕ
max_retries = 2

module _ {H C : Type 0} where
  abbrev pub with_handler : H → Link H C → Link H C
  with_handler h l = record l { session = record l.session { handler = h } }

  abbrev pub with_transceiver : C → Link H C → Link H C
  with_transceiver c l = record l { t = c }

module _ {H C E : Type 0} where
  -- `?` on a result of the crate
  unfoldable pub lift : {A : Type 0} → Result TypeAError A → Act (Link H C) (PcdError E) A
  lift (ok a) l = (l, ok a)
  lift (err e) l = (l, err (protocol e))

  -- `?` on a call of the handler
  unfoldable pub handle :
      {A : Type 0} → (H → H × Result TypeAError A) → Act (Link H C) (PcdError E) A
  unfolding lift
  handle f l = let (h, r) = f l.session.handler in lift r (with_handler h l)

module _ {H : Type 0} where
  unfoldable pub set_fsd : ℕ → PcdSession H → PcdSession H
  set_fsd fsd s = record s { fsd = fsd }

  unfoldable pub set_fsc : ℕ → PcdSession H → PcdSession H
  set_fsc fsc s = record s { fsc = fsc }

  unfoldable pub set_base_fwt_ms : ℕ → PcdSession H → PcdSession H
  set_base_fwt_ms ms s = record s { base_fwt_ms = ms }

module _ {H B C E : Type 0} (iso : Iso14443 H B C E) where
  unfoldable pub from_ats : Ats → Option ℕ → Bool → PcdSession H
  from_ats ats cid hw_crc = record {
    hw_crc = hw_crc;
    fsc = ats.fsc;
    fsd = ats.fsc;
    handler = iso.new_handler cid;
    base_fwt_ms = 0;
  }

  abbrev pub connected :
      Bool → ℕ → ℕ → C × Result E (List ℕ) → C × Result (PcdError E) (PcdSession H × Ats)
  connected hw_crc fsdi cid (c, err e) = (c, err (pcd_transceiver e))
  connected hw_crc fsdi cid (c, ok resp) = (
    c,
    elim (if hw_crc then iso.ats_from_crc_verified resp else iso.ats_try_from resp) [
      | err e ↦ err (protocol e)
      | ok ats ↦ ok (
        record {
          hw_crc = hw_crc;
          fsc = ats.fsc;
          fsd = iso.fsd_of fsdi;
          handler = iso.new_handler (some cid);
          base_fwt_ms = 0;
        },
        ats,
      )
    ],
  )

  unfoldable pub from_connect : ℕ → ℕ → Act C (PcdError E) (PcdSession H × Ats)
  from_connect fsdi cid c =
      let (c', hw_crc) = iso.try_enable_hw_crc c in
      let rats = 0xe0 ∷ iso.rats_byte fsdi cid ∷ [] in
      connected hw_crc fsdi cid (iso.transceive c' (if hw_crc then rats else append_crc_a rats))

  abbrev pub LinkM : Type 0 → Type 0
  LinkM A = Act (Link H C) (PcdError E) A

  -- `t.transceive(&Frame::Standard(data)).map_err(PcdError::PcdTransceiver)?`
  abbrev pub sent_frame : Link H C → C × Result E (List ℕ) → Link H C × Result (PcdError E) (List ℕ)
  sent_frame l (c, ok resp) = (with_transceiver c l, ok resp)
  sent_frame l (c, err e) = (with_transceiver c l, err (pcd_transceiver e))

  unfoldable pub send : List ℕ → LinkM (List ℕ)
  send bytes l = sent_frame l (iso.transceive l.t bytes)

  -- the frame on the air of a block's bytes
  abbrev pub frame_of : Bool → List ℕ → List ℕ
  frame_of hw_crc bytes = if hw_crc then bytes else append_crc_a bytes

  abbrev pub effective : Bool → List ℕ → ℕ
  effective hw_crc resp = length resp + (if hw_crc then 2 else 0)

  -- refuse a frame over the FSD, then parse
  unfoldable pub receive : List ℕ → LinkM B
  unfolding lift
  receive resp l =
      (raise_if (ltb l.session.fsd (effective l.session.hw_crc resp)) (protocol frame_size)
          >> lift
              (if l.session.hw_crc then iso.from_crc_verified resp else iso.block_try_from resp))
        l

  unfoldable pub transceive_bytes : List ℕ → LinkM B
  unfolding send receive
  transceive_bytes bytes l = (do resp ← send (frame_of l.session.hw_crc bytes); receive resp) l

  unfoldable pub transceive_block : B → LinkM B
  unfolding transceive_bytes lift
  transceive_block block = do bytes ← lift (iso.to_bytes_without_crc block); transceive_bytes bytes

  -- `Ok(resp) => return Ok(resp)`, else go on
  abbrev pub or_else : LinkM B → Option B → LinkM B
  or_else next (some resp) = pure resp
  or_else next none = next

  -- The loop of the retries that are left; `retry` is one of them, whose error is dropped.
  unfoldable pub retry_loop : ℕ → LinkM (Option B) → LinkM B
  retry_loop zero retry l = (l, err (protocol other))
  retry_loop (suc left) retry l = (do answer ← retry; or_else (retry_loop left retry) answer) l

  abbrev pub caught : Link H C × Result (PcdError E) B → Link H C × Result (PcdError E) (Option B)
  caught (l, ok resp) = (l, ok (some resp))
  caught (l, err e) = (l, ok none)

  -- `match self.transceive_block(t, block) { Ok(resp) => .., Err(_) => .. }`
  unfoldable pub try_block : B → LinkM (Option B)
  unfolding transceive_block
  try_block block l = caught (transceive_block block l)

  -- one round of the recovery
  unfoldable pub recover_once : B → Bool → LinkM (Option B)
  unfolding try_block handle
  recover_once block true = try_block block
  recover_once block false = do recovery ← handle iso.build_rnak; try_block recovery

  unfoldable pub transceive_with_recovery : B → Bool → LinkM B
  unfolding try_block retry_loop recover_once
  transceive_with_recovery block receiving_chain = do
    answer ← try_block block
    or_else (retry_loop max_retries (recover_once block receiving_chain)) answer

  unfoldable pub deselect : LinkM (Unit {0})
  unfolding handle try_block transceive_block
  deselect = do
    block ← handle iso.build_deselect
    answer ← try_block block
    elim answer [
      | some resp ↦
          (if iso.is_deselect resp then pure tt else (do
            again ← transceive_block block
            raise_if (not (iso.is_deselect again)) (protocol other)))
      | none ↦ (do
        again ← transceive_block block
        raise_if (not (iso.is_deselect again)) (protocol other))
    ]

  -- `try_set_timeout_ms`, whose result is dropped
  unfoldable pub set_timeout : ℕ → LinkM (Unit {0})
  set_timeout ms l = (with_transceiver (iso.try_set_timeout_ms l.t ms) l, ok tt)

  -- A request for more time is answered under the longer timeout, which is taken back on both outcomes.
  -- The product is one of 32 bits, which wraps around where overflow is not checked.
  abbrev pub extended_ms : B → ℕ → ℕ
  extended_ms block base =
      let product = get_or (iso.payload block) 0 1 * base % 4294967296 in
      if ltb product base then base else product

  abbrev pub restored : ℕ → Link H C × Result (PcdError E) B → Link H C × Result (PcdError E) B
  restored base (l, r) = (with_transceiver (iso.try_set_timeout_ms l.t base) l, r)

  unfoldable pub reply_extended : B → LinkM B
  unfolding set_timeout transceive_with_recovery
  reply_extended block l =
      let base = l.session.base_fwt_ms in
      restored base
        ((set_timeout (extended_ms block base) >> transceive_with_recovery block true) l)

  unfoldable pub send_reply : B → LinkM B
  unfolding reply_extended transceive_with_recovery
  send_reply block l =
      if iso.is_wtx block && ltb 0 l.session.base_fwt_ms
      then reply_extended block l
      else transceive_with_recovery block true l

  abbrev pub act_on : (B → LinkM (Option (List ℕ))) → Action B → LinkM (Option (List ℕ))
  act_on next (complete bytes) l = (l, ok (some bytes))
  act_on next (reply answer) l = (do block ← send_reply answer; next block) l
  act_on next _ l = (l, err (protocol other))

  -- `none` when the card still answers with chains or requests for time after `fuel` blocks.
  unfoldable pub collect_response : ℕ → B → LinkM (Option (List ℕ))
  unfolding handle send_reply
  collect_response zero block = pure none
  collect_response (suc fuel) block = do
    action ← handle (λ h. iso.process_received h block)
    act_on (collect_response fuel) action

  -- after a chunk that is not the last: the next one, or the same again
  abbrev pub chain_on :
      LinkM (Option (Option B)) → LinkM (Option (Option B)) → Action B → LinkM (Option (Option B))
  chain_on next again chaining_ack = next
  chain_on next again chaining_retransmit = again
  chain_on next again _ = λ l. (l, err (protocol other))

  -- The chunks of the APDU; `none` when the card still asks for repeats after `fuel` blocks.
  unfoldable pub send_apdu : ℕ → ℕ → List ℕ → LinkM (Option (Option B))
  unfolding handle transceive_with_recovery
  send_apdu zero max_inf apdu = pure none
  send_apdu (suc fuel) max_inf [] = pure (some none)
  send_apdu (suc fuel) max_inf (a ∷ apdu) = do
    let chunk = take max_inf (a ∷ apdu)
    let rest = drop max_inf (a ∷ apdu)
    iblock ← handle (λ h. iso.build_iblock h chunk (ltb 0 (length rest)))
    resp ← transceive_with_recovery iblock false
    if ltb 0 (length rest)
        then (do
          action ← handle (λ h. iso.process_received h resp)
          chain_on (send_apdu fuel max_inf rest) (send_apdu fuel max_inf (a ∷ apdu)) action)
        else pure (some (some resp))

  unfoldable pub begin : LinkM (Unit {0})
  begin l = (with_handler (iso.begin_exchange l.session.handler) l, ok tt)

  -- bytes of a frame that are not payload
  abbrev pub overhead : B → ℕ
  overhead block = 1 + (if iso.has_cid block then 1 else 0) + 2

  unfoldable pub exchange : ℕ → List ℕ → LinkM (Option (List ℕ))
  unfolding begin handle send_apdu collect_response
  exchange fuel apdu l =
      (do
        begin
        probe ← handle (λ h. iso.build_iblock h [] false)
        raise_if (l.session.fsc - overhead probe == 0) (protocol other)
        sent ← send_apdu fuel (l.session.fsc - overhead probe) apdu
        elim sent [
          | none ↦ pure none
          | some none ↦ λ l'. (l', err (protocol other))
          | some (some first) ↦ collect_response fuel first
        ])
        l
