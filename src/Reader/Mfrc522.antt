-- ===== src/Reader/Mfrc522.antt =====
-- crates/bolty-mfrc522/src/lib.rs: activation of a card by the MFRC522 and the answers to APDUs. The
-- transceiver and the delay are the interface `Mfrc522` on top of that of crates/iso14443-session;
-- `C` is the chip with the card in its field.
pub mod Activation
use Prim.Native.Nat.{bit_and}
use bolty_rs.Prelude.{
  ℕ, zero, suc, ◌+◌, ◌-◌, ◌*◌, ◌/◌, ◌^◌, ◌≤◌, ◌≡◌, Bool, true, false, not, ◌||◌, Option, none, some,
  List, [], ◌∷◌, ◌++◌, Result, ok, err, ltb, ◌==◌, if◌then◌else◌, length, get_elem?, get_or, take,
}
use bolty_rs.Prelude.Act.{Act, pure, ◌>>=◌, ◌>>◌, raise_if}
use bolty_rs.Reader.IsoDep.{
  PcdError, Ats, Iso14443, PcdSession, Link, from_connect, from_ats, set_fsc, set_fsd,
  set_base_fwt_ms, exchange,
}

-- `M` is the error of the chip's driver, `A` that of an activation.
pub data Error (M A : Type 0) : Type 0 where
  mfrc522 : M → Error M A
  activation : A → Error M A
  protocol : PcdError M → Error M A
  invalid_cid unsupported_tag : Error M A
  invalid_response_length invalid_uid_length : ℕ → Error M A

-- A card that answered the wake-up
pub record Activated : Type 0 where
  pub iso14443_4_compliant : Bool
  pub uid : List ℕ

pub record Mfrc522 (H B C M A : Type 0) : Type 0 where
  pub iso : Iso14443 H B C M
  pub timeout_error : M
  pub cid_new : ℕ → Option ℕ
  pub fsd64 : ℕ
  pub prepare_for_activation : C → C × Result M (Unit {0})
  pub prepare_for_activation_with_delays : C → C × Result M (Unit {0})
  pub delay_ms : C → ℕ → C
  pub wakeup : C → C × Result A Activated
  pub enable_hw_crc : C → C × Result M (Unit {0})
  pub set_timeout_ms : C → ℕ → C × Result M (Unit {0})

pub record Transport (H : Type 0) : Type 0 where
  pub session : PcdSession H
  pub uid : List ℕ

pub record Response : Type 0 where
  pub bytes : List ℕ
  pub sw1 : ℕ
  pub sw2 : ℕ

abbrev pub activation_attempts : ℕ
activation_attempts = 4

abbrev pub activation_settle_ms : ℕ
activation_settle_ms = 15

module _ {M A : Type 0} where
  unfoldable pub is_retryable_activation_error : Error M A → Bool
  is_retryable_activation_error unsupported_tag = false
  is_retryable_activation_error (invalid_uid_length n) = false
  is_retryable_activation_error invalid_cid = false
  is_retryable_activation_error _ = true

  unfoldable pub validate_uid : List ℕ → Result (Error M A) (Unit {0})
  validate_uid uid =
      if length uid == 4 || length uid == 7 then ok tt else err (invalid_uid_length (length uid))

  unfoldable pub split_response : List ℕ → Result (Error M A) Response
  split_response response =
      if ltb (length response) 2
      then err (invalid_response_length (length response))
      else ok (record {
        bytes = take (length response - 2) response;
        sw1 = get_or response (length response - 2) 0;
        sw2 = get_or response (length response - 2 + 1) 0;
      })

-- The frame waiting time that TB(1) of the serialised answer declares; `none` without it.
unfoldable pub fwi_from_ats : Ats → Option ℕ
fwi_from_ats ats = elim ats.to_bytes [
  | none ↦ none
  | some bytes ↦ elim (get_elem? bytes 1) [
    | none ↦ none
    | some t0 ↦
        let i = if not (bit_and t0 0x10 == 0) then 3 else 2 in
        if bit_and t0 0x20 == 0
        then none
        else (elim (get_elem? bytes i) [ none ↦ none | some tb ↦ some (tb / 16) ])
  ]
]

abbrev fwi_or_default : Option ℕ → ℕ
fwi_or_default none = 4
fwi_or_default (some fwi) = fwi

-- the version without the standard library
unfoldable pub frame_wait_time_ms : Ats → ℕ
unfolding fwi_from_ats
frame_wait_time_ms ats = 302 * 2 ^ fwi_or_default (fwi_from_ats ats) / 1000 + 10

module _ {H B C M A : Type 0} (chip : Mfrc522 H B C M A) where
  -- `map_err(Error::Mfrc522)?` on a call of the driver
  unfoldable pub drive : {D : Type 0} → (C → C × Result M D) → Act C (Error M A) D
  drive f c = let (c', r) = f c in (c', elim r [ ok d ↦ ok d | err e ↦ err (mfrc522 e) ])

  unfoldable pub wake : Act C (Error M A) Activated
  wake c = let (c', r) = chip.wakeup c in (c', elim r [ ok a ↦ ok a | err e ↦ err (activation e) ])

  unfoldable pub connect : ℕ → Act C (Error M A) (PcdSession H × Ats)
  unfolding from_connect
  connect cid c =
      let (c', r) = from_connect chip.iso chip.fsd64 cid c in
      (c', elim r [ ok s ↦ ok s | err e ↦ err (protocol e) ])

  unfoldable pub give : {D : Type 0} → Result (Error M A) D → Act C (Error M A) D
  give r c = (c, r)

  abbrev pub at_most_64 : ℕ → ℕ
  at_most_64 n = if ltb n 64 then n else 64

  abbrev pub cid_or_error : Option ℕ → Result (Error M A) ℕ
  cid_or_error none = err invalid_cid
  cid_or_error (some cid) = ok cid

  -- the session after the activation, with both limits of the chip's FIFO
  unfoldable pub session_of : Ats → PcdSession H
  unfolding from_ats set_fsc set_fsd set_base_fwt_ms frame_wait_time_ms
  session_of ats = set_base_fwt_ms (frame_wait_time_ms ats) (
      set_fsd (at_most_64 ats.fsc) (set_fsc (at_most_64 ats.fsc) (from_ats chip.iso ats none true)))

  unfoldable pub from_activation : Activated → Act C (Error M A) (Transport H)
  unfolding drive connect give session_of validate_uid
  from_activation a = do
    raise_if (not a.iso14443_4_compliant) unsupported_tag
    give (validate_uid a.uid)
    cid ← give (cid_or_error (chip.cid_new 0))
    (probe, ats) ← connect cid
    drive chip.enable_hw_crc
    drive (λ c. chip.set_timeout_ms c (frame_wait_time_ms ats))
    pure (record { session = session_of ats; uid = a.uid })

  unfoldable pub activate_after_prepare : Act C (Error M A) (Transport H)
  unfolding wake from_activation
  activate_after_prepare = do a ← wake; from_activation a

  unfoldable pub activate : Act C (Error M A) (Transport H)
  unfolding drive activate_after_prepare
  activate = do drive chip.prepare_for_activation; activate_after_prepare

  -- A wake-up after the settling time; an answered one goes straight on.
  abbrev pub woken :
      (Error M A → Act C (Error M A) (Transport H))
      → C × Result A Activated
      → C × Result (Error M A) (Transport H)
  woken next (c, ok a) = from_activation a c
  woken next (c, err e) = next (activation e) c

  abbrev pub prepared :
      (Error M A → Act C (Error M A) (Transport H))
      → C × Result M (Unit {0})
      → C × Result (Error M A) (Transport H)
  prepared next (c, err e) = next (mfrc522 e) c
  prepared next (c, ok x) = woken next (chip.wakeup (chip.delay_ms c activation_settle_ms))

  -- The rounds that are left, and the error of the last one
  unfoldable pub rounds : ℕ → Error M A → Act C (Error M A) (Transport H)
  unfolding from_activation
  rounds zero last_err c = (c, err last_err)
  rounds (suc left) last_err c = prepared (rounds left) (chip.prepare_for_activation_with_delays c)

  unfoldable pub activate_with_delays : Act C (Error M A) (Transport H)
  unfolding rounds
  activate_with_delays = rounds activation_attempts (mfrc522 chip.timeout_error)

  -- `transmit`; `none` when the card still asks for more after `fuel` blocks.
  abbrev transmitted :
      Link H C × Result (PcdError M) (Option (List ℕ))
      → Link H C × Result (Error M A) (Option Response)
  transmitted (l, err e) = (l, err (protocol e))
  transmitted (l, ok none) = (l, ok none)
  transmitted (l, ok (some response)) =
      (l, elim (split_response response) [ ok r ↦ ok (some r) | err e ↦ err e ])

  unfoldable pub transmit : ℕ → List ℕ → Act (Link H C) (Error M A) (Option Response)
  unfolding exchange split_response
  transmit fuel apdu l = transmitted (exchange chip.iso fuel apdu l)
