-- ===== src/Reader/Pn7160.antt =====
-- crates/bolty-pn7160/src/lib.rs: the transport of the library ntag424 over the driver of
-- pn7160_nci, an interface here. A call that fills a buffer is given it and gives back the count and
-- the buffer.
use bolty_rs.Prelude.{
  ℕ, ◌+◌, ◌-◌, Bool, Option, none, some, List, [], Result, ok, err, leb, ltb, if◌then◌else◌, length,
  take, get_or, replicate,
}
use bolty_rs.Reader.Mfrc522.{Response}

-- `D` is the driver with the card in its field, `E` its errors.
pub record Pn7160Driver (D E : Type 0) : Type 0 where
  pub buffer_too_small : E
  pub driver_init : D → D × Result E (Unit {0})
  pub driver_power_on : D → List ℕ → D × Result E (ℕ × List ℕ)
  pub driver_uid : D → List ℕ
  pub session_active : D → Bool
  pub transmit_apdu : D → List ℕ → List ℕ → D × Result E (ℕ × List ℕ)

pub data Error (E : Type 0) : Type 0 where
  init_error power_on_error exchange_error : E → Error E
  invalid_response_length : ℕ → Error E

pub record Pn7160Transport (D : Type 0) : Type 0 where
  pub driver : D
  pub uid : List ℕ
  pub atr : List ℕ

abbrev pub apdu_response_buf : ℕ
apdu_response_buf = 258

-- `buf.get(..n)`
unfoldable pub slice_to : ℕ → List ℕ → Option (List ℕ)
slice_to n buf = if leb n (length buf) then some (take n buf) else none

unfoldable pub split_response : {E : Type 0} → List ℕ → Result (Error E) Response
split_response response =
    if ltb (length response) 2
    then err (invalid_response_length (length response))
    else ok (record {
      bytes = take (length response - 2) response;
      sw1 = get_or response (length response - 2) 0;
      sw2 = get_or response (length response - 2 + 1) 0;
    })

module _ {D E : Type 0} (nci : Pn7160Driver D E) where
  abbrev powered :
      Pn7160Transport D
      → D × Result E (ℕ × List ℕ)
      → Pn7160Transport D × Result (Error E) (Unit {0})
  powered t (d, err e) = (record t { driver = d }, err (power_on_error e))
  powered t (d, ok (n, atr)) = elim (slice_to n atr) [
    | none ↦ (record t { driver = d }, err (power_on_error nci.buffer_too_small))
    | some bytes ↦ (record { driver = d; uid = nci.driver_uid d; atr = bytes }, ok tt)
  ]

  unfoldable pub power_on : Pn7160Transport D → Pn7160Transport D × Result (Error E) (Unit {0})
  power_on t = powered t (nci.driver_power_on t.driver (replicate 33 0))

  abbrev ready : D × Result E (Unit {0}) → Result (Error E) (Pn7160Transport D)
  ready (d, err e) = err (init_error e)
  ready (d, ok x) = ok (record { driver = d; uid = []; atr = [] })

  unfoldable pub new_initialized : D → Result (Error E) (Pn7160Transport D)
  new_initialized d = ready (nci.driver_init d)

  abbrev kept :
      Pn7160Transport D × Result (Error E) (Unit {0}) → Result (Error E) (Pn7160Transport D)
  kept (t, err e) = err e
  kept (t, ok x) = ok t

  abbrev then_powered : Result (Error E) (Pn7160Transport D) → Result (Error E) (Pn7160Transport D)
  then_powered (err e) = err e
  then_powered (ok t) = kept (power_on t)

  unfoldable pub activate : D → Result (Error E) (Pn7160Transport D)
  activate d = then_powered (ready (nci.driver_init d))

  abbrev received : Result E (ℕ × List ℕ) → Result (Error E) Response
  received (err e) = err (exchange_error e)
  received (ok (n, buf)) = elim (slice_to n buf) [
    | none ↦ err (exchange_error nci.buffer_too_small)
    | some rsp ↦ split_response rsp
  ]

  unfoldable pub transmit :
      Pn7160Transport D → List ℕ → Pn7160Transport D × Result (Error E) Response
  transmit t apdu =
      let (d, answer) = nci.transmit_apdu t.driver apdu (replicate apdu_response_buf 0) in
      (record t { driver = d }, received answer)

  unfoldable pub release : Pn7160Transport D → D
  release t = t.driver
