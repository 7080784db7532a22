-- ===== src/Reader/Pn532/Session.antt =====
-- What the device of pn532-transport keeps over a session with cards.
use bolty_rs.Prelude.{
  ℕ, ◌≡◌, ◌⊎◌, inl, inr, true, false, not, ◌||◌, some, List, [], ◌∷◌, err, arith, if◌then◌else◌,
  Option-cases,
}
use bolty_rs.Prelude.Text.{is_some}
use bolty_rs.Reader.Pn532.{
  not_initialized, no_card, Pn532Ops, Pn532Device, with_chip, card_present, init_with_delay,
  detect_card, exchange_apdu, release_card,
}

-- The calls that a client makes of the device.
pub data DeviceCall : Type 0 where
  init detect release : DeviceCall
  exchange : List ℕ → DeviceCall

module _ {C : Type 0} where
  -- The number of the target and its UID are there together, and only after initialisation.
  unfoldable pub IsConsistent : Pn532Device C → Type 0
  IsConsistent d =
      (is_some d.target_num ≡ is_some d.uid)
      × ((not (is_some d.target_num) || d.initialized) ≡ true)

module _ {C : Type 0} (ops : Pn532Ops C) where
  unfoldable pub perform : DeviceCall → Pn532Device C → Pn532Device C
  perform init d = (init_with_delay ops d).0
  perform detect d = (detect_card ops d).0
  perform release d = release_card ops d
  perform (exchange apdu) d = (exchange_apdu ops d apdu).0

  unfoldable pub perform_all : List DeviceCall → Pn532Device C → Pn532Device C
  perform_all [] d = d
  perform_all (c ∷ calls) d = perform_all calls (perform c d)

  init-IsConsistent : (d : Pn532Device C) → IsConsistent d → IsConsistent (init_with_delay ops d).0
  unfolding init_with_delay IsConsistent
  init-IsConsistent d w = ground arith

  detect-IsConsistent : (d : Pn532Device C) → IsConsistent d → IsConsistent (detect_card ops d).0
  unfolding detect_card IsConsistent
  detect-IsConsistent d w = ground arith

  release-IsConsistent : (d : Pn532Device C) → IsConsistent d → IsConsistent (release_card ops d)
  unfolding release_card IsConsistent
  release-IsConsistent d w = ground arith

  exchange-IsConsistent :
      (d : Pn532Device C) (apdu : List ℕ)
      → IsConsistent d
      → IsConsistent (exchange_apdu ops d apdu).0
  unfolding exchange_apdu IsConsistent
  exchange-IsConsistent d apdu w = ground arith

  perform-IsConsistent :
      (c : DeviceCall) (d : Pn532Device C) → IsConsistent d → IsConsistent (perform c d)
  unfolding perform
  perform-IsConsistent init d w = init-IsConsistent d w
  perform-IsConsistent detect d w = detect-IsConsistent d w
  perform-IsConsistent release d w = release-IsConsistent d w
  perform-IsConsistent (exchange apdu) d w = exchange-IsConsistent d apdu w

  -- After any sequence of calls on a consistent device, whatever the chip answers, the device has the
  -- UID of a card if and only if it has the number of its target, and has a target only when it is
  -- initialised.
  pub perform_all-IsConsistent :
      (calls : List DeviceCall) (d : Pn532Device C)
      → IsConsistent d
      → IsConsistent (perform_all calls d)
  unfolding perform_all
  perform_all-IsConsistent [] d w = w
  perform_all-IsConsistent (c ∷ calls) d w =
      perform_all-IsConsistent calls (perform c d) (perform-IsConsistent c d w)

  -- On a consistent device an exchange reaches the chip if and only if a card is present, and then
  -- returns the chip's answer for the number of its target; otherwise nothing changes and the error
  -- says whether the device is not initialised or has no card.
  pub exchange_apdu_lem :
      (d : Pn532Device C) (apdu : List ℕ)
      → IsConsistent d
      → ((target_num : ℕ) × (d.target_num ≡ some target_num)
          × (exchange_apdu ops d apdu ≡ (
            with_chip d (ops.in_data_exchange d.pn532 target_num apdu).0,
            (ops.in_data_exchange d.pn532 target_num apdu).1,
          )))
        ⊎ ((card_present d ≡ false)
            × (exchange_apdu ops d apdu
                ≡ (d, err (if d.initialized then no_card else not_initialized))))
  unfolding exchange_apdu IsConsistent card_present
  exchange_apdu_lem d apdu w = elim (Option-cases d.target_num) [
    | inl empty ↦ inr (ground arith, ground arith)
    | inr (target_num, e) ↦ inl (target_num, e, ground arith)
  ]
