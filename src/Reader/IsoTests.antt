-- ===== src/Reader/IsoTests.antt =====
-- The theorems of crates/iso14443-session and crates/bolty-mfrc522 on a toy protocol, whose blocks are
-- their bytes.
use bolty_rs.Prelude.{
  ℕ, suc, ◌+◌, ◌≤◌, ◌<◌, ◌≡◌, ◌≢◌, refl, true, false, none, some, List, [], ◌∷◌, Result, ok, err,
  arith, length, All, if◌then◌else◌, ◌==◌,
}
use bolty_rs.Reader.IsoDep.{
  complete, chaining_ack, chaining_retransmit, handle, Iso14443, Link, receive,
  transceive_with_recovery, collect_response, send_apdu, exchange,
}
use bolty_rs.Reader.IsoDep.Recovery.{transceive_with_recovery_lem}
use bolty_rs.Reader.IsoDep.Timeout.{KeepsTime, HasTime, collect_response-HasTime}
use bolty_rs.Reader.IsoDep.Chaining.{repeats, send_apdu_ends}
use bolty_rs.Reader.Mfrc522.{
  Activated, Mfrc522, fwi_from_ats, frame_wait_time_ms, activate_with_delays, from_activation,
}
use bolty_rs.Reader.Mfrc522.Activation.{CountsWakes, activate_with_delays_lem}

-- What is behind the transceiver: the frames that went out, the timeout, and the wake-ups.
pub record Air : Type 0 where
  pub frames : List (List ℕ)
  pub timeout : ℕ
  pub wakes : ℕ

-- The other side loses every frame of one byte, and gives any other back.
abbrev answer : List ℕ → Result ℕ (List ℕ)
answer (b ∷ []) = err 0
answer bytes = ok bytes

abbrev toy : Iso14443 ℕ (List ℕ) Air ℕ
toy = record {
  new_handler = λ cid. 0;
  fsd_of = λ fsdi. 64;
  rats_byte = λ fsdi cid. 0x50;
  ats_from_crc_verified = λ resp. ok (record { fsc = 256; to_bytes = some resp });
  ats_try_from = λ resp. ok (record { fsc = 256; to_bytes = some resp });
  begin_exchange = λ h. h;
  build_iblock = λ h bytes chaining. (h, ok (2 ∷ bytes));
  build_deselect = λ h. (h, ok (0xc2 ∷ 0 ∷ []));
  build_rnak = λ h. (h, ok (0xb2 ∷ []));
  process_received = λ h block. (h + 1, ok (complete block));
  has_cid = λ block. false;
  is_deselect = λ block. true;
  is_wtx = λ block. false;
  payload = λ block. block;
  to_bytes_without_crc = λ block. ok block;
  from_crc_verified = λ bytes. ok bytes;
  block_try_from = λ bytes. ok bytes;
  try_enable_hw_crc = λ c. (c, true);
  transceive = λ c frame. (record c { frames = frame ∷ c.frames }, answer frame);
  try_set_timeout_ms = λ c ms. record c { timeout = ms };
}

abbrev quiet : Air
quiet = record { frames = []; timeout = 14; wakes = 0 }

abbrev toy_link : Link ℕ Air
toy_link = record {
  session = record { hw_crc = true; fsc = 64; fsd = 64; handler = 0; base_fwt_ms = 14 };
  t = quiet;
}

exchange_test : (exchange toy 5 (1 ∷ 2 ∷ []) toy_link).1 ≡ ok (some (2 ∷ 1 ∷ 2 ∷ []))
unfolding exchange bolty_rs.Prelude.Act.◌>>=◌ bolty_rs.Prelude.Act.raise_if
    bolty_rs.Prelude.Act.pure
exchange_test = refl

receive_test : receive toy (9 ∷ 9 ∷ []) toy_link ≡ (toy_link, ok (9 ∷ 9 ∷ []))
unfolding receive bolty_rs.Prelude.Act.◌>>=◌ bolty_rs.Prelude.Act.raise_if
receive_test = refl

-- The block of one byte is lost each time: three frames go out.
lost_test : length (transceive_with_recovery toy (7 ∷ []) true toy_link).0.t.frames ≡ 3
unfolding transceive_with_recovery bolty_rs.Prelude.Act.◌>>=◌
lost_test = refl

transceive_with_recovery_lem_example :
    length (transceive_with_recovery toy (7 ∷ []) true toy_link).0.t.frames ≤ 0 + 3
transceive_with_recovery_lem_example =
    transceive_with_recovery_lem toy (λ c. c.frames) (λ c frame. refl) (7 ∷ []) true toy_link

toy-KeepsTime : KeepsTime toy (λ (c : Air). c.timeout)
toy-KeepsTime = record { transceive_law = λ c frame. refl; try_set_timeout_ms_law = λ c ms. refl }

toy_link-HasTime : HasTime (λ (c : Air). c.timeout) 14 14 toy_link
unfolding HasTime
toy_link-HasTime = (refl, refl)

collect_response-HasTime_example :
    HasTime (λ (c : Air). c.timeout) 14 14 (collect_response toy 3 (9 ∷ []) toy_link).0
collect_response-HasTime_example =
    collect_response-HasTime toy (λ c. c.timeout) toy-KeepsTime 14 3 (9 ∷ []) toy_link
      toy_link-HasTime

-- The other side asks for the first chunk again, and for the next one from then on.
abbrev chaining_toy : Iso14443 ℕ (List ℕ) Air ℕ
chaining_toy = record toy {
  process_received = λ h block. (h + 1, ok (if h == 0 then chaining_retransmit else chaining_ack));
}

-- One repeat, and three frames
one_repeat : repeats chaining_toy 6 2 (1 ∷ 2 ∷ 3 ∷ []) toy_link ≡ 1
unfolding repeats handle transceive_with_recovery bolty_rs.Prelude.Act.◌>>=◌
    bolty_rs.Prelude.Act.raise_if bolty_rs.Prelude.Act.pure
one_repeat = refl

three_frames : length (send_apdu chaining_toy 6 2 (1 ∷ 2 ∷ 3 ∷ []) toy_link).0.t.frames ≡ 3
unfolding send_apdu handle transceive_with_recovery bolty_rs.Prelude.Act.◌>>=◌
    bolty_rs.Prelude.Act.pure bolty_rs.Prelude.Act.raise_if
three_frames = refl

send_apdu_ends_example : (send_apdu chaining_toy 6 2 (1 ∷ 2 ∷ 3 ∷ []) toy_link).1 ≢ ok none
send_apdu_ends_example =
    send_apdu_ends chaining_toy 6 2 (1 ∷ 2 ∷ 3 ∷ []) toy_link (omega arith)
      (omega (arith, one_repeat))

abbrev toy_chip : Mfrc522 ℕ (List ℕ) Air ℕ ℕ
toy_chip = record {
  iso = toy;
  timeout_error = 99;
  cid_new = λ n. some n;
  fsd64 = 5;
  prepare_for_activation = λ c. (c, ok tt);
  prepare_for_activation_with_delays = λ c. (c, ok tt);
  delay_ms = λ c ms. c;
  wakeup = λ c. (record c { wakes = c.wakes + 1 }, err 1);
  enable_hw_crc = λ c. (c, ok tt);
  set_timeout_ms = λ c ms. (record c { timeout = ms }, ok tt);
}

toy_chip-CountsWakes : CountsWakes toy_chip (λ c. c.wakes)
toy_chip-CountsWakes = record {
  wakeup_law = λ c. refl;
  prepare_law = λ c. refl;
  delay_law = λ c ms. refl;
  transceive_law = λ c frame. refl;
  try_enable_law = λ c. refl;
  enable_law = λ c. refl;
  set_timeout_law = λ c ms. refl;
}

abbrev a_card : Activated
a_card = record { iso14443_4_compliant = true; uid = 4 ∷ 1 ∷ 2 ∷ 3 ∷ [] }

-- No card answers: four wake-ups.
no_card_test : (activate_with_delays toy_chip quiet).0.wakes ≡ 4
unfolding activate_with_delays
no_card_test = refl

activate_with_delays_lem_example :
    ((activate_with_delays toy_chip quiet).0.wakes ≤ 0 + 4)
    × ((from_activation toy_chip a_card quiet).0.wakes ≡ 0)
activate_with_delays_lem_example =
    activate_with_delays_lem toy_chip (λ c. c.wakes) toy_chip-CountsWakes a_card quiet

fwi_test :
    (fwi_from_ats (record { fsc = 256; to_bytes = some (6 ∷ 0x75 ∷ 0x77 ∷ 0x81 ∷ 2 ∷ []) })
      ≡ some 8)
    × (frame_wait_time_ms (record { fsc = 256; to_bytes = none }) ≡ 14)
unfolding fwi_from_ats frame_wait_time_ms
fwi_test = (refl, refl)
