-- ===== src/Firmware/OtaServer/Tests.antt =====
-- One push of ota_server.rs to a toy partition of 64 bytes: the socket sends `input`, then zeros.
use bolty_rs.Prelude.{
  ℕ, ◌≡◌, refl, Bool, true, false, none, some, List, [], ◌∷◌, ◌++◌, ok, err, arith, length,
  replicate, overwrite, drop, length-overwrite, length-replicate, ◌∙◌, sym, ap, inl, inr,
}
use bolty_rs.Prelude.Act.{Outcome}
use bolty_rs.Prelude.Text.{codes}
use bolty_rs.Firmware.OtaServer.{OtaHost, handle}
use bolty_rs.Firmware.OtaServer.Slots.{
  Slot, closed, opened, verified, booting, IsOtaHost, IsPushed, Harmless,
}
use bolty_rs.Firmware.OtaServer.Install.{handle_lem}

pub record Board : Type 0 where
  pub input : List ℕ
  pub slot : Slot

abbrev written : List ℕ → Slot → Slot
written bs (opened out) = opened (out ++ bs)
written bs s = s

abbrev ended : Slot → Slot
ended (opened out) = verified out
ended s = s

abbrev booted : Slot → Slot
booted (verified out) = booting out
booted s = s

abbrev toy_host : OtaHost Board
toy_host = record {
  read_exact =
      λ c n. (record c { input = drop n c.input }, some (overwrite c.input (replicate n 0)));
  next_update_partition = some 64;
  esp_ota_begin = λ c. (record c { slot = opened [] }, true);
  esp_ota_write = λ c bs. (record c { slot = written bs c.slot }, true);
  esp_ota_abort = λ c. record c { slot = closed };
  esp_ota_end = λ c. (record c { slot = ended c.slot }, true);
  esp_ota_set_boot_partition = λ c. (record c { slot = booted c.slot }, true);
}

toy_read_length :
    (c : Board) (n : ℕ) (bs : List ℕ) → (toy_host.read_exact c n).1 ≡ some bs → length bs ≡ n
toy_read_length c n bs e =
    let n_bytes : length (overwrite c.input (replicate n 0)) ≡ n =
      length-overwrite c.input (replicate n 0) ∙ length-replicate n 0 in
    ground (arith, e, n_bytes)

toy_host-IsOtaHost : IsOtaHost toy_host (λ c. c.slot)
toy_host-IsOtaHost = record {
  read_law = λ c n. refl;
  read_length = toy_read_length;
  begin_law = λ c e. refl;
  write_law = λ c bs out e _. ap (written bs) e;
  abort_law = λ c. refl;
  end_law = λ c out e. ap ended e;
  boot_law = λ c out e. ap booted e;
}

-- "OTA1", the size 3, and the image
abbrev a_push : Board
a_push = record {
  input = 0x4f ∷ 0x54 ∷ 0x41 ∷ 0x31 ∷ 3 ∷ 0 ∷ 0 ∷ 0 ∷ 7 ∷ 8 ∷ 9 ∷ [];
  slot = closed;
}

handle_test :
    ((handle toy_host none a_push).0.slot ≡ booting (7 ∷ 8 ∷ 9 ∷ []))
    × (handle toy_host (some (replicate 32 1)) a_push ≡ (
      record a_push { input = 7 ∷ 8 ∷ 9 ∷ [] },
      err (codes "OTA1 refused: this build requires a token (use OTA2)"),
    ))
unfolding handle bolty_rs.Prelude.Act.◌>>=◌ bolty_rs.Firmware.OtaServer.stream_image
    bolty_rs.Firmware.OtaServer.install bolty_rs.Firmware.OtaServer.checked_read
    bolty_rs.Firmware.OtaServer.lift_text bolty_rs.Firmware.OtaServer.fits_partition
    bolty_rs.Firmware.OtaHeader.validate_size bolty_rs.Firmware.OtaServer.authenticated
    bolty_rs.Prelude.Text.eq bolty_rs.Firmware.OtaHeader.authorize
    bolty_rs.Firmware.OtaServer.checked_call bolty_rs.Firmware.OtaServer.or_abort
    bolty_rs.Prelude.Act.pure
handle_test = (refl, refl)

handle_lem_example :
    Outcome
      (λ c. c.slot)
      (λ _. IsPushed toy_host none (toy_host.read_exact a_push 8))
      Harmless
      (handle toy_host none a_push)
handle_lem_example = handle_lem toy_host (λ c. c.slot) toy_host-IsOtaHost none a_push refl
