-- ===== src/Cli/KeyTests.antt =====
-- The commands of apps/bolty-cli that look for keys, on a toy card.
use bolty_rs.Prelude.{◌≡◌, replicate}
use bolty_rs.Prelude.Act.{Outcome}
use bolty_rs.Cli.Looking.{desk_view}
use bolty_rs.Ntag.Toy.{toy, toy-IsNtag424, blank_card}
use bolty_rs.Cli.Fixtures.{toy_crypto, toy_rng, toy_uid, toy-IsStill, toy_undrawn, blank_desk}
use bolty_rs.Cli.Scan.{candidates, cmd_scan_keys}
use bolty_rs.Cli.Scan.Answers.{Scanned}
use bolty_rs.Cli.Scan.Finds.{cmd_scan_keys_lem}
use bolty_rs.Cli.Testck.{cmd_testck}
use bolty_rs.Cli.Testck.RoundTrip.{Passed, Stopped, cmd_testck_lem}

cmd_scan_keys_lem_example :
    Outcome
      (desk_view (λ c. c))
      (λ r card.
        (card ≡ blank_card)
        × Scanned ⊥ blank_card (candidates toy_crypto (replicate 16 1) toy_uid) r)
      (λ card. card ≡ blank_card)
      (cmd_scan_keys toy toy_rng toy_crypto (replicate 16 1) 5 blank_desk)
cmd_scan_keys_lem_example =
    cmd_scan_keys_lem toy toy_rng (λ c. c) toy-IsNtag424 toy_uid toy-IsStill toy_undrawn toy_crypto
      (replicate 16 1) 5 blank_desk

cmd_testck_lem_example :
    Outcome
      (desk_view (λ c. c))
      (Passed blank_card)
      (Stopped blank_card ⊥)
      (cmd_testck toy toy_rng blank_desk)
cmd_testck_lem_example =
    cmd_testck_lem toy toy_rng (λ c. c) toy-IsNtag424 toy_uid toy-IsStill toy_undrawn blank_desk
