-- ===== src/Cli/CommandTests.antt =====
-- The commands of apps/bolty-cli on a toy card.
use bolty_rs.Prelude.{
  Bool, not, ◌==◌, ℕ, ◌+◌, ◌*◌, ◌<◌, if◌then◌else◌, ◌≡◌, refl, true, false, Option, none, some,
  List, [], ◌∷◌, ok, replicate, arith,
}
use bolty_rs.Prelude.Text.{codes}
use bolty_rs.Prelude.Act.{Outcome}
use bolty_rs.Core.Keys.{AesKey, IsArray}
use bolty_rs.Cli.Diagnose.{proxy_issued}
use bolty_rs.Cli.Tool.{Desk}
use bolty_rs.Cli.Audit.{log_event, Clock, wall_utc}
use bolty_rs.Cli.Audit.Civil.{IsDate, milliseconds, wall_utc_lem}
use bolty_rs.Cli.Audit.Stamps.{log_all, starts, steps, events, goes_back, length, log_all_lem}
use bolty_rs.Cli.Looking.{desk_view}
use bolty_rs.Cli.Wipe.{WipeKeySource, WipeOptions, cmd_wipe}
use bolty_rs.Cli.Wipe.Safety.{CommandDone, CommandFailed, cmd_wipe_lem}
use bolty_rs.Cli.Burn.{BurnOptions, burned, burn_card}
use bolty_rs.Cli.Burn.Safety.{burn_card_lem}
use bolty_rs.Cli.Provision.{pos, ProvisionResponse, ProvisionKeys, parse_provision_response}
use bolty_rs.Cli.Provision.Template.{Accepted, parse_provision_response_lem}
use bolty_rs.Ntag.Toy.{ToyCard, toy, toy-IsNtag424, burn_keys, blank_card}
use bolty_rs.Cli.Fixtures.{toy_crypto, toy_rng, toy_uid, toy-IsStill, blank_desk}

abbrev burn_options : BurnOptions
burn_options = record { version = 1; dry_run = false; confirm_uid = some toy_uid; force = false }

burn_card_lem_example :
    Outcome
      (desk_view (λ c. c))
      (bolty_rs.Cli.Burn.Safety.CommandDone ⊥ toy burn_keys
        (codes "a.com/?p={picc}&c={mac}")
        burn_options
        toy_uid
        blank_card)
      (bolty_rs.Cli.Burn.Safety.CommandFailed ⊥ toy burn_keys
        (codes "a.com/?p={picc}&c={mac}")
        burn_options
        toy_uid
        blank_card)
      (burn_card toy toy_rng false burn_keys
        (codes "a.com/?p={picc}&c={mac}")
        burn_options
        proxy_issued
        blank_desk)
burn_card_lem_example =
    burn_card_lem toy toy_rng (λ c. c) toy-IsNtag424 toy_uid toy-IsStill false burn_keys
      (codes "a.com/?p={picc}&c={mac}") burn_options proxy_issued blank_desk

abbrev raw_source : WipeKeySource
raw_source = record { issuer_key = none; raw_keys = some burn_keys; version = 1 }

abbrev wipe_options : WipeOptions
wipe_options = record { dry_run = false; skip_preverify = false; confirm_uid = some toy_uid }

-- The card with the keys of the test
abbrev burned_desk : Desk ToyCard
burned_desk = record blank_desk {
  card = record blank_card {
    keys = bolty_rs.Ntag.Recovery.keys_of burn_keys;
    ndef = 0 ∷ 5 ∷ 0xd1 ∷ 1 ∷ 1 ∷ 0x55 ∷ 0 ∷ replicate 13 0;
  };
}

cmd_wipe_lem_example :
    Outcome
      (desk_view (λ c. c))
      (CommandDone ⊥ toy_crypto raw_source wipe_options.confirm_uid toy_uid burned_desk.card)
      (CommandFailed ⊥ toy_crypto raw_source wipe_options.confirm_uid toy_uid burned_desk.card)
      (cmd_wipe toy_crypto toy toy_rng false raw_source wipe_options burned_desk)
cmd_wipe_lem_example =
    cmd_wipe_lem toy_crypto toy toy_rng (λ c. c) toy-IsNtag424 toy_uid toy-IsStill false raw_source
      wipe_options burned_desk

abbrev fresh_clock : Clock
fresh_clock = record {
  lines = [];
  process_start = 5000;
  banner_written = false;
  clock_step_noted = false;
  last_stamp = 0;
  attempts = 0;
}

abbrev always : ℕ → Bool
always n = true

log_all_lem_example :
    (starts (log_all always true (6000 ∷ 4500 ∷ 2000 ∷ []) fresh_clock).lines ≡ 0 + 1)
    × (steps (log_all always true (6000 ∷ 4500 ∷ 2000 ∷ []) fresh_clock).lines
        ≡ 0 + (if goes_back 5000 0 (6000 ∷ 4500 ∷ 2000 ∷ []) then 1 else 0))
    × (events (log_all always true (6000 ∷ 4500 ∷ 2000 ∷ []) fresh_clock).lines
        ≡ 0 + length (6000 ∷ 4500 ∷ 2000 ∷ []))
unfolding starts goes_back steps length events
log_all_lem_example =
    log_all_lem always true 6000 (4500 ∷ 2000 ∷ []) fresh_clock (λ n. refl) refl refl

-- When the first attempt to open the file fails, the banner is lost.
lost_banner_test :
    (starts (log_all (λ n. not (n == 0)) true (6000 ∷ 7000 ∷ []) fresh_clock).lines ≡ 0)
    × (events (log_all (λ n. not (n == 0)) true (6000 ∷ 7000 ∷ []) fresh_clock).lines ≡ 2)
unfolding log_all log_event bolty_rs.Cli.Audit.timestamp bolty_rs.Cli.Audit.write_session_banner
    starts events
lost_banner_test = (refl, refl)

-- 2026-10-19, 12:34:56.789
wall_utc_lem_example :
    IsDate (wall_utc 1792413296789)
    × ((wall_utc 1792413296789).hour < 24)
    × ((wall_utc 1792413296789).minute < 60)
    × ((wall_utc 1792413296789).second < 60)
    × ((wall_utc 1792413296789).milli < 1000)
    × (milliseconds (wall_utc 1792413296789) ≡ 1792413296789 + 719162 * 86400000)
wall_utc_lem_example = wall_utc_lem 1792413296789

wall_utc_test :
    wall_utc 1792413296789
    ≡ record { year = 2026; month = 10; day = 19; hour = 12; minute = 34; second = 56; milli = 789 }
unfolding wall_utc bolty_rs.Cli.Audit.day_of_year bolty_rs.Cli.Audit.year_of_era
    bolty_rs.Cli.Audit.month_index
wall_utc_test = refl

-- The answer of a server; the tests read every text as this one.
abbrev a_response : ProvisionResponse
a_response = record {
  protocol_name = codes "create_bolt_card_response";
  protocol_version = pos 2;
  card_name = codes "card";
  lnurlw_base = codes " lnurlw://a.b/ln";
  k0 = codes "00112233445566778899aabbccddeeff";
  k1 = codes "00112233445566778899AABBCCDDEEFF ";
  k2 = codes "00112233445566778899aabbccddeeff";
  k3 = codes "00112233445566778899aabbccddeeff";
  k4 = codes "00112233445566778899aabbccddeeff";
  uid_privacy = codes "True";
}

abbrev response_of : List ℕ → Option ProvisionResponse
response_of body = some a_response

abbrev digits_key : AesKey
digits_key = record {
  bytes =
      0 ∷ 0x11 ∷ 0x22 ∷ 0x33 ∷ 0x44 ∷ 0x55 ∷ 0x66 ∷ 0x77 ∷ 0x88 ∷ 0x99 ∷ 0xaa ∷ 0xbb ∷ 0xcc ∷ 0xdd
      ∷ 0xee ∷ 0xff ∷ [];
}

abbrev provisioned_keys : ProvisionKeys
provisioned_keys = record {
  keys = record {
    k0 = digits_key;
    k1 = digits_key;
    k2 = digits_key;
    k3 = digits_key;
    k4 = digits_key;
  };
  url = codes "lnurlw://a.b/ln?p={picc:ctr}&c={mac}";
  uid_privacy = true;
}

parse_provision_response_test :
    parse_provision_response response_of (codes "{}") ≡ ok provisioned_keys
unfolding parse_provision_response bolty_rs.Prelude.Text.eq bolty_rs.Core.Keys.key_from_hex
    bolty_rs.Core.Hex.decode_hex bolty_rs.Core.Hex.decode_hex_into bolty_rs.Prelude.Text.len
    bolty_rs.Prelude.Text.as_bytes bolty_rs.Prelude.Text.trim bolty_rs.Core.Hex.decode_chunks
    bolty_rs.Core.Hex.decode_chunk bolty_rs.Core.Hex.decode_hex_nibble
    bolty_rs.Prelude.Text.strip_prefix bolty_rs.Prelude.Text.contains
parse_provision_response_test = refl

parse_provision_response_lem_example : Accepted response_of (codes "{}") provisioned_keys
parse_provision_response_lem_example =
    parse_provision_response_lem response_of (codes "{}") provisioned_keys
      parse_provision_response_test
