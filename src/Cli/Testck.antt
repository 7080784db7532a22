-- ===== src/Cli/Testck.antt =====
-- apps/bolty-cli/src/testck.rs: the command that changes key 1 of a blank card and changes it back.
pub mod Steps
pub mod RoundTrip
use bolty_rs.Prelude.{ℕ, not, Option, some, List, [], ◌∷◌, Result, ok, err, ◌==◌, replicate}
use bolty_rs.Prelude.Text.{codes}
use bolty_rs.Prelude.Act.{pure, raise_if, ◌>>=◌, ◌>>◌}
use bolty_rs.Cli.Diagnose.{static_test_key}
use bolty_rs.Cli.Tool.{
  noted, bail, CliM, log_event_with_provenance, with_context, in_session, gen_rnd_a,
}
use bolty_rs.Ntag.Link.{key0, key1, non_master_key1, Ntag424}

abbrev pub test_key : List ℕ
test_key =
    0xaa ∷ 0xbb ∷ 0xcc ∷ 0xdd ∷ 0x11 ∷ 0x22 ∷ 0x33 ∷ 0x44 ∷ 0x55 ∷ 0x66 ∷ 0x77 ∷ 0x88 ∷ 0x99 ∷ 0
    ∷ 0xee ∷ 0xff ∷ []

module _ {C S Sdm T : Type 0} (ops : Ntag424 C S Sdm T) (rng : C → C × Option (List ℕ)) where
  -- The second step and what follows it
  unfoldable pub change_back : S → CliM C T (Unit {0})
  change_back session = do
    session1 ←
        with_context (codes "ChangeKey step 2 failed")
          (ops.change_key session non_master_key1 (replicate 16 0) 0 test_key)
    (kv_final, session2) ← in_session (ops.get_key_version session1 key1)
    raise_if (not (kv_final == 0)) (bail (codes "Step 2 FAIL"))
    log_event_with_provenance (noted (codes "testck: ALL PASS")) (some static_test_key)

  -- The first step and what follows it
  unfoldable pub change_there : S → CliM C T (Unit {0})
  unfolding change_back
  change_there session = do
    session1 ←
        with_context (codes "ChangeKey step 1 failed")
          (ops.change_key session non_master_key1 test_key 1 (replicate 16 0))
    (kv_mid, session2) ← in_session (ops.get_key_version session1 key1)
    raise_if (not (kv_mid == 1)) (bail (codes "Step 1 FAIL"))
    change_back session2

  -- From the authentication on
  unfoldable pub authenticated : List ℕ → CliM C T (Unit {0})
  unfolding change_there
  authenticated rnd_a = do
    session ←
        with_context (codes "factory K0 auth failed")
          (ops.authenticate_aes key0 (replicate 16 0) rnd_a)
    (kv_before, session1) ← in_session (ops.get_key_version session key1)
    raise_if (not (kv_before == 0)) (bail (codes "Key 1 not at factory"))
    change_there session1

  unfoldable pub cmd_testck : CliM C T (Unit {0})
  unfolding authenticated
  cmd_testck = do
    uid ← with_context (codes "failed to read UID") ops.get_selected_uid
    log_event_with_provenance (noted (codes "testck: starting")) (some static_test_key)
    rnd_a ← gen_rnd_a rng
    authenticated rnd_a
