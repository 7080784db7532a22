-- ===== src/Cli/Fixtures.antt =====
-- A toy card at a desk, for the tests of apps/bolty-cli.
use bolty_rs.Prelude.{ℕ, ◌≡◌, refl, Option, none, some, List, [], ◌∷◌, ok, replicate, arith}
use bolty_rs.Core.Crypto.{Crypto}
use bolty_rs.Core.Keys.{IsArray}
use bolty_rs.Cli.Tool.{Desk}
use bolty_rs.Cli.Looking.{IsStill}
use bolty_rs.Ntag.Link.{KeyNumber, fixed}
use bolty_rs.Ntag.Toy.{ToyCard, toy, blank_card}

pub zeros : IsArray 16 (replicate 16 0)
zeros = ground arith

-- A MAC that is always zero; the raw keys of the tests do not use it.
abbrev pub toy_crypto : Crypto
toy_crypto = record {
  aes_cmac = λ k m. replicate 16 0;
  aes_cmac-IsArray = λ k m. zeros;
  cbc_decrypt = λ k iv block. some block;
  cbc_decrypt-IsArray = λ k iv block h. (block, refl, h);
}

-- A generator that always gives the same bytes.
abbrev pub toy_rng : ToyCard → ToyCard × Option (List ℕ)
toy_rng c = (c, some (replicate 16 7))

abbrev pub toy_uid : List ℕ
toy_uid = 4 ∷ 1 ∷ 2 ∷ 3 ∷ 4 ∷ 5 ∷ 6 ∷ []

pub toy_uid_law :
    (c : ToyCard) (uid : bolty_rs.Ntag.Link.Uid)
    → (toy.get_selected_uid c).1 ≡ ok uid
    → bolty_rs.Ntag.Link.uid_to_fixed uid ≡ toy_uid
unfolding bolty_rs.Ntag.Link.uid_to_fixed
toy_uid_law c uid e = ground (arith, e)

pub toy-IsStill : IsStill toy toy_rng (λ c. c) toy_uid
toy-IsStill = record {
  rng_law = λ c. refl;
  get_version_law = λ c. refl;
  read_file_unauthenticated_law = λ offset buf c. refl;
  uid_law = toy_uid_law;
}

pub toy_undrawn : (c : ToyCard) → (toy_rng c).1 ≡ none → ⊥
toy_undrawn c h = ground (arith, h)

abbrev pub blank_desk : Desk ToyCard
blank_desk = record { card = blank_card; auth_failures = 0; audit = [] }
