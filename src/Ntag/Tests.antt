-- ===== src/Ntag/Tests.antt =====
-- The theorems of crates/bolty-ntag on a card that follows its documentation over a sound link.
use bolty_rs.Prelude.{
  ℕ, ◌+◌, ◌≤◌, ◌≡◌, ◌≢◌, ◌⊎◌, ◌&&◌, inl, inr, refl, ◌∙◌, Bool, true, false, none, some, List, [],
  ◌∷◌, ok, err, leb, if◌then◌else◌, length, take, replicate, copy_at, Bool-cases,
}
use bolty_rs.Prelude.Text.{Text, codes, eq, eq_iff, is_some}
use bolty_rs.Core.Keys.{factory_key, zeroed_key}
use bolty_rs.Prelude.Act.{Outcome}
use bolty_rs.Ntag.Link.{
  KeyNumber, SessionError, key0, key1, key2, error_response, other_status, fixed, random, Ntag424,
  FileSettings, factory_ndef_access_rights,
}
use bolty_rs.Ntag.Burn.{BurnParams, burn, wipe, standardize_url_template}
use bolty_rs.Ntag.Burned.{BurnDone, BurnFailed, burn_lem}
use bolty_rs.Ntag.Wiped.{IsWiped, WipeFailed, wipe_lem, factory_keys}
use bolty_rs.Ntag.Reliable.{Knows, wipe-burn}
use bolty_rs.Ntag.Link.{ndef_not_empty}
use bolty_rs.Ntag.Burn.{check_key_versions}
use bolty_rs.Ntag.Ndef.{ndef_uri}
use bolty_rs.Ntag.Probe.{is_blank, with_write, first_bytes, f5probe, f5probe_lem, report}
use bolty_rs.Ntag.Inspect.{preflight, mirroring_of, live}
use bolty_rs.Ntag.Toy.{ToyCard, toy, toy-IsNtag424, key_of, burn_keys, burn_params, blank_card}

burn_lem_example :
    Outcome
      (λ v. v)
      (BurnDone ⊥ toy burn_params blank_card)
      (BurnFailed ⊥ toy burn_params blank_card)
      (burn toy burn_params (key_of 7) blank_card)
burn_lem_example = burn_lem toy (λ v. v) toy-IsNtag424 burn_params (key_of 7) blank_card

wipe_lem_example :
    Outcome
      (λ v. v)
      (λ uid card. IsWiped blank_card card)
      (WipeFailed ⊥ burn_keys blank_card)
      (wipe toy burn_keys (key_of 7) blank_card)
wipe_lem_example = wipe_lem toy (λ v. v) toy-IsNtag424 burn_keys (key_of 7) blank_card

blank_card-Knows : Knows zeroed_key.bytes factory_keys blank_card
unfolding Knows
blank_card-Knows = (refl, refl, refl, refl, refl)

wipe-burn_example :
    (burned_uid wiped_uid : List ℕ) × (burned wiped : ToyCard) × (burn toy burn_params
        (key_of 7)
        blank_card
      ≡ (burned, ok burned_uid))
    × BurnDone ⊥ toy burn_params blank_card burned_uid burned
    × (wipe toy burn_keys (key_of 8) burned ≡ (wiped, ok wiped_uid))
    × IsWiped burned wiped
wipe-burn_example =
    wipe-burn toy (λ v. v) toy-IsNtag424 burn_params (key_of 7) (key_of 8)
      (record { ndef_bytes = 5 ∷ 6 ∷ 7 ∷ []; sdm_settings = 9 }) blank_card blank_card-Knows refl
      refl refl

-- A wrong key for slot 3: the keys before it are new, the master key is still the old one.
abbrev half_known : BurnParams
half_known = record burn_params { previous_keys = record factory_keys { k3 = key_of 1 } }

half_burned_test :
    ((burn toy half_known (key_of 7) blank_card).0.keys key2 ≡ replicate 16 12)
    × ((burn toy half_known (key_of 7) blank_card).0.keys key0 ≡ factory_key)
unfolding burn bolty_rs.Prelude.Act.◌>>=◌ bolty_rs.Ntag.Link.call bolty_rs.Prelude.Act.pure
    bolty_rs.Prelude.Act.raise_if
half_burned_test = (refl, refl)

standardize_url_template_test :
    (standardize_url_template (codes "x?c={mac}") ≡ codes "x?c=[[{mac}")
    × (standardize_url_template (codes "x?c=[[{mac}") ≡ codes "x?c=[[{mac}")
unfolding standardize_url_template
standardize_url_template_test = (refl, refl)

ndef_uri_test : ndef_uri (codes "https://") (codes "a.com/?p=AB&c=CD") ≡ record {
  url = codes "https://a.com/?p=AB&c=CD";
  picc_hex = some (codes "AB");
  mac_hex = some (codes "CD");
}
unfolding ndef_uri bolty_rs.Core.Picc.parse_param bolty_rs.Prelude.Text.strip_prefix
ndef_uri_test = refl

-- A card with a file that reads as empty as a whole.
abbrev written_card : ToyCard
written_card = record blank_card { ndef = 0 ∷ 5 ∷ replicate 254 0 }

f5probe_lem_example :
    (f5probe toy (replicate 16 0) false written_card
      ≡ f5probe
          (with_write toy (λ s offset bytes c. (c, ok tt)))
          (replicate 16 0)
          false
          written_card)
    × ((false ≡ true)
        ⊎ (f5probe toy (replicate 16 0) false written_card
            ≡ (written_card, err (ndef_not_empty 16))))
unfolding is_blank eq
f5probe_lem_example =
    f5probe_lem toy (λ s offset bytes c. (c, ok tt)) (replicate 16 0) false tt tt written_card
      written_card written_card 16 (0 ∷ 5 ∷ replicate 254 0) refl (first_bytes refl refl) refl

f5probe_test : (f5probe toy (replicate 16 0) false blank_card).1 ≡ ok (report 3 3 2 1 false)
unfolding f5probe bolty_rs.Prelude.Act.◌>>=◌ bolty_rs.Ntag.Link.call eq
    bolty_rs.Prelude.Act.raise_if bolty_rs.Prelude.Act.pure
f5probe_test = refl

check_key_versions_test :
    (check_key_versions toy zeroed_key (key_of 7) blank_card).1 ≡ ok (0 ∷ 0 ∷ 0 ∷ 0 ∷ 0 ∷ [])
unfolding check_key_versions bolty_rs.Prelude.Act.◌>>=◌ bolty_rs.Ntag.Link.call eq
    bolty_rs.Prelude.Act.pure
check_key_versions_test = refl

inspect_test :
    ((preflight toy blank_card).1 ≡ ok (4 ∷ 1 ∷ 2 ∷ 3 ∷ 4 ∷ 5 ∷ 6 ∷ []))
    × (mirroring_of (some (1 ∷ [])) (some (2 ∷ [])) ≡ live)
unfolding preflight bolty_rs.Prelude.Act.◌>>=◌ bolty_rs.Ntag.Link.call bolty_rs.Prelude.Act.raise_if
    bolty_rs.Prelude.Act.pure bolty_rs.Ntag.Link.uid_to_fixed mirroring_of eq
inspect_test = (refl, refl)
