-- ===== src/Ntag/Versions.antt =====
-- What `check_key_versions` of crates/bolty-ntag/src/lib.rs returns.
use bolty_rs.Prelude.{◌≡◌, refl, ap, List, [], ◌∷◌, map}
use bolty_rs.Prelude.Act.{Outcome, continued_step, pure_lem}
use bolty_rs.Core.Keys.{AesKey}
use bolty_rs.Ntag.Link.{Error, KeyNumber, key0, key1, key2, key3, key4, Ntag424}
use bolty_rs.Ntag.Burn.{read_key_versions, check_key_versions}
use bolty_rs.Ntag.Card.{Card, IsNtag424}
use bolty_rs.Ntag.Steps.{authenticate_step, get_key_version_step}

module _ {C S Sdm T : Type 0} {Refusal : Type 0} (ops : Ntag424 C S Sdm T) (view : C → Card Sdm)
    (law : IsNtag424 ops view Refusal) where
  read_versions :
      (key_numbers : List KeyNumber) (s : S) (a : Card Sdm) (c : C)
      → view c ≡ a
      → Outcome view
          (λ versions card. (card ≡ a) × (versions ≡ map a.versions key_numbers))
          (λ card. card ≡ a)
          (read_key_versions ops key_numbers s c)
  unfolding read_key_versions
  read_versions [] s a c e = pure_lem (Error T) view _ _ [] c (e, refl)
  read_versions (kn ∷ key_numbers) s a c e =
      get_key_version_step ops view law _ _ s kn _ a c e (λ r. refl)
        λ s1 c1 e1.
          continued_step view _ _ _ _ _ c1 (read_versions key_numbers s1 a c1 e1) λ versions c2 h.
            pure_lem (Error T) view _ _ (a.versions kn ∷ versions) c2
              (h.0, ap (λ t. a.versions kn ∷ t) h.1)

  -- The answer to a check of the versions is those of the keys 0 to 4, in that order; the card is
  -- left as it was, also when the check fails.
  pub check_key_versions_lem :
      (k rnd_a : AesKey) (c : C)
      → Outcome view
          (λ versions card.
            (card ≡ view c)
            × (versions ≡ map (view c).versions (key0 ∷ key1 ∷ key2 ∷ key3 ∷ key4 ∷ [])))
          (λ card. card ≡ view c)
          (check_key_versions ops k rnd_a c)
  unfolding check_key_versions
  check_key_versions_lem k rnd_a c =
      authenticate_step ops view law _ _ key0 k.bytes rnd_a.bytes _ (view c) c refl (λ w. refl)
        λ s c1 e1 right. read_versions (key0 ∷ key1 ∷ key2 ∷ key3 ∷ key4 ∷ []) s (view c) c1 e1
