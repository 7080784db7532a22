-- ===== src/Cli/Looking/AtCard.antt =====
-- Looking at the card through the library ntag424, as the commands of apps/bolty-cli do.
use bolty_rs.Prelude.{
  ℕ, ◌≡◌, ◌≢◌, ◌⊎◌, inl, inr, refl, subst, ◌∙◌, Bool, true, false, not, ◌||◌, ◌==◌, Option, none,
  some, List, [], ◌∷◌, Result, ok, err, Bool-cases, if◌then◌else◌,
}
use bolty_rs.Prelude.Text.{Text, codes}
use bolty_rs.Prelude.Act.{pure, continued, raise_if, Outcome, continued_step, pure_lem, ◌>>=◌, ◌>>◌}
use bolty_rs.Cli.Tool.{
  bail, CliM, auth_retry_delays, Auth, accepted, refused, exhausted, tried, on_ntag, with_context,
  drawn, gen_rnd_a, attempt, ladder, judged, works,
}
use bolty_rs.Ntag.Link.{
  KeyNumber, SessionError, Error, Uid, uid_to_fixed, Ntag424, wrong_card_type, converted, call,
  is_session_auth_delay, Version,
}
use bolty_rs.Ntag.Inspect.{preflight_with_chip_check, check_chip}
use bolty_rs.Ntag.Card.{Card, IsNtag424}
use bolty_rs.Cli.Looking.{
  IsStill, desk_view, Looks, pure-Looks, lifted-Looks, then-Looks, record-Looks, tried-Looks,
  context-Looks, ntag-Looks,
}

module _ {C S Sdm T : Type 0} {Refusal : Type 0} (ops : Ntag424 C S Sdm T)
    (rng : C → C × Option (List ℕ)) (view : C → Card Sdm) (law : IsNtag424 ops view Refusal)
    (the_uid : List ℕ) (still : IsStill ops rng view the_uid) (a : Card Sdm) where
  pub gen_rnd_a-Looks : Looks T view a (λ _. Unit {0}) (gen_rnd_a rng)
  unfolding Looks gen_rnd_a Outcome
  gen_rnd_a-Looks d e = go (rng d.card) (still.rng_law d.card ∙ e)
    where
      go :
          (r : C × Option (List ℕ))
          → view r.0 ≡ a
          → Outcome
              (desk_view view)
              (λ x card. (card ≡ a) × Unit {0})
              (λ card. card ≡ a)
              (record d { card = r.0 }, drawn {T = T} r.1)
      go (c, none) h = h
      go (c, some rnd_a) h = (h, tt)

  -- A session is only given for the card's own key.
  abbrev pub Opened : KeyNumber → List ℕ → Result (SessionError T) S → Type 0
  Opened slot k (ok s) = k ≡ a.keys slot
  Opened slot k (err e) = Unit {0}

  pub authenticate-Looks :
      (slot : KeyNumber) (k rnd_a : List ℕ)
      → Looks T view a (Opened slot k) (tried (ops.authenticate_aes slot k rnd_a))
  unfolding Outcome
  authenticate-Looks slot k rnd_a =
      tried-Looks T view a (Opened slot k) (ops.authenticate_aes slot k rnd_a) (λ c e.
        go c e (ops.authenticate_aes slot k rnd_a c) (law.authenticate_aes_law slot k rnd_a c))
    where
      go :
          (c : C)
          → view c ≡ a
          → (r : C × Result (SessionError T) S)
          → Outcome view
              (λ s card. (card ≡ view c) × (k ≡ (view c).keys slot))
              (λ card. (card ≡ view c) × (Refusal ⊎ (k ≢ (view c).keys slot)))
              r
          → (view r.0 ≡ a) × Opened slot k r.1
      go c e (c', ok s) h = (h.0 ∙ e, subst (λ v. k ≡ v.keys slot) e h.1)
      go c e (c', err x) h = (h.0 ∙ e, tt)

  abbrev pub Known : KeyNumber → List ℕ → Auth → Type 0
  Known slot k accepted = k ≡ a.keys slot
  Known slot k refused = Unit {0}
  Known slot k exhausted = Unit {0}

  attempt-Looks :
      (slot : KeyNumber) (k : List ℕ) (delayed : CliM C T Auth)
      → Looks T view a (Known slot k) delayed
      → Looks T view a (Known slot k) (attempt ops rng slot k delayed)
  unfolding attempt
  attempt-Looks slot k delayed look =
      then-Looks T view a _ _ _ _ gen_rnd_a-Looks
        λ rnd_a _. then-Looks T view a _ _ _ _ (authenticate-Looks slot k rnd_a) (go look)
    where
      go :
          Looks T view a (Known slot k) delayed
          → (r : Result (SessionError T) S) → Opened slot k r
          → Looks T view a (Known slot k) (elim r [
            | ok s ↦ pure accepted
            | err e ↦ if is_session_auth_delay e then delayed else pure refused
          ])
      go look (ok s) h = pure-Looks T view a (Known slot k) accepted h
      go look (err e) h = elim (Bool-cases (is_session_auth_delay e)) [
        | inl t ↦ rw t look
        | inr f ↦ rw f (pure-Looks T view a (Known slot k) refused tt)
      ]

  pub ladder-Looks :
      (delays : List ℕ) (slot : KeyNumber) (k : List ℕ)
      → Looks T view a (Known slot k) (ladder ops rng delays slot k)
  unfolding ladder
  ladder-Looks [] slot k = attempt-Looks slot k _ (pure-Looks T view a (Known slot k) exhausted tt)
  ladder-Looks (delay ∷ delays) slot k = attempt-Looks slot k _ (ladder-Looks delays slot k)

  abbrev pub Proved : KeyNumber → List ℕ → Bool → Type 0
  Proved slot k true = k ≡ a.keys slot
  Proved slot k false = Unit {0}

  -- A key that works is the card's.
  pub works-Looks :
      (slot : KeyNumber) (k : List ℕ) → Looks T view a (Proved slot k) (works ops rng slot k)
  unfolding works
  works-Looks slot k = then-Looks T view a _ _ _ _ (ladder-Looks auth_retry_delays slot k) (judge)
    where
      judge :
          (r : Auth)
          → Known slot k r
          → Looks T view a (Proved slot k) (judged (bail (codes "attempts exhausted")) r)
      judge accepted h = pure-Looks T view a (Proved slot k) true h
      judge exhausted h = lifted-Looks T view a (Proved slot k) _
      judge refused h =
          then-Looks T view a _ _ _ _ (record-Looks T view a)
            (λ _ _. pure-Looks T view a (Proved slot k) false tt)

  unchanged :
      {A : Type 0} (P : A → Card Sdm → Type 0) (Y : Card Sdm → Type 0) (b : Card Sdm)
      (p : C × Result (SessionError T) A)
      → Outcome view P (λ card. (card ≡ b) × Y card) p
      → ((r : A) (card : Card Sdm) → P r card → card ≡ b)
      → view p.0 ≡ b
  unfolding Outcome
  unchanged P Y b (c, ok r) h same = same r (view c) h
  unchanged P Y b (c, err x) h same = h.0

  pub get_file_settings-Looks :
      (message : Text) (s : S)
      → Looks T view a (λ _. Unit {0}) (with_context message (ops.get_file_settings s))
  get_file_settings-Looks message s =
      context-Looks T view a message (ops.get_file_settings s) (λ c e.
        unchanged _ _ (view c) (ops.get_file_settings s c) (law.get_file_settings_law s c)
          (λ _ _ h. h.0)
        ∙ e)

  pub read_file_plain-Looks :
      (message : Text) (s : S) (len : ℕ) (buf : List ℕ)
      → Looks T view a (λ _. Unit {0}) (with_context message (ops.read_file_plain s 0 len buf))
  read_file_plain-Looks message s len buf =
      context-Looks T view a message (ops.read_file_plain s 0 len buf) (λ c e.
        unchanged _ _ (view c) (ops.read_file_plain s 0 len buf c)
          (law.read_file_plain_law s len buf c) (λ _ _ h. h.0)
        ∙ e)

  pub read_file_unauthenticated-Looks :
      (message : Text) (offset : ℕ) (buf : List ℕ)
      → Looks T view a
          (λ _. Unit {0})
          (with_context message (ops.read_file_unauthenticated offset buf))
  read_file_unauthenticated-Looks message offset buf =
      context-Looks T view a message (ops.read_file_unauthenticated offset buf)
        (λ c e. still.read_file_unauthenticated_law offset buf c ∙ e)

  check_chip_lem :
      (assume : Bool) (c : C)
      → view c ≡ a
      → Outcome view (λ _ card. card ≡ a) (λ card. card ≡ a) (check_chip ops assume c)
  unfolding check_chip Outcome pure ◌>>=◌ continued call converted raise_if
  check_chip_lem true c e = e
  check_chip_lem false c e = go (ops.get_version c) (still.get_version_law c ∙ e)
    where
      go :
          (p : C × Result (SessionError T) Version)
          → view p.0 ≡ a
          → Outcome view
              (λ _ card. card ≡ a)
              (λ card. card ≡ a)
              (continued
                (λ version.
                  raise_if
                    (not (version.hw_vendor_id == 4) || not (version.hw_type == 4))
                    (wrong_card_type version.hw_vendor_id version.hw_type))
                (converted p))
      go (c', err x) h = h
      go (c', ok version) h =
          elim (Bool-cases (not (version.hw_vendor_id == 4) || not (version.hw_type == 4))) [
            | inl t ↦ rw t h
            | inr f ↦ rw f h
          ]

  uid_step :
      (assume : Bool) (p : C × Result (SessionError T) Uid)
      → view p.0 ≡ a
      → ((uid : Uid) → p.1 ≡ ok uid → uid_to_fixed uid ≡ the_uid)
      → Outcome view
          (λ uid card. (card ≡ a) × (uid ≡ the_uid))
          (λ card. card ≡ a)
          (continued (λ uid. check_chip ops assume >> pure (uid_to_fixed uid)) (converted p))
  unfolding Outcome continued converted
  uid_step assume (c, err x) h same = h
  uid_step assume (c, ok uid) h same =
      continued_step view (λ card. card ≡ a) (check_chip ops assume) (λ _. pure (uid_to_fixed uid))
        (λ _ card. card ≡ a) (λ uid card. (card ≡ a) × (uid ≡ the_uid)) c
        (check_chip_lem assume c h)
        (λ r c' e.
          pure_lem (Error T) view (λ card. card ≡ a) (λ uid card. (card ≡ a) × (uid ≡ the_uid))
            (uid_to_fixed uid) c' (e, same uid refl))

  -- The UID that a command works with is that of the card in the field.
  pub preflight-Looks :
      (assume : Bool)
      → Looks T view a (λ uid. uid ≡ the_uid) (on_ntag (preflight_with_chip_check ops assume))
  unfolding preflight_with_chip_check ◌>>=◌ call
  preflight-Looks assume =
      ntag-Looks T view a (λ uid. uid ≡ the_uid) (preflight_with_chip_check ops assume)
        (λ c e.
          uid_step assume (ops.get_selected_uid c)
            (unchanged _ _ (view c) (ops.get_selected_uid c) (law.get_selected_uid_law c)
                (λ _ _ h. h)
              ∙ e)
            (still.uid_law c))
