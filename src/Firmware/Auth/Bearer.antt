-- ===== src/Firmware/Auth/Bearer.antt =====
-- Which tokens rest.rs accepts.
use Prim.Native.Nat.{bit_or, bit_xor}
use bolty_rs.Prelude.{
  ℕ, zero, suc, ◌+◌, ◌-◌, ◌≤◌, ◌<◌, ◌≡◌, ◌↔◌, refl, sym, subst, Bool, true, false, Option, none,
  some, List, [], ◌∷◌, ◌++◌, ltb, ◌==◌, length, get_or, All, and_true, length-append, arith,
  Bool-cases, Option-cases, inl, inr, ◌⊎◌,
}
use bolty_rs.Prelude.Bits.{bit_or-eq_zero, bit_xor-eq_zero, bit_xor_self}
use bolty_rs.Prelude.Text.{
  Text, codes, len, as_bytes, utf8_char, eq, eq_ignore_ascii_case, to_ascii_lowercase,
  to_ascii_lowercase_char, len-append,
}
use bolty_rs.Core.Config.{BoltyConfig}
use bolty_rs.Firmware.Auth.{
  max, TokenScope, diff_from, token_eq, split_at, bearer_token, expected_token, is_authorized,
}

diff_from-eq_zero :
    (count index : ℕ) (xs ys : List ℕ) (diff : ℕ)
    → diff_from count index xs ys diff ≡ 0
    → (diff ≡ 0) × ((j : ℕ) → index ≤ j → j < index + count → get_or xs j 0 ≡ get_or ys j 0)
unfolding diff_from
diff_from-eq_zero zero index xs ys diff h = (h, λ j p q. absurd (omega arith))
diff_from-eq_zero (suc count) index xs ys diff h =
    let (d, same) =
      diff_from-eq_zero count (suc index) xs ys
        (bit_or diff (bit_xor (get_or xs index 0) (get_or ys index 0))) h in
    let (e, f) = bit_or-eq_zero diff (bit_xor (get_or xs index 0) (get_or ys index 0)) d in
    (
      e,
      λ j p q. elim (Bool-cases (ltb index j)) [
        | inl later ↦ same j (ground arith) (omega arith)
        | inr here ↦
            let at : j ≡ index = ground arith in
            rw at (bit_xor-eq_zero (get_or xs index 0) (get_or ys index 0) f)
      ],
    )

diff_from_self : (count index : ℕ) (xs : List ℕ) → diff_from count index xs xs 0 ≡ 0
unfolding diff_from
diff_from_self zero index xs = refl
diff_from_self (suc count) index xs =
    rw (bit_xor_self (get_or xs index 0)) (diff_from_self count (suc index) xs)

get_or-ext :
    (xs ys : List ℕ)
    → length xs ≡ length ys
    → ((j : ℕ) → j < length xs → get_or xs j 0 ≡ get_or ys j 0)
    → xs ≡ ys
get_or-ext [] [] n h = refl
get_or-ext [] (y ∷ ys) n h = absurd (omega arith)
get_or-ext (x ∷ xs) [] n h = absurd (omega arith)
get_or-ext (x ∷ xs) (y ∷ ys) n h =
    let head : x ≡ y = h 0 (omega arith) in
    let tail : xs ≡ ys = get_or-ext xs ys (omega arith) (λ j p. h (suc j) (omega arith)) in
    rw (head, tail) refl

diff_from-eq :
    (xs ys : List ℕ)
    → diff_from (max (length xs) (length ys)) 0 xs ys (bit_xor (length xs) (length ys)) ≡ 0
    → xs ≡ ys
diff_from-eq xs ys h =
    let (n, same) =
      diff_from-eq_zero (max (length xs) (length ys)) 0 xs ys (bit_xor (length xs) (length ys)) h in
    get_or-ext xs ys (bit_xor-eq_zero (length xs) (length ys) n)
      (λ j p. same j (ground arith) (ground arith))

diff_from_refl :
    (xs : List ℕ)
    → diff_from (max (length xs) (length xs)) 0 xs xs (bit_xor (length xs) (length xs)) ≡ 0
diff_from_refl xs =
    rw (bit_xor_self (length xs)) (diff_from_self (max (length xs) (length xs)) 0 xs)

-- The comparison of tokens is equality, also for tokens of different lengths.
pub token_eq_iff : (xs ys : List ℕ) → (token_eq xs ys ≡ true) ↔ (xs ≡ ys)
unfolding token_eq
token_eq_iff xs ys =
    ((λ e. diff_from-eq xs ys (ground arith)), (λ e. rw (e, diff_from_refl ys) refl))

utf8_char-positive : (c : ℕ) → 0 < length (utf8_char c)
utf8_char-positive c = ground arith

split_at-cons :
    (n c : ℕ) (s front back : Text)
    → length (utf8_char c) ≤ n
    → split_at (n - length (utf8_char c)) s ≡ some (front, back)
    → split_at n (c ∷ s) ≡ some (c ∷ front, back)
unfolding split_at
split_at-cons zero c s front back p e = let q = utf8_char-positive c in absurd (omega arith)
split_at-cons (suc n) c s front back p e = ground arith

split_at-append :
    (front back : Text) → split_at (length (as_bytes front)) (front ++ back) ≡ some (front, back)
unfolding split_at as_bytes
split_at-append [] back = refl
split_at-append (c ∷ front) back =
    let whole = length-append (utf8_char c) (as_bytes front) in
    let less : length (utf8_char c ++ as_bytes front) - length (utf8_char c)
        ≡ length (as_bytes front) =
      omega arith in
    split_at-cons (length (utf8_char c ++ as_bytes front)) c (front ++ back) front back
      (omega arith) (rw less (split_at-append front back))

split_at-inverse :
    (n : ℕ) (s front back : Text) → split_at n s ≡ some (front, back) → s ≡ front ++ back
unfolding split_at
split_at-inverse zero s front back e = ground arith
split_at-inverse (suc n) [] front back e = ground arith
split_at-inverse (suc n) (c ∷ s) front back e =
    elim (Option-cases (split_at (suc n - length (utf8_char c)) s)) [
      | inl stuck ↦ ground arith
      | inr ((front', back'), found) ↦
          ground (arith, split_at-inverse (suc n - length (utf8_char c)) s front' back' found)
    ]

-- A header that carries a token: the scheme in any case, one blank, and the token behind it.
unfoldable pub Carries : Option Text → Text → Type 0
Carries header token =
    (scheme : Text) × (header ≡ some (scheme ++ token))
    × (eq_ignore_ascii_case scheme (codes "Bearer ") ≡ true)

lower-ascii : (c d : ℕ) → to_ascii_lowercase_char c ≡ d → d < 128 → length (utf8_char c) ≡ 1
lower-ascii c d e p = ground arith

folded-length :
    (a b : Text) → eq (to_ascii_lowercase a) b ≡ true → All (λ d. d < 128) b → len a ≡ length b
unfolding eq to_ascii_lowercase len as_bytes
folded-length [] [] e p = refl
folded-length [] (d ∷ b) e p = ground arith
folded-length (c ∷ a) [] e p = ground arith
folded-length (c ∷ a) (d ∷ b) e (p, ps) =
    let (x, y) = and_true (to_ascii_lowercase_char c == d) (eq (to_ascii_lowercase a) b) e in
    let same : to_ascii_lowercase_char c ≡ d = ground arith in
    let one = lower-ascii c d same p in
    let rest = folded-length a b y ps in
    let both = length-append (utf8_char c) (as_bytes a) in omega arith

bearer-length :
    (scheme : Text) → eq_ignore_ascii_case scheme (codes "Bearer ") ≡ true → len scheme ≡ 7
unfolding eq_ignore_ascii_case to_ascii_lowercase
bearer-length scheme e =
    folded-length scheme (to_ascii_lowercase (codes "Bearer ")) e (ground arith)

bearer_token-Carries :
    (header token : Text)
    → bearer_token (some header) ≡ some (some token)
    → Carries (some header) token
unfolding bearer_token Carries
bearer_token-Carries header token e = elim (Option-cases (split_at 7 header)) [
  | inl stuck ↦ ground arith
  | inr ((scheme, back), found) ↦
      let whole = split_at-inverse 7 header scheme back found in
      (scheme, ground arith, ground arith)
]

carries-bearer_token :
    (scheme token : Text)
    → eq_ignore_ascii_case scheme (codes "Bearer ") ≡ true
    → bearer_token (some (scheme ++ token)) ≡ some (some token)
unfolding bearer_token len
carries-bearer_token scheme token e =
    let seven : length (as_bytes scheme) ≡ 7 = bearer-length scheme e in
    let found : split_at 7 (scheme ++ token) ≡ some (scheme, token) =
      rw seven at (split_at-append scheme token) in
    let long = len-append scheme token in
    let long_enough : ltb (len (scheme ++ token)) 7 ≡ false = ground arith in
    rw (long_enough, found, e) refl

pub bearer_token_iff :
    (header : Option Text) (token : Text)
    → (bearer_token header ≡ some (some token)) ↔ Carries header token
unfolding Carries bearer_token
bearer_token_iff none token = ground arith
bearer_token_iff (some header) token = (
  bearer_token-Carries header token,
  λ (scheme, e, f).
      let same : header ≡ scheme ++ token = ground arith in
      subst (λ t. bearer_token (some t) ≡ some (some token)) (sym same)
        (carries-bearer_token scheme token f),
)

-- Who is entitled to a scope: everyone while it has no token, and else who shows that token.
unfoldable pub IsEntitled : Option Text → BoltyConfig → TokenScope → Type 0
IsEntitled header config scope =
    (expected_token scope config ≡ none)
    ⊎ ((expected : Text) × (provided : Text) × (expected_token scope config ≡ some expected)
        × Carries header provided
        × (as_bytes expected ≡ as_bytes provided))

authorized-IsEntitled :
    (header : Option Text) (config : BoltyConfig) (scope : TokenScope)
    → is_authorized true header config scope ≡ some true
    → IsEntitled header config scope
unfolding is_authorized IsEntitled
authorized-IsEntitled header config scope e = elim (Option-cases (expected_token scope config)) [
  | inl open_door ↦ inl open_door
  | inr (expected, set) ↦ elim (Option-cases (bearer_token header)) [
    | inl stuck ↦ ground arith
    | inr (o, found) ↦ elim (Option-cases o) [
      | inl missing ↦ ground arith
      | inr (provided, shown) ↦ inr (
        expected,
        provided,
        set,
        (bearer_token_iff header provided).0 (ground arith),
        (token_eq_iff (as_bytes expected) (as_bytes provided)).0 (ground arith),
      )
    ]
  ]
]

entitled-is_authorized :
    (header : Option Text) (config : BoltyConfig) (scope : TokenScope)
    → IsEntitled header config scope
    → is_authorized true header config scope ≡ some true
unfolding is_authorized IsEntitled
entitled-is_authorized header config scope (inl open_door) = ground arith
entitled-is_authorized header config scope (inr (expected, provided, set, carries, same)) =
    let shown = (bearer_token_iff header provided).1 carries in
    let equal = (token_eq_iff (as_bytes expected) (as_bytes provided)).1 same in ground arith

-- A request is let in if and only if the configuration's lock could be taken and either the scope has
-- no token or the header is a Bearer header that carries exactly the bytes of the scope's token.
pub is_authorized_iff :
    (locked : Bool) (header : Option Text) (config : BoltyConfig) (scope : TokenScope)
    → (is_authorized locked header config scope ≡ some true)
      ↔ ((locked ≡ true) × IsEntitled header config scope)
unfolding is_authorized
is_authorized_iff false header config scope = ground arith
is_authorized_iff true header config scope = (
  (λ e. (refl, authorized-IsEntitled header config scope e)),
  (λ (e, w). entitled-is_authorized header config scope w),
)
