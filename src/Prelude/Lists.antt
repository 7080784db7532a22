-- ===== src/Prelude/Lists.antt =====
-- Lists measured and indexed by native numbers, under the library's names.
use Prim.Native.Nat.{ℕ, zero, suc, ◌+◌, ◌≤◌, min}
use mathlib.Core.Path.{◌≡◌, refl, ap}
use mathlib.Core.List.{List, [], ◌∷◌, ◌++◌, map}
use mathlib.Core.Option.{Option, none, some}
use native.Mathlib.Omega.{arith}

module _ {ℓ} {A : Type ℓ} where
  abbrev pub length : List A → ℕ
  length [] = 0
  length (x ∷ xs) = suc (length xs)

  abbrev pub get_elem? : List A → ℕ → Option A
  get_elem? [] i = none
  get_elem? (x ∷ xs) zero = some x
  get_elem? (x ∷ xs) (suc i) = get_elem? xs i

  abbrev pub get_or : List A → ℕ → A → A
  get_or [] i d = d
  get_or (x ∷ xs) zero d = x
  get_or (x ∷ xs) (suc i) d = get_or xs i d

  abbrev pub take : ℕ → List A → List A
  take zero xs = []
  take (suc n) [] = []
  take (suc n) (x ∷ xs) = x ∷ take n xs

  abbrev pub drop : ℕ → List A → List A
  drop zero xs = xs
  drop (suc n) [] = []
  drop (suc n) (x ∷ xs) = drop n xs

  abbrev pub replicate : ℕ → A → List A
  replicate zero a = []
  replicate (suc n) a = a ∷ replicate n a

  abbrev pub All {κ} : (A → Type κ) → List A → Type κ
  All P [] = Unit {κ}
  All P (x ∷ xs) = P x × All P xs

  -- `dst[at..at + src.len()].copy_from_slice(src)`; what would pass the end is dropped
  abbrev pub overwrite : List A → List A → List A
  overwrite [] dst = dst
  overwrite (x ∷ src) [] = []
  overwrite (x ∷ src) (y ∷ dst) = x ∷ overwrite src dst

  abbrev pub copy_at : ℕ → List A → List A → List A
  copy_at zero src dst = overwrite src dst
  copy_at (suc n) src [] = []
  copy_at (suc n) src (y ∷ dst) = y ∷ copy_at n src dst

  pub length-replicate : (n : ℕ) (a : A) → length (replicate n a) ≡ n
  length-replicate zero a = refl
  length-replicate (suc n) a = ap suc (length-replicate n a)

  pub length-append : (xs ys : List A) → length (xs ++ ys) ≡ length xs + length ys
  length-append [] ys = omega arith
  length-append (x ∷ xs) ys = omega (arith, length-append xs ys)

  pub length-overwrite : (src dst : List A) → length (overwrite src dst) ≡ length dst
  length-overwrite [] dst = refl
  length-overwrite (x ∷ src) [] = refl
  length-overwrite (x ∷ src) (y ∷ dst) = ap suc (length-overwrite src dst)

module _ {ℓ} {A : Type ℓ} where
  pub length-copy_at : (n : ℕ) (src dst : List A) → length (copy_at n src dst) ≡ length dst
  length-copy_at zero src dst = length-overwrite src dst
  length-copy_at (suc n) src [] = refl
  length-copy_at (suc n) src (y ∷ dst) = ap suc (length-copy_at n src dst)

  pub length-take : (n : ℕ) (xs : List A) → length (take n xs) ≡ min n (length xs)
  length-take zero xs = omega arith
  length-take (suc n) [] = omega arith
  length-take (suc n) (x ∷ xs) = omega (arith, length-take n xs)

  pub length-map {κ} : {B : Type κ} (f : A → B) (xs : List A) → length (map f xs) ≡ length xs
  length-map f [] = refl
  length-map f (x ∷ xs) = ap suc (length-map f xs)

  pub All-append {κ} : (P : A → Type κ) (xs ys : List A) → All P xs → All P ys → All P (xs ++ ys)
  All-append P [] ys hx hy = hy
  All-append P (x ∷ xs) ys hx hy = (hx.0, All-append P xs ys hx.1 hy)

  pub overwrite-append :
      (src old rest : List A) → length old ≡ length src → overwrite src (old ++ rest) ≡ src ++ rest
  overwrite-append [] [] rest h = refl
  overwrite-append [] (y ∷ old) rest h = absurd (omega arith)
  overwrite-append (x ∷ src) [] rest h = absurd (omega arith)
  overwrite-append (x ∷ src) (y ∷ old) rest h =
      ap (λ t. x ∷ t) (overwrite-append src old rest (omega arith))

  pub copy_at-append :
      (front src old rest : List A) (n : ℕ)
      → length front ≡ n
      → length old ≡ length src
      → copy_at n src (front ++ (old ++ rest)) ≡ front ++ (src ++ rest)
  copy_at-append [] src old rest zero p q = overwrite-append src old rest q
  copy_at-append [] src old rest (suc n) p q = absurd (omega arith)
  copy_at-append (x ∷ front) src old rest zero p q = absurd (omega arith)
  copy_at-append (x ∷ front) src old rest (suc n) p q =
      ap (λ t. x ∷ t) (copy_at-append front src old rest n (omega arith) q)

  pub append-injective :
      (xs ys us vs : List A) → length xs ≡ length us → xs ++ ys ≡ us ++ vs → (xs ≡ us) × (ys ≡ vs)
  append-injective [] ys [] vs n e = (refl, e)
  append-injective [] ys (u ∷ us) vs n e = absurd (omega arith)
  append-injective (x ∷ xs) ys [] vs n e = absurd (omega arith)
  append-injective (x ∷ xs) ys (u ∷ us) vs n e =
      ground (arith, append-injective xs ys us vs (omega arith))

  pub take_all : (n : ℕ) (xs : List A) → length xs ≤ n → take n xs ≡ xs
  take_all zero [] h = refl
  take_all zero (x ∷ xs) h = absurd (omega arith)
  take_all (suc n) [] h = refl
  take_all (suc n) (x ∷ xs) h = ap (λ t. x ∷ t) (take_all n xs (omega arith))

  pub take-append : (xs ys : List A) (n : ℕ) → length xs ≡ n → take n (xs ++ ys) ≡ xs
  take-append [] ys zero h = refl
  take-append [] ys (suc n) h = absurd (omega arith)
  take-append (x ∷ xs) ys zero h = absurd (omega arith)
  take-append (x ∷ xs) ys (suc n) h = ap (λ t. x ∷ t) (take-append xs ys n (omega arith))
