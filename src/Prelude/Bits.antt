-- ===== src/Prelude/Bits.antt =====
-- When `|` and `^` give 0: what a constant-time comparison rests on.
use Prim.Native.Nat.{
  ℕ, zero, suc, ◌+◌, ◌*◌, ◌/◌, ◌%◌, ◌^◌, ◌≤◌, ◌<◌, max, differ, digits, bitwise, bit_or, bit_xor,
  bit_or-bitwise, bit_xor-bitwise,
}
use mathlib.Core.Path.{◌≡◌, refl, ap}
use mathlib.Core.Bool.{Bool, true, ◌&&◌}
use native.Mathlib.Nat.{pow-suc}
use native.Mathlib.Omega.{arith}

module _ (f : ℕ → ℕ → ℕ) where
  -- Enough fuel is as good as any more.
  more_fuel : (n m a b : ℕ) → a ≤ n → a ≤ m → digits (λ y. y) f n a b ≡ digits (λ y. y) f m a b
  more_fuel zero zero a b p q = refl
  more_fuel zero (suc m) zero b p q = refl
  more_fuel zero (suc m) (suc a) b p q = absurd (omega arith)
  more_fuel (suc n) zero zero b p q = refl
  more_fuel (suc n) zero (suc a) b p q = absurd (omega arith)
  more_fuel (suc n) (suc m) zero b p q = refl
  more_fuel (suc n) (suc m) (suc a) b p q =
      rw (more_fuel n m (suc a / 2) (b / 2) (omega arith) (omega arith))

  lowest_digit :
      (a b : ℕ)
      → bitwise (λ y. y) f (suc a) b
        ≡ bitwise (λ y. y) f (suc a / 2) (b / 2) * 2 + f (suc a % 2) (b % 2)
  lowest_digit a b =
      omega (arith, more_fuel a (suc a / 2) (suc a / 2) (b / 2) (omega arith) (omega arith))

zero-bit_or : (b : ℕ) → bit_or 0 b ≡ b
zero-bit_or b = bit_or-bitwise 0 b

zero-bit_xor : (b : ℕ) → bit_xor 0 b ≡ b
zero-bit_xor b = bit_xor-bitwise 0 b

bit_or_digit : (a b : ℕ) → bit_or a b ≡ bit_or (a / 2) (b / 2) * 2 + max (a % 2) (b % 2)
bit_or_digit zero b = omega (arith, zero-bit_or b, zero-bit_or (b / 2))
bit_or_digit (suc a) b = simp bit_or-bitwise (lowest_digit max a b)

bit_xor_digit : (a b : ℕ) → bit_xor a b ≡ bit_xor (a / 2) (b / 2) * 2 + differ (a % 2) (b % 2)
bit_xor_digit zero b = omega (arith, zero-bit_xor b, zero-bit_xor (b / 2))
bit_xor_digit (suc a) b = simp bit_xor-bitwise (lowest_digit differ a b)

or_zero_fuel : (n a b : ℕ) → a ≤ n → bit_or a b ≡ 0 → (a ≡ 0) × (b ≡ 0)
or_zero_fuel n zero b h e = (refl, omega (arith, zero-bit_or b))
or_zero_fuel zero (suc a) b h e = absurd (omega arith)
or_zero_fuel (suc n) (suc a) b h e =
    ground (arith, bit_or_digit (suc a) b, or_zero_fuel n (suc a / 2) (b / 2) (omega arith))

pub bit_or-eq_zero : (a b : ℕ) → bit_or a b ≡ 0 → (a ≡ 0) × (b ≡ 0)
bit_or-eq_zero a b e = or_zero_fuel a a b (omega arith) e

differ-eq_zero : (a b : ℕ) → differ a b ≡ 0 → a ≡ b
differ-eq_zero zero b e = omega arith
differ-eq_zero (suc a) zero e = e
differ-eq_zero (suc a) (suc b) e = omega (arith, differ-eq_zero a b e)

xor_zero_fuel : (n a b : ℕ) → a ≤ n → bit_xor a b ≡ 0 → a ≡ b
xor_zero_fuel n zero b h e = omega (arith, zero-bit_xor b)
xor_zero_fuel zero (suc a) b h e = absurd (omega arith)
xor_zero_fuel (suc n) (suc a) b h e = ground (
  arith,
  bit_xor_digit (suc a) b,
  differ-eq_zero (suc a % 2) (b % 2),
  xor_zero_fuel n (suc a / 2) (b / 2) (omega arith),
)

pub bit_xor-eq_zero : (a b : ℕ) → bit_xor a b ≡ 0 → a ≡ b
bit_xor-eq_zero a b e = xor_zero_fuel a a b (omega arith) e

differ_self : (a : ℕ) → differ a a ≡ 0
differ_self zero = refl
differ_self (suc a) = differ_self a

xor_self_fuel : (n a : ℕ) → a ≤ n → bit_xor a a ≡ 0
xor_self_fuel n zero h = refl
xor_self_fuel zero (suc a) h = absurd (omega arith)
xor_self_fuel (suc n) (suc a) h = omega (
  arith,
  bit_xor_digit (suc a) (suc a),
  differ_self (suc a % 2),
  xor_self_fuel n (suc a / 2) (omega arith),
)

pub bit_xor_self : (a : ℕ) → bit_xor a a ≡ 0
bit_xor_self a = xor_self_fuel a a (omega arith)

bit_or-zero_fuel : (n a : ℕ) → a ≤ n → bit_or a 0 ≡ a
bit_or-zero_fuel n zero h = refl
bit_or-zero_fuel zero (suc a) h = absurd (omega arith)
bit_or-zero_fuel (suc n) (suc a) h =
    omega (arith, bit_or_digit (suc a) 0, bit_or-zero_fuel n (suc a / 2) (omega arith))

pub bit_or-zero : (a : ℕ) → bit_or a 0 ≡ a
bit_or-zero a = bit_or-zero_fuel a a (omega arith)

half_or : (a b : ℕ) → bit_or (2 * a) b ≡ 2 * bit_or a (b / 2) + b % 2
half_or a b =
    let half : 2 * a / 2 ≡ a = omega arith in
    omega (arith, bit_or_digit (2 * a) b, ap (λ (t : ℕ). bit_or t (b / 2)) half)

-- Two nibbles make a byte.
pub bit_or_nibbles : (hi lo : ℕ) → lo < 16 → bit_or (hi * 16) lo ≡ hi * 16 + lo
bit_or_nibbles hi lo h =
    let shifted : hi * 16 ≡ 2 * (2 * (2 * (2 * hi))) = omega arith in
    let none_left : lo / 2 / 2 / 2 / 2 ≡ 0 = omega arith in
    omega (
      arith,
      ap (λ (t : ℕ). bit_or t lo) shifted,
      half_or (2 * (2 * (2 * hi))) lo,
      half_or (2 * (2 * hi)) (lo / 2),
      half_or (2 * hi) (lo / 2 / 2),
      half_or hi (lo / 2 / 2 / 2),
      ap (bit_or hi) none_left,
      bit_or-zero hi,
    )

-- Over a small range, a test is run at every value.
abbrev pub all_below : ℕ → (ℕ → Bool) → Bool
all_below zero p = true
all_below (suc n) p = p n && all_below n p

pub all_below_sound : (n : ℕ) (p : ℕ → Bool) (x : ℕ) → all_below n p ≡ true → x < n → p x ≡ true
all_below_sound zero p x h lt = absurd (omega arith)
all_below_sound (suc n) p x h lt = ground (arith, all_below_sound n p x)

pow_two_suc : (q k : ℕ) → q * 2 ^ suc k ≡ 2 * (q * 2 ^ k)
pow_two_suc q k = omega (arith, ap (λ (t : ℕ). q * t) (pow-suc 2 k))

-- `lo | (hi << k)` is a sum when `lo` fits `k` bits.
pub bit_or_shifted : (k lo hi : ℕ) → lo < 2 ^ k → bit_or lo (hi * 2 ^ k) ≡ lo + hi * 2 ^ k
bit_or_shifted zero lo hi h =
    let none_low : lo ≡ 0 = omega arith in rw none_low (omega (arith, zero-bit_or (hi * 2 ^ 0)))
bit_or_shifted (suc k) lo hi h = ground (
  arith,
  bit_or_digit lo (hi * 2 ^ suc k),
  pow_two_suc hi k,
  pow-suc 2 k,
  bit_or_shifted k (lo / 2) hi (omega (arith, pow-suc 2 k)),
)

differ-digits : (a b : ℕ) → a < 2 → b < 2 → differ a b ≤ 1
differ-digits zero b h k = omega arith
differ-digits (suc a) zero h k = omega arith
differ-digits (suc a) (suc b) h k =
    let a0 : a ≡ 0 = omega arith in let b0 : b ≡ 0 = omega arith in rw a0 (rw b0 (omega arith))

-- `^` stays within the width of its operands.
pub bit_xor_lt : (k a b : ℕ) → a < 2 ^ k → b < 2 ^ k → bit_xor a b < 2 ^ k
bit_xor_lt zero a b h k' = let a0 : a ≡ 0 = omega arith in rw a0 (omega (arith, zero-bit_xor b))
bit_xor_lt (suc k) a b h h' = omega (
  arith,
  bit_xor_digit a b,
  pow-suc 2 k,
  differ-digits (a % 2) (b % 2) (omega arith) (omega arith),
  bit_xor_lt k (a / 2) (b / 2) (omega (arith, pow-suc 2 k)) (omega (arith, pow-suc 2 k)),
)
