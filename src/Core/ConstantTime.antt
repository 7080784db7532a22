-- ===== src/Core/ConstantTime.antt =====
-- The comparison that runs over both arrays whatever they hold: `constant_time_eq` of
-- crates/bolty-core/src/picc.rs, and the same loop in `same_uid` of assessment.rs.
use Prim.Native.Nat.{bit_or, bit_xor}
use bolty_rs.Prelude.{ℕ, ◌≡◌, ◌↔◌, refl, arith, Bool, true, List, [], ◌∷◌, ◌==◌, length}
use bolty_rs.Prelude.Bits.{bit_or-eq_zero, bit_xor-eq_zero, bit_xor_self}

-- `diff |= lhs ^ rhs` over the pairs
unfoldable pub xor_diff : List ℕ → List ℕ → ℕ → ℕ
xor_diff (x ∷ xs) (y ∷ ys) diff = xor_diff xs ys (bit_or diff (bit_xor x y))
xor_diff _ _ diff = diff

unfoldable pub constant_time_eq : List ℕ → List ℕ → Bool
constant_time_eq left right = xor_diff left right 0 == 0

-- Every difference stays in the accumulator.
xor_diff-eq_zero :
    (xs ys : List ℕ) (d : ℕ) → length xs ≡ length ys → xor_diff xs ys d ≡ 0 → (d ≡ 0) × (xs ≡ ys)
unfolding xor_diff
xor_diff-eq_zero [] [] d n h = (h, refl)
xor_diff-eq_zero [] (y ∷ ys) d n h = absurd (omega arith)
xor_diff-eq_zero (x ∷ xs) [] d n h = absurd (omega arith)
xor_diff-eq_zero (x ∷ xs) (y ∷ ys) d n h = ground (
  arith,
  bit_or-eq_zero d (bit_xor x y),
  bit_xor-eq_zero x y,
  xor_diff-eq_zero xs ys (bit_or d (bit_xor x y)),
)

xor_diff_self : (xs : List ℕ) → xor_diff xs xs 0 ≡ 0
unfolding xor_diff
xor_diff_self [] = refl
xor_diff_self (x ∷ xs) = ground (arith, bit_xor_self x, xor_diff_self xs)

-- On arrays of one size the comparison is equality.
pub constant_time_eq_iff :
    (xs ys : List ℕ) → length xs ≡ length ys → (constant_time_eq xs ys ≡ true) ↔ (xs ≡ ys)
unfolding constant_time_eq
constant_time_eq_iff xs ys n = ground (arith, xor_diff-eq_zero xs ys 0, xor_diff_self xs)
