-- ===== src/Prelude/Bits.antt =====
-- The exclusive or of native numbers.
use Prim.Native.Nat.{
  ℕ, zero, suc, ◌*◌, ◌/◌, ◌%◌, ◌^◌, ◌<◌, digits, differ, bit_xor, bit_xor-bitwise,
}
use native.Mathlib.Omega.{arith}

differ_bit : (x y : ℕ) → x < 2 → y < 2 → differ x y < 2
differ_bit zero y p q = q
differ_bit (suc zero) zero p q = omega arith
differ_bit (suc zero) (suc y) p q = omega (arith, q)
differ_bit (suc (suc x)) y p q = absurd (omega (arith, p))

-- The bits from the lowest on.
abbrev xor_digits : ℕ → ℕ → ℕ → ℕ
xor_digits n a b = digits (λ b. b) differ n a b

bound : ℕ → ℕ
bound zero = 1
bound (suc k) = bound k * 2

digits-bound : (k n a b : ℕ) → a < bound k → b < bound k → xor_digits n a b < bound k
unfolding bound
digits-bound k zero a b p q = q
digits-bound k (suc n) zero b p q = q
digits-bound zero (suc n) (suc a) b p q = absurd (omega (arith, p))
digits-bound (suc k) (suc n) (suc a) b p q = omega (
  arith,
  digits-bound k n (suc a / 2) (b / 2) (omega (arith, p)) (omega (arith, q)),
  differ_bit (suc a % 2) (b % 2) (omega arith) (omega arith),
)

pub bit_xor-bound : (a b : ℕ) → a < 2 ^ 16 → b < 2 ^ 16 → bit_xor a b < 2 ^ 16
unfolding bound
bit_xor-bound a b p q = omega (arith, bit_xor-bitwise a b, digits-bound 16 a a b p q)
