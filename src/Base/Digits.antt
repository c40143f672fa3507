-- ===== src/Base/Digits.antt =====
-- The native bit operations stand for a recursion on binary digits with fuel; these are its
-- equations for the lowest digit, with the fuel gone.
use Prim.Native.Nat.{
  ℕ, zero, suc, ◌+◌, ◌*◌, ◌/◌, ◌%◌, ◌≤◌, ◌<◌, min, max, bit_and, bit_or, digits, bit_and-bitwise,
  bit_or-bitwise, bit_xor, bit_xor-bitwise, differ,
}
use mathlib.Core.Path.{◌≡◌, refl}
use native.Mathlib.Omega.{arith}

module _ (past : ℕ → ℕ) (digit : ℕ → ℕ → ℕ) where
  digits-fuel : (m n x y : ℕ) → x ≤ m → x ≤ n → digits past digit m x y ≡ digits past digit n x y
  digits-fuel zero zero x y hm hn = refl
  digits-fuel zero (suc n) zero y hm hn = refl
  digits-fuel zero (suc n) (suc x) y hm hn = absurd (omega arith)
  digits-fuel (suc m) zero zero y hm hn = refl
  digits-fuel (suc m) zero (suc x) y hm hn = absurd (omega arith)
  digits-fuel (suc m) (suc n) zero y hm hn = refl
  digits-fuel (suc m) (suc n) (suc x) y hm hn =
      omega (arith, digits-fuel m n (suc x / 2) (y / 2) (omega arith) (omega arith))

pub bit_and-digit : (x y : ℕ) → bit_and x y ≡ min (x % 2) (y % 2) + 2 * bit_and (x / 2) (y / 2)
bit_and-digit zero y = omega (arith, bit_and-bitwise 0 y, bit_and-bitwise 0 (y / 2))
bit_and-digit (suc x) y = omega (
  arith,
  bit_and-bitwise (suc x) y,
  bit_and-bitwise (suc x / 2) (y / 2),
  digits-fuel (λ d. 0) min x (suc x / 2) (suc x / 2) (y / 2) (omega arith) (omega arith),
)

pub bit_or-digit : (x y : ℕ) → bit_or x y ≡ max (x % 2) (y % 2) + 2 * bit_or (x / 2) (y / 2)
bit_or-digit zero y = omega (arith, bit_or-bitwise 0 y, bit_or-bitwise 0 (y / 2))
bit_or-digit (suc x) y = omega (
  arith,
  bit_or-bitwise (suc x) y,
  bit_or-bitwise (suc x / 2) (y / 2),
  digits-fuel (λ d. d) max x (suc x / 2) (suc x / 2) (y / 2) (omega arith) (omega arith),
)

pub bit_xor-digit : (x y : ℕ) → bit_xor x y ≡ differ (x % 2) (y % 2) + 2 * bit_xor (x / 2) (y / 2)
bit_xor-digit zero y = omega (arith, bit_xor-bitwise 0 y, bit_xor-bitwise 0 (y / 2))
bit_xor-digit (suc x) y = omega (
  arith,
  bit_xor-bitwise (suc x) y,
  bit_xor-bitwise (suc x / 2) (y / 2),
  digits-fuel (λ d. d) differ x (suc x / 2) (suc x / 2) (y / 2) (omega arith) (omega arith),
)

-- The digit that `bit_xor` makes is a digit, and making it twice gives the first one back.
pub differ_twice : (x y : ℕ) → x < 2 → y < 2 → (differ x y < 2) × (differ (differ x y) y ≡ x)
differ_twice zero zero ha hb = omega arith
differ_twice zero (suc zero) ha hb = omega arith
differ_twice (suc zero) zero ha hb = omega arith
differ_twice (suc zero) (suc zero) ha hb = omega arith
differ_twice (suc (suc x)) y ha hb = absurd (omega arith)
differ_twice zero (suc (suc y)) ha hb = absurd (omega arith)
differ_twice (suc zero) (suc (suc y)) ha hb = absurd (omega arith)
