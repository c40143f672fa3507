-- ===== src/Base/Bits.antt =====
-- Masks and fields as arithmetic: `bit_and` and `bit_or` act on the part above bit `k` and on the
-- part below it separately.
use Prim.Native.Nat.{
  ℕ, zero, suc, ◌+◌, ◌-◌, ◌*◌, ◌/◌, ◌%◌, ◌^◌, ◌<◌, bit_and, bit_or, bit_xor, bit_and-bitwise,
  bit_or-bitwise,
}
use mathlib.Core.Path.{◌≡◌, refl, ap}
use native.Mathlib.Omega.{arith}
use native.Mathlib.Nat.{pow-suc, one-le-pow}
use go_steam_ws.Base.Digits.{bit_and-digit, bit_or-digit, bit_xor-digit, differ_twice}

pub zero-bit_and : (a : ℕ) → bit_and 0 a ≡ 0
zero-bit_and a = bit_and-bitwise 0 a

pub zero-bit_or : (a : ℕ) → bit_or 0 a ≡ a
zero-bit_or a = bit_or-bitwise 0 a

shift_one : (q k : ℕ) → q * 2 ^ suc k ≡ 2 * (q * 2 ^ k)
shift_one q k = omega (arith, ap (λ (t : ℕ). q * t) (pow-suc 2 k))

-- The part of a sum that is cut off at bit 0.
whole : (q r : ℕ) → r < 2 ^ 0 → q * 2 ^ 0 + r ≡ q
whole q r h = omega arith

none_below : (r : ℕ) → r < 2 ^ 0 → r ≡ 0
none_below r h = omega arith

pub bit_and_split :
    (k q r p t : ℕ)
    → r < 2 ^ k
    → t < 2 ^ k
    → bit_and (q * 2 ^ k + r) (p * 2 ^ k + t) ≡ bit_and q p * 2 ^ k + bit_and r t
bit_and_split zero q r p t hr ht =
    rw (whole q r hr, whole p t ht, none_below r hr, zero-bit_and t) (omega arith)
bit_and_split (suc k) q r p t hr ht = ground (
  arith,
  bit_and-digit (q * 2 ^ suc k + r) (p * 2 ^ suc k + t),
  bit_and-digit r t,
  shift_one q k,
  shift_one p k,
  shift_one (bit_and q p) k,
  pow-suc 2 k,
  bit_and_split k q (r / 2) p (t / 2),
)

pub bit_or_split :
    (k q r p t : ℕ)
    → r < 2 ^ k
    → t < 2 ^ k
    → bit_or (q * 2 ^ k + r) (p * 2 ^ k + t) ≡ bit_or q p * 2 ^ k + bit_or r t
bit_or_split zero q r p t hr ht =
    rw (whole q r hr, whole p t ht, none_below r hr, zero-bit_or t) (omega arith)
bit_or_split (suc k) q r p t hr ht = ground (
  arith,
  bit_or-digit (q * 2 ^ suc k + r) (p * 2 ^ suc k + t),
  bit_or-digit r t,
  shift_one q k,
  shift_one p k,
  shift_one (bit_or q p) k,
  pow-suc 2 k,
  bit_or_split k q (r / 2) p (t / 2),
)

-- `k` binary digits of zeros and of ones.
pub bit_and-zero : (k a : ℕ) → a < 2 ^ k → bit_and a 0 ≡ 0
bit_and-zero zero a h = rw (none_below a h) refl
bit_and-zero (suc k) a h =
    omega
      (arith, bit_and-digit a 0, pow-suc 2 k, bit_and-zero k (a / 2) (omega (arith, pow-suc 2 k)))

pub bit_or-zero : (k a : ℕ) → a < 2 ^ k → bit_or a 0 ≡ a
bit_or-zero zero a h = rw (none_below a h) refl
bit_or-zero (suc k) a h =
    omega (arith, bit_or-digit a 0, pow-suc 2 k, bit_or-zero k (a / 2) (omega (arith, pow-suc 2 k)))

pub bit_and-ones : (k a : ℕ) → a < 2 ^ k → bit_and a (2 ^ k - 1) ≡ a
bit_and-ones zero a h = rw (none_below a h) refl
bit_and-ones (suc k) a h = ground (
  arith,
  bit_and-digit a (2 ^ suc k - 1),
  pow-suc 2 k,
  one-le-pow k 2,
  bit_and-ones k (a / 2) (omega (arith, pow-suc 2 k)),
)

-- A word of `hi + w + o` bits with the `w` bits at offset `o` cleared by a mask and set anew.
pub replace_field :
    (o w hi q x c v : ℕ)
    → q < 2 ^ hi
    → x < 2 ^ w
    → c < 2 ^ o
    → v < 2 ^ w
    → bit_or
        (bit_and ((q * 2 ^ w + x) * 2 ^ o + c) (((2 ^ hi - 1) * 2 ^ w + 0) * 2 ^ o + (2 ^ o - 1)))
        ((0 * 2 ^ w + v) * 2 ^ o + 0)
      ≡ (q * 2 ^ w + v) * 2 ^ o + c
replace_field o w hi q x c v hq hx hc hv =
    rw
      (
        bit_and_split o (q * 2 ^ w + x) c ((2 ^ hi - 1) * 2 ^ w + 0) (2 ^ o - 1) hc
            (omega (arith, one-le-pow o 2)),
        bit_and_split w q x (2 ^ hi - 1) 0 hx (omega arith),
        bit_and-ones hi q hq,
        bit_and-zero w x hx,
        bit_and-ones o c hc,
        bit_or_split o (q * 2 ^ w + 0) c (0 * 2 ^ w + v) 0 hc (omega arith),
        bit_or_split w q 0 0 v (omega arith) hv,
        bit_or-zero hi q hq,
        zero-bit_or v,
        bit_or-zero o c hc,
      )
      refl

-- Exclusive or keeps to `k` bits, and cancels itself.
pub bit_xor_cancel :
    (k a b : ℕ) → a < 2 ^ k → b < 2 ^ k → (bit_xor a b < 2 ^ k) × (bit_xor (bit_xor a b) b ≡ a)
bit_xor_cancel zero a b ha hb = rw (none_below a ha, none_below b hb) (omega arith)
bit_xor_cancel (suc k) a b ha hb = ground (
  arith,
  bit_xor-digit a b,
  bit_xor-digit (bit_xor a b) b,
  differ_twice (a % 2) (b % 2),
  pow-suc 2 k,
  bit_xor_cancel k (a / 2) (b / 2),
)
