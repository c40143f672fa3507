-- ===== src/Social/Avatar.antt =====
-- ValidAvatar of protocol/internal.go, and what it comes to on the bytes of the hash.
use go_steam_ws.Base.{
  ℕ, zero, suc, ◌+◌, ◌*◌, ◌/◌, ◌%◌, ◌<◌, ◌≡◌, refl, Bool, true, false, not, ◌&&◌, ◌||◌, List, [],
  ◌∷◌, ◌==◌, if◌then◌else◌, length, replicate, ltb, All, arith,
}
use go_steam_ws.Io.{IsByte}

-- The character codes of '0' to '9' and 'a' to 'f'.
unfoldable pub hex_digit : ℕ → ℕ
hex_digit n = if ltb n 10 then 48 + n else 87 + n

-- hex.EncodeToString
unfoldable pub hex_encode : List ℕ → List ℕ
hex_encode [] = []
hex_encode (b ∷ bs) = hex_digit (b / 16) ∷ hex_digit (b % 16) ∷ hex_encode bs

-- `==` of two texts.
unfoldable pub same_text : List ℕ → List ℕ → Bool
same_text [] [] = true
same_text [] (y ∷ ys) = false
same_text (x ∷ xs) [] = false
same_text (x ∷ xs) (y ∷ ys) = x == y && same_text xs ys

unfoldable pub valid_avatar : List ℕ → Bool
unfolding hex_encode same_text
valid_avatar avatar =
    let str = hex_encode avatar in not (same_text str (replicate 40 48) || not (length str == 40))

-- No byte but 0.
unfoldable pub all_zero : List ℕ → Bool
all_zero [] = true
all_zero (b ∷ bs) = b == 0 && all_zero bs

length-hex_encode : (bs : List ℕ) → length (hex_encode bs) ≡ 2 * length bs
unfolding hex_encode
length-hex_encode [] = refl
length-hex_encode (b ∷ bs) = omega (arith, length-hex_encode bs)

hex_digit_zero : (n : ℕ) → n < 16 → (hex_digit n == 48) ≡ (n == 0)
unfolding hex_digit
hex_digit_zero n h = ground arith

twice_suc : (n : ℕ) → 2 * suc n ≡ suc (suc (2 * n))
twice_suc n = omega arith

two_zeros : (n : ℕ) → replicate {A = ℕ} (2 * suc n) 48 ≡ 48 ∷ 48 ∷ replicate (2 * n) 48
two_zeros n = rw (twice_suc n)

same_text-hex_encode :
    (bs : List ℕ) (n : ℕ)
    → All IsByte bs
    → same_text (hex_encode bs) (replicate (2 * n) 48) ≡ (length bs == n && all_zero bs)
unfolding hex_encode same_text all_zero
same_text-hex_encode [] zero h = refl
same_text-hex_encode [] (suc n) h = ground (arith, two_zeros n)
same_text-hex_encode (b ∷ bs) zero h = ground arith
same_text-hex_encode (b ∷ bs) (suc n) h = ground (
  arith,
  two_zeros n,
  same_text-hex_encode bs n h.1,
  hex_digit_zero (b / 16),
  hex_digit_zero (b % 16),
)

-- An avatar is valid when it is a hash of 20 bytes that are not all zero, whatever its hexadecimal
-- text, which the code compares.
pub valid_avatar_lem :
    (avatar : List ℕ)
    → All IsByte avatar
    → valid_avatar avatar ≡ (length avatar == 20 && not (all_zero avatar))
unfolding valid_avatar
valid_avatar_lem avatar h =
    ground (arith, same_text-hex_encode avatar 20 h, length-hex_encode avatar)
