-- ===== src/CryptoUtil/Padding.antt =====
-- padPKCS7WithIV and unpadPKCS7.
use go_steam_ws.Base.{
  ℕ, zero, suc, ◌+◌, ◌-◌, ◌*◌, ◌/◌, ◌%◌, ◌<◌, ◌≡◌, refl, ap, some, List, [], ◌∷◌, ◌++◌, length,
  replicate, get_elem?, arith, append_assoc, length-append, length-replicate, take-append,
}
use go_steam_ws.CryptoUtil.{
  block_size, overlay, copy_at, fill_at, pad_pkcs7_with_iv, unpad_pkcs7, cut,
}

-- The number of bytes of padding: 1 to 16.
abbrev pub missing : List ℕ → ℕ
missing src = block_size - length src % block_size

-- The padded text behind the room for the IV.
abbrev pub padded : List ℕ → List ℕ
padded src = src ++ replicate (missing src) (missing src)

nil_add : (n : ℕ) → 0 + n ≡ n
nil_add n = omega arith

shift : (a b : ℕ) → suc a + b ≡ suc (a + b)
shift a b = omega arith

overlay-replicate :
    (k : ℕ) (src : List ℕ) → overlay src (replicate (length src + k) 0) ≡ src ++ replicate k 0
unfolding overlay
overlay-replicate k [] = ap (λ n. replicate n 0) (omega arith)
overlay-replicate k (x ∷ src) = rw (shift (length src) k) (ap (◌∷◌ x) (overlay-replicate k src))

copy_at-replicate :
    (offset k : ℕ) (src : List ℕ)
    → copy_at offset src (replicate (offset + (length src + k)) 0)
      ≡ replicate offset 0 ++ (src ++ replicate k 0)
unfolding copy_at
copy_at-replicate zero k src = rw nil_add (overlay-replicate k src)
copy_at-replicate (suc offset) k src =
    rw (shift offset (length src + k)) (ap (◌∷◌ 0) (copy_at-replicate offset k src))

fill_at-replicate :
    (k v w : ℕ) (xs : List ℕ) → fill_at (length xs) k v (xs ++ replicate k w) ≡ xs ++ replicate k v
unfolding fill_at
fill_at-replicate zero v w [] = refl
fill_at-replicate (suc k) v w [] = ap (◌∷◌ v) (fill_at-replicate k v w [])
fill_at-replicate k v w (x ∷ xs) = ap (◌∷◌ x) (fill_at-replicate k v w xs)

-- 16 bytes of room, the text, and `missing` bytes that hold the number `missing`.
pub pad_pkcs7_with_iv_lem :
    (src : List ℕ) → pad_pkcs7_with_iv src ≡ replicate block_size 0 ++ padded src
unfolding pad_pkcs7_with_iv
pad_pkcs7_with_iv_lem src =
    rw (room, copy_at-replicate block_size (missing src) src, start, pad)
      (rw
        (
          ← append_assoc front src (replicate (missing src) 0),
          ← append_assoc front src (replicate (missing src) (missing src)),
        )
        (fill_at-replicate (missing src) (missing src) 0 (front ++ src)))
  where
    front : List ℕ
    front = replicate block_size 0

    room : length src + block_size + missing src ≡ block_size + (length src + missing src)
    room = omega arith

    start : block_size + (length src + missing src) - missing src ≡ length (front ++ src)
    start = omega (arith, length-append front src)

    pad : missing src % 256 ≡ missing src
    pad = omega arith

-- The padded text is a whole number of blocks, one at least.
pub length-padded :
    (src : List ℕ) → length (padded src) ≡ (length src / block_size + 1) * block_size
length-padded src = omega (
  arith,
  length-append src (replicate (missing src) (missing src)),
  length-replicate (missing src) (missing src),
)

last-append :
    (xs : List ℕ) (k v : ℕ) → get_elem? (xs ++ replicate (suc k) v) (length xs + k) ≡ some v
last-append [] zero v = refl
last-append [] (suc k) v = rw (nil_add (suc k)) (rw nil_add at (last-append [] k v))
last-append (x ∷ xs) k v = rw (shift (length xs) k) (last-append xs k v)

unpad_step : (l : List ℕ) → 0 < length l → unpad_pkcs7 l ≡ cut l (get_elem? l (length l - 1))
unfolding unpad_pkcs7
unpad_step [] h = absurd (omega arith)
unpad_step (x ∷ l) h = refl

pub unpad_pkcs7-append : (xs : List ℕ) (m : ℕ) → 0 < m → unpad_pkcs7 (xs ++ replicate m m) ≡ some xs
unpad_pkcs7-append xs zero h = absurd (omega arith)
unpad_pkcs7-append xs (suc k) h = ground (
  arith,
  unpad_step (xs ++ replicate (suc k) (suc k)),
  last-append xs k (suc k),
  take-append xs (replicate (suc k) (suc k)),
  length-append xs (replicate (suc k) (suc k)),
  length-replicate (suc k) (suc k),
)
