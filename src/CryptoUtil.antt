-- ===== src/CryptoUtil.antt =====
-- cryptoutil: PKCS7 padding (pkcs7.go), ECB mode (ecb.go) and the packet cipher (cryptoutil.go).
-- A `cipher.Block` is a parameter; crypto/cipher's CBC mode is written out. `none` is a panic.
pub mod Padding
pub mod Modes
pub mod RoundTrip
use go_steam_ws.Base.{
  ℕ, zero, suc, ◌+◌, ◌-◌, ◌*◌, ◌/◌, ◌%◌, ◌<◌, ◌≡◌, ◌||◌, not, Option, none, some, List, [], ◌∷◌,
  ◌++◌, leb, ltb, ◌==◌, if◌then◌else◌, length, take, drop, replicate, bit_xor, get_elem?, All,
}
use go_steam_ws.Io.{IsByte}

-- aes.BlockSize
abbrev pub block_size : ℕ
block_size = 16

-- Go's `copy(dest[offset:], src)`: what fits is written.
pub overlay : List ℕ → List ℕ → List ℕ
overlay [] dest = dest
overlay (x ∷ src) [] = []
overlay (x ∷ src) (y ∷ dest) = x ∷ overlay src dest

pub copy_at : ℕ → List ℕ → List ℕ → List ℕ
unfolding overlay
copy_at zero src dest = overlay src dest
copy_at (suc offset) src [] = []
copy_at (suc offset) src (y ∷ dest) = y ∷ copy_at offset src dest

-- `for i := offset; i < offset + n; i++ { dest[i] = v }`
pub fill_at : ℕ → ℕ → ℕ → List ℕ → List ℕ
fill_at zero zero v dest = dest
fill_at zero (suc n) v [] = []
fill_at zero (suc n) v (y ∷ dest) = v ∷ fill_at zero n v dest
fill_at (suc offset) n v [] = []
fill_at (suc offset) n v (y ∷ dest) = y ∷ fill_at offset n v dest

unfoldable pub pad_pkcs7_with_iv : List ℕ → List ℕ
pad_pkcs7_with_iv src =
    let missing = block_size - length src % block_size in
    let new_size = length src + block_size + missing in
    let dest = copy_at block_size src (replicate new_size 0) in
    fill_at (new_size - missing) missing (missing % 256) dest

-- src[:len(src)-int(padLen)]; an index below 0 panics.
abbrev cut : List ℕ → Option ℕ → Option (List ℕ)
cut src none = none
cut src (some pad_len) =
    if leb pad_len (length src) then some (take (length src - pad_len) src) else none

unfoldable pub unpad_pkcs7 : List ℕ → Option (List ℕ)
unpad_pkcs7 [] = none
unpad_pkcs7 (x ∷ src) = cut (x ∷ src) (get_elem? (x ∷ src) (length (x ∷ src) - 1))

-- cipher.Block on blocks of 16 bytes.
pub record Block : Type 0 where
  pub encrypt : List ℕ → List ℕ
  pub decrypt : List ℕ → List ℕ

abbrev pub IsBlock : List ℕ → Type 0
IsBlock b = (length b ≡ block_size) × All IsByte b

-- A block cipher maps blocks to blocks, and decryption undoes encryption.
pub record IsCipher (c : Block) : Type 0 where
  pub encrypt_block : (b : List ℕ) → IsBlock b → IsBlock (c.encrypt b)
  pub decrypt_encrypt : (b : List ℕ) → IsBlock b → c.decrypt (c.encrypt b) ≡ b

-- The loop of CryptBlocks, on `n` blocks of `src`; what lies beyond them in `dst` stays.
pub ecb_loop : (List ℕ → List ℕ) → ℕ → List ℕ → List ℕ → List ℕ
ecb_loop f zero dst src = dst
ecb_loop f (suc n) dst src =
    copy_at 0 (f (take block_size src)) (take block_size dst)
    ++ ecb_loop f n (drop block_size dst) (drop block_size src)

-- ecbEncrypter.CryptBlocks and ecbDecrypter.CryptBlocks: input that is not full blocks, or longer
-- than the output, panics.
unfoldable pub crypt_blocks : (List ℕ → List ℕ) → List ℕ → List ℕ → Option (List ℕ)
crypt_blocks f dst src =
    if not (length src % block_size == 0) || ltb (length dst) (length src)
    then none
    else some (ecb_loop f (length src / block_size) dst src)

pub xor_bytes : List ℕ → List ℕ → List ℕ
xor_bytes [] ys = []
xor_bytes (x ∷ xs) [] = []
xor_bytes (x ∷ xs) (y ∷ ys) = bit_xor x y ∷ xor_bytes xs ys

-- crypto/cipher CBC, on `n` blocks.
pub cbc_encrypt : Block → ℕ → List ℕ → List ℕ → List ℕ
cbc_encrypt ciph zero iv src = []
cbc_encrypt ciph (suc n) iv src =
    let c = ciph.encrypt (xor_bytes (take block_size src) iv) in
    c ++ cbc_encrypt ciph n c (drop block_size src)

pub cbc_decrypt : Block → ℕ → List ℕ → List ℕ → List ℕ
cbc_decrypt ciph zero iv src = []
cbc_decrypt ciph (suc n) iv src =
    let c = take block_size src in
    xor_bytes (ciph.decrypt c) iv ++ cbc_decrypt ciph n c (drop block_size src)

-- CryptBlocks of crypto/cipher panics on input that is not full blocks.
cbc_blocks : (ℕ → List ℕ → List ℕ → List ℕ) → List ℕ → List ℕ → Option (List ℕ)
cbc_blocks f iv src =
    if length src % block_size == 0 then some (f (length src / block_size) iv src) else none

infixl 5 ◌>>=◌
abbrev pub ◌>>=◌ : Option (List ℕ) → (List ℕ → Option (List ℕ)) → Option (List ℕ)
none >>= f = none
some a >>= f = f a

-- `iv` is what rand.Read put into the buffer.
unfoldable pub symmetric_encrypt : Block → List ℕ → List ℕ → Option (List ℕ)
unfolding cbc_blocks
symmetric_encrypt ciph iv src = do
  encrypted_iv ← crypt_blocks ciph.encrypt (replicate block_size 0) iv
  let encrypted = copy_at 0 encrypted_iv (pad_pkcs7_with_iv src)
  body ← cbc_blocks (cbc_encrypt ciph) iv (drop block_size encrypted)
  some (take block_size encrypted ++ body)

unfoldable pub symmetric_decrypt : Block → List ℕ → Option (List ℕ)
unfolding cbc_blocks
symmetric_decrypt ciph src = if ltb (length src) block_size then none else do
  iv ← crypt_blocks ciph.decrypt (take block_size src) (take block_size src)
  decrypted ← cbc_blocks (cbc_decrypt ciph) iv (drop block_size src)
  unpad_pkcs7 decrypted
