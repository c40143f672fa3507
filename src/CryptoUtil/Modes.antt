-- ===== src/CryptoUtil/Modes.antt =====
-- CBC over whole blocks, ECB over one block.
use go_steam_ws.Base.{
  ℕ, zero, suc, ◌*◌, ◌≡◌, refl, sym, ap, ap₂, ◌∙◌, some, List, [], ◌∷◌, length, take, drop, All,
  arith, append-nil, length-append, length-take, length-drop, take-append-drop, drop_all, take_all,
  take_front, drop_front,
}
use go_steam_ws.Base.Bits.{bit_xor_cancel}
use go_steam_ws.Io.{IsByte}
use go_steam_ws.CryptoUtil.{
  block_size, Block, IsBlock, IsCipher, overlay, copy_at, ecb_loop, crypt_blocks, xor_bytes,
  cbc_encrypt, cbc_decrypt,
}

pub All-take : (n : ℕ) (xs : List ℕ) → All IsByte xs → All IsByte (take n xs)
All-take zero xs h = tt
All-take (suc n) [] h = tt
All-take (suc n) (x ∷ xs) h = (h.0, All-take n xs h.1)

pub All-drop : (n : ℕ) (xs : List ℕ) → All IsByte xs → All IsByte (drop n xs)
All-drop zero xs h = h
All-drop (suc n) [] h = tt
All-drop (suc n) (x ∷ xs) h = All-drop n xs h.1

xor_bytes-cancel :
    (xs ys : List ℕ)
    → All IsByte xs
    → All IsByte ys
    → length xs ≡ length ys
    → (length (xor_bytes xs ys) ≡ length xs)
      × All IsByte (xor_bytes xs ys)
      × (xor_bytes (xor_bytes xs ys) ys ≡ xs)
unfolding xor_bytes
xor_bytes-cancel [] ys hx hy e = (refl, tt, refl)
xor_bytes-cancel (x ∷ xs) [] hx hy e = absurd (omega arith)
xor_bytes-cancel (x ∷ xs) (y ∷ ys) hx hy e =
    let (l, b, c) = xor_bytes-cancel xs ys hx.1 hy.1 (omega arith) in
    let (lt, same) = bit_xor_cancel 8 x y hx.0 hy.0 in (ap suc l, (lt, b), ap₂ ◌∷◌ same c)

module _ (ciph : Block) (ok : IsCipher ciph) where
  -- CBC decryption undoes CBC encryption, and keeps to whole blocks.
  pub cbc_decrypt-cbc_encrypt :
      (n : ℕ) (iv src : List ℕ)
      → IsBlock iv
      → length src ≡ n * block_size
      → All IsByte src
      → (cbc_decrypt ciph n iv (cbc_encrypt ciph n iv src) ≡ src)
        × (length (cbc_encrypt ciph n iv src) ≡ n * block_size)
  unfolding cbc_decrypt cbc_encrypt
  cbc_decrypt-cbc_encrypt zero iv [] hi hl hb = (refl, omega arith)
  cbc_decrypt-cbc_encrypt zero iv (x ∷ src) hi hl hb = absurd (omega arith)
  cbc_decrypt-cbc_encrypt (suc n) iv src hi hl hb =
      let rest_lem = λ (b : IsBlock c).
        cbc_decrypt-cbc_encrypt n c (drop block_size src) b
          (omega (arith, length-drop block_size src)) (All-drop block_size src hb) in
      (
        rw
            (
              take_front block_size c rest c_block.0,
              drop_front block_size c rest c_block.0,
              ok.decrypt_encrypt x x_block,
              cancel.2,
              (rest_lem c_block).0,
            )
            (take-append-drop block_size src),
        omega (arith, length-append c rest, c_block.0, (rest_lem c_block).1),
      )
    where
      p : List ℕ
      p = take block_size src

      p_block : IsBlock p
      p_block = (omega (arith, length-take block_size src), All-take block_size src hb)

      x : List ℕ
      x = xor_bytes p iv

      cancel : (length x ≡ length p) × All IsByte x × (xor_bytes x iv ≡ p)
      cancel = xor_bytes-cancel p iv p_block.1 hi.1 (omega (arith, p_block.0, hi.0))

      x_block : IsBlock x
      x_block = (cancel.0 ∙ p_block.0, cancel.1)

      c : List ℕ
      c = ciph.encrypt x

      c_block : IsBlock c
      c_block = ok.encrypt_block x x_block

      rest : List ℕ
      rest = cbc_encrypt ciph n c (drop block_size src)

overlay-all : (xs ys : List ℕ) → length xs ≡ length ys → overlay xs ys ≡ xs
unfolding overlay
overlay-all [] [] e = refl
overlay-all [] (y ∷ ys) e = absurd (omega arith)
overlay-all (x ∷ xs) [] e = absurd (omega arith)
overlay-all (x ∷ xs) (y ∷ ys) e = ap (◌∷◌ x) (overlay-all xs ys (omega arith))

-- One block in place.
pub crypt_blocks-block :
    (f : List ℕ → List ℕ) (dst b : List ℕ)
    → length dst ≡ block_size
    → length b ≡ block_size
    → length (f b) ≡ block_size
    → crypt_blocks f dst b ≡ some (f b)
unfolding crypt_blocks ecb_loop copy_at
crypt_blocks-block f dst b hd hb hf =
    rw
      (
        hb,
        hd,
        take_all block_size b (omega (arith, hb)),
        take_all block_size dst (omega (arith, hd)),
        overlay-all (f b) dst (hf ∙ sym hd),
        drop_all block_size dst (omega (arith, hd)),
      )
      (ap some (append-nil (f b)))
