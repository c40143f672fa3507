-- ===== src/CryptoUtil/RoundTrip.antt =====
-- SymmetricDecrypt undoes SymmetricEncrypt.
use go_steam_ws.Base.{
  ℕ, zero, suc, ◌+◌, ◌*◌, ◌/◌, ◌%◌, ◌<◌, ◌≡◌, refl, false, ap, ◌∙◌, some, List, [], ◌∷◌, ◌++◌,
  length, replicate, All, arith, length-append, take_front, drop_front, All-append, ltb,
}
use go_steam_ws.Io.{IsByte}
use go_steam_ws.CryptoUtil.{
  block_size, Block, IsBlock, IsCipher, overlay, copy_at, cbc_encrypt, cbc_decrypt, cbc_blocks,
  symmetric_encrypt, symmetric_decrypt,
}
use go_steam_ws.CryptoUtil.Padding.{
  missing, padded, pad_pkcs7_with_iv_lem, length-padded, unpad_pkcs7-append,
}
use go_steam_ws.CryptoUtil.Modes.{cbc_decrypt-cbc_encrypt, crypt_blocks-block}

overlay-append : (xs ys zs : List ℕ) → length xs ≡ length ys → overlay xs (ys ++ zs) ≡ xs ++ zs
unfolding overlay
overlay-append [] [] zs e = refl
overlay-append [] (y ∷ ys) zs e = absurd (omega arith)
overlay-append (x ∷ xs) [] zs e = absurd (omega arith)
overlay-append (x ∷ xs) (y ∷ ys) zs e = ap (◌∷◌ x) (overlay-append xs ys zs (omega arith))

-- On whole blocks the CBC modes do not panic.
cbc_blocks-whole :
    (f : ℕ → List ℕ → List ℕ → List ℕ) (iv src : List ℕ) (n : ℕ)
    → length src ≡ n * block_size
    → cbc_blocks f iv src ≡ some (f n iv src)
unfolding cbc_blocks
cbc_blocks-whole f iv src n e = rw (e, whole, count) refl
  where
    whole : n * block_size % block_size ≡ 0
    whole = omega arith

    count : n * block_size / block_size ≡ n
    count = omega arith

All-replicate : (n v : ℕ) → v < 256 → All IsByte (replicate n v)
All-replicate zero v h = tt
All-replicate (suc n) v h = (h, All-replicate n v h)

abbrev blocks_of : List ℕ → ℕ
blocks_of src = length src / block_size + 1

-- The IV, encrypted, and behind it the padded text in CBC mode.
abbrev pub sealed : Block → List ℕ → List ℕ → List ℕ
sealed ciph iv src = ciph.encrypt iv ++ cbc_encrypt ciph (blocks_of src) iv (padded src)

module _ (ciph : Block) (ok : IsCipher ciph) (iv src : List ℕ) (iv_block : IsBlock iv)
    (src_bytes : All IsByte src) where
  text_bytes : All IsByte (padded src)
  text_bytes =
      All-append IsByte src _ src_bytes (All-replicate (missing src) (missing src) (omega arith))

  first : IsBlock (ciph.encrypt iv)
  first = ok.encrypt_block iv iv_block

  chained :
      (cbc_decrypt ciph (blocks_of src) iv (cbc_encrypt ciph (blocks_of src) iv (padded src))
        ≡ padded src)
      × (length (cbc_encrypt ciph (blocks_of src) iv (padded src)) ≡ blocks_of src * block_size)
  chained =
      cbc_decrypt-cbc_encrypt ciph ok (blocks_of src) iv (padded src) iv_block (length-padded src)
        text_bytes

  encrypt_lem : symmetric_encrypt ciph iv src ≡ some (sealed ciph iv src)
  unfolding symmetric_encrypt copy_at
  encrypt_lem =
      rw
        (
          crypt_blocks-block ciph.encrypt (replicate block_size 0) iv refl iv_block.0 first.0,
          pad_pkcs7_with_iv_lem src,
          overlay-append (ciph.encrypt iv) (replicate block_size 0) (padded src) first.0,
          drop_front block_size (ciph.encrypt iv) (padded src) first.0,
          take_front block_size (ciph.encrypt iv) (padded src) first.0,
          cbc_blocks-whole (cbc_encrypt ciph) iv (padded src) (blocks_of src) (length-padded src),
        )
        refl

  decrypt_lem : symmetric_decrypt ciph (sealed ciph iv src) ≡ some src
  unfolding symmetric_decrypt
  decrypt_lem =
      rw
        (
          wide,
          take_front block_size (ciph.encrypt iv) body first.0,
          drop_front block_size (ciph.encrypt iv) body first.0,
          crypt_blocks-block ciph.decrypt (ciph.encrypt iv) (ciph.encrypt iv) first.0 first.0
              (ap length (ok.decrypt_encrypt iv iv_block) ∙ iv_block.0),
          ok.decrypt_encrypt iv iv_block,
          cbc_blocks-whole (cbc_decrypt ciph) iv body (blocks_of src) chained.1,
          chained.0,
        )
        (unpad_pkcs7-append src (missing src) (omega arith))
    where
      body : List ℕ
      body = cbc_encrypt ciph (blocks_of src) iv (padded src)

      wide : ltb (length (ciph.encrypt iv ++ body)) block_size ≡ false
      wide = ground (arith, length-append (ciph.encrypt iv) body, first.0)

  -- For a block cipher, an IV of one block and any bytes: SymmetricEncrypt does not panic, its
  -- output is whole blocks, two at least, and SymmetricDecrypt gives the text back.
  pub symmetric_decrypt-symmetric_encrypt :
      (symmetric_encrypt ciph iv src ≡ some (sealed ciph iv src))
      × (length (sealed ciph iv src) ≡ (length src / block_size + 2) * block_size)
      × (symmetric_decrypt ciph (sealed ciph iv src) ≡ some src)
  symmetric_decrypt-symmetric_encrypt = (
    encrypt_lem,
    omega (
      arith,
      length-append (ciph.encrypt iv) (cbc_encrypt ciph (blocks_of src) iv (padded src)),
      first.0,
      chained.1,
    ),
    decrypt_lem,
  )
