-- ===== src/Io/Laws.antt =====
-- Reading back what was written, and reading past the end.
use go_steam_ws.Base.{
  ℕ, zero, suc, ◌/◌, ◌^◌, ◌<◌, ◌≡◌, refl, ap, none, some, List, [], ◌∷◌, ◌++◌, length, All, arith,
  take-append, drop-append, length-append,
}
use go_steam_ws.Io.{
  Error, eof, unexpected_eof, IsByte, Reader, le_bytes, le_value, read_full, read_int,
}
use native.Mathlib.Nat.{pow-suc}

pub length-le_bytes : (w v : ℕ) → length (le_bytes w v) ≡ w
unfolding le_bytes
length-le_bytes zero v = refl
length-le_bytes (suc w) v = ap suc (length-le_bytes w (v / 256))

pub le_bytes-IsByte : (w v : ℕ) → All IsByte (le_bytes w v)
unfolding le_bytes
le_bytes-IsByte zero v = tt
le_bytes-IsByte (suc w) v = (omega arith, le_bytes-IsByte w (v / 256))

-- `w` bytes hold every number below 256 ^ w.
pub le_value-le_bytes : (w v : ℕ) → v < 256 ^ w → le_value (le_bytes w v) ≡ v
unfolding le_bytes le_value
le_value-le_bytes zero v h = omega arith
le_value-le_bytes (suc w) v h =
    omega (arith, le_value-le_bytes w (v / 256) (omega (arith, pow-suc 256 w)))

pub le_value-lt : (bs : List ℕ) → All IsByte bs → le_value bs < 256 ^ length bs
unfolding le_value
le_value-lt [] h = omega arith
le_value-lt (b ∷ bs) h = omega (arith, le_value-lt bs h.1, pow-suc 256 (length bs))

pub le_bytes-le_value : (bs : List ℕ) → All IsByte bs → le_bytes (length bs) (le_value bs) ≡ bs
unfolding le_value le_bytes
le_bytes-le_value [] h = refl
le_bytes-le_value (b ∷ bs) h = ground (arith, le_bytes-le_value bs h.1)

pub read_full-append : (xs rest : List ℕ) → read_full (length xs) (xs ++ rest) ≡ (none, xs, rest)
unfolding read_full
read_full-append [] rest = refl
read_full-append (x ∷ xs) rest =
    ground (arith, take-append xs rest, drop-append xs rest, length-append xs rest)

-- A reader with fewer bytes than asked for ends empty, with an error.
pub read_full_short :
    (n : ℕ) (r : Reader) → length r < n → (e : Error) × (read_full n r ≡ (some e, r, []))
unfolding read_full
read_full_short zero r h = absurd (omega arith)
read_full_short (suc n) [] h = (eof, refl)
read_full_short (suc n) (b ∷ r) h = (unexpected_eof, ground arith)

pub read_int-le_bytes :
    (w v : ℕ) (rest : List ℕ) → v < 256 ^ w → read_int w (le_bytes w v ++ rest) ≡ (v, none, rest)
unfolding read_int
read_int-le_bytes w v rest h =
    ground
      (arith, read_full-append (le_bytes w v) rest, length-le_bytes w v, le_value-le_bytes w v h)

pub read_int_short :
    (w : ℕ) (r : Reader) → length r < w → (e : Error) × (read_int w r ≡ (0, some e, []))
unfolding read_int
read_int_short w r h = let (e, p) = read_full_short w r h in (e, rw p)
