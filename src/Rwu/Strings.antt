-- ===== src/Rwu/Strings.antt =====
-- Strings that a zero byte ends, and flags of one byte.
use go_steam_ws.Base.{
  ℕ, ◌^◌, ◌<◌, ◌≡◌, ◌≢◌, Bool, true, false, none, some, List, [], ◌∷◌, ◌++◌, All, arith, append-nil,
  append_assoc, length,
}
use go_steam_ws.Io.{eof, read_int, le_value}
use go_steam_ws.Io.Laws.{read_full-append}
use go_steam_ws.Rwu.{read_bool, read_string_loop, read_string, read_bytes, write_bool}

abbrev pub IsText : List ℕ → Type 0
IsText = All (λ b. b ≢ 0)

read_string_loop-append :
    (c s rest : List ℕ) → IsText s → read_string_loop c (s ++ (0 ∷ rest)) ≡ (c ++ s, none, rest)
unfolding read_string_loop
read_string_loop-append c [] rest h = ground (arith, append-nil c)
read_string_loop-append c (b ∷ s) rest h =
    ground (arith, read_string_loop-append (c ++ (b ∷ [])) s rest h.1, append_assoc c (b ∷ []) s)

-- A text with no zero byte in it and a zero byte behind it is read whole, and no further.
pub read_string-append :
    (s rest : List ℕ) → IsText s → read_string (s ++ (0 ∷ rest)) ≡ (s, none, rest)
unfolding read_string
read_string-append s rest h = read_string_loop-append [] s rest h

read_string_loop_open : (c s : List ℕ) → IsText s → read_string_loop c s ≡ (c ++ s, some eof, [])
unfolding read_string_loop
read_string_loop_open c [] h = ground (arith, append-nil c)
read_string_loop_open c (b ∷ s) h =
    ground (arith, read_string_loop_open (c ++ (b ∷ [])) s h.1, append_assoc c (b ∷ []) s)

-- With no zero byte to end it, all that there is comes back, and the error says so.
pub read_string_open : (s : List ℕ) → IsText s → read_string s ≡ (s, some eof, [])
unfolding read_string
read_string_open s h = read_string_loop_open [] s h

pub read_bool-write_bool :
    (b : Bool) (rest : List ℕ) → read_bool ((write_bool b []).1 ++ rest) ≡ (b, none, rest)
unfolding read_bool write_bool read_int le_value
read_bool-write_bool true rest = rw (read_full-append (1 ∷ []) rest)
read_bool-write_bool false rest = rw (read_full-append (0 ∷ []) rest)

pub read_bytes-append :
    (bs rest : List ℕ)
    → length bs < 2 ^ 31
    → read_bytes (bs ++ rest) (length bs) ≡ some (bs, none, rest)
unfolding read_bytes
read_bytes-append bs rest h = ground (arith, read_full-append bs rest)
