-- ===== src/Rwu.antt =====
-- rwu/rwu.go: reading and writing of binary data. Each function returns the value, the error and
-- what the reader has left; an intN is its bit pattern.
pub mod Strings
use go_steam_ws.Base.{
  ℕ, ◌+◌, ◌^◌, ◌<◌, Bool, true, false, not, Option, none, some, List, [], ◌∷◌, ◌++◌, ◌==◌, leb,
  if◌then◌else◌, replicate,
}
use go_steam_ws.Io.{Error, eof, Reader, Buffer, Write, read_full, read_int, write_bytes}

abbrev nonzero : ℕ × Option Error × Reader → Bool × Option Error × Reader
nonzero (c, e, r) = (not (c == 0), e, r)

unfoldable pub read_bool : Reader → Bool × Option Error × Reader
unfolding read_int
read_bool r = nonzero (read_int 1 r)

unfoldable pub read_uint8 : Reader → ℕ × Option Error × Reader
unfolding read_int
read_uint8 r = read_int 1 r

unfoldable pub read_uint16 : Reader → ℕ × Option Error × Reader
unfolding read_int
read_uint16 r = read_int 2 r

unfoldable pub read_uint32 : Reader → ℕ × Option Error × Reader
unfolding read_int
read_uint32 r = read_int 4 r

unfoldable pub read_uint64 : Reader → ℕ × Option Error × Reader
unfolding read_int
read_uint64 r = read_int 8 r

unfoldable pub read_int8 : Reader → ℕ × Option Error × Reader
unfolding read_int
read_int8 r = read_int 1 r

unfoldable pub read_int16 : Reader → ℕ × Option Error × Reader
unfolding read_int
read_int16 r = read_int 2 r

unfoldable pub read_int32 : Reader → ℕ × Option Error × Reader
unfolding read_int
read_int32 r = read_int 4 r

unfoldable pub read_int64 : Reader → ℕ × Option Error × Reader
unfolding read_int
read_int64 r = read_int 8 r

unfoldable pub read_byte : Reader → ℕ × Option Error × Reader
unfolding read_int
read_byte r = read_int 1 r

-- The loop of ReadString: `c` is what it has collected. Reading one byte fails only at the end.
unfoldable pub read_string_loop : List ℕ → Reader → List ℕ × Option Error × Reader
read_string_loop c [] = (c, some eof, [])
read_string_loop c (b ∷ r) =
    let more = read_string_loop (c ++ (b ∷ [])) r in if b == 0 then (c, none, r) else more

unfoldable pub read_string : Reader → List ℕ × Option Error × Reader
unfolding read_string_loop
read_string r = read_string_loop [] r

-- `none` is the panic of make([]byte, num) at a negative int32.
abbrev zeros_on_error : ℕ → Option Error × List ℕ × Reader → List ℕ × Option Error × Reader
zeros_on_error n (none, bs, r) = (bs, none, r)
zeros_on_error n (some e, bs, r) = (replicate n 0, some e, r)

unfoldable pub read_bytes : Reader → ℕ → Option (List ℕ × Option Error × Reader)
unfolding read_full
read_bytes r num = if leb (2 ^ 31) num then none else some (zeros_on_error num (read_full num r))

unfoldable pub write_bool : Bool → Write
unfolding write_bytes
write_bool b = if b then write_bytes (1 ∷ []) else write_bytes (0 ∷ [])
