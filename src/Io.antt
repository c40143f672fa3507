-- ===== src/Io.antt =====
-- What the program uses of Go's io, bytes and encoding/binary.
-- A `bytes.Reader` or a connection that is read from is the list of the bytes still to come, a
-- `bytes.Buffer` the list of the bytes written; writing to a buffer does not fail.
pub mod Laws
pub mod Steps
pub mod Carries
use go_steam_ws.Base.{
  ℕ, zero, suc, ◌+◌, ◌*◌, ◌/◌, ◌%◌, ◌<◌, ◌≡◌, Option, none, some, List, [], ◌∷◌, ◌++◌, leb,
  if◌then◌else◌, length, take, drop, All,
}

-- `marshal` and `unmarshal` are errors of the protobuf library, `invalid` one that the program
-- makes by fmt.Errorf or errors.New.
pub data Error : Type 0 where
  eof unexpected_eof marshal unmarshal invalid : Error

abbrev pub IsByte : ℕ → Type 0
IsByte b = b < 256

abbrev pub Reader : Type 0
Reader = List ℕ

abbrev pub Buffer : Type 0
Buffer = List ℕ

-- The `w` bytes of `v`, lowest first: binary.LittleEndian.
unfoldable pub le_bytes : ℕ → ℕ → List ℕ
le_bytes zero v = []
le_bytes (suc w) v = (v % 256) ∷ le_bytes w (v / 256)

unfoldable pub le_value : List ℕ → ℕ
le_value [] = 0
le_value (b ∷ bs) = b + 256 * le_value bs

-- io.ReadFull into a buffer of `n` bytes: the error, the bytes it got, and what is left. A reader
-- that ends too soon is used up.
unfoldable pub read_full : ℕ → Reader → Option Error × List ℕ × Reader
read_full zero r = (none, [], r)
read_full (suc n) [] = (some eof, [], [])
read_full (suc n) (b ∷ r) =
    if leb n (length r) then (none, b ∷ take n r, drop n r) else (some unexpected_eof, b ∷ r, [])

-- What `f` makes of the bytes of a successful read; 0 stands in the variable after a failed one.
abbrev value_of : Option Error × List ℕ × Reader → ℕ × Option Error × Reader
value_of (none, bs, r) = (le_value bs, none, r)
value_of (some e, bs, r) = (0, some e, r)

-- binary.Read of an integer of `w` bytes. An intN is its bit pattern, a number below 2 ^ N.
unfoldable pub read_int : ℕ → Reader → ℕ × Option Error × Reader
unfolding read_full
read_int w r = value_of (read_full w r)

-- A serializer appends to the buffer, and may stop with an error.
abbrev pub Write : Type 0
Write = Buffer → Option Error × Buffer

-- binary.Write of an integer of `w` bytes.
unfoldable pub write_int : ℕ → ℕ → Write
write_int w v buf = (none, buf ++ le_bytes w v)

-- w.Write(bytes)
unfoldable pub write_bytes : List ℕ → Write
write_bytes bs buf = (none, buf ++ bs)

-- `err = a; if err != nil { return err }; b`
abbrev and_then : Option Error × Buffer → Write → Option Error × Buffer
and_then (none, buf) k = k buf
and_then (some e, buf) k = (some e, buf)

infixl 5 ◌>>◌
abbrev pub ◌>>◌ : Write → Write → Write
◌>>◌ a b buf = and_then (a buf) b

-- What a call comes to: a value, or a panic of the run-time.
pub data Outcome {ℓ} (A : Type ℓ) : Type ℓ where
  returns : A → Outcome A
  panics : Outcome A

-- Go's (value, error) where the value is not used beside an error.
pub data Result {ℓ} (A : Type ℓ) : Type ℓ where
  ok : A → Result A
  err : Error → Result A

-- What follows a call that may panic.
infixl 5 ◌>>=◌
abbrev pub ◌>>=◌ {ℓ κ} : {A : Type ℓ} {B : Type κ} → Outcome A → (A → Outcome B) → Outcome B
returns a >>= f = f a
panics >>= f = panics
