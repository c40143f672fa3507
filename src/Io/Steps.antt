-- ===== src/Io/Steps.antt =====
-- Deserializers: each step reads into a field of the struct `S`, and an error ends the function
-- with what the struct holds by then.
use go_steam_ws.Base.{ℕ, ◌^◌, ◌<◌, ◌≡◌, refl, Option, none, some, List, ◌++◌, append_assoc}
use go_steam_ws.Io.{Error, Reader, Buffer, Write, ◌>>◌, le_bytes, read_int, write_int, write_bytes}
use go_steam_ws.Io.Laws.{read_int-le_bytes}

abbrev pub Step : Type 0 → Type 0
Step S = S → Reader → Option Error × S × Reader

module _ {S : Type 0} where
  abbrev put_always :
      {A : Type 0} → (A → S → S) → S → A × Option Error × Reader → Option Error × S × Reader
  put_always put s (v, e, r) = (e, put v s, r)

  abbrev put_read : (ℕ → S → S) → S → ℕ × Option Error × Reader → Option Error × S × Reader
  put_read put s (v, none, r) = (none, put v s, r)
  put_read put s (v, some e, r) = (some e, s, r)

  -- `d.F, err = read(r)`: the field is written also when the read fails, with 0 or false.
  unfoldable pub store : {A : Type 0} → (Reader → A × Option Error × Reader) → (A → S → S) → Step S
  store read put s r = put_always put s (read r)

  -- `t, err := read(r); if err != nil { return err }; d.F = T(t)`
  unfoldable pub convert : (Reader → ℕ × Option Error × Reader) → (ℕ → S → S) → Step S
  convert read put s r = put_read put s (read r)

  abbrev on_success : Option Error × S × Reader → Step S → Option Error × S × Reader
  on_success (none, s, r) k = k s r
  on_success (some e, s, r) k = (some e, s, r)

  -- `err = a; if err != nil { return err }; b`
  infixl 5 ◌>>>◌
  unfoldable pub ◌>>>◌ : Step S → Step S → Step S
  ◌>>>◌ a b s r = on_success (a s r) b

  -- The step takes exactly the bytes `bs` and turns `s` into `t`.
  abbrev pub Reads : Step S → List ℕ → S → S → Type 0
  Reads step bs s t = (rest : List ℕ) → step s (bs ++ rest) ≡ (none, t, rest)

  pub store-Reads :
      (w v : ℕ) (put : ℕ → S → S) (s : S)
      → v < 256 ^ w
      → Reads (store (read_int w) put) (le_bytes w v) s (put v s)
  unfolding store
  store-Reads w v put s h rest = rw (read_int-le_bytes w v rest h)

  pub convert-Reads :
      (w v : ℕ) (put : ℕ → S → S) (s : S)
      → v < 256 ^ w
      → Reads (convert (read_int w) put) (le_bytes w v) s (put v s)
  unfolding convert
  convert-Reads w v put s h rest = rw (read_int-le_bytes w v rest h)

  pub >>>-Reads :
      (a b : Step S) (bs cs : List ℕ) (s t u : S)
      → Reads a bs s t
      → Reads b cs t u
      → Reads (a >>> b) (bs ++ cs) s u
  unfolding ◌>>>◌
  >>>-Reads a b bs cs s t u ha hb rest = rw (append_assoc bs cs rest, ha (cs ++ rest)) (hb rest)

-- The writer appends exactly `bs`, whatever the buffer holds, and does not fail.
abbrev pub Writes : Write → List ℕ → Type 0
Writes k bs = (buf : Buffer) → k buf ≡ (none, buf ++ bs)

pub write_int-Writes : (w v : ℕ) → Writes (write_int w v) (le_bytes w v)
unfolding write_int
write_int-Writes w v buf = refl

pub write_bytes-Writes : (bs : List ℕ) → Writes (write_bytes bs) bs
unfolding write_bytes
write_bytes-Writes bs buf = refl

pub >>-Writes :
    (a b : Write) (bs cs : List ℕ) → Writes a bs → Writes b cs → Writes (a >> b) (bs ++ cs)
>>-Writes a b bs cs ha hb buf = rw (ha buf, hb (buf ++ bs), append_assoc buf bs cs)
