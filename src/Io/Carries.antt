-- ===== src/Io/Carries.antt =====
-- A struct of messages.go on the wire: its Serialize and its Deserialize together, field by field.
use go_steam_ws.Base.{
  length-append, ◌+◌, ℕ, ◌^◌, ◌<◌, ◌≡◌, refl, Bool, true, false, Option, none, some, List, [], ◌∷◌,
  ◌++◌, length, append-nil, if◌then◌else◌,
}
use go_steam_ws.Io.{
  le_value, Error, Reader, Write, ◌>>◌, le_bytes, read_full, read_int, write_int, write_bytes,
}
use go_steam_ws.Io.Laws.{length-le_bytes, read_full-append}
use go_steam_ws.Io.Steps.{
  Step, store, convert, ◌>>>◌, Reads, Writes, store-Reads, convert-Reads, >>>-Reads,
  write_int-Writes, write_bytes-Writes, >>-Writes,
}
use go_steam_ws.Rwu.{read_bool, write_bool}

-- The Serialize of a struct without fields: `var err error; return err`.
unfoldable pub write_nothing : Write
write_nothing buf = (none, buf)

abbrev pub bool_byte : Bool → List ℕ
bool_byte b = if b then 1 ∷ [] else 0 ∷ []

module _ {S : Type 0} where
  -- The Deserialize of a struct without fields.
  unfoldable pub read_nothing : Step S
  read_nothing s r = (none, s, r)

  abbrev put_whole :
      (List ℕ → S → S) → S → Option Error × List ℕ × Reader → Option Error × S × Reader
  put_whole put s (none, bs, r) = (none, put bs s, r)
  put_whole put s (some e, bs, r) = (some e, s, r)

  -- `binary.Read(r, binary.LittleEndian, d.F)` of a slice of bytes: as many bytes as it holds, and
  -- on an error it keeps those.
  unfoldable pub fill : (S → List ℕ) → (List ℕ → S → S) → Step S
  fill field put s r = put_whole put s (read_full (length (field s)) r)

  -- The writer appends `bs`, which are `n` bytes, and the step that reads them turns `s` into `t`.
  pub record Carries (w : Write) (step : Step S) (bs : List ℕ) (n : ℕ) (s t : S) : Type 0 where
    pub counts : length bs ≡ n
    pub writes : Writes w bs
    pub reads : Reads step bs s t

  pub store_int :
      (put : ℕ → S → S) (w v : ℕ) (s : S)
      → v < 256 ^ w
      → Carries (write_int w v) (store (read_int w) put) (le_bytes w v) w s (put v s)
  store_int put w v s h = record {
    counts = length-le_bytes w v;
    writes = write_int-Writes w v;
    reads = store-Reads w v put s h;
  }

  pub convert_int :
      (put : ℕ → S → S) (w v : ℕ) (s : S)
      → v < 256 ^ w
      → Carries (write_int w v) (convert (read_int w) put) (le_bytes w v) w s (put v s)
  convert_int put w v s h = record {
    counts = length-le_bytes w v;
    writes = write_int-Writes w v;
    reads = convert-Reads w v put s h;
  }

  pub store_bool :
      (put : Bool → S → S) (b : Bool) (s : S)
      → Carries (write_bool b) (store read_bool put) (bool_byte b) 1 s (put b s)
  unfolding write_bool read_bool store write_bytes read_int le_value
  store_bool put true s = record {
    counts = refl;
    writes = λ buf. refl;
    reads = λ rest. rw (read_full-append (1 ∷ []) rest);
  }
  store_bool put false s = record {
    counts = refl;
    writes = λ buf. refl;
    reads = λ rest. rw (read_full-append (0 ∷ []) rest);
  }

  pub fill_bytes :
      (field : S → List ℕ) (put : List ℕ → S → S) (bs : List ℕ) {n : ℕ} (s : S)
      → length bs ≡ n
      → length bs ≡ length (field s)
      → Carries (write_bytes bs) (fill field put) bs n s (put bs s)
  unfolding fill
  fill_bytes field put bs s k h = record {
    counts = k;
    writes = write_bytes-Writes bs;
    reads = λ rest. rw (← h, read_full-append bs rest);
  }

  pub nothing : (s : S) → Carries write_nothing read_nothing [] 0 s s
  unfolding write_nothing read_nothing
  nothing s = record { counts = refl; writes = λ buf. rw (append-nil buf); reads = λ rest. refl }

  infixl 5 ◌then◌
  pub ◌then◌ :
      {a b : Write} {x y : Step S} {bs cs : List ℕ} {m n : ℕ} {s t u : S}
      → Carries a x bs m s t
      → Carries b y cs n t u
      → Carries (a >> b) (x >>> y) (bs ++ cs) (m + n) s u
  ◌then◌ {bs = bs} {cs = cs} p q = record {
    counts = rw (length-append bs cs, p.counts, q.counts);
    writes = >>-Writes _ _ _ _ p.writes q.writes;
    reads = >>>-Reads _ _ _ _ _ _ _ p.reads q.reads;
  }
