-- ===== src/Connection/Faults.antt =====
-- What Read does with bytes that Write did not send.
use go_steam_ws.Base.{
  ℕ, zero, suc, ◌^◌, ◌<◌, ◌≡◌, ◌≢◌, refl, some, List, ◌++◌, ◌==◌, false, length, arith, ltb, true,
}
use go_steam_ws.Io.{Reader, le_bytes, returns, panics, err, eof, invalid, read_full}
use go_steam_ws.Io.Laws.{read_int-le_bytes}
use go_steam_ws.CryptoUtil.{block_size, Block, symmetric_decrypt}
use go_steam_ws.ProtoBuf.{ProtoHeader, Codec}
use go_steam_ws.Connection.{tcp_connection_magic, Cipher, read, decrypt_with, after_body}
use go_steam_ws.Connection.Frames.{frame, read-frame}

module _ (codec : Codec ProtoHeader) where
  -- After a length and a magic value other than "VT01", Read fails and takes nothing more.
  pub read_magic :
      (ciph : Cipher) (len magic : ℕ) (rest : Reader)
      → len < 2 ^ 32
      → magic < 2 ^ 32
      → magic ≢ tcp_connection_magic
      → read codec ciph (le_bytes 4 len ++ (le_bytes 4 magic ++ rest)) ≡ returns (err invalid, rest)
  unfolding read
  read_magic ciph len magic rest hl hm ne =
      rw
        (
          read_int-le_bytes 4 len (le_bytes 4 magic ++ rest) (omega arith),
          read_int-le_bytes 4 magic rest (omega arith),
          differs,
        )
        refl
    where
      differs : (magic == tcp_connection_magic) ≡ false
      differs = ground arith

  closed :
      (ciph : Cipher) (len : ℕ) (body : Reader)
      → length body < len
      → after_body codec ciph (read_full len body) ≡ returns (err eof, List.[])
  unfolding after_body read_full
  closed ciph zero body h = absurd (omega arith)
  closed ciph (suc n) List.[] h = refl
  closed ciph (suc n) (List.◌∷◌ b r) h = ground arith

  -- A connection that closes inside a packet reads as io.EOF, and nothing is left of it.
  pub read_cut_off :
      (ciph : Cipher) (len : ℕ) (body : Reader)
      → len < 2 ^ 32
      → length body < len
      → read codec ciph (le_bytes 4 len ++ (le_bytes 4 tcp_connection_magic ++ body))
        ≡ returns (err eof, List.[])
  unfolding read
  read_cut_off ciph len body hl short =
      rw
        (
          read_int-le_bytes 4 len (le_bytes 4 tcp_connection_magic ++ body) (omega arith),
          read_int-le_bytes 4 tcp_connection_magic body (omega arith),
        )
        (closed ciph len body short)

  -- Once a key is set, a frame of fewer than 16 bytes makes Read panic: SymmetricDecrypt slices
  -- the IV off without a look at the length.
  pub read_short_frame :
      (b : Block) (bytes : List ℕ) (rest : Reader)
      → length bytes < block_size
      → read codec (some b) (frame bytes ++ rest) ≡ panics
  unfolding decrypt_with symmetric_decrypt
  read_short_frame b bytes rest h =
      rw (read-frame codec (some b) bytes rest (omega arith), short) refl
    where
      short : ltb (length bytes) block_size ≡ true
      short = ground arith
