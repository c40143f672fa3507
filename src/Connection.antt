-- ===== src/Connection.antt =====
-- connection.go: packets framed over a TCP connection, and its encryption key.
-- AES is a parameter, a function from keys to block ciphers; the IV that rand.Read gives is an
-- argument of the write. What the peer sends is the list of bytes still to come.
pub mod Frames
pub mod Faults
use go_steam_ws.Base.{
  ℕ, ◌+◌, ◌-◌, ◌^◌, ◌%◌, ◌≤◌, Bool, true, false, not, Option, none, some, List, [], ◌∷◌, ◌++◌, ◌==◌,
  leb, if◌then◌else◌, length, take,
}
use go_steam_ws.Io.{
  Error, eof, unexpected_eof, invalid, Reader, le_bytes, read_full, read_int, Outcome, returns,
  panics, Result, ok, err, ◌>>=◌,
}
use go_steam_ws.CryptoUtil.{Block, symmetric_encrypt, symmetric_decrypt}
use go_steam_ws.ProtoBuf.{ProtoHeader, Codec}
use go_steam_ws.Protocol.Packet.{Packet, new_packet}

-- "VT01"
abbrev pub tcp_connection_magic : ℕ
tcp_connection_magic = 0x31305456

-- The sending half of net.Conn: what was sent, and how many bytes more it will take before it
-- fails. A write that fails has sent a part.
pub record Socket : Type 0 where
  pub sent : List ℕ
  pub room : ℕ

unfoldable pub send : List ℕ → Socket → Option Error × Socket
send bs s =
    if leb (length bs) s.room
    then (none, record { sent = s.sent ++ bs; room = s.room - length bs })
    else (some invalid, record { sent = s.sent ++ take s.room bs; room = 0 })

-- `ciph` of tcpConnection: nil until a key is set.
abbrev pub Cipher : Type 0
Cipher = Option Block

unfoldable pub is_encrypted : Cipher → Bool
is_encrypted none = false
is_encrypted (some b) = true

-- A nil key (`none`) drops the cipher; a key that is not 32 bytes long panics.
unfoldable pub set_encryption_key : (List ℕ → Block) → Option (List ℕ) → Outcome Cipher
set_encryption_key aes none = returns none
set_encryption_key aes (some key) =
    if not (length key == 32) then panics else returns (some (aes key))

abbrev orelse_panic : Option (List ℕ) → Outcome (List ℕ)
orelse_panic none = panics
orelse_panic (some bs) = returns bs

encrypt_with : Cipher → List ℕ → List ℕ → Outcome (List ℕ)
encrypt_with none iv message = returns message
encrypt_with (some c) iv message = orelse_panic (symmetric_encrypt c iv message)

unfoldable pub decrypt_with : Cipher → List ℕ → Outcome (List ℕ)
decrypt_with none buf = returns buf
decrypt_with (some c) buf = orelse_panic (symmetric_decrypt c buf)

-- `err := a; if err != nil { return err }; b`
abbrev next_send : Option Error × Socket → (Socket → Option Error × Socket) → Option Error × Socket
next_send (none, s) k = k s
next_send (some e, s) k = (some e, s)

write_frame : List ℕ → Socket → Option Error × Socket
unfolding send
write_frame message s =
    next_send (send (le_bytes 4 (length message % 2 ^ 32)) s)
      λ s1. next_send (send (le_bytes 4 tcp_connection_magic) s1) λ s2. send message s2

unfoldable pub write : Cipher → List ℕ → List ℕ → Socket → Outcome (Option Error × Socket)
unfolding encrypt_with write_frame
write ciph iv message s = encrypt_with ciph iv message >>= λ bytes. returns (write_frame bytes s)

module _ (codec : Codec ProtoHeader) (ciph : Cipher) where
  unfoldable pub with_rest : Reader → Outcome (Result Packet) → Outcome (Result Packet × Reader)
  with_rest r (returns p) = returns (p, r)
  with_rest r panics = panics

  -- io.ErrUnexpectedEOF becomes io.EOF.
  after_body : Option Error × List ℕ × Reader → Outcome (Result Packet × Reader)
  unfolding decrypt_with with_rest
  after_body (some unexpected_eof, bs, r) = returns (err eof, r)
  after_body (some e, bs, r) = returns (err e, r)
  after_body (none, buf, r) =
      decrypt_with ciph buf >>= λ plain. with_rest r (new_packet codec plain)

  after_magic : ℕ → ℕ × Option Error × Reader → Outcome (Result Packet × Reader)
  unfolding after_body
  after_magic packet_len (magic, some e, r) = returns (err e, r)
  after_magic packet_len (magic, none, r) =
      if not (magic == tcp_connection_magic)
      then returns (err invalid, r)
      else after_body (read_full packet_len r)

  after_length : ℕ × Option Error × Reader → Outcome (Result Packet × Reader)
  unfolding after_magic
  after_length (packet_len, some e, r) = returns (err e, r)
  after_length (packet_len, none, r) = after_magic packet_len (read_int 4 r)

  -- The packet or the error, and what the connection still holds.
  unfoldable pub read : Reader → Outcome (Result Packet × Reader)
  unfolding after_length
  read r = after_length (read_int 4 r)
