-- ===== src/Connection/Frames.antt =====
-- A packet written to one end of a connection is read at the other.
use go_steam_ws.Base.{
  ℕ, ◌+◌, ◌-◌, ◌^◌, ◌%◌, ◌≤◌, ◌<◌, ◌≡◌, refl, none, some, List, ◌++◌, length, All, arith,
  append_assoc,
}
use go_steam_ws.Io.{IsByte, Reader, le_bytes, returns, ◌>>=◌}
use go_steam_ws.Io.Laws.{read_int-le_bytes, read_full-append, length-le_bytes}
use go_steam_ws.CryptoUtil.{IsBlock, IsCipher}
use go_steam_ws.CryptoUtil.RoundTrip.{sealed, symmetric_decrypt-symmetric_encrypt}
use go_steam_ws.ProtoBuf.{ProtoHeader, Codec}
use go_steam_ws.Protocol.Packet.{new_packet}
use go_steam_ws.Connection.{
  tcp_connection_magic, Socket, Cipher, encrypt_with, decrypt_with, write_frame, write, with_rest,
  read,
}

abbrev pub frame : List ℕ → List ℕ
frame bytes = le_bytes 4 (length bytes) ++ (le_bytes 4 tcp_connection_magic ++ bytes)

-- What goes over the wire for a message: itself, or its encryption.
abbrev pub wire_form : Cipher → List ℕ → List ℕ → List ℕ
wire_form none iv message = message
wire_form (some c) iv message = sealed c iv message

-- The cipher, if there is one, is a block cipher, and the IV is one block.
abbrev pub IsSound : Cipher → List ℕ → Type 0
IsSound none iv = Unit {0}
IsSound (some c) iv = IsCipher c × IsBlock iv

write_frame_lem :
    (bytes : List ℕ) (s : Socket)
    → length bytes < 2 ^ 32
    → length bytes + 8 ≤ s.room
    → write_frame bytes s
      ≡ (none, record { sent = s.sent ++ frame bytes; room = s.room - (length bytes + 8) })
unfolding write_frame
write_frame_lem bytes s h room = ground (
  arith,
  length-le_bytes 4 (length bytes % 2 ^ 32),
  length-le_bytes 4 tcp_connection_magic,
  append_assoc s.sent (le_bytes 4 (length bytes)) (le_bytes 4 tcp_connection_magic),
  append_assoc (s.sent ++ le_bytes 4 (length bytes)) (le_bytes 4 tcp_connection_magic) bytes,
  append_assoc s.sent (le_bytes 4 (length bytes)) (le_bytes 4 tcp_connection_magic ++ bytes),
)

encrypt_with_lem :
    (ciph : Cipher) (iv message : List ℕ)
    → IsSound ciph iv
    → All IsByte message
    → encrypt_with ciph iv message ≡ returns (wire_form ciph iv message)
unfolding encrypt_with
encrypt_with_lem none iv message ok b = refl
encrypt_with_lem (some c) iv message ok b =
    rw (symmetric_decrypt-symmetric_encrypt c ok.0 iv message ok.1 b).0

decrypt_with_lem :
    (ciph : Cipher) (iv message : List ℕ)
    → IsSound ciph iv
    → All IsByte message
    → decrypt_with ciph (wire_form ciph iv message) ≡ returns message
unfolding decrypt_with
decrypt_with_lem none iv message ok b = refl
decrypt_with_lem (some c) iv message ok b =
    rw (symmetric_decrypt-symmetric_encrypt c ok.0 iv message ok.1 b).2

-- A frame of `bytes` is cut off the connection, decrypted and parsed.
pub read-frame :
    (codec : Codec ProtoHeader) (ciph : Cipher) (bytes : List ℕ) (rest : Reader)
    → length bytes < 2 ^ 32
    → read codec ciph (frame bytes ++ rest)
      ≡ (decrypt_with ciph bytes >>= λ plain. with_rest codec ciph rest (new_packet codec plain))
unfolding read
read-frame codec ciph bytes rest h =
    rw
      (
        append_assoc (le_bytes 4 (length bytes)) (le_bytes 4 tcp_connection_magic ++ bytes) rest,
        append_assoc (le_bytes 4 tcp_connection_magic) bytes rest,
        read_int-le_bytes 4 (length bytes) (le_bytes 4 tcp_connection_magic ++ (bytes ++ rest))
            (omega arith),
        read_int-le_bytes 4 tcp_connection_magic (bytes ++ rest) (omega arith),
        read_full-append bytes rest,
      )
      refl

-- With a sound cipher or none, a message of bytes whose wire form is below 4 GiB, and a socket
-- with room for it: Write sends exactly one frame; Read with the same cipher takes exactly that
-- frame off whatever follows, and gives what NewPacket makes of the message.
pub read-write :
    (codec : Codec ProtoHeader) (ciph : Cipher) (iv message : List ℕ) (s : Socket) (rest : Reader)
    → IsSound ciph iv
    → All IsByte message
    → length (wire_form ciph iv message) < 2 ^ 32
    → length (wire_form ciph iv message) + 8 ≤ s.room
    → (write ciph iv message s
        ≡ returns (
          none,
          record {
            sent = s.sent ++ frame (wire_form ciph iv message);
            room = s.room - (length (wire_form ciph iv message) + 8);
          },
        ))
      × (read codec ciph (frame (wire_form ciph iv message) ++ rest)
          ≡ with_rest codec ciph rest (new_packet codec message))
unfolding write
read-write codec ciph iv message s rest ok b h room = (
  rw (encrypt_with_lem ciph iv message ok b, write_frame_lem (wire_form ciph iv message) s h room)
      refl,
  rw
      (
        read-frame codec ciph (wire_form ciph iv message) rest h,
        decrypt_with_lem ciph iv message ok b,
      )
      refl,
)
