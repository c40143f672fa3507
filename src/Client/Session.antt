-- ===== src/Client/Session.antt =====
-- The calls of a Client in any order, and the state that they keep.
use go_steam_ws.Base.{
  ◌^◌, ◌||◌, ◌&&◌, leb, ◌==◌, ◌++◌, ◌⊎◌, ℕ, ◌≡◌, Bool, true, false, not, Option, none, some, List,
  [], ◌∷◌, length,
}
use go_steam_ws.Io.{Error, Outcome, returns, panics, ◌>>=◌}
use go_steam_ws.SteamLang.Bodies.{MessageBody}
use go_steam_ws.ProtoBuf.{ProtoHeader, Codec}
use go_steam_ws.Protocol.Packet.{Packet}
use go_steam_ws.Client.{
  Client, IMsg, Chan, open_chan, Link, connected, disconnect, fatalf, connect_to_bind,
  connect_to_web_socket, write, start_heartbeat, tick, handle_channel_encrypt_request,
  handle_channel_encrypt_result, is_ok,
}
use go_steam_ws.Client.WriteLoop.{write_loop}

abbrev KeyFits : Option (List ℕ) → Type 0
KeyFits none = Unit {0}
KeyFits (some k) = length k ≡ 32

abbrev ChanFits : {C A : Type 0} → Option C → Chan A → Type 0
ChanFits (some l) (open_chan q) = Unit {0}
ChanFits (some l) _ = ⊥
ChanFits none (open_chan q) = ⊥
ChanFits none _ = Unit {0}

-- The channel is open exactly while there is a connection, and a key waits only with 32 bytes.
pub record IsSession {M B C : Type 0} (c : Client M B C) : Type 0 where
  pub chan : ChanFits c.conn c.write_chan
  pub key : KeyFits c.temp_session_key

-- What the client relies on of a connection: with 32 byte keys its methods return.
pub record IsLink {C : Type 0} (link : Link C) : Type 0 where
  pub writes : (bs : List ℕ) (l : C) → (r : Option Error × C) × (link.write bs l ≡ returns r)
  pub sets :
      (k : Option (List ℕ)) (l : C)
      → KeyFits k
      → (l' : C) × (link.set_encryption_key k l ≡ returns l')

-- The state after a call that does not panic.
abbrev pub Safe : {M B C : Type 0} → Outcome (Client M B C) → Type 0
Safe (returns c) = IsSession c
Safe panics = ⊥

module _ {M B C : Type 0} where
  -- What a turn of a loop leaves, whether the loop goes on or not.
  abbrev pub left : Outcome (Bool × Client M B C) → Outcome (Client M B C)
  left (returns (b, c)) = returns c
  left panics = panics

  module _ (link : Link C) (codec : Codec ProtoHeader) (bodies : Codec M)
      (structs : MessageBody B) where
    -- The calls that change a client; `requests` and `results` are packets that are handled.
    pub data Call : Type 0 where
      connects connects_web : Option C → Call
      disconnects fails write_turns : Call
      writes : IMsg M B → Call
      beats : ℕ → Call
      ticks : M → Call
      requests : (key : List ℕ) → length key ≡ 32 → (List ℕ → List ℕ) → (List ℕ → ℕ) → Packet → Call
      results : Packet → Call

    unfoldable pub call : Call → Client M B C → Outcome (Client M B C)
    call (connects dial) c = connect_to_bind dial c
    call (connects_web dial) c = connect_to_web_socket dial c
    call disconnects c = disconnect c
    call fails c = fatalf c
    call write_turns c = left (write_loop link codec bodies structs c)
    call (writes m) c = write m c
    call (beats n) c = start_heartbeat n c
    call (ticks body) c = tick body c
    call (requests key len rsa crc32 p) c = handle_channel_encrypt_request key rsa crc32 p c
    call (results p) c = handle_channel_encrypt_result link p c

    unfoldable pub calls : List Call → Client M B C → Outcome (Client M B C)
    calls [] c = returns c
    calls (x ∷ xs) c = call x c >>= calls xs

    -- The calls that a client in this state does not stand: a ChannelEncryptResult that is OK, in
    -- its four bytes, without a connection, and a heartbeat whose seconds are not a positive int32.
    unfoldable pub crashes : Call → Client M B C → Bool
    crashes (results p) c = is_ok p && not (connected c)
    crashes (beats n) c = n == 0 || leb (2 ^ 31) n
    crashes _ c = false

    -- `xs` is cut short by a call that a client in the state before it does not stand.
    abbrev pub Crashed : List Call → Client M B C → Type 0
    Crashed xs c =
        (ys zs : List Call) × (x : Call) × (c1 : Client M B C) × (xs ≡ ys ++ (x ∷ zs))
        × (calls ys c ≡ returns c1)
        × (crashes x c1 ≡ true)

    abbrev Verdict : List Call → Client M B C → Type 0
    Verdict xs c = Safe (calls xs c) ⊎ ((calls xs c ≡ panics) × Crashed xs c)
