-- ===== src/Client/WriteLoop.antt =====
-- writeLoop of client.go: the turns in which the queue is serialized and written.
use go_steam_ws.Base.{ℕ, Bool, true, false, Option, none, some, List, [], ◌∷◌}
use go_steam_ws.Io.{Error, Outcome, returns, ◌>>=◌}
use go_steam_ws.SteamLang.Bodies.{MessageBody, response_body}
use go_steam_ws.ProtoBuf.{ProtoHeader, Codec}
use go_steam_ws.Protocol.ProtoMsg
use go_steam_ws.Protocol.StructMsg
use go_steam_ws.Protocol.PlainMsg
use go_steam_ws.Client.{
  Client, IMsg, proto_msg, client_msg, plain_msg, Chan, open_chan, closed_chan, Link, fatalf,
}

module _ {M B C : Type 0} (link : Link C) (codec : Codec ProtoHeader) (bodies : Codec M)
    (structs : MessageBody B) where
  unfoldable pub serialize : IMsg M B → Option Error × List ℕ
  serialize (proto_msg m) = let (e, m', bytes) = ProtoMsg.serialize codec bodies m [] in (e, bytes)
  serialize (client_msg m) = StructMsg.serialize structs m []
  serialize (plain_msg m) = PlainMsg.serialize response_body m []

  -- `Bool`: whether the loop goes on.
  abbrev stops : Outcome (Client M B C) → Outcome (Bool × Client M B C)
  stops o = o >>= λ c. returns (false, c)

  unfoldable pub after_write : Client M B C → Option Error × C → Outcome (Bool × Client M B C)
  unfolding fatalf
  after_write c (some e, l) = stops (fatalf (record c { conn = some l }))
  after_write c (none, l) = returns (true, record c { conn = some l })

  unfoldable pub send_bytes :
      Client M B C → C → Option Error × List ℕ → Outcome (Bool × Client M B C)
  unfolding fatalf after_write
  send_bytes c l (some e, bytes) = stops (fatalf c)
  send_bytes c l (none, bytes) = link.write bytes l >>= after_write c

  unfoldable pub take_msg : Client M B C → C → Chan (IMsg M B) → Outcome (Bool × Client M B C)
  unfolding serialize send_bytes
  take_msg c l (open_chan (m ∷ q)) =
      send_bytes (record c { write_chan = open_chan q }) l (serialize m)
  take_msg c l (closed_chan (m ∷ q)) =
      send_bytes (record c { write_chan = closed_chan q }) l (serialize m)
  take_msg c l (closed_chan []) = returns (false, c)
  take_msg c l _ = returns (true, c)

  -- One turn of writeLoop, as one step: no Disconnect comes between the look at the connection
  -- and the write. On an empty channel the loop waits, which leaves the state alone.
  unfoldable pub write_loop : Client M B C → Outcome (Bool × Client M B C)
  unfolding take_msg
  write_loop c = elim c.conn [ none ↦ returns (false, c) | some l ↦ take_msg c l c.write_chan ]
