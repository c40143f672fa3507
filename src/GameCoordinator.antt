-- ===== src/GameCoordinator.antt =====
-- gamecoordinator.go: messages to and packets from the coordinators of games, inside the messages
-- of the client.
pub mod Messages
pub mod RoundTrip
use go_steam_ws.Base.{ℕ, Option, some, List, [], ◌∷◌, ◌==◌, if◌then◌else◌, bit_or}
use go_steam_ws.Client.{Client, error_event, proto_msg, emit}
use go_steam_ws.Client as ClientCalls
use go_steam_ws.Io.{Outcome, returns, Result, ok, err, ◌>>=◌}
use go_steam_ws.ProtoBuf.{ProtoHeader, Codec}
use go_steam_ws.Protocol.Packet.{Packet, read_proto_msg}
use go_steam_ws.Protocol.ProtoMsg
use go_steam_ws.Protocol.ProtoMsg.{ClientMsgProtobuf}
use go_steam_ws.SteamLang.{proto_mask}
use Messages.{
  IGcMsg, CMsgGcClient, GcPacket, gc_is_proto, get_app_id, get_msg_type, serialize_gc_msg,
  new_gc_packet,
}

-- The bodies that go out: CMsgGCClient, and CMsgClientGamesPlayed with the ids of its games.
pub data GcProto : Type 0 where
  gc_client : CMsgGcClient → GcProto
  games_played : List ℕ → GcProto

-- The CMsgGCClient of Write. An error of Serialize is dropped.
unfoldable pub wrapper : Codec ProtoHeader → IGcMsg → CMsgGcClient
unfolding gc_is_proto get_app_id get_msg_type
wrapper codec msg = record {
  appid = get_app_id msg;
  msgtype = if gc_is_proto msg then bit_or (get_msg_type msg) proto_mask else get_msg_type msg;
  payload = (serialize_gc_msg codec msg []).1;
  gcname = [];
}

-- The message that Write gives to the client.
unfoldable pub envelope : Codec ProtoHeader → IGcMsg → ClientMsgProtobuf GcProto
unfolding wrapper
envelope codec msg =
    ProtoMsg.on_proto (λ h. record h { routing_appid = some (get_app_id msg) })
      (ProtoMsg.new 5452 (gc_client (wrapper codec msg)))

module _ {B C : Type 0} where
  unfoldable pub write :
      Codec ProtoHeader → IGcMsg → Client GcProto B C → Outcome (Client GcProto B C)
  unfolding envelope
  write codec msg c = ClientCalls.write (proto_msg (envelope codec msg)) c

  unfoldable pub set_games_played : List ℕ → Client GcProto B C → Outcome (Client GcProto B C)
  set_games_played apps c = ClientCalls.write (proto_msg (ProtoMsg.new 742 (games_played apps))) c

  -- for _, handler := range g.handlers
  unfoldable pub run_gc_handlers :
      List (GcPacket → Client GcProto B C → Outcome (Client GcProto B C))
      → GcPacket
      → Client GcProto B C
      → Outcome (Client GcProto B C)
  run_gc_handlers [] p c = returns c
  run_gc_handlers (h ∷ hs) p c = h p c >>= λ c1. run_gc_handlers hs p c1

  unfoldable pub with_packet :
      List (GcPacket → Client GcProto B C → Outcome (Client GcProto B C))
      → Client GcProto B C
      → Result GcPacket
      → Outcome (Client GcProto B C)
  unfolding run_gc_handlers
  with_packet handlers c (err e) = returns (emit error_event c)
  with_packet handlers c (ok p) = run_gc_handlers handlers p c

  unfoldable pub handle_packet :
      Codec ProtoHeader
      → Codec CMsgGcClient
      → List (GcPacket → Client GcProto B C → Outcome (Client GcProto B C))
      → Packet
      → Client GcProto B C
      → Outcome (Client GcProto B C)
  unfolding with_packet new_gc_packet
  handle_packet codec bodies handlers packet c =
      if packet.emsg == 5453
      then (read_proto_msg codec bodies packet >>= λ msg.
          new_gc_packet codec msg.body >>= with_packet handlers c)
      else returns c
