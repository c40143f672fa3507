-- ===== src/Lib.antt =====
-- A Go library for the Steam network: a client keeps one connection to a connection manager, frames
-- and encrypts the packets on it, turns packets into messages and back, and hands each packet to
-- its handlers, which keep caches of friends, groups and chats and emit events. Beside it stand
-- trading sessions, which are polled over HTTP.
--
-- The program's parts and the files that model them (a function F of the source is `f` in the
-- module named here, with the state as an argument and in the result):
--
-- - Base, Io: no code of the repository. Base has lists over native numbers, bits as arithmetic
--   and Go's maps as association lists; Io has what the code uses of io, bytes, encoding/binary.
-- - Rwu: rwu/rwu.go.
-- - SteamLang: protocol/steamlang/steamlang.go and, of messages.go, MsgHdr, ExtendedClientMsgHdr and
--   the bodies of the channel handshake. SteamLang/Messages has the other structs of messages.go, by
--   what they are for; its parent has them as one family, indexed by the kind of the struct.
--   SteamLang/RoundTrip has their bytes. ProtoBuf: MsgHdrProtoBuf of messages.go and the header of
--   protocol/protobuf/base.pb.go.
-- - Protocol: ProtoMsg, StructMsg and PlainMsg are ClientMsgProtobuf, ClientMsg and Msg of
--   protocol/msg.go; Packet is protocol/packet.go.
-- - SteamId: steamid/steamid.go, the fields of an id.
-- - CryptoUtil: cryptoutil/pkcs7.go, ecb.go and cryptoutil.go.
-- - Connection: connection.go, the TCP connection.
-- - SocialCache: socialcache/friends.go, groups.go and chats.go.
-- - Social: social.go and social_events.go; ValidAvatar of protocol/internal.go stands in
--   Social/Avatar.
--   Requests has what the user calls, Presence, Clans and Rooms the handlers, Dispatch HandlePacket.
-- - Trade: trade/trade.go, actions.go, types.go, and the types of trade/tradeapi/status.go.
-- - Notifications: notifications.go.
-- - Client: client.go. Client/Dispatch has handlePacket, handleMulti and the read loop,
--   Client/WriteLoop the write loop.
-- - Auth: auth.go and auth_events.go; Fields has the theorems.
-- - Authentication: authentication.go. Calls and Bounds have its theorems, LogOn has
--   LogOnWithCredentials.
-- - MachineId: machineid.go; Tokens reads binary KeyValues, Shape has the theorems.
-- - GameCoordinator: gamecoordinator.go and protocol/gamecoordinator/msg.go and packet.go, with
--   MsgGCHdrProtoBuf of messages.go.
-- - Examples: the theorems at concrete inputs.
--
-- The social part keeps the lists of SocialCache and reads its packets with Protocol.Packet; what it
-- gives to the client, the messages that it writes and the events that it emits, is a list in its
-- state, in order.
--
-- How they interact: Client.write puts a message on the queue; a turn of
-- Client.WriteLoop.write_loop serializes it with Protocol and writes it with the interface Link, which
-- stands for the TCP connection or the websocket; Connection.read gives a packet by Protocol.Packet.new_packet, which a turn of Client.Dispatch.read_loop dispatches.
--
-- State is explicit: each call is a function from the state to the new one, `Outcome` has the
-- panics of the run-time, and `Error` the errors as values. A method that holds a mutex from start
-- to end is one step; a loop of a goroutine is modelled by its turns. Machine integers are native
-- numbers with their wrap-around written out, and an intN is its bit pattern.
--
-- Fuel: the loop of handleMulti runs on the number of bytes of the payload, of which each turn takes
-- at least one. handlePacket calls itself for the packets of a Multi message; its depth is an
-- argument, and stands for the size of the stack. The polls of LogOnWithCredentials count down from 30. Every other loop is structural.
--
-- Parameters: the block cipher, RSA, base64, SHA-1 and CRC32, gzip, the protobuf library (a `Codec` for each message
-- type), random keys and IVs, what a dialer or an HTTP request gives. Hypotheses on them are named:
-- IsCipher, IsCodec, IsLink.
--
-- Not modelled: generated enums and protobuf types, HTTP and JSON, the websocket, the directory
-- of servers, the trading request handlers, the
-- inventory, trade offers, the text form of Steam ids and two-factor codes.
pub mod MachineId
pub mod Auth
pub mod Authentication
pub mod Base
pub mod GameCoordinator
pub mod Io
pub mod Rwu
pub mod SteamLang
pub mod ProtoBuf
pub mod Protocol
pub mod SteamId
pub mod CryptoUtil
pub mod Connection
pub mod Social
pub mod SocialCache
pub mod Trade
pub mod Notifications
pub mod Client
pub mod Examples
