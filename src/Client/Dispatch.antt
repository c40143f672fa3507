-- ===== src/Client/Dispatch.antt =====
-- handlePacket of client.go, handleMulti and handleClientCMList, and the turns of readLoop.
-- gzip and the protobuf library are parameters.
use go_steam_ws.Base.{
  ℕ, zero, suc, ◌-◌, ◌/◌, ◌%◌, ◌^◌, Bool, true, false, none, some, List, [], ◌∷◌, ◌++◌, ◌==◌, ltb,
  if◌then◌else◌, length, take, drop, replicate,
}
use go_steam_ws.Io.{Reader, read_int, Outcome, returns, panics, Result, ok, err, ◌>>=◌}
use go_steam_ws.ProtoBuf.{ProtoHeader, Codec}
use go_steam_ws.Protocol.Packet.{Packet, new_packet, read_proto_msg}
use go_steam_ws.Client.{
  Client, error_event, client_cm_list_event, Link, emit, fatalf, handle_channel_encrypt_request,
  handle_channel_encrypt_result,
}

-- protobuf.CMsgMulti and CMsgClientCMList, read by their getters.
pub record CMsgMulti : Type 0 where
  pub size_unzipped : ℕ
  pub message_body : List ℕ

pub record CMsgClientCmList : Type 0 where
  pub cm_addresses : List ℕ
  pub cm_ports : List ℕ

-- A net.IP, most significant byte first.
unfoldable pub read_ip : ℕ → List ℕ
read_ip ip = (ip / 2 ^ 24) % 256 ∷ (ip / 2 ^ 16) % 256 ∷ (ip / 2 ^ 8) % 256 ∷ ip % 256 ∷ []

-- The addresses with their ports. Fewer ports than addresses are an index out of range.
unfoldable pub cm_list : List ℕ → List ℕ → Outcome (List (List ℕ × ℕ))
unfolding read_ip
cm_list [] ports = returns []
cm_list (ip ∷ ips) [] = panics
cm_list (ip ∷ ips) (port ∷ ports) =
    cm_list ips ports >>= λ l. returns ((read_ip ip, port % 2 ^ 16) ∷ l)

-- make([]byte, length) and pr.Read into it: what the reader does not fill stays 0.
abbrev pub packet_data : ℕ → Reader → List ℕ
packet_data n r = take n r ++ replicate (n - length r) 0

module _ {M B C : Type 0} (codec : Codec ProtoHeader) where
  -- What the loop does with a packet that NewPacket gave.
  abbrev pub receive :
      (Packet → Client M B C → Outcome (Client M B C))
      → Client M B C
      → Result Packet
      → Outcome (Client M B C)
  receive handle c (err e) = returns (emit error_event c)
  receive handle c (ok p) = handle p c

  -- The loop of handleMulti, on fuel: a turn takes at least one byte. The error of binary.Read is
  -- not looked at, and a length that is cut short is 0.
  unfoldable pub multi_loop :
      (Packet → Client M B C → Outcome (Client M B C))
      → ℕ
      → Reader
      → Client M B C
      → Outcome (Client M B C)
  unfolding emit
  multi_loop handle fuel [] c = returns c
  multi_loop handle zero (b ∷ r) c = panics
  multi_loop handle (suc fuel) (b ∷ r) c =
      let (n, e, rest) = read_int 4 (b ∷ r) in
      new_packet codec (packet_data n rest) >>= λ res.
      receive handle c res >>= λ c1. multi_loop handle fuel (drop n rest) c1

  module _ (multis : Codec CMsgMulti) (lists : Codec CMsgClientCmList)
      (gunzip : List ℕ → Result (List ℕ)) (link : Link C) (key : List ℕ) (rsa : List ℕ → List ℕ)
      (crc32 : List ℕ → ℕ) (handlers : List (Packet → Client M B C → Outcome (Client M B C))) where
    run_multi :
        (Packet → Client M B C → Outcome (Client M B C))
        → Client M B C
        → Result (List ℕ)
        → Outcome (Client M B C)
    unfolding emit multi_loop
    run_multi handle c (err e) = returns (emit error_event c)
    run_multi handle c (ok payload) = multi_loop handle (length payload) payload c

    unfoldable pub handle_multi :
        (Packet → Client M B C → Outcome (Client M B C))
        → Packet
        → Client M B C
        → Outcome (Client M B C)
    unfolding run_multi
    handle_multi handle packet c = read_proto_msg codec multis packet >>= λ msg.
        run_multi handle c (
          if ltb 0 msg.body.size_unzipped
          then gunzip msg.body.message_body
          else ok msg.body.message_body)

    unfoldable pub handle_client_cm_list : Packet → Client M B C → Outcome (Client M B C)
    unfolding cm_list emit
    handle_client_cm_list packet c = read_proto_msg codec lists packet >>= λ msg.
        cm_list msg.body.cm_addresses msg.body.cm_ports >>= λ l.
        returns (emit (client_cm_list_event l) c)

    -- for _, handler := range c.handlers
    unfoldable pub run_handlers :
        List (Packet → Client M B C → Outcome (Client M B C))
        → Packet
        → Client M B C
        → Outcome (Client M B C)
    run_handlers [] packet c = returns c
    run_handlers (h ∷ hs) packet c = h packet c >>= λ c1. run_handlers hs packet c1

    -- switch packet.EMsg
    unfoldable pub own_handler :
        (Packet → Client M B C → Outcome (Client M B C))
        → Packet
        → Client M B C
        → Outcome (Client M B C)
    unfolding handle_multi handle_client_cm_list handle_channel_encrypt_request
        handle_channel_encrypt_result
    own_handler handle packet c =
        if packet.emsg == 1303
        then handle_channel_encrypt_request key rsa crc32 packet c
        else if packet.emsg == 1305
        then handle_channel_encrypt_result link packet c
        else if packet.emsg == 1
        then handle_multi handle packet c
        else if packet.emsg == 783
        then handle_client_cm_list packet c
        else returns c

    -- A Multi message may hold Multi messages. `depth` is how deep the stack lets them nest; one
    -- that is deeper overflows the stack.
    unfoldable pub handle_packet : ℕ → Packet → Client M B C → Outcome (Client M B C)
    unfolding own_handler run_handlers
    handle_packet zero packet c = panics
    handle_packet (suc depth) packet c =
        own_handler (handle_packet depth) packet c >>= λ c1. run_handlers handlers packet c1

    after_read : ℕ → Client M B C → Result Packet → Outcome (Bool × Client M B C)
    unfolding fatalf handle_packet
    after_read depth c (err e) = fatalf c >>= λ c1. returns (false, c1)
    after_read depth c (ok p) = handle_packet depth p c >>= λ c1. returns (true, c1)

    -- One turn of readLoop, with what conn.Read gives, and whether the loop goes on.
    unfoldable pub read_loop :
        ℕ → Outcome (Result Packet) → Client M B C → Outcome (Bool × Client M B C)
    unfolding after_read
    read_loop depth incoming c = elim c.conn [
      | none ↦ returns (false, c)
      | some l ↦ incoming >>= after_read depth c
    ]
