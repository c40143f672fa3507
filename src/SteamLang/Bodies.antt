-- ===== src/SteamLang/Bodies.antt =====
-- The bodies of the channel handshake: MsgChannelEncryptRequest, MsgChannelEncryptResponse and
-- MsgChannelEncryptResult, and the interface MessageBody.
use go_steam_ws.Base.{ℕ, ◌^◌, ◌<◌, List, ◌++◌, arith}
use go_steam_ws.Io.{Write, ◌>>◌, write_int, le_bytes}
use go_steam_ws.Io.Steps.{
  Step, store, ◌>>>◌, Reads, Writes, store-Reads, >>>-Reads, write_int-Writes, >>-Writes,
}
use go_steam_ws.Rwu.{read_int32, read_uint32}

-- protocol.MessageBody, the methods that the messages call.
pub record MessageBody (B : Type 0) : Type 0 where
  pub get_emsg : B → ℕ
  pub serialize : B → Write
  pub deserialize : Step B

-- A body of `bs` bytes that Deserialize, started on the body `s`, reads back.
pub record IsBodyOf {B : Type 0} (m : MessageBody B) (b s : B) (bs : List ℕ) : Type 0 where
  pub writes : Writes (m.serialize b) bs
  pub reads : Reads m.deserialize bs s b

pub record MsgChannelEncryptRequest : Type 0 where
  pub protocol_version : ℕ
  pub universe : ℕ

unfoldable pub new_msg_channel_encrypt_request : MsgChannelEncryptRequest
new_msg_channel_encrypt_request = record { protocol_version = 1; universe = 0 }

abbrev pub request_body : MessageBody MsgChannelEncryptRequest
request_body = record {
  get_emsg = λ d. 1303;
  serialize = λ d. write_int 4 d.protocol_version >> write_int 4 d.universe;
  deserialize =
      store read_uint32 (λ v d. record d { protocol_version = v })
      >>> store read_int32 (λ v d. record d { universe = v });
}

pub record MsgChannelEncryptResponse : Type 0 where
  pub protocol_version : ℕ
  pub key_size : ℕ

unfoldable pub new_msg_channel_encrypt_response : MsgChannelEncryptResponse
new_msg_channel_encrypt_response = record { protocol_version = 1; key_size = 128 }

abbrev pub response_body : MessageBody MsgChannelEncryptResponse
response_body = record {
  get_emsg = λ d. 1304;
  serialize = λ d. write_int 4 d.protocol_version >> write_int 4 d.key_size;
  deserialize =
      store read_uint32 (λ v d. record d { protocol_version = v })
      >>> store read_uint32 (λ v d. record d { key_size = v });
}

pub record MsgChannelEncryptResult : Type 0 where
  pub result : ℕ

unfoldable pub new_msg_channel_encrypt_result : MsgChannelEncryptResult
new_msg_channel_encrypt_result = record { result = 0 }

abbrev pub result_body : MessageBody MsgChannelEncryptResult
result_body = record {
  get_emsg = λ d. 1305;
  serialize = λ d. write_int 4 d.result;
  deserialize = store read_int32 (λ v d. record d { result = v });
}

pub result_body-IsBodyOf :
    (b s : MsgChannelEncryptResult)
    → b.result < 2 ^ 32
    → IsBodyOf result_body b s (le_bytes 4 b.result)
unfolding read_int32
result_body-IsBodyOf b s h = record {
  writes = write_int-Writes 4 b.result;
  reads = store-Reads 4 b.result _ s (omega arith);
}

pub request_body-IsBodyOf :
    (b s : MsgChannelEncryptRequest)
    → b.protocol_version < 2 ^ 32
    → b.universe < 2 ^ 32
    → IsBodyOf request_body b s (le_bytes 4 b.protocol_version ++ le_bytes 4 b.universe)
unfolding read_int32 read_uint32
request_body-IsBodyOf b s h k = record {
  writes =
      >>-Writes _ _ _ _ (write_int-Writes 4 b.protocol_version) (write_int-Writes 4 b.universe);
  reads =
      >>>-Reads _ _ _ _ _ _ _ (store-Reads 4 b.protocol_version _ s (omega arith))
        (store-Reads 4 b.universe _ _ (omega arith));
}

pub response_body-IsBodyOf :
    (b s : MsgChannelEncryptResponse)
    → b.protocol_version < 2 ^ 32
    → b.key_size < 2 ^ 32
    → IsBodyOf response_body b s (le_bytes 4 b.protocol_version ++ le_bytes 4 b.key_size)
unfolding read_uint32
response_body-IsBodyOf b s h k = record {
  writes =
      >>-Writes _ _ _ _ (write_int-Writes 4 b.protocol_version) (write_int-Writes 4 b.key_size);
  reads =
      >>>-Reads _ _ _ _ _ _ _ (store-Reads 4 b.protocol_version _ s (omega arith))
        (store-Reads 4 b.key_size _ _ (omega arith));
}
