-- ===== src/Protocol/PlainMsg.antt =====
-- Msg of protocol/msg.go: a message that is sent before logging in.
use go_steam_ws.Base.{ℕ, Bool, false, List}
use go_steam_ws.Io.{Write, ◌>>◌, write_bytes}
use go_steam_ws.SteamLang.{MsgHdr, new_msg_hdr, serialize_msg_hdr}
use go_steam_ws.SteamLang.Bodies.{MessageBody}

pub record Msg (B : Type 0) : Type 0 where
  pub header : MsgHdr
  pub body : B
  pub payload : List ℕ

module _ {B : Type 0} where
  unfoldable pub new : MessageBody B → B → List ℕ → Msg B
  unfolding new_msg_hdr
  new m body payload = record {
    header = record new_msg_hdr { msg = m.get_emsg body };
    body = body;
    payload = payload;
  }

  unfoldable pub get_msg_type : Msg B → ℕ
  get_msg_type m = m.header.msg

  unfoldable pub is_proto : Msg B → Bool
  is_proto m = false

  unfoldable pub get_target_job_id : Msg B → ℕ
  get_target_job_id m = m.header.target_job_id

  unfoldable pub set_target_job_id : Msg B → ℕ → Msg B
  set_target_job_id m job = record m { header = record (m.header) { target_job_id = job } }

  unfoldable pub get_source_job_id : Msg B → ℕ
  get_source_job_id m = m.header.source_job_id

  unfoldable pub set_source_job_id : Msg B → ℕ → Msg B
  set_source_job_id m job = record m { header = record (m.header) { source_job_id = job } }

  unfoldable pub serialize : MessageBody B → Msg B → Write
  serialize b m = serialize_msg_hdr m.header >> b.serialize m.body >> write_bytes m.payload
