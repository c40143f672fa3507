-- ===== src/Protocol/StructMsg.antt =====
-- ClientMsg of protocol/msg.go: a struct backed client message.
use go_steam_ws.Base.{ℕ, Bool, true, List}
use go_steam_ws.Io.{Write, ◌>>◌, write_bytes}
use go_steam_ws.SteamLang.{
  ExtendedClientMsgHdr, new_extended_client_msg_hdr, serialize_extended_client_msg_hdr,
}
use go_steam_ws.SteamLang.Bodies.{MessageBody}

pub record ClientMsg (B : Type 0) : Type 0 where
  pub header : ExtendedClientMsgHdr
  pub body : B
  pub payload : List ℕ

module _ {B : Type 0} where
  unfoldable pub new : MessageBody B → B → List ℕ → ClientMsg B
  unfolding new_extended_client_msg_hdr
  new m body payload = record {
    header = record new_extended_client_msg_hdr { msg = m.get_emsg body };
    body = body;
    payload = payload;
  }

  abbrev on_header : (ExtendedClientMsgHdr → ExtendedClientMsgHdr) → ClientMsg B → ClientMsg B
  on_header f c = record c { header = f c.header }

  unfoldable pub is_proto : ClientMsg B → Bool
  is_proto c = true

  unfoldable pub get_msg_type : ClientMsg B → ℕ
  get_msg_type c = c.header.msg

  unfoldable pub get_session_id : ClientMsg B → ℕ
  get_session_id c = c.header.session_id

  unfoldable pub set_session_id : ClientMsg B → ℕ → ClientMsg B
  set_session_id c session = on_header (λ h. record h { session_id = session }) c

  unfoldable pub get_steam_id : ClientMsg B → ℕ
  get_steam_id c = c.header.steam_id

  unfoldable pub set_steam_id : ClientMsg B → ℕ → ClientMsg B
  set_steam_id c s = on_header (λ h. record h { steam_id = s }) c

  unfoldable pub get_target_job_id : ClientMsg B → ℕ
  get_target_job_id c = c.header.target_job_id

  unfoldable pub set_target_job_id : ClientMsg B → ℕ → ClientMsg B
  set_target_job_id c job = on_header (λ h. record h { target_job_id = job }) c

  unfoldable pub get_source_job_id : ClientMsg B → ℕ
  get_source_job_id c = c.header.source_job_id

  unfoldable pub set_source_job_id : ClientMsg B → ℕ → ClientMsg B
  set_source_job_id c job = on_header (λ h. record h { source_job_id = job }) c

  unfoldable pub serialize : MessageBody B → ClientMsg B → Write
  serialize m c =
      serialize_extended_client_msg_hdr c.header >> m.serialize c.body >> write_bytes c.payload
