-- ===== src/Examples.antt =====
-- The theorems at concrete inputs, and the test data that they share: a cipher, two codecs and the
-- messages.
mod Wire
mod Link
mod Ids
mod Caches
mod Social
mod Jobs
mod Trades
use go_steam_ws.Base.{
  ℕ, ◌^◌, ◌≡◌, refl, Option, none, some, List, [], ◌∷◌, length, ltb, if◌then◌else◌, replicate,
  arith,
}
use go_steam_ws.Io.{Error}
use go_steam_ws.ProtoBuf.{ProtoHeader, empty_proto_header, Codec, IsCodec}
use go_steam_ws.CryptoUtil.{Block, IsCipher}

abbrev pub mirror : Block
mirror = record { encrypt = λ b. b; decrypt = λ b. b }

pub mirror-IsCipher : IsCipher mirror
mirror-IsCipher = record { encrypt_block = λ b h. h; decrypt_encrypt = λ b h. refl }

-- The bytes as they are.
abbrev pub raw_codec : Codec (List ℕ)
raw_codec = record {
  encode = λ bs. if ltb (length bs) (2 ^ 31) then some bs else none;
  decode = λ bs. (none, bs);
}

pub raw_codec-IsCodec : IsCodec raw_codec
raw_codec-IsCodec = record { round_trip = λ m bs h. ground arith; short = λ m bs h. ground arith }

-- Headers with nothing in them but the other fields.
abbrev encode_plain :
    Option ℕ
    → Option ℕ
    → Option ℕ
    → Option ℕ
    → Option ℕ
    → Option (List ℕ)
    → Option ℕ
    → List ℕ
    → Option (List ℕ)
encode_plain none none none none none none none others =
    if ltb (length others) (2 ^ 31) then some others else none
encode_plain _ _ _ _ _ _ _ others = none

abbrev pub plain_codec : Codec ProtoHeader
plain_codec = record {
  encode = λ h.
      encode_plain h.steamid h.client_sessionid h.routing_appid h.jobid_source h.jobid_target
        h.target_job_name h.eresult h.others;
  decode = λ bs. (none, record empty_proto_header { others = bs });
}

pub plain_codec-IsCodec : IsCodec plain_codec
plain_codec-IsCodec = record { round_trip = λ m bs h. ground arith; short = λ m bs h. ground arith }

abbrev pub seven_bytes : List ℕ
seven_bytes = 1 ∷ 2 ∷ 3 ∷ 4 ∷ 5 ∷ 6 ∷ 7 ∷ []

abbrev pub zero_iv : List ℕ
zero_iv = replicate 16 0
