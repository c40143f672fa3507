-- ===== src/Authentication/LogOn.antt =====
-- authentication.go: LogOnWithCredentials and encryptPassword.
use go_steam_ws.Authentication.{
  client_hello, get_rsa_key, begin_session, poll_status, RsaResponse, BeginResponse, PollResponse,
  CredentialsAuthResult, Run, ◌>>?◌, send_no_stamp, call,
}
use go_steam_ws.Base.{
  ℕ, zero, suc, ◌+◌, ◌-◌, ◌*◌, Bool, true, false, ◌&&◌, ◌||◌, Option, none, some, List, [], ◌∷◌,
  ◌++◌, ◌==◌, leb, if◌then◌else◌,
}
use go_steam_ws.Client.{proto_msg}
use go_steam_ws.MachineId.{machine_name}
use go_steam_ws.Io.{invalid, returns, Result, ok, err, ◌>>=◌}
use go_steam_ws.ProtoBuf.{ProtoHeader, Codec}
use go_steam_ws.Protocol.ProtoMsg
use go_steam_ws.Social.Avatar.{same_text}

-- The value of a hexadecimal digit, of either case.
unfoldable pub hex_value : ℕ → Option ℕ
hex_value c =
    if leb 48 c && leb c 57
    then some (c - 48)
    else if leb 97 c && leb c 102
    then some (c - 87)
    else if leb 65 c && leb c 70
    then some (c - 55)
    else none

-- hex.DecodeString
unfoldable pub hex_byte : Option ℕ → Option ℕ → Option (List ℕ) → Option (List ℕ)
hex_byte (some a) (some b) (some bs) = some ((16 * a + b) ∷ bs)
hex_byte _ _ _ = none

unfoldable pub hex_decode : List ℕ → Option (List ℕ)
unfolding hex_value hex_byte
hex_decode [] = some []
hex_decode (c ∷ []) = none
hex_decode (c ∷ (d ∷ rest)) = hex_byte (hex_value c) (hex_value d) (hex_decode rest)

-- What the program does not do itself: rsa.EncryptPKCS1v15 of a password with a modulus and an
-- exponent, base64 and SHA-1.
pub record Crypto : Type 0 where
  pub rsa_encrypt : List ℕ → List ℕ → List ℕ → Option (List ℕ)
  pub base64 : List ℕ → List ℕ
  pub sha1 : List ℕ → List ℕ

module _ (crypto : Crypto) where
  encrypt_with : List ℕ → Option (List ℕ) → Option (List ℕ) → Result (List ℕ)
  encrypt_with password (some m) (some e) = elim (crypto.rsa_encrypt m e password) [
    | none ↦ err invalid
    | some enc ↦ ok (crypto.base64 enc)
  ]
  encrypt_with password _ _ = err invalid

  unfoldable pub encrypt_password : List ℕ → List ℕ → List ℕ → Result (List ℕ)
  unfolding encrypt_with hex_decode
  encrypt_password password mod_hex exp_hex =
      encrypt_with password (hex_decode mod_hex) (hex_decode exp_hex)

-- Only confirmations None and Unknown, 1 and 0.
unfoldable pub guard_free : List ℕ → Bool
guard_free [] = true
guard_free (c ∷ cs) = (c == 0 || c == 1) && guard_free cs

-- The text "Authentication." and the names of the service methods.
abbrev authentication_dot : List ℕ → List ℕ
authentication_dot method =
    (65 ∷ 117 ∷ 116 ∷ 104 ∷ 101 ∷ 110 ∷ 116 ∷ 105 ∷ 99 ∷ 97 ∷ 116 ∷ 105 ∷ 111 ∷ 110 ∷ 46 ∷ [])
    ++ method

abbrev get_password_rsa_public_key : List ℕ
get_password_rsa_public_key = authentication_dot (
    71 ∷ 101 ∷ 116 ∷ 80 ∷ 97 ∷ 115 ∷ 115 ∷ 119 ∷ 111 ∷ 114 ∷ 100 ∷ 82 ∷ 83 ∷ 65 ∷ 80 ∷ 117 ∷ 98
    ∷ 108 ∷ 105 ∷ 99 ∷ 75 ∷ 101 ∷ 121 ∷ 35 ∷ 49 ∷ [])

abbrev begin_auth_session : List ℕ
begin_auth_session = authentication_dot (
    66 ∷ 101 ∷ 103 ∷ 105 ∷ 110 ∷ 65 ∷ 117 ∷ 116 ∷ 104 ∷ 83 ∷ 101 ∷ 115 ∷ 115 ∷ 105 ∷ 111 ∷ 110 ∷ 86
    ∷ 105 ∷ 97 ∷ 67 ∷ 114 ∷ 101 ∷ 100 ∷ 101 ∷ 110 ∷ 116 ∷ 105 ∷ 97 ∷ 108 ∷ 115 ∷ 35 ∷ 49 ∷ [])

abbrev poll_auth_session_status : List ℕ
poll_auth_session_status = authentication_dot (
    80 ∷ 111 ∷ 108 ∷ 108 ∷ 65 ∷ 117 ∷ 116 ∷ 104 ∷ 83 ∷ 101 ∷ 115 ∷ 115 ∷ 105 ∷ 111 ∷ 110 ∷ 83 ∷ 116
    ∷ 97 ∷ 116 ∷ 117 ∷ 115 ∷ 35 ∷ 49 ∷ [])

-- What a poll with a refresh token gives; without one, `none`.
unfoldable pub poll_result : List ℕ → BeginResponse → PollResponse → Option CredentialsAuthResult
unfolding same_text
poll_result username begin poll =
    if same_text poll.refresh_token []
    then none
    else some (record {
      refresh_token = poll.refresh_token;
      access_token = poll.access_token;
      account_name = if same_text poll.account_name [] then username else poll.account_name;
      steam_id = begin.steamid;
    })

module _ {B C : Type 0} where
  abbrev pub fail : {A : Type 0} → Run B C A
  fail a = returns (err invalid, a)

  abbrev pub yield : {A : Type 0} → A → Run B C A
  yield x a = returns (ok x, a)

  -- `if res != steamlang.EResult_OK { return nil, fmt.Errorf(...) }`
  unfoldable pub require_ok : {A : Type 0} → ℕ × A → Run B C A
  require_ok (res, x) a = if res == 1 then yield x a else fail a

  abbrev pub lift : {A : Type 0} → Result A → Run B C A
  lift r a = returns (r, a)

  -- sendNoStamp reports no error.
  unfoldable pub hello : Run B C (Unit {0})
  unfolding send_no_stamp
  hello a = send_no_stamp (proto_msg (ProtoMsg.new 9805 (client_hello 65581))) a.client >>= λ c.
      returns (ok tt, record a { client = c })

  module _ (codec : Codec ProtoHeader) where
    unfoldable pub poll_once :
        List ℕ → BeginResponse → Codec PollResponse → Run B C (Option CredentialsAuthResult)
    unfolding require_ok poll_result
    poll_once username begin polls =
        call codec poll_auth_session_status (poll_status begin.client_id begin.request_id) polls
        >>? require_ok
        >>? λ poll. yield (poll_result username begin poll)

    -- The rest of the loop, after a poll.
    unfoldable pub poll_more :
        Run B C CredentialsAuthResult → Option CredentialsAuthResult → Run B C CredentialsAuthResult
    poll_more again none a = again a
    poll_more again (some result) a = yield result a

    -- The loop, with the attempts that are left.
    unfoldable pub poll_loop :
        ℕ → List ℕ → BeginResponse → Codec PollResponse → Run B C CredentialsAuthResult
    unfolding poll_more
    poll_loop zero username begin polls a = fail a
    poll_loop (suc n) username begin polls a =
        (poll_once username begin polls >>? poll_more (poll_loop n username begin polls)) a

    unfoldable pub poll_if :
        Bool → List ℕ → BeginResponse → Codec PollResponse → Run B C CredentialsAuthResult
    poll_if true username begin polls a = poll_loop 30 username begin polls a
    poll_if false username begin polls a = fail a

    module _ (crypto : Crypto) (keys : Codec RsaResponse) (begins : Codec BeginResponse) where
      -- Persistent, "Client", SteamClient and Windows 10.
      unfoldable pub begin_call : List ℕ → Option ℕ → List ℕ → Run B C (ℕ × BeginResponse)
      begin_call username timestamp password =
          call codec begin_auth_session
            (begin_session (record {
              account_name = username;
              encrypted_password = password;
              encryption_timestamp = timestamp;
              persistence = 1;
              website_id = 67 ∷ 108 ∷ 105 ∷ 101 ∷ 110 ∷ 116 ∷ [];
              device_friendly_name = machine_name crypto.sha1 username;
              platform_type = 1;
              device_details = record {
                device_friendly_name = machine_name crypto.sha1 username;
                platform_type = 1;
                os_type = 16;
              };
            }))
            begins

      -- Step 1, the key of the account.
      unfoldable pub fetch_key : List ℕ → Run B C RsaResponse
      unfolding require_ok
      fetch_key username =
          call codec get_password_rsa_public_key (get_rsa_key username) keys >>? require_ok

      -- Steps 2 and 3, the encrypted password and the session.
      unfoldable pub start_session : List ℕ → List ℕ → RsaResponse → Run B C BeginResponse
      unfolding require_ok begin_call encrypt_password
      start_session username password key =
          lift (encrypt_password crypto password key.publickey_mod key.publickey_exp)
          >>? begin_call username key.timestamp
          >>? require_ok

      unfoldable pub log_on_with_credentials :
          Codec PollResponse → List ℕ → List ℕ → Run B C CredentialsAuthResult
      unfolding hello fetch_key start_session guard_free poll_if
      log_on_with_credentials polls username password = hello >>? λ greeted.
          fetch_key username >>? λ key. start_session username password key >>? λ begin.
          poll_if (guard_free begin.allowed_confirmations) username begin polls
