-- ===== src/Authentication/Bounds.antt =====
-- How much logging on with credentials sends, and what it leaves behind.
use go_steam_ws.Authentication.Sent.{
  forgets_new, chan_length, AfterRun, Sent, Adds, then-Adds, same, stays, as_many,
}
use go_steam_ws.Authentication.{
  Authentication, AuthProto, Pending, Run, ◌>>?◌, answer, wait, call, send_no_stamp, next_arrivals,
  BeginResponse, PollResponse, RsaResponse, CredentialsAuthResult,
}
use go_steam_ws.Authentication.LogOn.{
  fetch_key, start_session, fail, yield, lift, require_ok, hello, poll_once, poll_more, poll_loop,
  poll_if, begin_call, Crypto, encrypt_password, guard_free, log_on_with_credentials,
}
use go_steam_ws.Base.{
  ℕ, zero, suc, ◌+◌, ◌≤◌, ◌≡◌, refl, Bool, true, false, Option, none, some, List, [], ◌∷◌, ◌==◌,
  if◌then◌else◌, length-append, arith,
}
use go_steam_ws.Base.Store.{insert}
use go_steam_ws.Client.{Client, IMsg, Chan, nil_chan, open_chan, closed_chan, send, get_next_job_id}
use go_steam_ws.Io.{Outcome, returns, panics, Result, ok, ◌>>=◌}
use go_steam_ws.ProtoBuf.{ProtoHeader, Codec}
use go_steam_ws.Protocol.Packet.{Packet}

module _ {B C : Type 0} where
  -- One message more at most.
  abbrev OneMore : Client AuthProto B C → Outcome (Client AuthProto B C) → Type 0
  OneMore c (returns d) = chan_length d.write_chan ≤ chan_length c.write_chan + 1
  OneMore c panics = Unit {0}

  after_send :
      (msg : IMsg AuthProto B) (c : Client AuthProto B C) (chan : Chan (IMsg AuthProto B))
      → c.write_chan ≡ chan
      → OneMore c (send msg chan >>= λ d. returns (record c { write_chan = d }))
  unfolding send chan_length
  after_send msg c nil_chan e = tt
  after_send msg c (open_chan q) e = ground (arith, length-append q (msg ∷ []))
  after_send msg c (closed_chan q) e = tt

  send_no_stamp-OneMore :
      (msg : IMsg AuthProto B) (c : Client AuthProto B C) → OneMore c (send_no_stamp msg c)
  unfolding send_no_stamp
  send_no_stamp-OneMore msg c =
      elim c.conn
        as (λ o. OneMore c (elim o [
          | none ↦ returns c
          | some l ↦ send msg c.write_chan >>= λ chan. returns (record c { write_chan = chan })
        ])) [ none ↦ omega arith | some l ↦ after_send msg c c.write_chan refl ]

  hello_after :
      (a : Authentication B C) (o : Outcome (Client AuthProto B C))
      → a.pending ≡ []
      → OneMore a.client o
      → AfterRun
          (Sent 1 (chan_length a.client.write_chan))
          (o >>= λ c. returns (ok tt, record a { client = c }))
  hello_after a (returns c) e h = record { forgotten = e; few = h }
  hello_after a panics e h = tt

  hello-Adds : Adds {B = B} {C = C} 1 hello
  unfolding hello
  hello-Adds a e = hello_after a _ e (send_no_stamp-OneMore _ a.client)

  answered :
      {A : Type 0} (q : ℕ) (b : Authentication B C) (o : Outcome (Result A))
      → Sent 1 q b
      → AfterRun (Sent 1 q) (o >>= λ r. returns (r, b))
  answered q b (returns r) h = h
  answered q b panics h = tt

  module _ (codec : Codec ProtoHeader) where
    wait_after :
        {A : Type 0} (resp : Codec A) (job : ℕ) (c : Client AuthProto B C) (m : Pending)
        (arrivals : List (List Packet)) (o : Outcome (Client AuthProto B C))
        → m ≡ []
        → OneMore c o
        → AfterRun (Sent 1 (chan_length c.write_chan)) (
            o >>= λ d.
            wait codec resp job
              (record { client = d; pending = insert job none m; arrivals = arrivals }))
    unfolding wait
    wait_after resp job c m arrivals (returns d) e h =
        answered (chan_length c.write_chan) _ (answer codec resp _)
          (record { forgotten = forgets_new job (next_arrivals arrivals) m e; few = h })
    wait_after resp job c m arrivals panics e h = tt

    call-Adds :
        {A : Type 0} (method : List ℕ) (req : AuthProto) (resp : Codec A)
        → Adds {B = B} {C = C} 1 (call codec method req resp)
    unfolding call get_next_job_id
    call-Adds method req resp a e =
        wait_after resp _ (get_next_job_id a.client).1 a.pending a.arrivals _ e
          (send_no_stamp-OneMore _ (get_next_job_id a.client).1)

    require_ok-Adds : {A : Type 0} (r : ℕ × A) → Adds {B = B} {C = C} 0 (require_ok r)
    unfolding require_ok
    require_ok-Adds (res, x) a e =
        elim (res == 1)
          as (λ b.
            AfterRun (Sent 0 (chan_length a.client.write_chan)) (if b then yield x a else fail a)) [
              | true ↦ same a e
              | false ↦ same a e
            ]

    poll_once-Adds :
        (username : List ℕ) (begin : BeginResponse) (polls : Codec PollResponse)
        → Adds {B = B} {C = C} 1 (poll_once codec username begin polls)
    unfolding poll_once
    poll_once-Adds username begin polls =
        then-Adds 1 0 _ _ (then-Adds 1 0 _ _ (call-Adds _ _ polls) require_ok-Adds) (λ x. same)

    poll_more-Adds :
        (n : ℕ) (again : Run B C CredentialsAuthResult)
        → Adds {B = B} {C = C} n again
        → (r : Option CredentialsAuthResult) → Adds {B = B} {C = C} n (poll_more codec again r)
    unfolding poll_more
    poll_more-Adds n again h none a e = h a e
    poll_more-Adds n again h (some result) a e = record { forgotten = e; few = omega arith }

    poll_loop-Adds :
        (n : ℕ) (username : List ℕ) (begin : BeginResponse) (polls : Codec PollResponse)
        → Adds {B = B} {C = C} n (poll_loop codec n username begin polls)
    unfolding poll_loop
    poll_loop-Adds zero username begin polls a e = same a e
    poll_loop-Adds (suc n) username begin polls a e = as_many n _ _ (
        then-Adds 1 n _ _ (poll_once-Adds username begin polls)
          (poll_more-Adds n _ (poll_loop-Adds n username begin polls)) a e)

    poll_if-Adds :
        (b : Bool) (username : List ℕ) (begin : BeginResponse) (polls : Codec PollResponse)
        → Adds {B = B} {C = C} 30 (poll_if codec b username begin polls)
    unfolding poll_if
    poll_if-Adds true username begin polls a e = poll_loop-Adds 30 username begin polls a e
    poll_if-Adds false username begin polls a e =
        stays 0 30 (chan_length a.client.write_chan) a (same a e)

    module _ (crypto : Crypto) (keys : Codec RsaResponse) (begins : Codec BeginResponse) where
      fetch_key-Adds :
          (username : List ℕ) → Adds {B = B} {C = C} 1 (fetch_key codec crypto keys begins username)
      unfolding fetch_key
      fetch_key-Adds username = then-Adds 1 0 _ _ (call-Adds _ _ keys) require_ok-Adds

      begin_call-Adds :
          (username password : List ℕ) (timestamp : Option ℕ)
          → Adds {B = B} {C = C} 1 (begin_call codec crypto keys begins username timestamp password)
      unfolding begin_call
      begin_call-Adds username password timestamp = call-Adds _ _ begins

      start_session-Adds :
          (username password : List ℕ) (key : RsaResponse)
          → Adds {B = B} {C = C} 1 (start_session codec crypto keys begins username password key)
      unfolding start_session
      start_session-Adds username password key =
          then-Adds 1 0 _ _
            (then-Adds 0 1
              (lift (encrypt_password crypto password key.publickey_mod key.publickey_exp))
              (begin_call codec crypto keys begins username key.timestamp) same
              (λ enc. begin_call-Adds username enc key.timestamp))
            require_ok-Adds

      after_key-Adds :
          (polls : Codec PollResponse) (username password : List ℕ) (key : RsaResponse)
          → Adds {B = B} {C = C} 31 (
              start_session codec crypto keys begins username password key >>? λ begin.
              poll_if codec (guard_free begin.allowed_confirmations) username begin polls)
      after_key-Adds polls username password key =
          then-Adds 1 30 (start_session codec crypto keys begins username password key)
            (λ begin. poll_if codec (guard_free begin.allowed_confirmations) username begin polls)
            (start_session-Adds username password key)
            (λ begin. poll_if-Adds (guard_free begin.allowed_confirmations) username begin polls)

      -- Logging on with credentials, from a state in which no call waits, ends whatever comes in:
      -- it returns, or the run-time panics. When it returns it has put at most 33 messages on the
      -- queue, a greeting, two calls and 30 polls, and no call waits.
      pub log_on-Adds :
          (polls : Codec PollResponse) (username password : List ℕ) (a : Authentication B C)
          → a.pending ≡ []
          → AfterRun
              (Sent 33 (chan_length a.client.write_chan))
              (log_on_with_credentials codec crypto keys begins polls username password a)
      unfolding log_on_with_credentials
      log_on-Adds polls username password = then-Adds 1 32 hello _ hello-Adds (λ greeted.
          then-Adds 1 31 (fetch_key codec crypto keys begins username) _ (fetch_key-Adds username)
            (after_key-Adds polls username password))
