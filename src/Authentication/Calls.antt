-- ===== src/Authentication/Calls.antt =====
-- authentication.go: the answer that a call gets, and the map of waiting calls.
use go_steam_ws.Authentication.{
  Authentication, AuthProto, Pending, offer, handle_packet, handle_packets, answer, wait, call,
  call_message, send_no_stamp, next_arrivals, later_arrivals,
}
use go_steam_ws.Base.{
  ℕ, ◌+◌, ◌%◌, ◌^◌, ◌≡◌, refl, true, ◌&&◌, Option, none, some, List, [], ◌∷◌, ◌++◌, ◌==◌,
  if◌then◌else◌, arith,
}
use go_steam_ws.Base.Store.{lookup, insert, erase, lookup-insert, lookup-erase}
use go_steam_ws.Client.{Client, IMsg, proto_msg, open_chan, send, get_next_job_id}
use go_steam_ws.Io.{invalid, Outcome, returns, panics, Result, ok, err, ◌>>=◌}
use go_steam_ws.ProtoBuf.{ProtoHeader, Codec, empty_proto_header, get_eresult, get_or_default}
use go_steam_ws.Protocol.Packet.{Packet, read_proto_msg}
use go_steam_ws.Protocol.ProtoMsg
use go_steam_ws.Protocol.ProtoMsg.{ClientMsgProtobuf}

-- The first of the packets that is an answer to the job.
unfoldable pub first_answer : ℕ → List Packet → Option Packet
first_answer job [] = none
first_answer job (p ∷ ps) =
    let later = first_answer job ps in
    if p.emsg == 147 && p.target_job_id == job then some p else later

-- What the channel of the job holds after the packets: nobody waits for it, it has a packet
-- already, or it gets the first answer.
unfoldable pub held : ℕ → List Packet → Option (Option Packet) → Option (Option Packet)
held job ps none = none
held job ps (some (some p)) = some (some p)
held job ps (some none) = some (first_answer job ps)

held_one :
    (job : ℕ) (p : Packet) (o : Option (Option Packet))
    → held job (p ∷ []) o ≡ (elim o [
      | none ↦ none
      | some none ↦ some (if p.emsg == 147 && p.target_job_id == job then some p else none)
      | some (some q) ↦ some (some q)
    ])
unfolding held first_answer
held_one job p none = refl
held_one job p (some none) = refl
held_one job p (some (some q)) = refl

lookup-offer :
    (job : ℕ) (p : Packet) (o : Option (Option Packet)) (m : Pending)
    → (p.emsg == 147) ≡ true
    → lookup p.target_job_id m ≡ o
    → lookup job (offer p o m) ≡ held job (p ∷ []) (lookup job m)
unfolding offer
lookup-offer job p none m h e = ground (arith, held_one job p (lookup job m))
lookup-offer job p (some none) m h e =
    ground (arith, held_one job p (lookup job m), lookup-insert p.target_job_id job (some p) m)
lookup-offer job p (some (some q)) m h e = ground (arith, held_one job p (lookup job m))

held_twice :
    (job : ℕ) (p : Packet) (ps : List Packet) (o : Option (Option Packet))
    → held job ps (held job (p ∷ []) o) ≡ held job (p ∷ ps) o
unfolding held first_answer
held_twice job p ps none = refl
held_twice job p ps (some none) = ground arith
held_twice job p ps (some (some q)) = refl

held_none : (job : ℕ) (o : Option (Option Packet)) → o ≡ held job [] o
unfolding held first_answer
held_none job none = refl
held_none job (some none) = refl
held_none job (some (some q)) = refl

lookup-handle_packet :
    (job : ℕ) (p : Packet) (m : Pending)
    → lookup job (handle_packet p m) ≡ held job (p ∷ []) (lookup job m)
unfolding handle_packet
lookup-handle_packet job p m =
    ground (arith, held_one job p (lookup job m), lookup-offer job p (lookup p.target_job_id m) m)

-- Of the packets that come in, the call of a job gets the first service method response with that
-- job as its target, and no other; nothing is kept for a job that nobody waits for, and a channel
-- that has its packet keeps it.
pub lookup-handle_packets :
    (job : ℕ) (ps : List Packet) (m : Pending)
    → lookup job (handle_packets ps m) ≡ held job ps (lookup job m)
unfolding handle_packets
lookup-handle_packets job [] m = held_none job (lookup job m)
lookup-handle_packets job (p ∷ ps) m =
    rw (lookup-handle_packets job ps (handle_packet p m), lookup-handle_packet job p m)
      (held_twice job p ps (lookup job m))

sends_unstamped :
    {B C : Type 0} (msg : IMsg AuthProto B) (c : Client AuthProto B C) (l : C)
    (q : List (IMsg AuthProto B))
    → c.conn ≡ some l
    → c.write_chan ≡ open_chan q
    → send_no_stamp msg c ≡ returns (record c { write_chan = open_chan (q ++ (msg ∷ [])) })
unfolding send_no_stamp send
sends_unstamped msg c l q hc hq = ground arith

own_entry : (job : ℕ) (m : Pending) → lookup job (insert job none m) ≡ some none
own_entry job m = ground (arith, lookup-insert job job none m)

own_channel :
    (job : ℕ) (ps : List Packet) (m : Pending)
    → lookup job (handle_packets ps (insert job none m)) ≡ some (first_answer job ps)
unfolding held
own_channel job ps m = rw (lookup-handle_packets job ps (insert job none m), own_entry job m) refl

other_channels :
    (job k : ℕ) (ps : List Packet) (m : Pending)
    → lookup k (erase job (handle_packets ps (insert job none m)))
      ≡ (if job == k then none else held k ps (lookup k m))
other_channels job k ps m = ground (
  arith,
  lookup-erase job k (handle_packets ps (insert job none m)),
  lookup-handle_packets k ps (insert job none m),
  lookup-insert job k none m,
)

-- The message of a call, before the log-on: EMsg 9804, the method as the name of the target job and
-- the job as the source, and no other field of the header.
abbrev pub request : List ℕ → AuthProto → ℕ → ClientMsgProtobuf AuthProto
request method req job = record {
  header = record {
    msg = 9804;
    header_length = 0;
    proto = record empty_proto_header { jobid_source = some job; target_job_name = some method };
  };
  body = req;
}

request-call_message :
    (method : List ℕ) (req : AuthProto) (job : ℕ)
    → call_message method req job ≡ request method req job
unfolding call_message ProtoMsg.set_source_job_id ProtoMsg.new
request-call_message method req job = refl

-- A header without a result means 2, which is Fail.
abbrev pub result_or_fail : Option ℕ → ℕ
result_or_fail none = 2
result_or_fail (some v) = v

get_eresult_lem : (h : ProtoHeader) → get_eresult h ≡ result_or_fail h.eresult
unfolding get_eresult
get_eresult_lem h = elim h.eresult as (λ o. get_or_default o 2 ≡ result_or_fail o) [
  | none ↦ refl
  | some v ↦ refl
]

module _ {A : Type 0} (codec : Codec ProtoHeader) (resp : Codec A) where
  -- The result and the body of a packet, and an error where there is no packet.
  abbrev pub result_of : Option Packet → Outcome (Result (ℕ × A))
  result_of none = returns (err invalid)
  result_of (some p) = read_proto_msg codec resp p >>= λ msg.
      returns (ok (result_or_fail msg.header.proto.eresult, msg.body))

  same_result :
      (o : Outcome (ClientMsgProtobuf A))
      → ◌>>=◌ {B = Result (ℕ × A)} o (λ msg. returns (ok (get_eresult msg.header.proto, msg.body)))
        ≡ (o >>= λ msg. returns (ok (result_or_fail msg.header.proto.eresult, msg.body)))
  same_result panics = refl
  same_result (returns msg) = rw (get_eresult_lem msg.header.proto) refl

  result_of-answer : (o : Option Packet) → answer codec resp (some o) ≡ result_of o
  unfolding answer
  result_of-answer none = refl
  result_of-answer (some p) = same_result (read_proto_msg codec resp p)

module _ {A B C : Type 0} (codec : Codec ProtoHeader) (resp : Codec A) where
  -- A call on a client that is connected puts one message on its queue, for the next job id and
  -- with the method and nothing else in its header, thus without the session id and the SteamID;
  -- then the result and the body are read from the first response to its job among what comes in
  -- while it waits, and without one the call gives an error, as it times out. Its job is
  -- forgotten in either case, and for every other job the map is what HandlePacket made of it.
  pub call_lem :
      (method : List ℕ) (req : AuthProto) (a : Authentication B C) (l : C)
      (q : List (IMsg AuthProto B)) (k : ℕ)
      → a.client.conn ≡ some l
      → a.client.write_chan ≡ open_chan q
      → let job = (a.client.current_job_id + 1) % 2 ^ 64 in
        let after = handle_packets (next_arrivals a.arrivals) (insert job none a.pending) in
        (call codec method req resp a ≡ (
          result_of codec resp (first_answer job (next_arrivals a.arrivals)) >>= λ r. returns (
            r,
            record a {
              client = record (a.client) {
                current_job_id = job;
                write_chan = open_chan (q ++ (proto_msg (request method req job) ∷ []));
              };
              pending = erase job after;
              arrivals = later_arrivals a.arrivals;
            },
          )))
        × (lookup k (erase job after)
            ≡ (if job == k then none else held k (next_arrivals a.arrivals) (lookup k a.pending)))
  unfolding call wait get_next_job_id
  call_lem method req a l q k hc hq =
      let job = (a.client.current_job_id + 1) % 2 ^ 64 in
      (
        rw
            (
              sends_unstamped (proto_msg (call_message method req job)) (get_next_job_id a.client).1
                  l q hc hq,
              own_channel job (next_arrivals a.arrivals) a.pending,
              result_of-answer codec resp (first_answer job (next_arrivals a.arrivals)),
              request-call_message method req job,
            )
            refl,
        other_channels job k (next_arrivals a.arrivals) a.pending,
      )
