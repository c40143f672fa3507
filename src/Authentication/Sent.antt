-- ===== src/Authentication/Sent.antt =====
-- Runs that leave no call waiting and put a bounded number of messages on the queue.
use go_steam_ws.Authentication.{
  Authentication, Pending, offer, handle_packet, handle_packets, Run, on_ok, ◌>>?◌,
}
use go_steam_ws.Base.{
  ℕ, suc, ◌+◌, ◌≤◌, ◌≡◌, Option, none, some, List, [], ◌∷◌, ◌==◌, if◌then◌else◌, length, arith,
}
use go_steam_ws.Base.Store.{lookup, insert, erase}
use go_steam_ws.Client.{Chan, nil_chan, open_chan, closed_chan}
use go_steam_ws.Io.{Outcome, returns, panics, Result, ok, err, ◌>>=◌}
use go_steam_ws.Protocol.Packet.{Packet}

-- HandlePacket does not add to the map.
handle_one :
    (p : Packet) (job : ℕ) (x : Option Packet)
    → (y : Option Packet) × (handle_packet p ((job, x) ∷ []) ≡ (job, y) ∷ [])
unfolding handle_packet offer lookup insert
handle_one p job none =
    (if p.emsg == 147 then if job == p.target_job_id then some p else none else none, ground arith)
handle_one p job (some q) = (some q, ground arith)

erase_one : (job : ℕ) (x : Option Packet) → erase job ((job, x) ∷ []) ≡ []
unfolding erase
erase_one job x = ground arith

forgets :
    (job : ℕ) (ps : List Packet) (x : Option Packet)
    → erase job (handle_packets ps ((job, x) ∷ [])) ≡ []
unfolding handle_packets
forgets job [] x = erase_one job x
forgets job (p ∷ ps) x = let (y, e) = handle_one p job x in rw e (forgets job ps y)

pub forgets_new :
    (job : ℕ) (ps : List Packet) (m : Pending)
    → m ≡ []
    → erase job (handle_packets ps (insert job none m)) ≡ []
unfolding insert
forgets_new job ps m e = rw e (forgets job ps none)

-- The messages on the queue.
unfoldable pub chan_length : {A : Type 0} → Chan A → ℕ
chan_length nil_chan = 0
chan_length (open_chan q) = length q
chan_length (closed_chan q) = length q

module _ {B C : Type 0} where
  -- What holds of the state after a call that returns.
  abbrev pub AfterRun :
      {A : Type 0}
      → (Authentication B C → Type 0)
      → Outcome (Result A × Authentication B C)
      → Type 0
  AfterRun P (returns (r, a)) = P a
  AfterRun P panics = Unit {0}

  -- No call waits, and to a queue of `q` messages at most `n` have come.
  pub record Sent (n q : ℕ) (b : Authentication B C) : Type 0 where
    pub forgotten : b.pending ≡ []
    pub few : chan_length b.client.write_chan ≤ q + n

  -- A run from a state in which no call waits.
  abbrev pub Adds : {A : Type 0} → ℕ → Run B C A → Type 0
  Adds n m =
      (a : Authentication B C)
      → a.pending ≡ []
      → AfterRun (Sent n (chan_length a.client.write_chan)) (m a)

  later :
      {A : Type 0} (m n q : ℕ) (b : Authentication B C)
      (o : Outcome (Result A × Authentication B C))
      → Sent m q b
      → AfterRun (Sent n (chan_length b.client.write_chan)) o
      → AfterRun (Sent (m + n) q) o
  later m n q b (returns (r, c)) h k = record {
    forgotten = k.forgotten;
    few = omega (arith, h.few, k.few);
  }
  later m n q b panics h k = tt

  pub stays : (m n q : ℕ) (b : Authentication B C) → Sent m q b → Sent (m + n) q b
  stays m n q b h = record { forgotten = h.forgotten; few = omega (arith, h.few) }

  pub as_many :
      {A : Type 0} (n q : ℕ) (o : Outcome (Result A × Authentication B C))
      → AfterRun (Sent (1 + n) q) o
      → AfterRun (Sent (suc n) q) o
  as_many n q (returns (r, a)) h = record { forgotten = h.forgotten; few = omega (arith, h.few) }
  as_many n q panics h = tt

  and_then :
      {A D : Type 0} (m n q : ℕ) (k : A → Run B C D) (o : Outcome (Result A × Authentication B C))
      → AfterRun (Sent m q) o
      → ((x : A) → Adds n (k x))
      → AfterRun (Sent (m + n) q) (o >>= on_ok k)
  and_then m n q k (returns (ok x, b)) h g = later m n q b (k x b) h (g x b h.forgotten)
  and_then m n q k (returns (err e, b)) h g = stays m n q b h
  and_then m n q k panics h g = tt

  pub then-Adds :
      {A D : Type 0} (m n : ℕ) (r : Run B C A) (k : A → Run B C D)
      → Adds m r
      → ((x : A) → Adds n (k x))
      → Adds (m + n) (r >>? k)
  then-Adds m n r k h g a e = and_then m n (chan_length a.client.write_chan) k (r a) (h a e) g

  pub same : (a : Authentication B C) → a.pending ≡ [] → Sent 0 (chan_length a.client.write_chan) a
  same a e = record { forgotten = e; few = omega arith }
