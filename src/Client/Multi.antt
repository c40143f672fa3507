-- ===== src/Client/Multi.antt =====
-- The loop of handleMulti in client.go over the packets of a Multi message.
use go_steam_ws.Base.{
  ℕ, zero, suc, ◌+◌, ◌-◌, ◌^◌, ◌≡◌, ◌≤◌, ◌<◌, refl, ap, ◌∙◌, none, List, [], ◌∷◌, ◌++◌, length,
  drop, replicate, All, append-nil, length-append, length-drop, take_front, drop_front, arith,
}
use mathlib.Core.Path.{fun_ext}
use go_steam_ws.Io.{Reader, read_int, read_full, le_bytes, Outcome, returns, ◌>>=◌}
use go_steam_ws.Io.Laws.{read_int-le_bytes, length-le_bytes}
use go_steam_ws.ProtoBuf.{ProtoHeader, Codec}
use go_steam_ws.Protocol.Packet.{Packet, new_packet}
use go_steam_ws.Client.{Client}
use go_steam_ws.Client.Dispatch.{packet_data, receive, multi_loop}

-- Packets written one behind the other, each behind its length.
unfoldable pub frames : List (List ℕ) → List ℕ
frames [] = []
frames (d ∷ ds) = le_bytes 4 (length d) ++ (d ++ frames ds)

abbrev pub Fits : List ℕ → Type 0
Fits d = length d < 2 ^ 32

-- The bytes that a turn of the loop leaves are fewer than it found.
read_int_rest : (b : ℕ) (r : Reader) → length (read_int 4 (b ∷ r)).2 ≤ length r
unfolding read_int read_full
read_int_rest b r = ground (arith, length-drop 3 r)

minus_more : (n k : ℕ) → n - (n + k) ≡ 0
minus_more n k = omega arith

none_missing : (n k : ℕ) → replicate {A = ℕ} (n - (n + k)) 0 ≡ []
none_missing n k = rw (minus_more n k) refl

packet_data-append : (d r : List ℕ) → packet_data (length d) (d ++ r) ≡ d
packet_data-append d r =
    rw (take_front (length d) d r refl, length-append d r, none_missing (length d) (length r))
      (append-nil d)

module _ {M B C : Type 0} (codec : Codec ProtoHeader)
    (handle : Packet → Client M B C → Outcome (Client M B C)) where
  -- Handling each packet of the list in turn: a packet that NewPacket refuses is an error event.
  unfoldable pub handle_all : List (List ℕ) → Client M B C → Outcome (Client M B C)
  handle_all [] c = returns c
  handle_all (d ∷ ds) c =
      new_packet codec d >>= λ res. receive codec handle c res >>= λ c1. handle_all ds c1

  multi_turn :
      (fuel n : ℕ) (r rest : Reader) (c : Client M B C)
      → read_int 4 r ≡ (n, none, rest)
      → multi_loop codec handle (suc fuel) r c ≡ (
          new_packet codec (packet_data n rest) >>= λ res.
          receive codec handle c res >>= λ c1. multi_loop codec handle fuel (drop n rest) c1)
  unfolding multi_loop read_int read_full
  multi_turn fuel n [] rest c e = cc
  multi_turn fuel n (b ∷ r) rest c e = rw e refl

  abbrev IsRunOf : Reader → List (List ℕ) → Type 0
  IsRunOf r ds =
      (fuel : ℕ) (c : Client M B C)
      → length r ≤ fuel
      → multi_loop codec handle fuel r c ≡ handle_all ds c

  run_turn :
      (b : ℕ) (r : Reader) (ds : List (List ℕ))
      → IsRunOf (drop (read_int 4 (b ∷ r)).0 (read_int 4 (b ∷ r)).2) ds
      → IsRunOf (b ∷ r) (packet_data (read_int 4 (b ∷ r)).0 (read_int 4 (b ∷ r)).2 ∷ ds)
  unfolding multi_loop handle_all
  run_turn b r ds more zero c k = absurd (omega arith)
  run_turn b r ds more (suc fuel) c k =
      let len = (read_int 4 (b ∷ r)).0 in
      let rest = (read_int 4 (b ∷ r)).2 in
      ap
        (λ (g : Client M B C → Outcome (Client M B C)).
          new_packet codec (packet_data len rest) >>= λ res. receive codec handle c res >>= g)
        (fun_ext (λ c1. more fuel c1 (omega (arith, length-drop len rest, read_int_rest b r))))

  run_of : (n : ℕ) (r : Reader) → length r ≤ n → (ds : List (List ℕ)) × IsRunOf r ds
  unfolding multi_loop handle_all
  run_of n [] h = ([], λ fuel c k. refl)
  run_of zero (b ∷ r) h = absurd (omega arith)
  run_of (suc n) (b ∷ r) h =
      let len = (read_int 4 (b ∷ r)).0 in
      let rest = (read_int 4 (b ∷ r)).2 in
      let (ds, more) =
        run_of n (drop len rest) (omega (arith, length-drop len rest, read_int_rest b r)) in
      (packet_data len rest ∷ ds, run_turn b r ds more)

  -- Whatever the payload, handleMulti's loop handles a finite list of packets in turn: with no
  -- less fuel than bytes it does not run out, and more fuel changes nothing.
  pub multi_loop_total :
      (r : Reader)
      → (ds : List (List ℕ)) × ((fuel : ℕ) (c : Client M B C)
          → length r ≤ fuel
          → multi_loop codec handle fuel r c ≡ handle_all ds c)
  multi_loop_total r = run_of (length r) r (omega arith)

  loop_frames :
      (ds : List (List ℕ)) (fuel : ℕ) (c : Client M B C)
      → All Fits ds
      → length (frames ds) ≤ fuel
      → multi_loop codec handle fuel (frames ds) c ≡ handle_all ds c
  unfolding frames handle_all multi_loop
  loop_frames [] fuel c f h = refl
  loop_frames (d ∷ ds) zero c f h = absurd (
      omega (
        arith,
        length-append (le_bytes 4 (length d)) (d ++ frames ds),
        length-le_bytes 4 (length d),
      ))
  loop_frames (d ∷ ds) (suc fuel) c f h =
      multi_turn fuel (length d) _ (d ++ frames ds) c
        (read_int-le_bytes 4 (length d) (d ++ frames ds) f.0)
      ∙ rw (packet_data-append d (frames ds), drop_front (length d) d (frames ds) refl)
          (ap
            (λ (g : Client M B C → Outcome (Client M B C)).
              new_packet codec d >>= λ res. receive codec handle c res >>= g)
            (fun_ext (λ c1. loop_frames ds fuel c1 f.1 (
              omega (
                arith,
                h,
                length-append (le_bytes 4 (length d)) (d ++ frames ds),
                length-append d (frames ds),
                length-le_bytes 4 (length d),
              )))))

  -- On a payload of packets, each shorter than 4 GiB and behind its length, handleMulti's loop does
  -- what handling each of them in turn does.
  pub multi_loop-frames :
      (ds : List (List ℕ)) (c : Client M B C)
      → All Fits ds
      → multi_loop codec handle (length (frames ds)) (frames ds) c ≡ handle_all ds c
  multi_loop-frames ds c f = loop_frames ds (length (frames ds)) c f (omega arith)
