-- ===== src/Network/AirdropClient/Delivery.antt =====
-- What the receive thread of src/network/airdrop_client.cpp queues and acknowledges.
use native.Mathlib.Omega.{arith}
use mathlib.Core.List.{append_assoc, append-nil}
use obcpp.Base.{
  ℕ, ◌≤◌, ◌<◌, ◌≡◌, ◌≢◌, refl, sym, ap, ◌∙◌, ◌⊎◌, List, [], ◌∷◌, ◌++◌, map, some, Bool, not, ◌&&◌,
  ◌||◌, ltb, ◌==◌, length, select, All,
}
use obcpp.Network.AirdropClient.{Udp2, AirdropClient, Recv, handle_packet, receive_worker}
use obcpp.Network.AirdropClient.Stream.{IsQuiet, whole, process, receive_worker-process}

module _ {Packet : Type 0} (u : Udp2 Packet) where
  open u use {
    header, id, parse_id, heartbeat, set_mode, udp2_a, udp2_b, obc_null, ack_mode, make_mode_packet,
  }

  abbrev pub sender : Packet → ℕ
  sender p = (parse_id (id p)).0

  abbrev pub in_range : Packet → Bool
  in_range p = not (ltb (sender p) udp2_a || ltb udp2_b (sender p))

  -- A heartbeat of a payload that exists.
  abbrev pub is_heartbeat : Packet → Bool
  is_heartbeat p = header p == heartbeat && in_range p

  abbrev pub is_mode : Packet → Bool
  is_mode p = not (is_heartbeat p) && header p == set_mode

  abbrev pub is_exposed : Packet → Bool
  is_exposed p = not (is_heartbeat p) && not (header p == set_mode)

  abbrev pub acknowledge : ℕ → Packet → Packet
  acknowledge m p = make_mode_packet ack_mode (sender p) obc_null m

  abbrev pub packets : List (Recv Packet) → List Packet
  packets = map (λ r. r.buffer)

  mode-handle_packet :
      (c : AirdropClient Packet) (now : ℕ) (p : Packet) → (handle_packet u c now p).0.mode ≡ c.mode
  unfolding handle_packet
  mode-handle_packet c now p = ground arith

  handle_packet-queue :
      (c : AirdropClient Packet) (now : ℕ) (p : Packet) (ps : List Packet)
      → (handle_packet u c now p).0.recv_queue ++ select is_exposed ps
        ≡ c.recv_queue ++ select is_exposed (p ∷ ps)
  unfolding handle_packet
  handle_packet-queue c now p ps =
      ground (arith, append_assoc c.recv_queue (p ∷ []) (select is_exposed ps))

  handle_packet-sent :
      (c : AirdropClient Packet) (now m : ℕ) (p : Packet) (ps : List Packet)
      → c.mode ≡ some m
      → (handle_packet u c now p).1 ++ map (acknowledge m) (select is_mode ps)
        ≡ map (acknowledge m) (select is_mode (p ∷ ps))
  unfolding handle_packet
  handle_packet-sent c now m p ps h = ground arith

  process-queue :
      (c : AirdropClient Packet) (rs : List (Recv Packet))
      → (process u c rs).0.recv_queue ≡ c.recv_queue ++ select is_exposed (packets rs)
  unfolding process
  process-queue c [] = sym (append-nil _)
  process-queue c (r ∷ rs) =
      process-queue (handle_packet u c r.now r.buffer).0 rs
      ∙ handle_packet-queue c r.now r.buffer (packets rs)

  process-sent :
      (c : AirdropClient Packet) (m : ℕ) (rs : List (Recv Packet))
      → c.mode ≡ some m
      → (process u c rs).1 ≡ map (acknowledge m) (select is_mode (packets rs))
  unfolding process
  process-sent c m [] h = refl
  process-sent c m (r ∷ rs) h =
      ap (λ t. (handle_packet u c r.now r.buffer).1 ++ t)
        (process-sent (handle_packet u c r.now r.buffer).0 m rs
          (mode-handle_packet c r.now r.buffer ∙ h))
      ∙ handle_packet-sent c r.now m r.buffer (packets rs) h

  -- Of a stream in which the worker is not told to stop, with fuel for each outcome: the queue gains
  -- exactly the whole packets that are neither a heartbeat of an existing payload nor SET_MODE, in
  -- the order of arrival, and what is sent is one acknowledgement, with the mode agreed on, for each
  -- SET_MODE packet, in that order.
  pub receive_worker_delivers :
      (f : ℕ) (c : AirdropClient Packet) (m : ℕ) (rs : List (Recv Packet))
      → All (IsQuiet u) rs
      → length rs ≤ f
      → c.mode ≡ some m
      → ((receive_worker u f c rs).0.recv_queue
          ≡ c.recv_queue ++ select is_exposed (packets (whole u rs)))
        × ((receive_worker u f c rs).1
            ≡ map (acknowledge m) (select is_mode (packets (whole u rs))))
  receive_worker_delivers f c m rs q h e =
      let eq = receive_worker-process u f c rs q h in
      (
        ap (λ t. t.0.recv_queue) eq ∙ process-queue c (whole u rs),
        ap (λ t. t.1) eq ∙ process-sent c m (whole u rs) e,
      )

  -- A packet with the header of a heartbeat whose sender is not one of the payloads is put into the
  -- queue like any other, and no time is recorded for it.
  stray_heartbeat_queued :
      (c : AirdropClient Packet) (now : ℕ) (p : Packet)
      → heartbeat ≢ set_mode
      → header p ≡ heartbeat
      → (sender p < udp2_a) ⊎ (udp2_b < sender p)
      → handle_packet u c now p ≡ (record c { recv_queue = c.recv_queue ++ p ∷ [] }, [])
  unfolding handle_packet
  stray_heartbeat_queued c now p n h o = ground arith
