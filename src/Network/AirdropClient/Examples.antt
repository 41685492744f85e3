-- ===== src/Network/AirdropClient/Examples.antt =====
-- Runs of the payload client of src/network/airdrop_client.cpp on small streams.
use native.Mathlib.Omega.{arith}
use obcpp.Base.{
  ℕ, ◌+◌, ◌<◌, ◌≡◌, ◌⊎◌, refl, List, [], ◌∷◌, ◌++◌, map, none, some, true, false, select,
  if◌then◌else◌, ◌==◌,
}
use obcpp.Base.Int.{pos, sub_ℕ, leb_ℤ}
use obcpp.Network.AirdropClient.{
  Udp2, AirdropClient, Recv, err, res, handle_packet, receive_worker, establish_connection,
  get_lost_connections, send,
}
use obcpp.Network.AirdropClient.Stream.{whole}
use obcpp.Network.AirdropClient.Delivery.{
  receive_worker_delivers, is_exposed, is_mode, packets, acknowledge,
}
use obcpp.Network.AirdropClient.Heartbeat.{lost_iff_silent, lost_entry, last_heard}
use obcpp.Network.AirdropClient.Setup.{
  establish_connection-first_mode, outcome, connected, first_mode, send_repeats,
}

-- A packet is a header and the number of a payload.
abbrev udp2 : Udp2 (ℕ × ℕ)
udp2 = record {
  header = λ p. p.0;
  id = λ p. p.1;
  parse_id = λ i. (i, 0);
  mode_of = λ p. p.1;
  make_reset_packet = λ a. (9, a);
  make_mode_packet = λ h a s m. (h + m, a);
  packet_size = 12;
  heartbeat = 1;
  set_mode = 2;
  ack_mode = 3;
  obc_null = 0;
  udp2_all = 0;
  udp2_a = 1;
  udp2_b = 2;
}

abbrev got : ℕ → ℕ × ℕ → Recv (ℕ × ℕ)
got t p = record { result = res 12; buffer = p; stopped = false; stopped_later = false; now = t }

abbrev failed : Recv (ℕ × ℕ)
failed = record { result = err; buffer = (0, 0); stopped = false; stopped_later = false; now = 0 }

abbrev client : AirdropClient (ℕ × ℕ)
client = record { mode = some 1; recv_queue = []; last_heartbeat = 10 ∷ 10 ∷ [] }

abbrev stream : List (Recv (ℕ × ℕ))
stream = got 20 (1, 2) ∷ failed ∷ got 21 (7, 1) ∷ got 22 (2, 1) ∷ got 23 (1, 5) ∷ []

receive_worker_delivers_example :
    ((receive_worker udp2 5 client stream).0.recv_queue
      ≡ [] ++ select (is_exposed udp2) (packets udp2 (whole udp2 stream)))
    × ((receive_worker udp2 5 client stream).1
        ≡ map (acknowledge udp2 1) (select (is_mode udp2) (packets udp2 (whole udp2 stream))))
receive_worker_delivers_example =
    receive_worker_delivers udp2 5 client 1 stream
      ((refl, refl), ((refl, refl), ((refl, refl), ((refl, refl), ((refl, refl), tt)))))
      (omega arith) refl

queue_of_stream : (receive_worker udp2 5 client stream).0.recv_queue ≡ (7, 1) ∷ (1, 5) ∷ []
unfolding receive_worker handle_packet
queue_of_stream = refl

lost_iff_silent_example :
    let since = sub_ℕ 3010 (last_heard udp2 1 10 (whole udp2 stream)) in
    lost_entry 1 (get_lost_connections udp2 (receive_worker udp2 5 client stream).0 3010 (pos 3000))
    ≡ (if leb_ℤ (pos 3000) since then some since else none)
lost_iff_silent_example =
    lost_iff_silent udp2 5 client stream 1 10 3010 (pos 3000)
      ((refl, refl), ((refl, refl), ((refl, refl), ((refl, refl), ((refl, refl), tt)))))
      (omega arith) (omega arith) (omega arith) refl

establish_connection-first_mode_example :
    outcome udp2 (establish_connection udp2 5 client stream)
    ≡ connected udp2 client (first_mode udp2 (whole udp2 stream))
establish_connection-first_mode_example =
    establish_connection-first_mode udp2 5 client stream
      ((refl, refl), ((refl, refl), ((refl, refl), ((refl, refl), ((refl, refl), tt)))))
      (omega arith)

send_repeats_example :
    (((j : ℕ) → j < 8 → (j == 3) ≡ false) × (send (λ j. j == 3) ≡ (true, 8)))
    ⊎ ((j : ℕ) × (j < 8)
        × ((j == 3) ≡ true)
        × ((m : ℕ) → m < j → (m == 3) ≡ false)
        × (send (λ i. i == 3) ≡ (false, j + 1)))
send_repeats_example = send_repeats (λ j. j == 3)
