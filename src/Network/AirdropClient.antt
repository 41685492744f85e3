-- ===== src/Network/AirdropClient.antt =====
-- The client of the airdrop payloads (src/network/airdrop_client.cpp,
-- include/network/airdrop_client.hpp). The packet library udp2_squared is a record of parameters.
-- What the socket returns is an explicit list of outcomes, one for each call of `recv_ad_packet`;
-- the clock is a field of each outcome.
pub mod Stream
pub mod Delivery
pub mod Heartbeat
pub mod Setup
mod Examples
use obcpp.Base.{
  ℕ, zero, suc, ◌+◌, ◌-◌, List, [], ◌∷◌, ◌++◌, Option, none, some, Bool, true, false, not, ◌||◌,
  ltb, ◌==◌, if◌then◌else◌, set,
}
use obcpp.Base.Int.{ℤ, sub_ℕ, leb_ℤ}

-- What the code uses of udp2_squared. Payloads are numbered from 1, so that a number less 1 indexes
-- `last_heartbeat`.
pub record Udp2 (Packet : Type 0) : Type 0 where
  pub header : Packet → ℕ
  pub id : Packet → ℕ
  -- The payload and its state, as `parseID` takes them from an identifier.
  pub parse_id : ℕ → ℕ × ℕ
  -- The mode field, for a packet that is read as a `mode_packet_t`.
  pub mode_of : Packet → ℕ
  pub make_reset_packet : ℕ → Packet
  pub make_mode_packet : ℕ → ℕ → ℕ → ℕ → Packet
  pub packet_size : ℕ
  pub heartbeat : ℕ
  pub set_mode : ℕ
  pub ack_mode : ℕ
  pub obc_null : ℕ
  pub udp2_all : ℕ
  pub udp2_a : ℕ
  pub udp2_b : ℕ

-- The result of a socket call: an error, or the number of bytes read.
pub data SocketResult : Type 0 where
  err : SocketResult
  res : ℕ → SocketResult

-- One return of `recv_ad_packet`: the result, what the buffer holds then, whether `stop_worker` is
-- seen set right after the call and by the worker after that, and the time read by the handler.
pub record Recv (Packet : Type 0) : Type 0 where
  pub result : SocketResult
  pub buffer : Packet
  pub stopped : Bool
  pub stopped_later : Bool
  pub now : ℕ

pub record AirdropClient (Packet : Type 0) : Type 0 where
  pub mode : Option ℕ
  pub recv_queue : List Packet
  pub last_heartbeat : List ℕ

abbrev pub num_airdrops : ℕ
num_airdrops = 2

module _ {Packet : Type 0} (u : Udp2 Packet) where
  open u use {
    header, id, parse_id, mode_of, packet_size, heartbeat, set_mode, udp2_a, udp2_b, udp2_all,
    obc_null, ack_mode, make_mode_packet,
  }

  -- `result.data.res != sizeof(packet_t)`, or an error: the outcome is ignored.
  pub is_whole : SocketResult → Bool
  is_whole err = false
  is_whole (res n) = n == packet_size

  -- Block until a whole packet arrives or the worker is told to stop. `none`: still blocked when the
  -- outcomes end.
  pub receive_blocking : List (Recv Packet) → Option (Recv Packet × List (Recv Packet))
  unfolding is_whole
  receive_blocking [] = none
  receive_blocking (r ∷ rs) =
      let rest = receive_blocking rs in
      if r.stopped then some (r, rs) else if is_whole r.result then some (r, rs) else rest

  -- The new client, and whether the packet was a heartbeat.
  unfoldable pub parse_heartbeats : AirdropClient Packet → ℕ → Packet → AirdropClient Packet × Bool
  parse_heartbeats c now packet =
      let airdrop = (parse_id (id packet)).0 in
      if not (header packet == heartbeat)
      then (c, false)
      else if ltb airdrop udp2_a || ltb udp2_b airdrop
      then (c, false)
      else (record c { last_heartbeat = set c.last_heartbeat (airdrop - 1) now }, true)

  -- `*this->mode`; reading an empty optional is not defined, and 0 stands for what comes of it.
  abbrev mode_or_zero : Option ℕ → ℕ
  mode_or_zero none = 0
  mode_or_zero (some m) = m

  -- The body of the worker's loop for one packet: the new client and the packets sent.
  pub handle_packet : AirdropClient Packet → ℕ → Packet → AirdropClient Packet × List Packet
  unfolding parse_heartbeats
  handle_packet c now packet =
      let (c', was_heartbeat) = parse_heartbeats c now packet in
      if was_heartbeat
      then (c', [])
      else if header packet == set_mode
      then (
        c',
        make_mode_packet ack_mode (parse_id (id packet)).0 obc_null (mode_or_zero c'.mode) ∷ [],
      )
      else (record c' { recv_queue = c'.recv_queue ++ packet ∷ [] }, [])

  -- The loop of the worker thread, on fuel. It ends when told to stop.
  pub receive_worker :
      ℕ → AirdropClient Packet → List (Recv Packet) → AirdropClient Packet × List Packet
  unfolding receive_blocking
  receive_worker zero c rs = (c, [])
  receive_worker (suc f) c rs = elim (receive_blocking rs) [
    | none ↦ (c, [])
    | some (r, rest) ↦
        let (c', sent) = handle_packet c r.now r.buffer in
        let after = receive_worker f c' rest in
        if r.stopped_later then (c, []) else (after.0, sent ++ after.1)
  ]

  -- The setup phase: packets are dropped until the payloads send their mode, which is acknowledged.
  -- `none`: still waiting when the outcomes end or the fuel does.
  pub establish_connection :
      ℕ
      → AirdropClient Packet
      → List (Recv Packet)
      → Option (AirdropClient Packet × List Packet × List (Recv Packet))
  unfolding receive_blocking
  establish_connection zero c rs = none
  establish_connection (suc f) c rs = elim (receive_blocking rs) [
    | none ↦ none
    | some (r, rest) ↦
        let again = establish_connection f c rest in
        if header r.buffer == set_mode
        then some (
          record c { mode = some (mode_of r.buffer) },
          make_mode_packet ack_mode udp2_all obc_null (mode_of r.buffer) ∷ [],
          rest,
        )
        else again
  ]

  -- The client takes the oldest packet.
  pub receive : AirdropClient Packet → AirdropClient Packet × Option Packet
  receive c = elim c.recv_queue [
    | [] ↦ (c, none)
    | packet ∷ rest ↦ (record c { recv_queue = rest }, some packet)
  ]

  -- The loop over `last_heartbeat` from index `i` on.
  lost_from : ℕ → List ℕ → ℕ → ℤ → List (ℕ × ℤ)
  lost_from i [] time threshold = []
  lost_from i (h ∷ hs) time threshold =
      let rest = lost_from (i + 1) hs time threshold in
      if leb_ℤ threshold (sub_ℕ time h) then (i + 1, sub_ℕ time h) ∷ rest else rest

  -- Payloads not heard of for the threshold or longer, with the milliseconds since.
  pub get_lost_connections : AirdropClient Packet → ℕ → ℤ → List (ℕ × ℤ)
  unfolding lost_from
  get_lost_connections c time threshold = lost_from 0 c.last_heartbeat time threshold

-- `send` repeats a packet; `fails i` says whether the i-th call of `send_ad_packet` has an error.
-- The result, and the number of calls made.
unfoldable pub send_from : (ℕ → Bool) → ℕ → ℕ → Bool × ℕ
send_from fails zero i = (true, i)
send_from fails (suc k) i =
    let rest = send_from fails k (i + 1) in if fails i then (false, i + 1) else rest

pub send : (ℕ → Bool) → Bool × ℕ
unfolding send_from
send fails = send_from fails 8 0
