-- ===== src/Network/AirdropClient/Heartbeat.antt =====
-- When src/network/airdrop_client.cpp takes a payload for lost.
use native.Mathlib.Omega.{arith}
use obcpp.Base.{
  ℕ, zero, suc, ◌+◌, ◌-◌, ◌≤◌, ◌<◌, ◌≡◌, refl, ◌∙◌, List, [], ◌∷◌, Option, none, some, Bool, true,
  false, ◌&&◌, ◌==◌, if◌then◌else◌, length, All, get_elem?, get_elem?-set_self, get_elem?-set_ne,
}
use obcpp.Base.Int.{ℤ, sub_ℕ, leb_ℤ}
use obcpp.Network.AirdropClient.{
  Udp2, AirdropClient, Recv, handle_packet, receive_worker, get_lost_connections, lost_from,
}
use obcpp.Network.AirdropClient.Stream.{IsQuiet, whole, process, receive_worker-process}
use obcpp.Network.AirdropClient.Delivery.{sender, is_heartbeat}

-- The entry of a payload in a list of lost connections.
abbrev pub lost_entry : ℕ → List (ℕ × ℤ) → Option ℤ
lost_entry a [] = none
lost_entry a ((b, d) ∷ rest) = if b == a then some d else lost_entry a rest

lost_entry-hit :
    (b : Bool) (a i : ℕ) (d : ℤ) (rest : List (ℕ × ℤ))
    → i ≡ a
    → lost_entry a rest ≡ none
    → lost_entry a (if b then (i, d) ∷ rest else rest) ≡ (if b then some d else none)
lost_entry-hit true a i d rest e h = ground arith
lost_entry-hit false a i d rest e h = h

lost_entry-miss :
    (b : Bool) (a i : ℕ) (d : ℤ) (rest : List (ℕ × ℤ))
    → i < a
    → lost_entry a (if b then (i, d) ∷ rest else rest) ≡ lost_entry a rest
lost_entry-miss true a i d rest e = ground arith
lost_entry-miss false a i d rest e = refl

module _ {Packet : Type 0} (u : Udp2 Packet) where
  open u use {udp2_a, udp2_b}

  -- The time of the last heartbeat of payload `a` in the stream, or `t` if there is none.
  abbrev pub last_heard : ℕ → ℕ → List (Recv Packet) → ℕ
  last_heard a t [] = t
  last_heard a t (r ∷ rs) =
      last_heard a (if is_heartbeat u r.buffer && sender u r.buffer == a then r.now else t) rs

  handle_packet-heartbeat :
      (c : AirdropClient Packet) (now a t : ℕ) (p : Packet)
      → 0 < udp2_a
      → udp2_a ≤ a
      → get_elem? c.last_heartbeat (a - 1) ≡ some t
      → get_elem? (handle_packet u c now p).0.last_heartbeat (a - 1)
        ≡ some (if is_heartbeat u p && sender u p == a then now else t)
  unfolding handle_packet
  handle_packet-heartbeat c now a t p l h g = ground (
    arith,
    get_elem?-set_self c.last_heartbeat (a - 1) t now g,
    get_elem?-set_ne c.last_heartbeat {i = sender u p - 1} {j = a - 1} now,
  )

  process-heartbeat :
      (c : AirdropClient Packet) (a t : ℕ) (rs : List (Recv Packet))
      → 0 < udp2_a
      → udp2_a ≤ a
      → get_elem? c.last_heartbeat (a - 1) ≡ some t
      → get_elem? (process u c rs).0.last_heartbeat (a - 1) ≡ some (last_heard a t rs)
  unfolding process
  process-heartbeat c a t [] l h g = g
  process-heartbeat c a t (r ∷ rs) l h g =
      process-heartbeat (handle_packet u c r.now r.buffer).0 a _ rs l h
        (handle_packet-heartbeat c r.now a t r.buffer l h g)

  lost_from_early :
      (i a : ℕ) (hs : List ℕ) (time : ℕ) (threshold : ℤ)
      → a < i + 1
      → lost_entry a (lost_from u i hs time threshold) ≡ none
  unfolding lost_from
  lost_from_early i a [] time threshold h = refl
  lost_from_early i a (t ∷ hs) time threshold h =
      ground (arith, lost_from_early (i + 1) a hs time threshold)

  lost_from-entry :
      (i k a : ℕ) (hs : List ℕ) (time t : ℕ) (threshold : ℤ)
      → a ≡ i + k + 1
      → get_elem? hs k ≡ some t
      → lost_entry a (lost_from u i hs time threshold)
        ≡ (if leb_ℤ threshold (sub_ℕ time t) then some (sub_ℕ time t) else none)
  unfolding lost_from
  lost_from-entry i k a [] time t threshold e g = cc
  lost_from-entry i zero a (h ∷ hs) time t threshold e g =
      let same : h ≡ t = ground arith in
      rw same (
        lost_entry-hit (leb_ℤ threshold (sub_ℕ time t)) a (i + 1) (sub_ℕ time t) _ (omega arith)
          (lost_from_early (i + 1) a hs time threshold (omega arith)))
  lost_from-entry i (suc k) a (h ∷ hs) time t threshold e g =
      lost_entry-miss (leb_ℤ threshold (sub_ℕ time h)) a (i + 1) (sub_ℕ time h) _ (omega arith)
      ∙ lost_from-entry (i + 1) k a hs time t threshold (omega arith) g

  -- After a stream in which the worker is not told to stop, a payload is reported lost exactly when
  -- the time since its last heartbeat in the stream (since the time on record, if there is none) is
  -- at least the threshold, and it is reported with that time. The threshold is in milliseconds, and a
  -- payload that is silent for just that long counts as lost.
  pub lost_iff_silent :
      (f : ℕ) (c : AirdropClient Packet) (rs : List (Recv Packet)) (a t time : ℕ) (threshold : ℤ)
      → All (IsQuiet u) rs
      → length rs ≤ f
      → 0 < udp2_a
      → udp2_a ≤ a
      → get_elem? c.last_heartbeat (a - 1) ≡ some t
      → let since = sub_ℕ time (last_heard a t (whole u rs)) in
        lost_entry a (get_lost_connections u (receive_worker u f c rs).0 time threshold)
        ≡ (if leb_ℤ threshold since then some since else none)
  unfolding get_lost_connections
  lost_iff_silent f c rs a t time threshold q l p h g = rw (receive_worker-process u f c rs q l) (
      lost_from-entry 0 (a - 1) a (process u c (whole u rs)).0.last_heartbeat time
        (last_heard a t (whole u rs)) threshold (omega arith)
        (process-heartbeat c a t (whole u rs) p h g))
