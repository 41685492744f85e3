-- ===== src/Network/AirdropClient/Stream.antt =====
-- The receive thread of src/network/airdrop_client.cpp, seen as a function of the stream of packets:
-- what is queued for the program, what is acknowledged, and which heartbeats are recorded.
use native.Mathlib.Omega.{arith}
use obcpp.Base.{
  ℕ, zero, suc, ◌≤◌, ◌<◌, ◌≡◌, refl, ap, ◌⊎◌, inl, inr, List, [], ◌∷◌, ◌++◌, none, some, false,
  length, select, All, Bool-cases,
}
use obcpp.Network.AirdropClient.{
  Udp2, AirdropClient, Recv, is_whole, receive_blocking, handle_packet, receive_worker,
}

module _ {Packet : Type 0} (u : Udp2 Packet) where
  -- The worker is not told to stop around this call.
  abbrev pub IsQuiet : Recv Packet → Type 0
  IsQuiet r = (r.stopped ≡ false) × (r.stopped_later ≡ false)

  -- The calls that brought a whole packet.
  abbrev pub whole : List (Recv Packet) → List (Recv Packet)
  whole = select (λ r. is_whole u r.result)

  pub receive_blocking_lem :
      (rs : List (Recv Packet))
      → All IsQuiet rs
      → ((receive_blocking u rs ≡ none) × (whole rs ≡ []))
        ⊎ ((r : Recv Packet) × (rest : List (Recv Packet)) × (receive_blocking u rs
              ≡ some (r, rest))
            × (whole rs ≡ r ∷ whole rest)
            × IsQuiet r
            × All IsQuiet rest
            × (length rest < length rs))
  unfolding receive_blocking
  receive_blocking_lem [] q = inl (refl, refl)
  receive_blocking_lem (r ∷ rs) q = elim (Bool-cases (is_whole u r.result)) [
    | inl w ↦ inr (r, rs, ground arith, ground arith, q.0, q.1, omega arith)
    | inr w ↦ elim (receive_blocking_lem rs q.1) [
      | inl (e, n) ↦ inl (ground arith, ground arith)
      | inr (r', rest, e, n, q', qs, l) ↦
          inr (r', rest, ground arith, ground arith, q', qs, omega arith)
    ]
  ]

  -- The worker's loop over the packets alone.
  unfoldable pub process :
      AirdropClient Packet → List (Recv Packet) → AirdropClient Packet × List Packet
  process c [] = (c, [])
  process c (r ∷ rs) =
      let (c', sent) = handle_packet u c r.now r.buffer in
      let after = process c' rs in (after.0, sent ++ after.1)

  pub receive_worker-process :
      (f : ℕ) (c : AirdropClient Packet) (rs : List (Recv Packet))
      → All IsQuiet rs
      → length rs ≤ f
      → receive_worker u f c rs ≡ process c (whole rs)
  unfolding receive_worker process
  receive_worker-process zero c [] q h = refl
  receive_worker-process zero c (r ∷ rs) q h = absurd (omega arith)
  receive_worker-process (suc f) c rs q h = elim (receive_blocking_lem rs q) [
    | inl (e, n) ↦ rw (e, n, receive_worker)
    | inr (r, rest, e, n, q', qs, l) ↦
        rw (e, n, receive_worker, q'.1)
          (ap (λ t. (t.0, (handle_packet u c r.now r.buffer).1 ++ t.1))
            (receive_worker-process f (handle_packet u c r.now r.buffer).0 rest qs (omega arith)))
  ]
