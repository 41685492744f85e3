-- ===== src/Network/AirdropClient/Setup.antt =====
-- The setup phase and the repeated sending of src/network/airdrop_client.cpp.
use native.Mathlib.Omega.{arith}
use native.Mathlib.Decide.{ℕ_discrete}
use obcpp.Base.{
  subst, ℕ, zero, suc, ◌+◌, ◌≤◌, ◌<◌, ◌≡◌, refl, ◌⊎◌, inl, inr, List, [], ◌∷◌, Option, none, some,
  Bool, true, false, ◌==◌, if◌then◌else◌, length, All, Bool-cases,
}
use obcpp.Network.AirdropClient.{Udp2, AirdropClient, Recv, establish_connection, send_from, send}
use obcpp.Network.AirdropClient.Stream.{IsQuiet, whole, receive_blocking_lem}

module _ {Packet : Type 0} (u : Udp2 Packet) where
  open u use {header, mode_of, set_mode, udp2_all, obc_null, ack_mode, make_mode_packet}

  abbrev pub first_mode : List (Recv Packet) → Option Packet
  first_mode [] = none
  first_mode (r ∷ rs) = if header r.buffer == set_mode then some r.buffer else first_mode rs

  -- The client and the packets sent, without the outcomes that are left.
  abbrev pub outcome :
      Option (AirdropClient Packet × List Packet × List (Recv Packet))
      → Option (AirdropClient Packet × List Packet)
  outcome none = none
  outcome (some (c, sent, rest)) = some (c, sent)

  abbrev pub connected :
      AirdropClient Packet → Option Packet → Option (AirdropClient Packet × List Packet)
  connected c none = none
  connected c (some p) = some (
    record c { mode = some (mode_of p) },
    make_mode_packet ack_mode udp2_all obc_null (mode_of p) ∷ [],
  )

  -- Of a stream in which the client is not told to stop, with fuel for each outcome: the setup ends
  -- with the first whole packet that has the header SET_MODE, and only with such a one; it takes the
  -- mode of that packet and acknowledges it once to all payloads; the packets before it change
  -- nothing, heartbeats included.
  pub establish_connection-first_mode :
      (f : ℕ) (c : AirdropClient Packet) (rs : List (Recv Packet))
      → All (IsQuiet u) rs
      → length rs ≤ f
      → outcome (establish_connection u f c rs) ≡ connected c (first_mode (whole u rs))
  unfolding establish_connection
  establish_connection-first_mode zero c [] q h = refl
  establish_connection-first_mode zero c (r ∷ rs) q h = absurd (omega arith)
  establish_connection-first_mode (suc f) c rs q h = elim (receive_blocking_lem u rs q) [
    | inl (e, n) ↦ rw (e, n, establish_connection)
    | inr (r, rest, e, n, q', qs, l) ↦
        rw (e, n, establish_connection)
          (ground (arith, establish_connection-first_mode f c rest qs (omega arith)))
  ]

from_next : (p : ℕ → Bool) (i j : ℕ) → i ≤ j → p i ≡ false → (i + 1 ≤ j → p j ≡ false) → p j ≡ false
from_next p i j h e next = elim (ℕ_discrete i j) [
  | yes same ↦ subst (λ k. p k ≡ false) same e
  | no other ↦ next (omega arith)
]

send_from_lem :
    (fails : ℕ → Bool) (k i : ℕ)
    → (((j : ℕ) → i ≤ j → j < i + k → fails j ≡ false) × (send_from fails k i ≡ (true, i + k)))
      ⊎ ((j : ℕ) × (i ≤ j)
          × (j < i + k)
          × (fails j ≡ true)
          × ((m : ℕ) → i ≤ m → m < j → fails m ≡ false)
          × (send_from fails k i ≡ (false, j + 1)))
unfolding send_from
send_from_lem fails zero i = inl (λ j p q. absurd (omega arith), ground arith)
send_from_lem fails (suc k) i = elim (Bool-cases (fails i)) [
  | inl e ↦ inr (i, omega arith, omega arith, e, λ m p q. absurd (omega arith), ground arith)
  | inr e ↦ elim (send_from_lem fails k (i + 1)) [
    | inl (ok, r) ↦ inl (λ j p q. from_next fails i j p e (λ l. ok j l (omega arith)), ground arith)
    | inr (j, p, q, b, ok, r) ↦ inr (
      j,
      omega arith,
      omega arith,
      b,
      λ m a d. from_next fails i m a e (λ l. ok m l d),
      ground arith,
    )
  ]
]

-- `send` succeeds exactly when none of its eight calls has an error, and then makes all eight;
-- otherwise it stops with the first call that has one.
pub send_repeats :
    (fails : ℕ → Bool)
    → (((j : ℕ) → j < 8 → fails j ≡ false) × (send fails ≡ (true, 8)))
      ⊎ ((j : ℕ) × (j < 8)
          × (fails j ≡ true)
          × ((m : ℕ) → m < j → fails m ≡ false)
          × (send fails ≡ (false, j + 1)))
unfolding send
send_repeats fails = elim (send_from_lem fails 8 0) [
  | inl (ok, r) ↦ inl (λ j h. ok j (omega arith) (omega arith), r)
  | inr (j, p, q, b, ok, r) ↦ inr (j, omega arith, b, λ m h. ok m (omega arith) h, r)
]
