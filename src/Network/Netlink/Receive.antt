-- ===== src/Network/Netlink/Receive.antt =====
-- About the loop that reads an answer: it sees the packets of the datagrams one by one, and ends.
use netavark.Prelude.{
  ℕ, zero, suc, ◌+◌, ◌≤◌, ◌<◌, ◌≡◌, ◌⊎◌, refl, Bool, Option, none, some, List, [], ◌∷◌, ◌++◌, ok,
  inl, inr, arith, length,
}
use netavark.Error.{NetavarkResult}
use netavark.Network.Netlink.Messages.{RtnlMessage}
use netavark.Network.Netlink.Socket.{
  Packet, Buffer, Wire, Socket, Next, stop, go_on, read_packet, recv_more, read_more, recv,
}

-- What the packets, one after the other, answer: the first one that ends the loop decides.
abbrev pub collect :
    Bool → ℕ → List Packet → List RtnlMessage → Option (NetavarkResult (List RtnlMessage))
collect multi want [] result = none
collect multi want (p ∷ ps) result = elim (read_packet multi want p result) [
  | stop r ↦ some r
  | go_on more ↦ collect multi want ps more
]

-- The packets lie in the buffer one after the other from an offset on, and the last one ends
-- where the datagram does.
abbrev pub Holds : Buffer → ℕ → List Packet → Type 0
Holds b offset [] = ⊥
Holds b offset (p ∷ []) =
    (offset ≤ 8192) × ((b.packet_at offset ≡ ok p) × (offset + p.length ≡ b.size))
Holds b offset (p ∷ q ∷ ps) =
    (offset ≤ 8192)
    × ((b.packet_at offset ≡ ok p)
        × ((offset + p.length < b.size) × ((0 < p.length) × Holds b (offset + p.length) (q ∷ ps))))

-- The datagrams that are received one after the other hold these lists of packets.
abbrev pub Receives : (W : Wire) → W.State → List (List Packet) → Type 0
Receives W s [] = Unit
Receives W s (ps ∷ pss) =
    ((b : Buffer) × (((W.recv s).0 ≡ ok b) × Holds b 0 ps)) × Receives W (W.recv s).1 pss

abbrev pub all_packets : List (List Packet) → List Packet
all_packets [] = []
all_packets (ps ∷ pss) = ps ++ all_packets pss

-- A step for each packet and for each datagram.
abbrev pub steps : List (List Packet) → ℕ
steps [] = 0
steps (ps ∷ pss) = suc (length ps + steps pss)

abbrev pub answer_of :
    {W : Wire} {A : Type 0} → Option (NetavarkResult A × Socket W) → Option (NetavarkResult A)
answer_of none = none
answer_of (some (r, _)) = some r

Next-cases :
    (n : Next)
    → ((r : NetavarkResult (List RtnlMessage)) × (n ≡ stop r))
      ⊎ ((more : List RtnlMessage) × (n ≡ go_on more))
Next-cases (stop r) = inl (r, refl)
Next-cases (go_on more) = inr (more, refl)

-- A packet that does not end the loop leaves the rest to decide.
collect-go_on :
    (multi : Bool) (want : ℕ) (p : Packet) (ps : List Packet) (result more : List RtnlMessage)
    → (r : NetavarkResult (List RtnlMessage)) → read_packet multi want p result ≡ go_on more
    → collect multi want (p ∷ ps) result ≡ some r
    → collect multi want ps more ≡ some r
collect-go_on multi want p ps result more r e h = ground (arith, e, h)

module _ (W : Wire) (multi : Bool) where
  mutual
    unfolding recv_more read_more

    recv_more-answer :
        (fuel : ℕ) (pss : List (List Packet)) (result : List RtnlMessage) (sock : Socket W)
        → (r : NetavarkResult (List RtnlMessage)) → Receives W sock.wire pss
        → steps pss ≤ fuel
        → collect multi sock.sequence_number (all_packets pss) result ≡ some r
        → answer_of (recv_more W fuel multi result sock) ≡ some r
    recv_more-answer fuel [] result sock r rs enough h = ground (arith, h)
    recv_more-answer zero (ps ∷ pss) result sock r rs enough h = ground (arith, enough)
    recv_more-answer (suc fuel) (ps ∷ pss) result sock r ((b, (got, holds)), rest) enough h =
        let s = (W.recv sock.wire).1 in
        ground (
          arith,
          got,
          read_more-answer fuel b 0 ps pss result (record sock { wire = s }) r holds rest
              (omega (arith, enough)) h,
        )

    read_more-answer :
        (fuel : ℕ) (b : Buffer) (offset : ℕ) (ps : List Packet) (pss : List (List Packet))
        → (result : List RtnlMessage) (sock : Socket W) (r : NetavarkResult (List RtnlMessage))
        → Holds b offset ps
        → Receives W sock.wire pss
        → length ps + steps pss ≤ fuel
        → collect multi sock.sequence_number (ps ++ all_packets pss) result ≡ some r
        → answer_of (read_more W fuel multi b offset result sock) ≡ some r
    read_more-answer fuel b offset [] pss result sock r holds rs enough h = elim holds [ ]
    read_more-answer zero b offset (p ∷ ps) pss result sock r holds rs enough h =
        ground (arith, enough)
    read_more-answer (suc fuel) b offset (p ∷ []) pss result sock r (fits, (at, ends)) rs enough h =
        elim (Next-cases (read_packet multi sock.sequence_number p result)) [
          | inl (q, e) ↦ ground (arith, fits, at, ends, e, h)
          | inr (more, e) ↦
              let rest =
                collect-go_on multi sock.sequence_number p (all_packets pss) result more r e h in
              ground (
                arith,
                fits,
                at,
                ends,
                e,
                h,
                recv_more-answer fuel pss more sock r rs (omega (arith, enough)) rest,
              )
        ]
    read_more-answer (suc fuel) b offset (p ∷ p' ∷ ps) pss result sock r
          (fits, (at, (before, (some_, holds)))) rs enough h =
        elim (Next-cases (read_packet multi sock.sequence_number p result)) [
          | inl (q, e) ↦ ground (arith, fits, at, e, h)
          | inr (more, e) ↦
              let rest =
                collect-go_on multi sock.sequence_number p (p' ∷ (ps ++ all_packets pss)) result
                  more r e h in
              let next =
                read_more-answer fuel b (offset + p.length) (p' ∷ ps) pss more sock r holds rs
                  (omega (arith, enough)) rest in
              ground (arith, fits, at, before, some_, e, next)
        ]

  -- On datagrams that hold packets one after the other, and with a step of fuel for each datagram
  -- and each packet, `recv` ends without a panic, and its result is what the packets answer one by
  -- one, if they answer at all; how they are spread over the datagrams does not matter.
  pub recv_lem :
      (fuel : ℕ) (pss : List (List Packet)) (sock : Socket W)
      → (r : NetavarkResult (List RtnlMessage)) → Receives W sock.wire pss
      → steps pss ≤ fuel
      → collect multi sock.sequence_number (all_packets pss) [] ≡ some r
      → answer_of (recv W fuel multi sock) ≡ some r
  unfolding recv
  recv_lem fuel pss sock r rs enough h = recv_more-answer fuel pss [] sock r rs enough h
