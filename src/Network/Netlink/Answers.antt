-- ===== src/Network/Netlink/Answers.antt =====
-- About the requests: what they give for the answers of the kernel.
use netavark.Prelude.{
  ℕ, ◌+◌, ◌%◌, ◌≤◌, ◌≡◌, ◌≢◌, refl, true, some, List, [], ◌∷◌, ◌++◌, ok, err, arith, inl, inr,
  Option-cases, Result-cases,
}
use mathlib.Core.List.{append_assoc, append-nil}
use netavark.Error.{NetlinkError, netlink}
use netavark.Network.Netlink.Types.{Nlas, LinkMessage, default_link}
use netavark.Network.Netlink.Messages.{RtnlMessage, new_link, get_link as get_link_message}
use netavark.Network.Netlink.Socket.{
  Packet, Payload, finished, failure, inner, Wire, Socket, recv, send, make_netlink_request,
  is_dump, dump_flags, with_request,
}
use netavark.Network.Netlink.Requests.{links_of, dump_links}
use netavark.Network.Netlink.Receive.{Receives, all_packets, steps, collect, answer_of, recv_lem}

-- A packet of a dump, and the packets of a whole dump of links.
abbrev pub packet : ℕ → Payload → Packet
packet number payload = record { sequence_number = number; length = 32; payload = payload }

abbrev pub next_number : ℕ → ℕ
next_number n = (n + 1) % 4294967296

-- The packets carry the number and these links, in their order, and then an end; their lengths
-- are free.
abbrev pub IsDump : ℕ → List LinkMessage → List Packet → Type 0
IsDump number [] [] = ⊥
IsDump number [] (p ∷ ps) = (p.sequence_number ≡ number) × (p.payload ≡ finished)
IsDump number (m ∷ ms) [] = ⊥
IsDump number (m ∷ ms) (p ∷ ps) =
    (p.sequence_number ≡ number) × ((p.payload ≡ inner (new_link m)) × IsDump number ms ps)

abbrev pub messages : List LinkMessage → List RtnlMessage
messages [] = []
messages (m ∷ ms) = new_link m ∷ messages ms

collect-IsDump :
    (number : ℕ) (ms : List LinkMessage) (ps : List Packet) (result : List RtnlMessage)
    → IsDump number ms ps
    → collect true number ps result ≡ some (ok (result ++ messages ms))
collect-IsDump number [] [] result d = elim d [ ]
collect-IsDump number (m ∷ ms) [] result d = elim d [ ]
collect-IsDump number [] (p ∷ ps) result d = ground (arith, d.0, d.1, append-nil result)
collect-IsDump number (m ∷ ms) (p ∷ ps) result d = ground (
  arith,
  d.0,
  d.1.0,
  collect-IsDump number ms ps (result ++ (new_link m ∷ [])) d.1.1,
  append_assoc result (new_link m ∷ []) (messages ms),
)

module _ (W : Wire) where
  links_of-messages : (ms : List LinkMessage) → links_of W (messages ms) ≡ ok ms
  links_of-messages [] = refl
  links_of-messages (m ∷ ms) = ground (arith, links_of-messages ms)

  send-number :
      (m : RtnlMessage) (flags : ℕ) (sock : Socket W)
      → (send W m flags sock).1.sequence_number ≡ next_number sock.sequence_number
  unfolding send
  send-number m flags sock =
      let number = next_number sock.sequence_number in
      elim (Result-cases (W.send (with_request flags) number m sock.wire).0) [
        | inl (_, e) ↦ ground (arith, e)
        | inr (_, e) ↦ ground (arith, e)
      ]

  -- If the request is sent, and the kernel's datagrams, with enough fuel for them, hold a dump of
  -- links under the number of the request, `dump_links` gives exactly these links in their order.
  pub dump_links-IsDump :
      (fuel : ℕ) (nlas : Nlas) (pss : List (List Packet)) (ms : List LinkMessage) (sock : Socket W)
      → let m = get_link_message (record default_link { nlas = nlas }) in
        (send W m dump_flags sock).0 ≡ ok tt
        → Receives W
            (send W (get_link_message (record default_link { nlas = nlas })) dump_flags sock).1.wire
            pss
        → steps pss ≤ fuel
        → IsDump (next_number sock.sequence_number) ms (all_packets pss)
        → answer_of (dump_links W fuel nlas sock) ≡ some (ok ms)
  unfolding dump_links make_netlink_request
  dump_links-IsDump fuel nlas pss ms sock sent rs enough d =
      let m = get_link_message (record default_link { nlas = nlas }) in
      let sock' = (send W m dump_flags sock).1 in
      let got = recv_lem W true fuel pss sock' (ok (messages ms)) rs enough (
        ground (
          arith,
          send-number m dump_flags sock,
          collect-IsDump (next_number sock.sequence_number) ms (all_packets pss) [] d,
        )) in
      elim (Option-cases (recv W fuel true sock')) [
        | inl e ↦ ground (arith, sent, e, got)
        | inr (r, e) ↦ ground (arith, sent, e, got, links_of-messages ms)
      ]

  -- If the request is sent, and with enough fuel for the kernel's datagrams their first packet is
  -- an error of the request with a number that is not 0, any request gives that very error, with
  -- no text around it, so that a caller can look at its number.
  pub make_netlink_request-failure :
      (fuel : ℕ) (m : RtnlMessage) (flags : ℕ) (sock : Socket W) (p : Packet)
      → (ps : List Packet) (pss : List (List Packet)) (e : NetlinkError)
      → (send W m flags sock).0 ≡ ok tt
      → Receives W (send W m flags sock).1.wire pss
      → steps pss ≤ fuel
      → all_packets pss ≡ p ∷ ps
      → p.sequence_number ≡ next_number sock.sequence_number
      → p.payload ≡ failure e
      → e.errno ≢ 0
      → answer_of (make_netlink_request W fuel m flags sock) ≡ some (err (netlink e))
  unfolding make_netlink_request
  make_netlink_request-failure fuel m flags sock p ps pss e sent rs enough all number payload real =
      let sock' = (send W m flags sock).1 in
      let got =
        recv_lem W (is_dump flags) fuel pss sock' (err (netlink e)) rs enough
          (ground (arith, all, number, payload, real, send-number m flags sock)) in
      ground (arith, sent, got)
