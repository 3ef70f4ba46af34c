-- ===== src/Tests/Netlink.antt =====
-- The netlink socket over datagrams in memory, at concrete inputs.
use netavark.Prelude.{◌≡◌, refl, true, some, List, [], ◌∷◌, ok, err, ◌==◌, arith, if◌then◌else◌}
use netavark.Error.{IoError, other, netlink, NetlinkError}
use netavark.Network.Types.{v4}
use netavark.Network.Netlink.Types.{nil, default_link}
use netavark.Network.Netlink.Messages.{new_link, get_link as get_link_message}
use netavark.Network.Netlink.Socket.{
  Packet, Buffer, Wire, Socket, inner, finished, failure, send, recv, make_netlink_request,
}
use netavark.Network.Netlink.Requests.{dump_links}
use netavark.Network.Netlink.Receive.{answer_of, recv_lem}
use netavark.Network.Netlink.Answers.{packet, dump_links-IsDump, make_netlink_request-failure}
use netavark.Tests.Kernel.{some_link}

abbrev no_packet : IoError
no_packet = record { kind = other; text = "nothing there" }

-- The datagrams that wait.
abbrev queue : Wire
queue = record {
  State = List Buffer;
  open_socket = λ s. (ok tt, s);
  bind_any = λ s. (ok tt, s);
  connect = λ s. (ok tt, s);
  send = λ flags number m s. (ok tt, s);
  recv = λ s. elim s [ [] ↦ (err no_packet, []) | b ∷ bs ↦ (ok b, bs) ];
  message_type = λ m. "";
  broadcast_of = λ net. v4 0;
}

abbrev two_links : Buffer
two_links = record {
  size = 64;
  packet_at = λ n.
      if n == 0
      then ok (packet 1 (inner (new_link some_link)))
      else if n == 32
      then ok (packet 1 (inner (new_link default_link)))
      else err "short";
}

abbrev the_end : Buffer
the_end = record {
  size = 32;
  packet_at = λ n. if n == 0 then ok (packet 1 finished) else err "short";
}

abbrev packets : List (List Packet)
packets =
    (packet 1 (inner (new_link some_link)) ∷ packet 1 (inner (new_link default_link)) ∷ [])
    ∷ (packet 1 finished ∷ [])
    ∷ []

abbrev fresh : Socket queue
fresh = record { wire = two_links ∷ the_end ∷ []; sequence_number = 0 }

abbrev waiting : Socket queue
waiting = record fresh { sequence_number = 1 }

recv_lem_example :
    answer_of (recv queue 5 true waiting)
    ≡ some (ok (new_link some_link ∷ new_link default_link ∷ []))
recv_lem_example =
    recv_lem queue true 5 packets waiting (ok (new_link some_link ∷ new_link default_link ∷ []))
      (
        (
          two_links,
          (refl, (omega arith, (refl, (omega arith, (omega arith, (omega arith, (refl, refl))))))),
        ),
        ((the_end, (refl, (omega arith, (refl, refl)))), tt),
      )
      (omega arith) refl

dump_links-IsDump_example :
    answer_of (dump_links queue 5 nil fresh) ≡ some (ok (some_link ∷ default_link ∷ []))
unfolding send
dump_links-IsDump_example =
    dump_links-IsDump queue 5 nil packets (some_link ∷ default_link ∷ []) fresh refl
      (
        (
          two_links,
          (refl, (omega arith, (refl, (omega arith, (omega arith, (omega arith, (refl, refl))))))),
        ),
        ((the_end, (refl, (omega arith, (refl, refl)))), tt),
      )
      (omega arith) (refl, (refl, (refl, (refl, (refl, refl)))))

abbrev exists_error : NetlinkError
exists_error = record { errno = 17; text = "File exists" }

abbrev refused : Buffer
refused = record {
  size = 32;
  packet_at = λ n. if n == 0 then ok (packet 1 (failure exists_error)) else err "short";
}

make_netlink_request-failure_example :
    answer_of (
      make_netlink_request queue 2
        (get_link_message default_link)
        4
        (record fresh { wire = refused ∷ [] }))
    ≡ some (err (netlink exists_error))
unfolding send
make_netlink_request-failure_example =
    make_netlink_request-failure queue 2 (get_link_message default_link) 4
      (record fresh { wire = refused ∷ [] }) (packet 1 (failure exists_error)) []
      ((packet 1 (failure exists_error) ∷ []) ∷ []) exists_error refl
      ((refused, (refl, (omega arith, (refl, refl)))), tt) (omega arith) refl refl refl
      (λ h. omega (arith, h))
