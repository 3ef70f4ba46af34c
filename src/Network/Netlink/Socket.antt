-- ===== src/Network/Netlink/Socket.antt =====
-- The socket of `src/network/netlink.rs`. What the operating system and the codec of
-- `netlink_packet_core` do is an interface: a datagram that is received fills the start of a buffer
-- of 8192 bytes, and a packet is read from the buffer at an offset.
use netavark.Prelude.{
  ℕ, zero, suc, String, ◌<>◌, ◌+◌, ◌-◌, ◌/◌, ◌%◌, Bool, not, ◌||◌, Option, none, some, List, [],
  ◌∷◌, ◌++◌, Result, ok, err, ltb, ◌==◌, show_ℕ, if◌then◌else◌,
}
use netavark.Error.{
  IoError, NetlinkError, NetavarkError, NetavarkResult, message, msg, io, netlink, wrap_error,
}
use netavark.Network.Types.{IpAddr, IpNet}
use netavark.Network.Netlink.Messages.{RtnlMessage}

-- `NetlinkPayload`. An acknowledgement is an error of code 0.
pub data Payload : Type 0 where
  finished : Payload
  failure : NetlinkError → Payload
  ack : NetlinkError → Payload
  noop overrun other_payload : Payload
  inner : RtnlMessage → Payload

pub record Packet : Type 0 where
  pub sequence_number : ℕ
  pub length : ℕ
  pub payload : Payload

-- What the buffer holds after a receipt: the size of the datagram, and the packet at each offset.
pub record Buffer : Type 0 where
  pub size : ℕ
  pub packet_at : ℕ → Result String Packet

pub record Wire : Type 1 where
  pub State : Type 0
  pub open_socket : State → Result IoError Unit × State
  pub bind_any : State → Result IoError Unit × State
  pub connect : State → Result IoError Unit × State
  pub send : ℕ → ℕ → RtnlMessage → State → Result IoError Unit × State
  pub recv : State → Result IoError Buffer × State
  pub message_type : RtnlMessage → String
  pub broadcast_of : IpNet → IpAddr

pub record Socket (W : Wire) : Type 0 where
  pub wire : W.State
  pub sequence_number : ℕ

-- NLM_F_ACK, NLM_F_EXCL, NLM_F_CREATE and NLM_F_DUMP are 4, 512, 1024 and 768.
abbrev pub ack_flag : ℕ
ack_flag = 4

abbrev pub create_flags : ℕ
create_flags = 1540

abbrev pub add_flags : ℕ
add_flags = 1028

abbrev pub dump_flags : ℕ
dump_flags = 772

-- `flags & NLM_F_DUMP == NLM_F_DUMP`: both bits of the mask.
abbrev pub is_dump : ℕ → Bool
is_dump flags = flags / 256 % 4 == 3

-- NLM_F_REQUEST is the lowest bit.
abbrev pub with_request : ℕ → ℕ
with_request flags = flags + (1 - flags % 2)

-- What a packet makes of the loop: it ends, or goes on with more messages.
pub data Next : Type 0 where
  stop : NetavarkResult (List RtnlMessage) → Next
  go_on : List RtnlMessage → Next

abbrev pub out_of_sync : ℕ → ℕ → NetavarkError
out_of_sync got want = msg (
    "netlink: sequence_number out of sync (got "
    <> (show_ℕ got <> (", want " <> (show_ℕ want <> ")"))))

abbrev pub end_of : NetlinkError → List RtnlMessage → Next
end_of e result = if not (e.errno == 0) then stop (err (netlink e)) else stop (ok result)

abbrev pub read_payload : Bool → Payload → List RtnlMessage → Next
read_payload multi finished result = stop (ok result)
read_payload multi (failure e) result = end_of e result
read_payload multi (ack e) result = end_of e result
read_payload multi noop result = stop (err (msg "unimplemented netlink message type NOOP"))
read_payload multi overrun result = stop (err (msg "unimplemented netlink message type OVERRUN"))
read_payload multi (inner m) result =
    let more = result ++ (m ∷ []) in if not multi then stop (ok more) else go_on more
read_payload multi other_payload result = go_on result

abbrev pub read_packet : Bool → ℕ → Packet → List RtnlMessage → Next
read_packet multi want p result =
    if not (p.sequence_number == want)
    then stop (err (out_of_sync p.sequence_number want))
    else read_payload multi p.payload result

module _ (W : Wire) where
  -- Code that may panic, or wait for ever: `none`.
  abbrev pub Request : Type 0 → Type 0
  Request A = Socket W → Option (NetavarkResult A × Socket W)

  unfoldable pub new_socket : W.State → NetavarkResult (Socket W) × W.State
  new_socket s =
      let (r, s1) = W.open_socket s in
      elim r [
        | err e ↦ (err (wrap_error "open" (io e)), s1)
        | ok _ ↦
            let (r1, s2) = W.bind_any s1 in
            elim r1 [
              | err e ↦ (err (wrap_error "bind" (io e)), s2)
              | ok _ ↦
                  let (r2, s3) = W.connect s2 in
                  elim r2 [
                    | err e ↦ (err (wrap_error "connect" (io e)), s3)
                    | ok _ ↦ (ok (record { wire = s3; sequence_number = 0 }), s3)
                  ]
            ]
      ]

  -- The number wraps around, as in a release build.
  unfoldable pub send : RtnlMessage → ℕ → Socket W → NetavarkResult Unit × Socket W
  send m flags sock =
      let number = (sock.sequence_number + 1) % 4294967296 in
      let (r, s) = W.send (with_request flags) number m sock.wire in
      let sent = record sock { wire = s; sequence_number = number } in
      elim r [ ok _ ↦ (ok tt, sent) | err e ↦ (err (io e), sent) ]

  unfoldable mutual
    -- The outer loop, which receives a datagram, with an amount of fuel.
    pub recv_more : ℕ → Bool → List RtnlMessage → Request (List RtnlMessage)
    recv_more zero multi result sock = none
    recv_more (suc fuel) multi result sock =
        let (r, s) = W.recv sock.wire in
        let received = record sock { wire = s } in
        elim r [
          | err e ↦ some (err (wrap_error "recv from netlink" (io e)), received)
          | ok b ↦ read_more fuel multi b 0 result received
        ]

    -- The inner loop, over the packets of the buffer. An offset past its end is a panic.
    pub read_more : ℕ → Bool → Buffer → ℕ → List RtnlMessage → Request (List RtnlMessage)
    read_more zero multi b offset result sock = none
    read_more (suc fuel) multi b offset result sock =
        if ltb 8192 offset then none else elim (b.packet_at offset) [
          | err e ↦ some (err (message ("failed to deserialize netlink message: " <> e)), sock)
          | ok p ↦ elim (read_packet multi sock.sequence_number p result) [
            | stop r ↦ some (r, sock)
            | go_on more ↦
                let next = read_more fuel multi b (offset + p.length) more sock in
                let again = recv_more fuel multi more sock in
                if (offset + p.length == b.size) || (p.length == 0) then again else next
          ]
        ]

  unfoldable pub recv : ℕ → Bool → Request (List RtnlMessage)
  recv fuel multi sock = recv_more fuel multi [] sock

  unfoldable pub make_netlink_request : ℕ → RtnlMessage → ℕ → Request (List RtnlMessage)
  make_netlink_request fuel m flags sock =
      let (r, sent) = send m flags sock in
      elim r [
        | err e ↦ some (err (wrap_error "send to netlink" e), sent)
        | ok _ ↦ recv fuel (is_dump flags) sent
      ]
