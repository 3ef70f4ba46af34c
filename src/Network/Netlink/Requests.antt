-- ===== src/Network/Netlink/Requests.antt =====
-- The requests of `Socket` in `src/network/netlink.rs`.
use netavark.Prelude.{
  ℕ, String, ◌<>◌, true, not, ◌&&◌, none, some, List, [], ◌∷◌, ok, err, map_ok, length, ◌==◌,
  show_ℕ, if◌then◌else◌,
}
use netavark.Error.{NetavarkError, NetavarkResult, message, msg, wrap_error}
use netavark.Network.Types.{is_ipv6, IpNet}
use netavark.Network.Netlink.Types.{
  if_name, net_ns_fd, Nlas, nil, cons, LinkMessage, default_link, CreateLinkOptions, LinkId, Route,
  AddressMessage, RouteMessage, parse_create_link_options,
}
use netavark.Network.Netlink.Messages.{
  RtnlMessage, new_link, del_link as delete_link_message, get_link as get_link_message, set_link,
  new_address, del_address, get_address, new_route, del_route as delete_route_message, get_route,
  default_address, default_route_message, link_named, create_addr_msg, create_route_msg,
}
use netavark.Network.Netlink.Socket.{
  Wire, Request, make_netlink_request, ack_flag, create_flags, add_flags, dump_flags,
}
use netavark.Network.Bridge.Links.{is_netlink}

-- `expect_netlink_result`, with the name of the function.
abbrev pub unexpected_result : String → ℕ → ℕ → NetavarkError
unexpected_result function got want = msg (
    function
    <> (": unexpected netlink result (got "
        <> (show_ℕ got <> (" result(s), want " <> (show_ℕ want <> ")")))))

abbrev pub expect_none : String → List RtnlMessage → NetavarkResult Unit
expect_none function result =
    if not (length result == 0) then err (unexpected_result function (length result) 0) else ok tt

-- EACCES: the kernel answers it if IPv6 is disabled.
abbrev pub eacces : ℕ
eacces = 13

abbrev pub address_error : IpNet → NetavarkError → NetavarkError
address_error net e =
    if is_netlink eacces e && is_ipv6 net.addr
    then wrap_error "failed to add ipv6 address, is ipv6 enabled in the kernel?" e
    else e

module _ (W : Wire) where
  abbrev pub unexpected_type : RtnlMessage → NetavarkError
  unexpected_type m = message ("unexpected netlink message type: " <> W.message_type m)

  -- What is made of an answer.
  abbrev pub answered :
      {A B : Type 0} → (NetavarkResult A → NetavarkResult B) → Request W A → Request W B
  answered f m sock = elim (m sock) [ none ↦ none | some (r, sock') ↦ some (f r, sock') ]

  abbrev pub on_ok : {A B : Type 0} → (A → NetavarkResult B) → NetavarkResult A → NetavarkResult B
  on_ok f (ok a) = f a
  on_ok f (err e) = err e

  abbrev pub one_link : RtnlMessage → NetavarkResult LinkMessage
  one_link (new_link m) = ok m
  one_link m = err (unexpected_type m)

  abbrev pub expect_link : List RtnlMessage → NetavarkResult LinkMessage
  expect_link (m ∷ []) = one_link m
  expect_link result = err (unexpected_result "get_link" (length result) 1)

  -- The messages of one kind, or the first that is of another kind.
  abbrev pub links_of : List RtnlMessage → NetavarkResult (List LinkMessage)
  links_of [] = ok []
  links_of (new_link m ∷ ms) = map_ok (λ links. m ∷ links) (links_of ms)
  links_of (m ∷ _) = err (unexpected_type m)

  abbrev pub routes_of : List RtnlMessage → NetavarkResult (List RouteMessage)
  routes_of [] = ok []
  routes_of (new_route m ∷ ms) = map_ok (λ routes. m ∷ routes) (routes_of ms)
  routes_of (m ∷ _) = err (unexpected_type m)

  abbrev pub addresses_of : List RtnlMessage → NetavarkResult (List AddressMessage)
  addresses_of [] = ok []
  addresses_of (new_address m ∷ ms) = map_ok (λ addresses. m ∷ addresses) (addresses_of ms)
  addresses_of (m ∷ _) = err (unexpected_type m)

  module _ (fuel : ℕ) where
    -- A request that is only acknowledged.
    abbrev pub acknowledged : String → RtnlMessage → ℕ → Request W Unit
    acknowledged function m flags =
        answered (on_ok (expect_none function)) (make_netlink_request W fuel m flags)

    unfoldable pub get_link : LinkId → Request W LinkMessage
    get_link link_id =
        answered (on_ok expect_link)
          (make_netlink_request W fuel (get_link_message (link_named link_id)) 0)

    unfoldable pub create_link : CreateLinkOptions → Request W Unit
    create_link options =
        acknowledged "create_link" (new_link (parse_create_link_options default_link options))
          create_flags

    unfoldable pub set_link_name : ℕ → String → Request W Unit
    set_link_name link_id name =
        acknowledged "set_link_name"
          (set_link (record default_link { index = link_id; nlas = cons (if_name name) nil }))
          ack_flag

    unfoldable pub del_link : LinkId → Request W Unit
    del_link link_id = acknowledged "del_link" (delete_link_message (link_named link_id)) ack_flag

    unfoldable pub set_link_ns : ℕ → ℕ → Request W Unit
    set_link_ns link_id netns_fd =
        acknowledged "set_link_ns"
          (set_link (record default_link { index = link_id; nlas = cons (net_ns_fd netns_fd) nil }))
          ack_flag

    unfoldable pub add_addr : ℕ → IpNet → Request W Unit
    add_addr link_id net =
        answered
          (λ (r : NetavarkResult (List RtnlMessage)). elim r [
            | ok result ↦ expect_none "add_addr" result
            | err e ↦ err (address_error net e)
          ])
          (make_netlink_request W fuel (new_address (create_addr_msg W.broadcast_of link_id net))
            create_flags)

    unfoldable pub del_addr : ℕ → IpNet → Request W Unit
    del_addr link_id net =
        acknowledged "del_addr" (del_address (create_addr_msg W.broadcast_of link_id net)) ack_flag

    unfoldable pub add_route : Route → Request W Unit
    add_route route = acknowledged "add_route" (new_route (create_route_msg route)) add_flags

    unfoldable pub del_route : Route → Request W Unit
    del_route route =
        acknowledged "del_route" (delete_route_message (create_route_msg route)) ack_flag

    unfoldable pub dump_routes : Request W (List RouteMessage)
    dump_routes = answered (on_ok routes_of) (
        make_netlink_request W fuel
          (get_route (record default_route_message { table = 254; kind_of = 1 })) dump_flags)

    unfoldable pub dump_links : Nlas → Request W (List LinkMessage)
    dump_links nlas = answered (on_ok links_of) (
        make_netlink_request W fuel (get_link_message (record default_link { nlas = nlas }))
          dump_flags)

    unfoldable pub dump_addresses : Request W (List AddressMessage)
    dump_addresses =
        answered (on_ok addresses_of)
          (make_netlink_request W fuel (get_address default_address) dump_flags)

    unfoldable pub set_up : LinkId → Request W Unit
    set_up link_id =
        acknowledged "set_up" (set_link (record (link_named link_id) { up = true })) create_flags
