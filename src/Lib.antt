-- ===== src/Lib.antt =====
-- netavark sets up the network of a container and takes it down again. Its configuration names
-- networks, each with a driver; the commands `setup` and `teardown` run the drivers, which make
-- the interfaces and call the firewall to let traffic through and to forward the ports of the
-- container. A proxy gets addresses by DHCP and keeps the leases, and aardvark-dns, another
-- program, answers for names by the files that netavark writes.
--
-- Parts and files:
--   Error: `src/error/mod.rs`, with the list of errors that teardowns collect.
--   Network: `src/network/types.rs` and `src/network/internal_types.rs`; the text of addresses.
--   Network/CoreUtils and Network/Ipam: `src/network/core_utils.rs`, the choice of addresses
--   (`get_ipam_addresses`) in Ipam.
--   Network/Netlink: `src/network/netlink.rs`. Types and Messages have the messages, Socket the
--   loop that reads answers, Requests the methods of `Socket`; Receive and Answers are about them.
--   Network/Kernel: what the network drivers ask of the host, an interface with one operation for
--   each method of `Socket` and for the sysctls and `setns`. Network/Machine: the state that the
--   drivers share with the firewall.
--   Network/Bridge: `src/network/bridge.rs`. Options is `validate`, Links the interfaces, Firewall
--   and Driver the rest; Namespace, Addresses and Outcome are about them.
--   Network/Vlan: `src/network/vlan.rs` and `src/network/macvlan_dhcp.rs`; Creation is about the
--   link with a temporary name.
--   Network/Plugin: `src/network/plugin.rs`. Network/Drivers: `get_network_driver` of
--   `src/network/driver.rs`.
--   Firewall/Interface: `src/firewall/mod.rs` and `src/firewall/fwnone.rs`.
--   Action: code that changes a state and may return early with an error; the state reached is
--   kept.
--   Commands: `src/commands/setup.rs` and `src/commands/teardown.rs`, with the trait of
--   `src/network/driver.rs`. `exec_setup` and `exec_teardown` are the methods `exec`, and their
--   loops are functions of their own. Commands/Update: `src/commands/update.rs`.
--   Commands/Rollback and Commands/Removal are about the two loops. Commands/Drivers puts the
--   network drivers into the interface of the commands.
--   Dns: `src/dns/aardvark.rs`, over files and processes in Dns/Files. Entries has the lines of the
--   files, and Kept and Committed are about them; Server starts the server and notifies it.
--   Firewall/Tables: what is assumed of the `iptables` crate. Tables/Counts counts rules, and
--   Tables/Memory is an instance.
--   Firewall/Helpers and Firewall/Chain: `src/firewall/varktables/helpers.rs` and the first half
--   of `src/firewall/varktables/types.rs`: rules and chains, put into the tables and taken out.
--   Firewall/NetworkChains and Firewall/PortChains: `get_network_chains` and
--   `get_port_forwarding_chains` of the same file.
--   Firewall/Driver: `src/firewall/iptables.rs`, the driver that uses them all.
--   Firewall/Bus: what is assumed of firewalld, as it is seen over D-Bus; Bus/Memory is an
--   instance.
--   Firewall/Firewalld: `src/firewall/firewalld.rs`, in Zones, Ports and Networks.
--   Dhcp/Cache: `src/dhcp_proxy/cache.rs`. Cache/Clear has its two writers, with their `impl Clear`;
--   Cache/Valid is about the leases in memory, and Cache/Saved about the bytes that are written.
--   Dhcp/Lease: the conversions of `src/dhcp_proxy/lib.rs`. Dhcp/Address: `src/dhcp_proxy/ip.rs`.
--   Dhcp/Service: `src/dhcp_proxy/dhcp_service.rs`. Dhcp/Paths: `src/dhcp_proxy/proxy_conf.rs`.
--   Dhcp/Requests: the requests of `src/commands/dhcp_proxy.rs`, and the loop that ends the service.
--   Tests: data, and the theorems at concrete inputs.
--
-- How the model is made:
--   The state of the iptables driver is a `Host`: the tables, and beside them the state of
--   firewalld, on which the tables do not depend.
--   An iptables command is an operation of an unknown implementation. It may fail at any time,
--   and then changes nothing; `IsLawful` says what a command that succeeds does, on the rules of
--   every chain in order.
--   A D-Bus call may fail, and the body of an answer may not decode.
--   What the commands call is an interface, `System`, over an unknown state of the host: the
--   network drivers, the sockets, aardvark-dns and the output. Any call may fail.
--   How an address prints and parses is the standard library's, a parameter: `AddrText`, of which
--   nothing is assumed, and `NetText`, with what is assumed of it in Network/Ipam/Zipped.
--   A writer of the lease cache is an interface too. `Cursor` is that of the standard library; a
--   file is an interface, `OpenFile`, and `IsFile` says what its calls that succeed do.
--   Prelude/Hex has `split`, `from_str_radix` and `{:02x}` as the standard library has them.
--   A plugin is another program: it may change the whole machine, the tables too.
--   A `HashMap` is a list of keys and values, and is walked through in the order of the list.
--   An address is a number with its family. A port is a natural number; the sums of ports wrap
--   round at 2 ^ 16, as they do in a release build. The positions of rules are 1 and 2, and are
--   natural numbers. An index out of range is a panic, and the result `none`; in Commands/Drivers
--   the state is `none` after a panic, and every later call fails and leaves it so.
--   The loop that reads netlink answers has fuel, one unit for each datagram and each packet;
--   Receive.recv_lem gives the fuel that is enough. The loop that creates a vlan interface has the
--   three rounds of the source. Every other loop is over a list. Log messages are left out.
--   The texts, files, processes, clients and codecs of other crates are records of functions:
--   `TextLib`, `Files`, `LineText`, `Processes`, `Mozim`, `Wire`, `Opening`.
--   The netlink sequence number wraps round at 2 ^ 32. A file descriptor of -1 is `none`.
--
-- Not modelled: the asynchronous server of the DHCP proxy, its signals and its client, argument
-- parsing and output, the library for plugins; the netlink, D-Bus, iptables, DHCP and JSON
-- libraries; and the opening of the connections of the firewall drivers.
pub mod Prelude
pub mod Error
pub mod Network
pub mod Action
pub mod Firewall
pub mod Commands
pub mod Dhcp
pub mod Dns
pub mod Tests
