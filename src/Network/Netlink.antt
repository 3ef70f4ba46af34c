-- ===== src/Network/Netlink.antt =====
-- `src/network/netlink.rs`: the messages, the socket with its loop that reads the answers, and the
-- requests that the drivers make.
pub mod Types
pub mod Messages
pub mod Socket
pub mod Requests
pub mod Receive
pub mod Answers
