-- ===== src/Dns.antt =====
-- `src/dns/aardvark.rs`: the configuration files of aardvark-dns, one for each network, and its
-- server.
pub mod Files
pub mod Server
pub mod Entries
pub mod Kept
pub mod Committed
