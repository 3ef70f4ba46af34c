-- ===== src/Network/Text.antt =====
-- The text forms of addresses, which the standard library and the `ipnet` crate print and read.
use netavark.Prelude.{ℕ, String, Option, Bool, Result, ◌==◌}
use netavark.Network.Types.{IpAddr, v4, v6, IpNet}

pub record AddrText : Type 0 where
  pub show_ip : IpAddr → String
  pub show_net : IpNet → String
  pub parse_ip : String → Option IpAddr

-- 0.0.0.0 and ::
abbrev pub is_unspecified : IpAddr → Bool
is_unspecified (v4 n) = n == 0
is_unspecified (v6 n) = n == 0

-- `ipnet::IpNet::new` and `parse`, each with the text of its error.
pub record NetText : Type 0 where
  pub show_ip : IpAddr → String
  pub new_net : IpAddr → ℕ → Result String IpNet
  pub parse_net : String → Result String IpNet
