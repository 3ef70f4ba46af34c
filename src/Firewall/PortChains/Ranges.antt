-- ===== src/Firewall/PortChains/Ranges.antt =====
-- About the ports of a range, as the rules of a container name them.
use netavark.Prelude.{ℕ, zero, suc, ◌+◌, ◌%◌, ◌<◌, ◌≡◌, leb, ltb, ◌==◌, if◌then◌else◌, arith}
use netavark.Firewall.PortChains.{u16_mod, last_port}

-- The port behind a port, as a number of 16 bits.
abbrev pub next_port : ℕ → ℕ
next_port port = if port == 65535 then 0 else suc port

-- The port that is so many steps behind a port.
abbrev pub port_behind : ℕ → ℕ → ℕ
port_behind zero port = port
port_behind (suc n) port = next_port (port_behind n port)

port_behind_lem : (n port : ℕ) → port < u16_mod → port_behind n port ≡ (port + n) % u16_mod
port_behind_lem zero port h = omega arith
port_behind_lem (suc n) port h = ground (arith, port_behind_lem n port h)

last_port_sum : (port n : ℕ) → suc n < u16_mod → last_port port (suc n) ≡ (port + n) % u16_mod
unfolding last_port
last_port_sum port n h = omega arith

-- The last port of a range of n + 1 ports is the one that n steps from each port to the next lead
-- to, where 0 follows 65535; and it is not below the first port exactly if the sum of the first
-- port and n is below 2 ^ 16. The first port and the number of ports are below 2 ^ 16.
pub last_port_lem :
    (port n : ℕ)
    → port < u16_mod
    → suc n < u16_mod
    → (last_port port (suc n) ≡ port_behind n port)
      × (leb port (last_port port (suc n)) ≡ ltb (port + n) u16_mod)
last_port_lem port n h k =
    let sum = last_port_sum port n k in
    (ground (arith, sum, port_behind_lem n port h), ground (arith, sum))
