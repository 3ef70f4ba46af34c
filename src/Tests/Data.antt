-- ===== src/Tests/Data.antt =====
-- A host in memory, a network and a container for the tests.
use netavark.Prelude.{
  ◌/◌, ◌%◌, String, ◌<>◌, true, false, none, some, [], ◌∷◌, show_ℕ, str_eq, if◌then◌else◌,
}
use netavark.Prelude.Dict.{lookup}
use netavark.Error.{NetavarkError, message}
use netavark.Network.Types.{IpAddr, v4, v6, IpNet, Subnet, Network, PortMapping}
use netavark.Network.Internal.{PortForwardConfig, SetupNetwork}
use netavark.Network.Text.{AddrText}
use netavark.Firewall.Tables.Memory.{Memory, memory_tables}
use netavark.Firewall.Bus.Memory.{memory_bus}
use netavark.Firewall.Driver.{Host}

-- `show_ip` prints an IPv4 address as it is printed, and an IPv6 address by its number.
abbrev pub show_ip : IpAddr → String
show_ip (v4 n) =
    show_ℕ (n / 16777216)
    <> ("."
        <> (show_ℕ (n / 65536 % 256)
            <> ("." <> (show_ℕ (n / 256 % 256) <> ("." <> show_ℕ (n % 256))))))
show_ip (v6 n) = "::" <> show_ℕ n

abbrev pub text : AddrText
text = record {
  show_ip = show_ip;
  show_net = λ net. show_ip net.addr <> ("/" <> show_ℕ net.prefix_len);
  parse_ip = λ s. lookup s (("0.0.0.0", v4 0) ∷ ("127.0.0.1", v4 2130706433) ∷ ("::1", v6 1) ∷ []);
}

abbrev pub podman_net : IpNet
podman_net = record { addr = v4 173539328; prefix_len = 16 }

abbrev pub podman_subnet : Subnet
podman_subnet = record { gateway = some (v4 173539329); lease_range = none; subnet = podman_net }

abbrev pub other_subnet : Subnet
other_subnet = record {
  gateway = none;
  lease_range = none;
  subnet = record { addr = v4 173604864; prefix_len = 16 };
}

abbrev pub podman : Network
podman = record {
  dns_enabled = true;
  driver = "bridge";
  id = "53ce4390f2ad";
  internal = false;
  ipv6_enabled = false;
  name = "podman";
  network_interface = some "podman0";
  options = none;
  ipam_options = none;
  subnets = some (podman_subnet ∷ []);
  network_dns_servers = none;
}

abbrev pub podman_setup : SetupNetwork
podman_setup = record { net = podman; network_hash_name = "1D8721804F16F"; isolation = false }

abbrev pub http : PortMapping
http = record { container_port = 80; host_ip = ""; host_port = 8080; protocol = "tcp"; range = 1 }

-- Two ports, on the host address 127.0.0.1.
abbrev pub local_udp : PortMapping
local_udp = record {
  container_port = 5000;
  host_ip = "127.0.0.1";
  host_port = 5000;
  protocol = "udp";
  range = 2;
}

abbrev pub container_ip : IpAddr
container_ip = v4 173539333

abbrev pub ports : PortForwardConfig
ports = record {
  container_id = "0a1b2c";
  port_mappings = some (http ∷ local_udp ∷ []);
  network_name = "podman";
  network_hash_name = "1D8721804F16F";
  container_ip_v4 = some container_ip;
  subnet_v4 = some podman_net;
  container_ip_v6 = none;
  subnet_v6 = none;
  dns_port = 53;
  dns_server_ips = v4 173539329 ∷ [];
}

-- Tables with a rule of another program.
abbrev pub docker_tables : Memory
docker_tables = record {
  names = λ c t. "FORWARD" ∷ "POSTROUTING" ∷ "PREROUTING" ∷ "OUTPUT" ∷ [];
  rules = λ p. if str_eq p.chain "FORWARD" then "-j DOCKER-USER" ∷ [] else [];
}

abbrev pub host : Host memory_tables memory_bus
host = record { tables = docker_tables; bus = record { zones = []; settings = [] } }

abbrev pub no_subnet : NetavarkError
no_subnet = message "no subnet"
