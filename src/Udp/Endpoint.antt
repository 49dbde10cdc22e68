-- ===== src/Udp/Endpoint.antt =====
-- src/udp_proxy.c: `udp_endpoint_key_t`, and its values for a socket's address and for an address
-- of the Shadowsocks library.
use tproxy2ss.Base.{ℕ, [], ◌∷◌, ◌++◌}
use tproxy2ss.Base.Bytes.{Bytes}
use tproxy2ss.Base.Word.{raw32}
use tproxy2ss.Tcp.Target.{SockAddr, inet, inet6, host_domain, host_ipv4, host_ipv6, Target, ntohs}

abbrev pub af_inet : ℕ
af_inet = 2

abbrev pub af_inet6 : ℕ
af_inet6 = 10

pub record Endpoint : Type 0 where
  pub family : ℕ
  pub port : ℕ
  pub addr : Bytes

-- The 12 bytes behind an IPv4 address
abbrev pub padding : Bytes
padding = 0 ∷ 0 ∷ 0 ∷ 0 ∷ 0 ∷ 0 ∷ 0 ∷ 0 ∷ 0 ∷ 0 ∷ 0 ∷ 0 ∷ []

unfoldable pub udp_endpoint_from_skaddr : SockAddr → Endpoint
udp_endpoint_from_skaddr (inet ip port) = record {
  family = af_inet;
  port = port;
  addr = raw32 ip ++ padding;
}
udp_endpoint_from_skaddr (inet6 flowinfo ip port) = record {
  family = af_inet6;
  port = port;
  addr = ip;
}

-- `htons` swaps the bytes as `ntohs` does. The structure is zero where no case applies.
unfoldable pub udp_endpoint_from_addr : Target → Endpoint
udp_endpoint_from_addr t = elim t.host [
  | host_ipv4 ip ↦ record { family = af_inet; port = ntohs t.port; addr = ip ++ padding }
  | host_ipv6 ip ↦ record { family = af_inet6; port = ntohs t.port; addr = ip }
  | host_domain len name ↦ record { family = 0; port = 0; addr = 0 ∷ 0 ∷ 0 ∷ 0 ∷ padding }
]
