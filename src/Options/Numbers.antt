-- ===== src/Options/Numbers.antt =====
-- src/main.c: `validate_port_number`, `validate_uint_range` and `validate_ip_address`, with
-- `get_ipstr_family` and `build_socket_addr` of src/netutils.c. A text is a C string, without its NUL.
use tproxy2ss.Base.{
  ℕ, ◌+◌, Bool, true, false, ◌&&◌, not, Option, none, some, [], ◌∷◌, length, leb, ◌==◌,
}
use tproxy2ss.Base.Bytes.{Bytes}
use tproxy2ss.Base.Number.{strtoul}
use tproxy2ss.Base.Partial.{◌>>=◌, ◌>>◌, guard}
use tproxy2ss.Tcp.Target.{SockAddr, inet, inet6, ntohs}

-- INET_ADDRSTRLEN and INET6_ADDRSTRLEN
abbrev pub ip4_str_len : ℕ
ip4_str_len = 16

abbrev pub ip6_str_len : ℕ
ip6_str_len = 46

pub data Family : Type 0 where
  v4 : Family
  v6 : Family

pub data Method : Type 0 where
  aes_128_gcm : Method
  aes_256_gcm : Method

-- `inet_pton` for the two families, and whether `ss2022_client_ctx_init` accepts a key
pub record System : Type 0 where
  pub inet_pton4 : Bytes → Option ℕ
  pub inet_pton6 : Bytes → Option Bytes
  pub accepts : Method → Bytes → Bool

-- The whole text is the number: `*endptr == '\0'`.
unfoldable pub whole : ℕ × Bytes → Option ℕ
whole (n, []) = some n
whole (n, c ∷ cs) = none

unfoldable pub in_range : ℕ → ℕ → Option ℕ
in_range max_val val = do guard (not (val == 0) && leb val max_val); some val

unfoldable pub validate_uint_range : Bytes → ℕ → Option ℕ
validate_uint_range valstr max_val = do val ← whole (strtoul valstr); in_range max_val val

unfoldable pub validate_port_number : Bytes → Option ℕ
validate_port_number portstr = do port ← whole (strtoul portstr); in_range 65535 port

unfoldable pub is_family : Option Family → Option Family → Bool
is_family none none = false
is_family none (some f) = true
is_family (some v4) (some v4) = true
is_family (some v6) (some v6) = true
is_family (some f) g = false

module _ (sys : System) where
  -- `get_ipstr_family`; -1 is `none`.
  unfoldable pub get_ipstr_family : Bytes → Option Family
  get_ipstr_family ipstr = elim (sys.inet_pton4 ipstr) [
    | some a ↦ some v4
    | none ↦ elim (sys.inet_pton6 ipstr) [ some a ↦ some v6 | none ↦ none ]
  ]

  -- `validate_ip_address`; without a required family each of them will do.
  unfoldable pub validate_ip_address : Bytes → ℕ → Option Family → Option Bytes
  validate_ip_address ipstr max_len required_family = do
    guard (leb (length ipstr + 1) max_len)
    guard (is_family required_family (get_ipstr_family ipstr))
    some ipstr

  -- `build_socket_addr`, into a structure of zeros
  unfoldable pub build_socket_addr : Option Family → Bytes → ℕ → SockAddr
  build_socket_addr (some v4) ipstr portno =
      inet (elim (sys.inet_pton4 ipstr) [ some a ↦ a | none ↦ 0 ]) (ntohs portno)
  build_socket_addr f ipstr portno =
      inet6 0 (elim (sys.inet_pton6 ipstr) [ some a ↦ a | none ↦ [] ]) (ntohs portno)
