-- ===== src/Options/Server.antt =====
-- src/main.c: `parse_server_group_arg`.
use tproxy2ss.Base.{
  ℕ, Bool, ◌&&◌, not, Option, none, some, List, [], ◌∷◌, ◌++◌, length, ltb, leb, ◌==◌,
  if◌then◌else◌,
}
use tproxy2ss.Base.Bytes.{Bytes}
use tproxy2ss.Base.Number.{starts_digit, strtoul}
use tproxy2ss.Base.Partial.{◌>>=◌, ◌>>◌, guard}
use tproxy2ss.Selector.Defs.{max_servers}
use tproxy2ss.Tcp.Target.{SockAddr}
use tproxy2ss.Options.Numbers.{
  ip6_str_len, v6, Method, aes_128_gcm, aes_256_gcm, System, is_family, get_ipstr_family,
  build_socket_addr,
}

abbrev pub psk_size : ℕ
psk_size = 128

-- The fields of `ss_server_t` that come from the command line
pub record Server : Type 0 where
  pub ipstr : Bytes
  pub portno : ℕ
  pub skaddr : SockAddr
  pub method : Method
  pub psk : Bytes
  pub salt_len : ℕ

abbrev pub method_128 : Bytes
method_128 =
    b'2' ∷ b'0' ∷ b'2' ∷ b'2' ∷ b'-' ∷ b'b' ∷ b'l' ∷ b'a' ∷ b'k' ∷ b'e' ∷ b'3' ∷ b'-' ∷ b'a' ∷ b'e'
    ∷ b's' ∷ b'-' ∷ b'1' ∷ b'2' ∷ b'8' ∷ b'-' ∷ b'g' ∷ b'c' ∷ b'm' ∷ b':' ∷ []

abbrev pub method_256 : Bytes
method_256 =
    b'2' ∷ b'0' ∷ b'2' ∷ b'2' ∷ b'-' ∷ b'b' ∷ b'l' ∷ b'a' ∷ b'k' ∷ b'e' ∷ b'3' ∷ b'-' ∷ b'a' ∷ b'e'
    ∷ b's' ∷ b'-' ∷ b'2' ∷ b'5' ∷ b'6' ∷ b'-' ∷ b'g' ∷ b'c' ∷ b'm' ∷ b':' ∷ []

-- `strchr(p, c)`: what stands before the character, and what stands after it
unfoldable pub split_at : ℕ → Bytes → Option (Bytes × Bytes)
split_at c [] = none
split_at c (b ∷ bs) =
    if b == c then some ([], bs) else (do (before, after) ← split_at c bs; some (b ∷ before, after))

-- `strncmp(p, prefix, strlen(prefix)) == 0`: what follows the prefix
unfoldable pub strip : Bytes → Bytes → Option Bytes
strip [] p = some p
strip (c ∷ cs) [] = none
strip (c ∷ cs) (b ∷ bs) = if b == c then strip cs bs else none

unfoldable pub fits_ipstr : Bytes → Bool
fits_ipstr ipstr = not (length ipstr == 0) && ltb (length ipstr) ip6_str_len

unfoldable pub port_of : ℕ × Bytes → Option (ℕ × Bytes)
port_of (port, []) = none
port_of (port, c ∷ next) = do
  guard (c == b':' && (not (port == 0) && leb port 65535))
  some (port, next)

unfoldable pub parse_port : Bytes → Option (ℕ × Bytes)
parse_port p = do guard (starts_digit p); port_of (strtoul p)

unfoldable pub parse_method : Bytes → Option (Method × Bytes)
parse_method p = elim (strip method_128 p) [
  | some rest ↦ some (aes_128_gcm, rest)
  | none ↦ do rest ← strip method_256 p; some (aes_256_gcm, rest)
]

unfoldable pub salt_of : Method → ℕ
salt_of aes_128_gcm = 16
salt_of aes_256_gcm = 32

module _ (sys : System) where
  -- The address in brackets, behind the first of them
  unfoldable pub parse_bracketed : Bytes → Option (Bytes × Bytes)
  parse_bracketed p = do
    (ipstr, rb) ← split_at b']' p
    rest ← strip (b':' ∷ []) rb
    guard (fits_ipstr ipstr)
    guard (is_family (some v6) (get_ipstr_family sys ipstr))
    some (ipstr, rest)

  unfoldable pub parse_plain : Bytes → Option (Bytes × Bytes)
  parse_plain p = do
    (ipstr, rest) ← split_at b':' p
    guard (fits_ipstr ipstr)
    guard (is_family none (get_ipstr_family sys ipstr))
    some (ipstr, rest)

  unfoldable pub parse_addr : Bytes → Option (Bytes × Bytes)
  parse_addr [] = parse_plain []
  parse_addr (c ∷ p) = if c == b'[' then parse_bracketed p else parse_plain (c ∷ p)

  unfoldable pub parse_psk : Method → Bytes → Option Bytes
  parse_psk method p = do
    guard (not (length p == 0) && ltb (length p) psk_size)
    guard (sys.accepts method p)
    some p

  unfoldable pub parse_server : Bytes → Option Server
  parse_server str = do
    (ipstr, p1) ← parse_addr str
    (port, p2) ← parse_port p1
    (method, p3) ← parse_method p2
    psk ← parse_psk method p3
    some (record {
      ipstr = ipstr;
      portno = port;
      skaddr = build_socket_addr sys (get_ipstr_family sys ipstr) ipstr port;
      method = method;
      psk = psk;
      salt_len = salt_of method;
    })

  -- `parse_server_group_arg`: `g_ss_servers` up to `g_ss_server_count`
  unfoldable pub parse_server_group_arg : List Server → Bytes → Option (List Server)
  parse_server_group_arg servers str = do
    guard (ltb (length servers) max_servers)
    server ← parse_server str
    some (servers ++ server ∷ [])
