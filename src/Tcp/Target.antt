-- ===== src/Tcp/Target.antt =====
-- src/tcp_proxy.c, `tcp_proxy_resolve_target`: the address that a connection was made to, as the
-- target of a request. `ss2022_addr` is of the Shadowsocks library, so the room for a domain in it
-- is an argument.
mod Tests
use tproxy2ss.Base.{
  ℕ, zero, suc, ◌+◌, ◌*◌, ◌/◌, ◌%◌, ◌^◌, ◌≤◌, ◌<◌, ◌≡◌, ◌≢◌, refl, sym, ap, ◌∙◌, arith, Bool, true,
  false, ◌&&◌, ◌||◌, Option, none, some, length, ltb, ◌==◌, if◌then◌else◌, le→ltb,
}
use tproxy2ss.Base.Word.{raw32}
use tproxy2ss.Base.Bytes.{Bytes, c_str, c_str-c_str, length-c_str-le}
use tproxy2ss.FakeDns.Defs.{max_domain_len, FakeDns, is_fakeip}
use tproxy2ss.FakeDns.Lookup.{lookup_domain}
use tproxy2ss.FakeDns.Mapping.{lookup_domain-is_fakeip}
use tproxy2ss.FakeDns.Reverse.{
  Mru, reverse_lookup, Resolved, not_fake, domain_of, miss, resolved, try_resolve,
}
use tproxy2ss.FakeDns.Coherent.{Coherent}
use tproxy2ss.FakeDns.RoundTrip.{reverse_lookup-lookup_domain}
use tproxy2ss.FakeDns.Valid.{IsValid}

-- `skaddr6_t`, by its family: the fields of the address as they stand in memory. The flow
-- information of an IPv6 address stands where an IPv4 address does.
pub data SockAddr : Type 0 where
  inet : ℕ → ℕ → SockAddr
  inet6 : ℕ → Bytes → ℕ → SockAddr

-- `ss2022_addr`
pub data Host : Type 0 where
  host_domain : ℕ → Bytes → Host
  host_ipv4 : Bytes → Host
  host_ipv6 : Bytes → Host

pub record Target : Type 0 where
  pub host : Host
  pub port : ℕ

abbrev pub ntohs : ℕ → ℕ
ntohs x = x % 256 * 256 + x / 256 % 256

unfoldable pub sin_addr : SockAddr → ℕ
sin_addr (inet ip port) = ip
sin_addr (inet6 flowinfo ip port) = flowinfo

unfoldable pub sin_port : SockAddr → ℕ
sin_port (inet ip port) = port
sin_port (inet6 flowinfo ip port) = port

unfoldable pub plain_target : SockAddr → Target
plain_target (inet ip port) = record { host = host_ipv4 (raw32 ip); port = ntohs port }
plain_target (inet6 flowinfo ip port) = record { host = host_ipv6 ip; port = ntohs port }

unfoldable pub domain_target : ℕ → SockAddr → Bytes → Option Target
domain_target name_size addr fake_domain =
    let name = c_str fake_domain in
    if length name == 0 || ltb name_size (length name)
    then none
    else some
        (record { host = host_domain (length name % 2 ^ 8) name; port = ntohs (sin_port addr) })

unfoldable pub target_of : ℕ → SockAddr → Mru × Resolved → Mru × Option Target
target_of name_size addr (mru, not_fake) = (mru, some (plain_target addr))
target_of name_size addr (mru, domain_of d) = (mru, domain_target name_size addr d)
target_of name_size addr (mru, miss) = (mru, none)

-- `tcp_proxy_resolve_target`, by whether OPT_ENABLE_FAKEDNS is set and the answer of
-- `get_tcp_orig_dstaddr`
unfoldable pub resolve_target :
    ℕ → Bool → Bool → Option SockAddr → FakeDns → Mru → Mru × Option Target
resolve_target name_size enabled isipv4 none p mru = (mru, none)
resolve_target name_size enabled isipv4 (some addr) p mru =
    if enabled && isipv4
    then target_of name_size addr (try_resolve p (sin_addr addr) mru)
    else (mru, some (plain_target addr))

resolved-some :
    (name_size : ℕ) (addr : SockAddr) (x : Mru × Option Bytes) (d : Bytes)
    → x.1 ≡ some d
    → (target_of name_size addr (resolved x)).1 ≡ domain_target name_size addr d
unfolding target_of
resolved-some name_size addr (mru, o) d e = rw e refl

pub try_resolve-fake :
    (p : FakeDns) (ip : ℕ) (mru : Mru)
    → is_fakeip p ip ≡ true
    → try_resolve p ip mru ≡ resolved (reverse_lookup p ip max_domain_len mru)
unfolding try_resolve
try_resolve-fake p ip mru e = simp e refl

-- A domain that the cache or the pool holds, where the room is enough
pub domain_target_lem :
    (name_size : ℕ) (addr : SockAddr) (d : Bytes)
    → 0 < length (c_str d)
    → length (c_str d) ≤ name_size
    → length (c_str d) < 2 ^ 8
    → domain_target name_size addr (c_str d)
      ≡ some
          (record { host = host_domain (length (c_str d)) (c_str d); port = ntohs (sin_port addr) })
unfolding domain_target
domain_target_lem name_size addr d pos fits short =
    let nonempty : (length (c_str d) == 0) ≡ false = ground (arith, pos) in
    let within : length (c_str d) % 2 ^ 8 ≡ length (c_str d) = omega (arith, short) in
    simp (c_str-c_str d, nonempty, le→ltb name_size (length (c_str d)) fits, within) refl

module _ {j k q : ℕ} {p : FakeDns} (v : IsValid j k q p) (hash : Bytes → ℕ) (now : ℕ)
    (memory : Bool) (domain : Bytes) (short : length domain < max_domain_len) where
  -- A connection to an address that the fake DNS gave out gets the domain as its target: on a
  -- well-formed pool, for a domain shorter than 244 bytes whose first byte is not NUL and which
  -- the room of the target holds, a connection over IPv4 to the address that
  -- `fakedns_lookup_domain` gave the domain is resolved to the domain, up to its first NUL byte,
  -- with its length and the port of the connection, by every thread whose cache is coherent with
  -- the pool.
  pub resolve_target-lookup_domain :
      (mru : Mru) (name_size port : ℕ)
      → Coherent (lookup_domain hash now memory p domain).0 mru
      → (lookup_domain hash now memory p domain).1 ≢ 0
      → 0 < length (c_str domain)
      → length (c_str domain) ≤ name_size
      → let r = lookup_domain hash now memory p domain in
        (resolve_target name_size true true (some (inet r.1 port)) r.0 mru).1
        ≡ some (record {
          host = host_domain (length (c_str domain)) (c_str domain);
          port = ntohs port;
        })
  unfolding resolve_target sin_addr sin_port
  resolve_target-lookup_domain mru name_size port c given pos fits =
      let r = lookup_domain hash now memory p domain in
      let fake : is_fakeip r.0 r.1 ≡ true =
        (lookup_domain-is_fakeip hash v now memory domain short given).0 in
      let back = reverse_lookup-lookup_domain v hash now memory domain short mru c given in
      let addr = inet r.1 port in
      ap (λ x. (target_of name_size addr x).1) (try_resolve-fake r.0 r.1 mru fake)
      ∙ resolved-some name_size addr (reverse_lookup r.0 r.1 max_domain_len mru) (c_str domain) back
      ∙ domain_target_lem name_size addr domain pos fits
          (omega (arith, short, length-c_str-le domain))
