-- ===== src/Udp/Ingress.antt =====
-- src/udp_proxy.c, `udp_ingress_parse`: a datagram of a client, with its sender and the address that
-- it was sent to. A socket gets addresses of its own family; the answer of `get_udp_orig_dstaddr`
-- is an argument, and so is the room for a domain in `ss2022_addr`.
mod Tests
use tproxy2ss.Base.{
  ℕ, ◌+◌, ◌-◌, ◌≤◌, ◌<◌, ◌≡◌, ◌≢◌, refl, sym, ap, ◌∙◌, arith, Bool, true, false, ◌&&◌, ◌||◌, Option,
  none, some, [], ◌∷◌, length, ltb, ◌==◌, if◌then◌else◌, le→ltb, ltb→le,
}
use mathlib.Core.Path.{subst}
use tproxy2ss.Base.Bytes.{Bytes, c_str, length-c_str-le}
use tproxy2ss.FakeDns.Defs.{max_domain_len, FakeDns, is_fakeip}
use tproxy2ss.FakeDns.Lookup.{lookup_domain}
use tproxy2ss.FakeDns.Mapping.{lookup_domain-is_fakeip}
use tproxy2ss.FakeDns.Reverse.{
  Mru, reverse_lookup, Resolved, not_fake, domain_of, miss, resolved, try_resolve,
}
use tproxy2ss.FakeDns.Coherent.{Coherent}
use tproxy2ss.FakeDns.RoundTrip.{reverse_lookup-lookup_domain}
use tproxy2ss.FakeDns.Valid.{IsValid}
use tproxy2ss.Tcp.Target.{
  SockAddr, inet, inet6, host_domain, Target, ntohs, sin_addr, sin_port, plain_target,
  domain_target, try_resolve-fake, domain_target_lem,
}
use tproxy2ss.Udp.Endpoint.{Endpoint, udp_endpoint_from_skaddr}

abbrev pub udp_datagram_maxsiz : ℕ
udp_datagram_maxsiz = 65507

abbrev pub udp_ss2022_seal_overhead : ℕ
udp_ss2022_seal_overhead = 302

pub record Ingress : Type 0 where
  pub client_endpoint : Endpoint
  pub original_target_endpoint : Endpoint
  pub uses_fakedns : Bool
  pub ss_target : Target

-- The sizes of the two forms of `msg_name`
unfoldable pub get_sender : ℕ → SockAddr → Option SockAddr
get_sender namelen name = if namelen == 16 || namelen == 28 then some name else none

-- `udp_ingress_resolve_fakedns`
unfoldable pub resolve_fakedns : Bool → Bool → SockAddr → FakeDns → Mru → Mru × Resolved
resolve_fakedns enabled is_ipv4 addr p mru =
    if enabled && is_ipv4 then try_resolve p (sin_addr addr) mru else (mru, not_fake)

-- `uses_fakedns` and `ss_target`
unfoldable pub ingress_target : ℕ → SockAddr → Resolved → Option (Bool × Target)
ingress_target name_size addr miss = none
ingress_target name_size addr not_fake = some (false, plain_target addr)
ingress_target name_size addr (domain_of d) = elim (domain_target name_size addr d) [
  | none ↦ none
  | some t ↦ some (true, t)
]

-- The last test, that the sealed datagram fits
unfoldable pub fits_sealed : ℕ → Bool
fits_sealed nrecv =
    if ltb (udp_datagram_maxsiz - udp_ss2022_seal_overhead) nrecv then false else true

unfoldable pub ingress_of : SockAddr → SockAddr → ℕ → Option (Bool × Target) → Option Ingress
ingress_of client addr nrecv none = none
ingress_of client addr nrecv (some (fake, target)) =
    if fits_sealed nrecv
    then some (record {
      client_endpoint = udp_endpoint_from_skaddr client;
      original_target_endpoint = udp_endpoint_from_skaddr addr;
      uses_fakedns = fake;
      ss_target = target;
    })
    else none

-- `udp_ingress_parse`, for the sizes of `msg_name` and of the datagram
unfoldable pub ingress_parse :
    ℕ → Bool → Bool → ℕ → SockAddr → Option SockAddr → ℕ → FakeDns → Mru → Mru × Option Ingress
ingress_parse name_size enabled is_ipv4 namelen name original nrecv p mru =
    elim (get_sender namelen name) [
      | none ↦ (mru, none)
      | some client ↦ elim original [
        | none ↦ (mru, none)
        | some addr ↦
            let r = resolve_fakedns enabled is_ipv4 addr p mru in
            (r.0, ingress_of client addr nrecv (ingress_target name_size addr r.1))
      ]
    ]

named :
    (name_size : ℕ) (addr : SockAddr) (d : Bytes) (t : Target)
    → domain_target name_size addr d ≡ some t
    → ingress_target name_size addr (domain_of d) ≡ some (true, t)
unfolding ingress_target
named name_size addr d t e = simp (ingress_target, e) refl

sealed :
    (name_size nrecv : ℕ) (client addr : SockAddr) (d : Bytes) (t : Target)
    → domain_target name_size addr d ≡ some t
    → nrecv + udp_ss2022_seal_overhead ≤ udp_datagram_maxsiz
    → ingress_of client addr nrecv (ingress_target name_size addr (domain_of d))
      ≡ some (record {
        client_endpoint = udp_endpoint_from_skaddr client;
        original_target_endpoint = udp_endpoint_from_skaddr addr;
        uses_fakedns = true;
        ss_target = t;
      })
unfolding ingress_of fits_sealed
sealed name_size nrecv client addr d t e h =
    let f : ltb (udp_datagram_maxsiz - udp_ss2022_seal_overhead) nrecv ≡ false =
      ground (arith, h) in
    ap (λ x. ingress_of client addr nrecv x) (named name_size addr d t e) ∙ rw f refl

resolved-domain_of :
    (x : Mru × Option Bytes) (d : Bytes) → x.1 ≡ some d → (resolved x).1 ≡ domain_of d
resolved-domain_of (mru, o) d e = rw e refl

module _ {j k q : ℕ} {p : FakeDns} (v : IsValid j k q p) (hash : Bytes → ℕ) (now : ℕ)
    (memory : Bool) (domain : Bytes) (short : length domain < max_domain_len) where
  -- A datagram to an address that the fake DNS gave out is for the domain: on a well-formed pool, for
  -- a domain shorter than 244 bytes whose first byte is not NUL and which the room of the target
  -- holds, a datagram of a size that can be sealed, from an IPv4 client to the address that
  -- `fakedns_lookup_domain` gave the domain, is parsed to a session by client and target, with the
  -- domain up to its first NUL byte as its target, by every thread whose cache is coherent.
  pub ingress_parse-lookup_domain :
      (mru : Mru) (name_size ip client_port port nrecv : ℕ)
      → Coherent (lookup_domain hash now memory p domain).0 mru
      → (lookup_domain hash now memory p domain).1 ≢ 0
      → 0 < length (c_str domain)
      → length (c_str domain) ≤ name_size
      → nrecv + udp_ss2022_seal_overhead ≤ udp_datagram_maxsiz
      → let r = lookup_domain hash now memory p domain in
        (ingress_parse name_size true true 16
          (inet ip client_port)
          (some (inet r.1 port))
          nrecv
          r.0
          mru).1
        ≡ some (record {
          client_endpoint = udp_endpoint_from_skaddr (inet ip client_port);
          original_target_endpoint = udp_endpoint_from_skaddr (inet r.1 port);
          uses_fakedns = true;
          ss_target = record {
            host = host_domain (length (c_str domain)) (c_str domain);
            port = ntohs port;
          };
        })
  unfolding ingress_parse get_sender resolve_fakedns sin_addr sin_port
  ingress_parse-lookup_domain mru name_size ip client_port port nrecv c given pos fits size =
      let r = lookup_domain hash now memory p domain in
      let fake : is_fakeip r.0 r.1 ≡ true =
        (lookup_domain-is_fakeip hash v now memory domain short given).0 in
      let back = reverse_lookup-lookup_domain v hash now memory domain short mru c given in
      let addr = inet r.1 port in
      let found : (try_resolve r.0 r.1 mru).1 ≡ domain_of (c_str domain) =
        ap (λ x. x.1) (try_resolve-fake r.0 r.1 mru fake)
        ∙ resolved-domain_of (reverse_lookup r.0 r.1 max_domain_len mru) (c_str domain) back in
      ap (λ x. ingress_of (inet ip client_port) addr nrecv (ingress_target name_size addr x)) found
      ∙ sealed name_size nrecv (inet ip client_port) addr (c_str domain) _
          (domain_target_lem name_size addr domain pos fits
            (omega (arith, short, length-c_str-le domain)))
          size
