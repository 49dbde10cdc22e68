-- ===== src/FakeDns/Defs.antt =====
-- src/fakedns.c: the state of the pool, the constants, and the test of an address.
use tproxy2ss.Base.{
  ℕ, bit_and, Bool, false, Option, none, some, List, get_elem?, set, ◌==◌, if◌then◌else◌,
}
use tproxy2ss.Base.Word.{add32, htonl}
use tproxy2ss.Base.Bytes.{Bytes}

-- `FAKEDNS_MAX_DOMAIN_LEN`, `FAKEDNS_DNS_TTL`, `FAKEDNS_ENTRY_LIFETIME`,
-- `FAKEDNS_TTL_REFRESH_THRESHOLD`
abbrev pub max_domain_len : ℕ
max_domain_len = 244

abbrev pub dns_ttl : ℕ
dns_ttl = 3600

abbrev pub entry_lifetime : ℕ
entry_lifetime = 86400

abbrev pub ttl_refresh_threshold : ℕ
ttl_refresh_threshold = 25920

-- `domain` is what the buffer holds in front of the NUL that ends the copy.
pub record Entry : Type 0 where
  pub ip : ℕ
  pub expire : ℕ
  pub version : ℕ
  pub domain : Bytes

-- The file's global variables. A slot is `none` where the array holds NULL.
pub record FakeDns : Type 0 where
  pub slots : List (Option Entry)
  pub net_host : ℕ
  pub mask_host : ℕ
  pub pool_size : ℕ
  pub pool_used : ℕ
  pub last_warn_used : ℕ
  pub max_probes : ℕ
  pub cidr_str : Bytes

-- `g_fakedns_pool[offset]`
unfoldable pub slot_of : List (Option Entry) → ℕ → Option Entry
slot_of slots offset = elim (get_elem? slots offset) [ none ↦ none | some cell ↦ cell ]

unfoldable pub slot : FakeDns → ℕ → Option Entry
unfolding slot_of
slot p offset = slot_of p.slots offset

-- `g_fakedns_pool[offset] = entry`, or a write through the pointer that is there
unfoldable pub write_slot : FakeDns → ℕ → Entry → FakeDns
write_slot p offset e = record p { slots = set p.slots offset (some e) }

-- `htonl(g_fakeip_net_host + offset)`
unfoldable pub ip_at : FakeDns → ℕ → ℕ
ip_at p offset = htonl (add32 p.net_host offset)

-- `fakedns_is_fakeip`
unfoldable pub is_fakeip : FakeDns → ℕ → Bool
is_fakeip p ip = if p.pool_size == 0 then false else bit_and (htonl ip) p.mask_host == p.net_host
