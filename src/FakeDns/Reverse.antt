-- ===== src/FakeDns/Reverse.antt =====
-- src/fakedns.c, `fakedns_reverse_lookup` and `fakedns_try_resolve`: from an address back to its
-- domain, with the thread's cache of recent answers. The counters of FAKEDNS_MRU_STATS, a build
-- option, are left out; the read lock is not modelled.
use tproxy2ss.Base.{
  ℕ, ◌-◌, bit_and, Bool, true, false, ◌&&◌, not, Option, none, some, List, [], ◌∷◌, length, take,
  replicate, leb, ◌==◌, if◌then◌else◌,
}
use tproxy2ss.Base.Word.{sub32, htonl}
use tproxy2ss.Base.Bytes.{Bytes, c_str}
use tproxy2ss.FakeDns.Defs.{max_domain_len, Entry, FakeDns, slot, is_fakeip}

-- `fakedns_mru_entry_t`
pub record MruEntry : Type 0 where
  pub ip : ℕ
  pub version : ℕ
  pub valid : Bool
  pub domain : Bytes

-- The entries in the order of the pointer array, which is a permutation of the data array.
abbrev pub Mru : Type 0
Mru = List MruEntry

abbrev pub mru_size : ℕ
mru_size = 8

-- The cache of a new thread.
abbrev pub mru_start : Mru
mru_start = replicate mru_size (record { ip = 0; version = 0; valid = false; domain = [] })

-- The fast path ends with a clean item and the others in their order, or falls through.
pub data Fast : Type 0 where
  hit : MruEntry → Mru → Fast
  fell : Mru → Fast

abbrev pub behind : MruEntry → Fast → Fast
behind m (hit found others) = hit found (m ∷ others)
behind m (fell l) = fell (m ∷ l)

-- The version check against the slot of the pool
unfoldable pub is_clean : Option Entry → MruEntry → Bool
is_clean none m = false
is_clean (some e) m = e.version == m.version

-- The loop over the cache: the first valid item for the address decides.
unfoldable pub fast_path : Option Entry → ℕ → Mru → Fast
fast_path cell ip [] = fell []
fast_path cell ip (m ∷ ms) =
    let rest = fast_path cell ip ms in
    if m.valid && m.ip == ip
    then (if is_clean cell m then hit m ms else fell (record m { valid = false } ∷ ms))
    else behind m rest

-- `strnlen(domain, n)` bytes of `domain`
abbrev pub prefix : ℕ → Bytes → Bytes
prefix n domain = take n (c_str domain)

unfoldable pub drop_last : Mru → Mru
drop_last [] = []
drop_last (m ∷ []) = []
drop_last (m ∷ m' ∷ ms) = m ∷ drop_last (m' ∷ ms)

-- The slow path: the pool's answer, put in front of the cache in place of the last item.
unfoldable pub slow_path : Option Entry → ℕ → ℕ → Mru → Mru × Option Bytes
slow_path none ip buf_len mru = (mru, none)
slow_path (some e) ip buf_len mru =
    let tmp_domain = prefix (max_domain_len - 1) e.domain in
    let copy_len = if leb buf_len (length tmp_domain) then buf_len - 1 else length tmp_domain in
    (
      record { ip = ip; version = e.version; valid = true; domain = tmp_domain } ∷ drop_last mru,
      some (take copy_len tmp_domain),
    )

unfoldable pub answer : Option Entry → ℕ → ℕ → Fast → Mru × Option Bytes
answer cell ip buf_len (hit m others) = (m ∷ others, some (prefix (buf_len - 1) m.domain))
answer cell ip buf_len (fell mru) = slow_path cell ip buf_len mru

-- `fakedns_reverse_lookup`: the cache afterwards, and what is written to the buffer on success.
unfoldable pub reverse_lookup : FakeDns → ℕ → ℕ → Mru → Mru × Option Bytes
reverse_lookup p ip buf_len mru =
    let ip_host = htonl ip in
    let offset = sub32 ip_host p.net_host in
    if buf_len == 0
    then (mru, none)
    else if not (bit_and ip_host p.mask_host == p.net_host)
    then (mru, none)
    else if leb p.pool_size offset
    then (mru, none)
    else answer (slot p offset) ip buf_len (fast_path (slot p offset) ip mru)

-- The answer of `fakedns_try_resolve`: no fake address, a mapping, or `is_miss`.
pub data Resolved : Type 0 where
  not_fake : Resolved
  domain_of : Bytes → Resolved
  miss : Resolved

abbrev pub resolved : Mru × Option Bytes → Mru × Resolved
resolved (mru, none) = (mru, miss)
resolved (mru, some d) = (mru, domain_of d)

unfoldable pub try_resolve : FakeDns → ℕ → Mru → Mru × Resolved
try_resolve p ip mru =
    if is_fakeip p ip then resolved (reverse_lookup p ip max_domain_len mru) else (mru, not_fake)
