-- ===== src/FakeDns/Lookup.antt =====
-- src/fakedns.c, `fakedns_lookup_domain`. `XXH3_64bits`, the clock and `posix_memalign` are
-- arguments. The write lock is not modelled: this function is the only writer, on one thread.
use tproxy2ss.Base.{
  ℕ, zero, suc, ◌*◌, ◌/◌, ◌%◌, ◌-◌, ◌^◌, bit_and, bit_or, Bool, true, false, ◌&&◌, not, none, some,
  length, take, ltb, leb, ◌==◌, if◌then◌else◌,
}
use tproxy2ss.Base.Word.{u32, u32_max, add32, sub32, is_negative}
use mathlib.Core.List.{[]}
use tproxy2ss.Base.Bytes.{Bytes, strcmp_eq}
use tproxy2ss.FakeDns.Defs.{
  max_domain_len, entry_lifetime, ttl_refresh_threshold, Entry, FakeDns, slot, write_slot, ip_at,
}

-- `entry_set_domain`
unfoldable pub entry_set_domain : Entry → Bytes → Entry
entry_set_domain e domain =
    let len = length domain in
    let copy_len = if leb max_domain_len len then max_domain_len - 1 else len in
    record e { domain = take copy_len domain }

-- `(int32_t)(exp - now) < 0`
unfoldable pub is_expired : Entry → ℕ → Bool
is_expired e now = is_negative (sub32 e.expire now)

-- How the probe loop of phase 1 ends: at an entry for the domain, at an empty slot, or with all
-- probes used up; the last two with `first_expired_offset`.
pub data Scan : Type 0 where
  matched : ℕ → Entry → Scan
  vacant : ℕ → ℕ → Scan
  exhausted : ℕ → Scan

-- `first_expired_offset` after a collision with `e` at `offset`
unfoldable pub note_expired : ℕ → Entry → ℕ → ℕ → ℕ
note_expired now e offset first_expired =
    if first_expired == u32_max && is_expired e now then offset else first_expired

module _ (p : FakeDns) (domain : Bytes) (step now : ℕ) where
  -- The probe loop, with the rounds that are left.
  unfoldable pub scan : ℕ → ℕ → ℕ → Scan
  scan zero offset first_expired = exhausted first_expired
  scan (suc rounds) offset first_expired =
      let rest = λ (e : Entry).
        scan rounds (bit_and (add32 offset step) (p.pool_size - 1))
          (note_expired now e offset first_expired) in
      elim (slot p offset) [
        | none ↦ vacant offset first_expired
        | some e ↦ elim (strcmp_eq e.domain domain) [ true ↦ matched offset e | false ↦ rest e ]
      ]

-- A match: the lifetime starts anew when less than 30 % of it remain.
unfoldable pub refresh : FakeDns → ℕ → ℕ → Entry → FakeDns × ℕ
refresh p now offset e =
    let remaining = sub32 e.expire now in
    if not (is_negative remaining) && ltb ttl_refresh_threshold remaining
    then (p, ip_at p offset)
    else (write_slot p offset (record e { expire = add32 now entry_lifetime }), ip_at p offset)

-- Phase 2 at an expired entry: the slot is used again, and its version goes up. The NULL that
-- the code would follow at an empty slot does not occur: phase 1 found an entry there.
unfoldable pub overwrite : FakeDns → Bytes → ℕ → ℕ → FakeDns × ℕ
overwrite p domain now offset = elim (slot p offset) [
  | none ↦ (p, 0)
  | some e ↦ (
    write_slot p offset (record (entry_set_domain e domain) {
      expire = add32 now entry_lifetime;
      version = add32 e.version 1;
    }),
    ip_at p offset,
  )
]

-- The throttle of the warnings on a full pool. `usage` is a quotient of two numbers up to 2^24 by
-- a power of two, which a `float` holds exactly; 0.95f is 15938355 / 2^24, 0.80f is 13421773 /
-- 2^24.
unfoldable pub warn_usage : FakeDns → FakeDns
warn_usage p =
    let since = sub32 p.pool_used p.last_warn_used in
    if leb (15938355 * p.pool_size) (p.pool_used * 2 ^ 24)
    then (if leb (p.pool_size / 50) since then record p { last_warn_used = p.pool_used } else p)
    else if leb (13421773 * p.pool_size) (p.pool_used * 2 ^ 24)
    then (if leb (p.pool_size / 20) since then record p { last_warn_used = p.pool_used } else p)
    else p

-- Phase 2 at an empty slot. `memory` tells whether `posix_memalign` succeeds.
unfoldable pub insert : Bool → FakeDns → Bytes → ℕ → ℕ → FakeDns × ℕ
insert memory p domain now offset =
    if leb p.pool_size p.pool_used
    then (p, 0)
    else if not memory
    then (p, 0)
    else let blank : Entry = record {
      ip = ip_at p offset;
      expire = add32 now entry_lifetime;
      version = 1;
      domain = [];
    } in
      let filled = write_slot p offset (entry_set_domain blank domain) in
      (warn_usage (record filled { pool_used = add32 p.pool_used 1 }), ip_at p offset)

-- Phase 2
unfoldable pub dispatch : Bool → FakeDns → Bytes → ℕ → Scan → FakeDns × ℕ
dispatch memory p domain now (matched offset e) = refresh p now offset e
dispatch memory p domain now (vacant offset first_expired) =
    if first_expired == u32_max
    then insert memory p domain now offset
    else overwrite p domain now first_expired
dispatch memory p domain now (exhausted first_expired) =
    if first_expired == u32_max then (p, 0) else overwrite p domain now first_expired

module _ (hash : Bytes → ℕ) (now : ℕ) (memory : Bool) where
  -- `fakedns_lookup_domain`: the pool afterwards and the address in network order, or 0.
  unfoldable pub lookup_domain : FakeDns → Bytes → FakeDns × ℕ
  lookup_domain p domain =
      let h = hash domain in
      let offset = bit_and h (p.pool_size - 1) % u32 in
      let step = bit_or (h / 2 ^ 32 % u32) 1 in
      if p.pool_size == 0
      then (p, 0)
      else dispatch memory p domain now (scan p domain step now p.max_probes offset u32_max)
