-- ===== src/FakeDns/Outcome.antt =====
-- src/fakedns.c, `fakedns_lookup_domain`, against a description of its outcomes.
use tproxy2ss.Base.{
  ℕ, ◌+◌, ◌-◌, ◌/◌, ◌%◌, ◌^◌, ◌<◌, ◌≡◌, ◌⊎◌, inl, inr, refl, sym, arith, bit_and, bit_or, Bool,
  true, false, none, some, ◌==◌, [],
}
use mathlib.Core.Path.{subst}
use native.Mathlib.Nat.{mod-eq_of_lt}
use tproxy2ss.Base.Word.{u32, u32_max, add32}
use tproxy2ss.Base.Bytes.{Bytes, strcmp_eq}
use tproxy2ss.FakeDns.Defs.{entry_lifetime, Entry, FakeDns, slot_of, slot, write_slot, ip_at}
use tproxy2ss.FakeDns.Lookup.{
  Scan, matched, vacant, exhausted, is_expired, scan, entry_set_domain, refresh, overwrite, insert,
  warn_usage, dispatch, lookup_domain,
}
use tproxy2ss.FakeDns.Probe.{Reports, scan-Reports, target}
use tproxy2ss.FakeDns.Valid.{IsValid, masked-lt, size_pos, count_used-lt}

-- The entry that a second owner of a slot gets, and the one that a first owner gets.
abbrev pub replaced : Entry → Bytes → ℕ → Entry
replaced e domain now = record (entry_set_domain e domain) {
  expire = add32 now entry_lifetime;
  version = add32 e.version 1;
}

abbrev pub renewed : Entry → ℕ → Entry
renewed e now = record e { expire = add32 now entry_lifetime }

abbrev pub first_entry : FakeDns → ℕ → Bytes → ℕ → Entry
first_entry p i domain now =
    entry_set_domain
      (record { ip = ip_at p i; expire = add32 now entry_lifetime; version = 1; domain = [] })
      domain

pub data Outcome (s : Scan) (memory : Bool) (p : FakeDns) (domain : Bytes) (now : ℕ)
    (r : FakeDns × ℕ) : Type 0 where
  -- No slot is free or expired on the probe path.
  no_slot : target s ≡ none → r ≡ (p, 0) → Outcome s memory p domain now r
  no_memory : memory ≡ false → r ≡ (p, 0) → Outcome s memory p domain now r
  -- The domain has an entry.
  found :
      (i : ℕ) (e : Entry)
      → target s ≡ some i
      → i < p.pool_size
      → slot p i ≡ some e
      → strcmp_eq e.domain domain ≡ true
      → (r ≡ (p, ip_at p i)) × (is_expired e now ≡ false)
        ⊎ (r ≡ (write_slot p i (renewed e now), ip_at p i))
      → Outcome s memory p domain now r
  -- An expired entry gives up its slot.
  reused :
      (i : ℕ) (e : Entry)
      → target s ≡ some i
      → i < p.pool_size
      → slot p i ≡ some e
      → is_expired e now ≡ true
      → r ≡ (write_slot p i (replaced e domain now), ip_at p i)
      → Outcome s memory p domain now r
  -- An empty slot is filled.
  inserted :
      (i : ℕ)
      → target s ≡ some i
      → i < p.pool_size
      → slot p i ≡ none
      → r ≡ (
        warn_usage
            (record (write_slot p i (first_entry p i domain now)) { pool_used = p.pool_used + 1 }),
        ip_at p i,
      )
      → Outcome s memory p domain now r

pub refresh-cases :
    (p : FakeDns) (now i : ℕ) (e : Entry)
    → (refresh p now i e ≡ (p, ip_at p i)) × (is_expired e now ≡ false)
      ⊎ (refresh p now i e ≡ (write_slot p i (renewed e now), ip_at p i))
unfolding refresh is_expired
refresh-cases p now i e = ground arith

module _ {j k q : ℕ} {p : FakeDns} (v : IsValid j k q p) (memory : Bool) (domain : Bytes)
    (now : ℕ) where
  overwrite_lem :
      (i : ℕ) (e : Entry)
      → slot p i ≡ some e
      → overwrite p domain now i ≡ (write_slot p i (replaced e domain now), ip_at p i)
  unfolding overwrite
  overwrite_lem i e s = rw (s, overwrite)

  unset-false : (f : ℕ) → f < p.pool_size → (f == u32_max) ≡ false
  unset-false f h = ground (arith, v.range.size, v.range.small)

  insert_lem :
      (i : ℕ)
      → i < p.pool_size
      → slot p i ≡ none
      → (memory ≡ false) × (insert memory p domain now i ≡ (p, 0))
        ⊎ (insert memory p domain now i ≡ (
          warn_usage (record (write_slot p i (first_entry p i domain now)) {
            pool_used = p.pool_used + 1;
          }),
          ip_at p i,
        ))
  unfolding insert slot slot_of
  insert_lem i h s =
      let room = count_used-lt p.slots i (rw v.range.shape h) s in
      ground (arith, v.used, v.range.shape, v.range.size, v.range.small)

  dispatch-Outcome :
      (s : Scan)
      → Reports p domain now s
      → Outcome s memory p domain now (dispatch memory p domain now s)
  unfolding dispatch
  dispatch-Outcome (matched i e) (h, s, same) = found i e refl h s same (refresh-cases p now i e)
  dispatch-Outcome (vacant i f) (h, s, inl unset) = elim (insert_lem i h s) [
    | inl (out, e) ↦ no_memory out (ground arith)
    | inr e ↦ inserted i (ground arith) h s (ground arith)
  ]
  dispatch-Outcome (vacant i f) (h, s, inr (g, e, t, old)) =
      reused f e (ground (arith, unset-false f g)) g t old
        (ground (arith, unset-false f g, overwrite_lem f e t))
  dispatch-Outcome (exhausted f) (inl unset) = no_slot (ground arith) (ground arith)
  dispatch-Outcome (exhausted f) (inr (g, e, t, old)) =
      reused f e (ground (arith, unset-false f g)) g t old
        (ground (arith, unset-false f g, overwrite_lem f e t))

-- What the probe loop finds from the domain's own starting point.
unfoldable pub probes : (Bytes → ℕ) → ℕ → FakeDns → Bytes → Scan
probes hash now p domain =
    scan p domain (bit_or (hash domain / 2 ^ 32 % u32) 1) now p.max_probes
      (bit_and (hash domain) (p.pool_size - 1) % u32) u32_max

module _ {j k q : ℕ} {p : FakeDns} (v : IsValid j k q p) (hash : Bytes → ℕ) (now : ℕ)
    (memory : Bool) (domain : Bytes) where
  offset-lt : (h : ℕ) → bit_and h (p.pool_size - 1) % u32 < p.pool_size
  offset-lt h = omega (
    arith,
    masked-lt v.range h,
    v.range.size,
    v.range.small,
    mod-eq_of_lt {n = bit_and h (p.pool_size - 1)} {m = u32}
        (omega (arith, masked-lt v.range h, v.range.size, v.range.small)),
  )

  pub lookup_domain-dispatch :
      lookup_domain hash now memory p domain
      ≡ dispatch memory p domain now (probes hash now p domain)
  unfolding lookup_domain probes
  lookup_domain-dispatch = ground (arith, size_pos v.range)

  -- Every call of `fakedns_lookup_domain` on a well-formed pool has one of the outcomes that
  -- `Outcome` lists, with the conditions under which each may happen.
  pub lookup_domain-Outcome :
      Outcome
        (probes hash now p domain)
        memory
        p
        domain
        now
        (lookup_domain hash now memory p domain)
  unfolding probes
  lookup_domain-Outcome =
      subst (Outcome (probes hash now p domain) memory p domain now) (sym lookup_domain-dispatch) (
        dispatch-Outcome v memory domain now (probes hash now p domain) (
          scan-Reports v.range domain (bit_or (hash domain / 2 ^ 32 % u32) 1) now p.max_probes
            (bit_and (hash domain) (p.pool_size - 1) % u32) u32_max (offset-lt (hash domain))
            (inl refl)))
