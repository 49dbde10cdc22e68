-- ===== src/FakeDns/Mapping.antt =====
-- src/fakedns.c, `fakedns_lookup_domain`: two calls one after the other, and the address given.
use tproxy2ss.Base.{
  ℕ, ◌-◌, ◌/◌, ◌%◌, ◌^◌, ◌<◌, ◌≡◌, ◌≢◌, inl, inr, refl, sym, ap, ◌∙◌, arith, Bool, true, false,
  some, length, bit_and, bit_or,
}
use native.Mathlib.Decide.{ℕ_discrete}
use tproxy2ss.Base.Word.{u32, u32_max, add32, htonl}
use tproxy2ss.Base.Bytes.{Bytes, c_str, strcmp_eq, bytes_eq_iff}
use tproxy2ss.FakeDns.Defs.{max_domain_len, Entry, FakeDns, slot, ip_at, is_fakeip}
use tproxy2ss.FakeDns.Keeps.{lookup_domain-IsValid}
use tproxy2ss.FakeDns.Lookup.{matched, scan, is_expired, refresh, dispatch, lookup_domain}
use tproxy2ss.FakeDns.Outcome.{probes, lookup_domain-dispatch}
use tproxy2ss.FakeDns.Probe.{target, scan-target}
use tproxy2ss.FakeDns.Stable.{Writes, lookup_domain-Mapped}
use tproxy2ss.FakeDns.Valid.{Range, IsValid, ip_at-is_fakeip, ip_at_lem}

refresh-ip : (p : FakeDns) (now i : ℕ) (e : Entry) → (refresh p now i e).1 ≡ ip_at p i
unfolding refresh
refresh-ip p now i e = ground arith

dispatch-matched :
    (memory : Bool) (p : FakeDns) (domain : Bytes) (now i : ℕ) (e : Entry)
    → (dispatch memory p domain now (matched i e)).1 ≡ ip_at p i
unfolding dispatch
dispatch-matched memory p domain now i e = refresh-ip p now i e

ip_at-net : (p p' : FakeDns) (i : ℕ) → p'.net_host ≡ p.net_host → ip_at p' i ≡ ip_at p i
unfolding ip_at
ip_at-net p p' i e = ap (λ n. htonl (add32 n i)) e

-- Two slots have two addresses.
ip_at-injective :
    {j k q : ℕ} {p : FakeDns} (r : Range j k q p) (a b : ℕ)
    → a < p.pool_size
    → b < p.pool_size
    → ip_at p a ≡ ip_at p b
    → a ≡ b
ip_at-injective {p} r a b ha hb e =
    let e' : htonl (ip_at p a) ≡ htonl (ip_at p b) = ap htonl e in
    omega (arith, ip_at_lem r a ha, ip_at_lem r b hb)

strcmp_eq-shared :
    (a b c : Bytes) → strcmp_eq a b ≡ true → strcmp_eq a c ≡ true → strcmp_eq c b ≡ true
unfolding strcmp_eq
strcmp_eq-shared a b c h g =
    let e = (bytes_eq_iff (c_str a) (c_str b)).0 h in
    let e' = (bytes_eq_iff (c_str a) (c_str c)).0 g in
    (bytes_eq_iff (c_str c) (c_str b)).1 (sym e' ∙ e)

module _ {j k q : ℕ} (hash : Bytes → ℕ) where
  -- The next call for the domain probes up to the entry that the first call left.
  probes-Mapped :
      {p p' : FakeDns} (domain : Bytes) (now now' : ℕ) {w : ℕ} {e : Entry}
      → IsValid j k q p
      → target (probes hash now p domain) ≡ some w
      → w < p.pool_size
      → strcmp_eq e.domain domain ≡ true
      → Writes p w e p'
      → probes hash now' p' domain ≡ matched w e
  unfolding probes
  probes-Mapped {p} {p'} domain now now' {w} {e} v aim inside owner t =
      ap
        (λ n.
          scan p' domain (bit_or (hash domain / 2 ^ 32 % u32) 1) now' n
            (bit_and (hash domain) (p'.pool_size - 1) % u32) u32_max)
        t.rounds
      ∙ ap
          (λ n.
            scan p' domain (bit_or (hash domain / 2 ^ 32 % u32) 1) now' p.max_probes
              (bit_and (hash domain) (n - 1) % u32) u32_max)
          t.size
      ∙ scan-target p p' domain (bit_or (hash domain / 2 ^ 32 % u32) 1) now now' w e t.size t.away
          t.there owner p.max_probes (bit_and (hash domain) (p.pool_size - 1) % u32) u32_max u32_max
          (omega (arith, v.range.size, v.range.small)) aim

  module _ {p : FakeDns} (v : IsValid j k q p) (now : ℕ) (memory : Bool) (domain : Bytes)
      (short : length domain < max_domain_len) where
    -- On a well-formed pool, for a domain shorter than 244 bytes: once `fakedns_lookup_domain`
    -- has given the domain an address, the next call for the domain gives the same address,
    -- whatever the time is then and whether or not memory is left.
    pub lookup_domain-again :
        (now' : ℕ) (memory' : Bool)
        → (lookup_domain hash now memory p domain).1 ≢ 0
        → (lookup_domain hash now' memory' (lookup_domain hash now memory p domain).0 domain).1
          ≡ (lookup_domain hash now memory p domain).1
    lookup_domain-again now' memory' given =
        elim (lookup_domain-Mapped v hash now memory domain short) [
          | inl refused ↦ absurd (given (ap (λ x. x.1) refused))
          | inr (w, e, m) ↦
              let p' = (lookup_domain hash now memory p domain).0 in
              let v' = lookup_domain-IsValid v hash now memory domain in
              let aim = probes-Mapped domain now now' v m.aim m.inside m.owner m.writes in
              ap (λ x. x.1) (lookup_domain-dispatch v' hash now' memory' domain)
              ∙ ap (λ s. (dispatch memory' p' domain now' s).1) aim
              ∙ dispatch-matched memory' p' domain now' w e
              ∙ ip_at-net p p' w m.writes.net
              ∙ sym m.address
        ]

    -- On a well-formed pool, for a domain shorter than 244 bytes: an address that
    -- `fakedns_lookup_domain` gives out is a fake address, and its slot holds a live entry for
    -- the domain.
    pub lookup_domain-is_fakeip :
        (lookup_domain hash now memory p domain).1 ≢ 0
        → let r = lookup_domain hash now memory p domain in
          (is_fakeip r.0 r.1 ≡ true)
          × (i : ℕ) × (e : Entry) × (i < r.0.pool_size)
          × (r.1 ≡ ip_at r.0 i)
          × (slot r.0 i ≡ some e)
          × (strcmp_eq e.domain domain ≡ true)
          × (is_expired e now ≡ false)
    lookup_domain-is_fakeip given = elim (lookup_domain-Mapped v hash now memory domain short) [
      | inl refused ↦ absurd (given (ap (λ x. x.1) refused))
      | inr (w, e, m) ↦
          let r = lookup_domain hash now memory p domain in
          let v' = lookup_domain-IsValid v hash now memory domain in
          let inside : w < r.0.pool_size = rw m.writes.size m.inside in
          let address : r.1 ≡ ip_at r.0 w = m.address ∙ sym (ip_at-net p r.0 w m.writes.net) in
          (
            ap (is_fakeip r.0) address ∙ ip_at-is_fakeip v'.range w inside,
            w,
            e,
            inside,
            address,
            m.writes.there,
            m.owner,
            m.alive,
          )
    ]

    -- On a well-formed pool, a call for a domain shorter than 244 bytes leaves the live entry of
    -- every slot in place: its domain and its version stay.
    lookup_domain-keeps_live :
        (i : ℕ) (e : Entry)
        → slot p i ≡ some e
        → is_expired e now ≡ false
        → (e' : Entry) × (slot (lookup_domain hash now memory p domain).0 i ≡ some e')
          × (e'.domain ≡ e.domain)
          × (e'.version ≡ e.version)
    lookup_domain-keeps_live i e s alive =
        elim (lookup_domain-Mapped v hash now memory domain short) [
          | inl refused ↦ (e, ap (λ x. slot x.0 i) refused ∙ s, refl, refl)
          | inr (w, x, m) ↦ elim (ℕ_discrete i w) [
            | no other ↦ (e, m.writes.away i other ∙ s, refl, refl)
            | yes same ↦
                let s' : slot p w ≡ some e = rw (← same) s in
                (x, rw same m.writes.there, ground arith, ground arith)
          ]
        ]

  -- On a well-formed pool, two domains shorter than 244 bytes that differ as C strings do not
  -- share an address: after a call that gave the first one an address, a call for the other gives
  -- a different one or none, as long as every entry for the first is live at that time.
  pub lookup_domain-apart :
      {p : FakeDns}
      → IsValid j k q p
      → (now : ℕ) (memory : Bool) (domain : Bytes) (now' : ℕ) (memory' : Bool) (other : Bytes)
      → length domain < max_domain_len
      → length other < max_domain_len
      → strcmp_eq other domain ≡ false
      → ((i : ℕ) (e : Entry)
          → slot (lookup_domain hash now memory p domain).0 i ≡ some e
          → strcmp_eq e.domain domain ≡ true
          → is_expired e now' ≡ false)
      → (lookup_domain hash now memory p domain).1 ≢ 0
      → (lookup_domain hash now' memory' (lookup_domain hash now memory p domain).0 other).1
        ≢ (lookup_domain hash now memory p domain).1
  lookup_domain-apart {p} v now memory domain now' memory' other short short' differ live given =
      let r = lookup_domain hash now memory p domain in
      let v' = lookup_domain-IsValid v hash now memory domain in
      let (_, i, e, inside, address, s, owner, _) =
        lookup_domain-is_fakeip v now memory domain short given in
      elim (lookup_domain-Mapped v' hash now' memory' other short') [
        | inl refused ↦ λ same. given (sym same ∙ ap (λ x. x.1) refused)
        | inr (w, x, m) ↦ λ same.
            let here : w ≡ i =
              ip_at-injective v'.range w i m.inside inside (sym m.address ∙ same ∙ address) in
            let s' : slot r.0 w ≡ some e = rw here s in
            let alive = live i e s owner in
            let shared = strcmp_eq-shared e.domain domain other owner in ground (arith, shared)
      ]
