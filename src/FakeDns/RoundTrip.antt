-- ===== src/FakeDns/RoundTrip.antt =====
-- src/fakedns.c: `fakedns_lookup_domain` followed by `fakedns_reverse_lookup`.
use tproxy2ss.Base.{
  ℕ, ◌+◌, ◌<◌, ◌≡◌, ◌≢◌, ◌⊎◌, inl, inr, sym, ap, ◌∙◌, arith, Bool, true, some, [], ◌∷◌, length,
  take_of_length-le, ==_self, le→leb-false,
}
use mathlib.Core.Path.{subst}
use native.Mathlib.Decide.{ℕ_discrete}
use tproxy2ss.Base.Word.{u32_max, add32, sub32, htonl}
use tproxy2ss.Base.Bytes.{Bytes, c_str, strcmp_eq, bytes_eq_iff, length-c_str-le}
use tproxy2ss.FakeDns.Coherent.{Agrees, Coherent, slot_for, told, pool_answer, reverse_lookup-exact}
use tproxy2ss.FakeDns.Defs.{max_domain_len, Entry, FakeDns, slot, ip_at}
use tproxy2ss.FakeDns.Keeps.{lookup_domain-IsValid}
use tproxy2ss.FakeDns.Lookup.{Scan, is_expired, lookup_domain}
use tproxy2ss.FakeDns.Mapping.{lookup_domain-is_fakeip}
use tproxy2ss.FakeDns.Reverse.{MruEntry, Mru, reverse_lookup}
use tproxy2ss.FakeDns.Stable.{Mapped, lookup_domain-Mapped}
use tproxy2ss.FakeDns.Valid.{IsValid, ip_at_lem, masked-net, host-lt, slot-lt}

-- No slot has used up its version numbers.
abbrev pub HasVersions : FakeDns → Type 0
HasVersions p = (i : ℕ) (e : Entry) → slot p i ≡ some e → e.version < u32_max

Agrees-before :
    (e x : Entry) (now : ℕ) (m : MruEntry)
    → e.version < u32_max
    → (e.domain ≡ x.domain) × (x.version ≡ e.version)
      ⊎ (is_expired e now ≡ true) × (x.version ≡ add32 e.version 1)
    → Agrees (some e) m
    → Agrees (some x) m
Agrees-before e x now m fresh (inl (same, still)) (le, text) =
    (omega arith, λ h. text (h ∙ still) ∙ ap c_str same)
Agrees-before e x now m fresh (inr (_, up)) (le, text) = (omega arith, λ h. absurd (omega arith))

Mapped-Agrees :
    {s : Scan} {p : FakeDns} (domain : Bytes) (now w : ℕ) (x : Entry) {r : FakeDns × ℕ}
    (m : MruEntry)
    → HasVersions p
    → Mapped s p domain now w x r
    → Agrees (slot_for p m.ip) m
    → Agrees (slot_for r.0 m.ip) m
Mapped-Agrees {s} {p} domain now w x {r} m fresh d a =
    let i = sub32 (htonl m.ip) p.net_host in
    let named : slot_for r.0 m.ip ≡ slot r.0 i =
      ap (λ n. slot r.0 (sub32 (htonl m.ip) n)) d.writes.net in
    elim (ℕ_discrete i w) [
      | no other ↦ subst (λ c. Agrees c m) (sym (named ∙ d.writes.away i other)) a
      | yes here ↦
          let now_there : slot_for r.0 m.ip ≡ some x =
            named ∙ ap (slot r.0) here ∙ d.writes.there in
          elim d.before [
            | inl empty ↦ absurd (subst (λ c. Agrees c m) (ap (slot p) here ∙ empty) a)
            | inr (e, was, change) ↦
                subst (λ c. Agrees c m) (sym now_there)
                  (Agrees-before e x now m (fresh w e was) change
                    (subst (λ c. Agrees c m) (ap (slot p) here ∙ was) a))
          ]
    ]

Mapped-Coherent :
    {s : Scan} {p : FakeDns} (domain : Bytes) (now w : ℕ) (x : Entry) {r : FakeDns × ℕ} (mru : Mru)
    → HasVersions p
    → Mapped s p domain now w x r
    → Coherent p mru
    → Coherent r.0 mru
Mapped-Coherent domain now w x [] fresh d c = tt
Mapped-Coherent domain now w x (m ∷ ms) fresh d c = (
  (λ t. Mapped-Agrees domain now w x m fresh d (c.0 t)),
  Mapped-Coherent domain now w x ms fresh d c.1,
)

-- The address of an occupied slot is answered from that slot, in full.
pub pool_answer-slot :
    {j k q : ℕ} {p : FakeDns} (v : IsValid j k q p) (i : ℕ) (e : Entry)
    → slot p i ≡ some e
    → pool_answer p (ip_at p i) max_domain_len ≡ some (c_str e.domain)
unfolding pool_answer
pool_answer-slot {p} v i e s =
    let h = slot-lt v.range i e s in
    let host = ip_at_lem v.range i h in
    let back : sub32 (p.net_host + i) p.net_host ≡ i = omega (arith, host-lt v.range i h) in
    let fits = (v.entries i e s).fits in
    rw
      (
        host,
        masked-net v.range i h,
        ==_self p.net_host,
        back,
        le→leb-false p.pool_size i h,
        s,
        told,
      )
      (ap some (take_of_length-le 243 (c_str e.domain) (omega (arith, length-c_str-le e.domain))))

module _ {j k q : ℕ} {p : FakeDns} (v : IsValid j k q p) (hash : Bytes → ℕ) (now : ℕ)
    (memory : Bool) (domain : Bytes) (short : length domain < max_domain_len) where
  -- On a well-formed pool, for a domain shorter than 244 bytes, while no slot has used up its
  -- 2^32 version numbers: a cache that is coherent with the pool is coherent with the pool that
  -- `fakedns_lookup_domain` leaves.
  pub lookup_domain-Coherent :
      (mru : Mru)
      → HasVersions p
      → Coherent p mru
      → Coherent (lookup_domain hash now memory p domain).0 mru
  lookup_domain-Coherent mru fresh c = elim (lookup_domain-Mapped v hash now memory domain short) [
    | inl refused ↦ subst (λ r. Coherent r.0 mru) (sym refused) c
    | inr (w, x, m) ↦ Mapped-Coherent domain now w x mru fresh m c
  ]

  -- On a well-formed pool, for a domain shorter than 244 bytes: the address that
  -- `fakedns_lookup_domain` gave the domain is resolved back to the domain, up to its first NUL
  -- byte, by every thread whose cache is coherent with the pool.
  pub reverse_lookup-lookup_domain :
      (mru : Mru)
      → Coherent (lookup_domain hash now memory p domain).0 mru
      → (lookup_domain hash now memory p domain).1 ≢ 0
      → let r = lookup_domain hash now memory p domain in
        (reverse_lookup r.0 r.1 max_domain_len mru).1 ≡ some (c_str domain)
  unfolding strcmp_eq
  reverse_lookup-lookup_domain mru c given =
      let r = lookup_domain hash now memory p domain in
      let v' = lookup_domain-IsValid v hash now memory domain in
      let (_, i, e, inside, address, s, owner, _) =
        lookup_domain-is_fakeip hash v now memory domain short given in
      (reverse_lookup-exact v' r.1 max_domain_len mru c).0
      ∙ ap (λ a. pool_answer r.0 a max_domain_len) address
      ∙ pool_answer-slot v' i e s
      ∙ ap some ((bytes_eq_iff (c_str e.domain) (c_str domain)).0 owner)
