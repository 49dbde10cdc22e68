-- ===== src/FakeDns/Stable.antt =====
-- src/fakedns.c, `fakedns_lookup_domain`: the mapping that a call leaves in the pool.
use tproxy2ss.Base.{
  ℕ, ◌<◌, ◌≡◌, ◌≢◌, ◌⊎◌, inl, inr, refl, sym, ap, arith, Bool, true, false, none, some, length,
  take_of_length-le, le→leb-false,
}
use mathlib.Core.Path.{subst}
use tproxy2ss.Base.Word.{add32}
use tproxy2ss.Base.Bytes.{Bytes, c_str, strcmp_eq, bytes_eq_self}
use tproxy2ss.FakeDns.Defs.{max_domain_len, entry_lifetime, Entry, FakeDns, slot, write_slot, ip_at}
use tproxy2ss.FakeDns.Keeps.{warn_usage_lem, set_domain_rest}
use tproxy2ss.FakeDns.Lookup.{Scan, is_expired, entry_set_domain, lookup_domain}
use tproxy2ss.FakeDns.Outcome.{
  Outcome, no_slot, no_memory, found, reused, inserted, replaced, renewed, first_entry,
  lookup_domain-Outcome, probes,
}
use tproxy2ss.FakeDns.Probe.{target}
use tproxy2ss.FakeDns.Valid.{Range, IsValid, slot-write_slot}

-- `p'` is `p` but for the entry at `w`, its count and the throttle of the warnings.
pub record Writes (p : FakeDns) (w : ℕ) (e : Entry) (p' : FakeDns) : Type 0 where
  pub size : p'.pool_size ≡ p.pool_size
  pub rounds : p'.max_probes ≡ p.max_probes
  pub net : p'.net_host ≡ p.net_host
  pub away : (i : ℕ) → i ≢ w → slot p' i ≡ slot p i
  pub there : slot p' w ≡ some e

-- What stood at the slot: the same domain, nothing, or an expired entry whose version goes up.
abbrev pub Before : FakeDns → ℕ → ℕ → Entry → Type 0
Before p now w e' =
    (slot p w ≡ none)
    ⊎ (e : Entry) × (slot p w ≡ some e)
      × ((e.domain ≡ e'.domain) × (e'.version ≡ e.version)
          ⊎ (is_expired e now ≡ true) × (e'.version ≡ add32 e.version 1))

pub record Mapped (s : Scan) (p : FakeDns) (domain : Bytes) (now w : ℕ) (e : Entry)
    (r : FakeDns × ℕ) : Type 0 where
  pub aim : target s ≡ some w
  pub inside : w < p.pool_size
  pub address : r.1 ≡ ip_at p w
  pub writes : Writes p w e r.0
  pub owner : strcmp_eq e.domain domain ≡ true
  pub alive : is_expired e now ≡ false
  pub before : Before p now w e

stored_domain :
    (e : Entry) (domain : Bytes)
    → length domain < max_domain_len
    → (entry_set_domain e domain).domain ≡ domain
unfolding entry_set_domain
stored_domain e domain h =
    rw (le→leb-false max_domain_len (length domain) h)
      (take_of_length-le (length domain) domain (omega arith))

strcmp_eq_self : (d : Bytes) → strcmp_eq d d ≡ true
unfolding strcmp_eq
strcmp_eq_self d = bytes_eq_self (c_str d)

new_alive : (e : Entry) (now : ℕ) → e.expire ≡ add32 now entry_lifetime → is_expired e now ≡ false
unfolding is_expired
new_alive e now h = ground arith

write_slot-Writes :
    {j k q : ℕ} {p : FakeDns} (r : Range j k q p) (i : ℕ) (e : Entry)
    → i < p.pool_size
    → Writes p i e (write_slot p i e)
unfolding write_slot
write_slot-Writes r i e h = record {
  size = refl;
  rounds = refl;
  net = refl;
  away = λ m n. ground (arith, slot-write_slot r i m e h);
  there = ground (arith, slot-write_slot r i i e h);
}

warned-Writes :
    (p p' : FakeDns) (i x n : ℕ) (e : Entry)
    → Writes p i e p'
    → Writes p i e (record p' { last_warn_used = x; pool_used = n })
unfolding slot
warned-Writes p p' i x n e w = record {
  size = w.size;
  rounds = w.rounds;
  net = w.net;
  away = w.away;
  there = w.there;
}

module _ {j k q : ℕ} {p : FakeDns} (v : IsValid j k q p) (hash : Bytes → ℕ) (now : ℕ)
    (memory : Bool) (domain : Bytes) (short : length domain < max_domain_len) where
  abbrev pub Result : FakeDns × ℕ → Type 0
  Result r =
      (r ≡ (p, 0)) ⊎ (w : ℕ) × (e : Entry) × Mapped (probes hash now p domain) p domain now w e r

  Outcome-Mapped :
      {r : FakeDns × ℕ} → Outcome (probes hash now p domain) memory p domain now r → Result r
  Outcome-Mapped (no_slot t e) = inl e
  Outcome-Mapped (no_memory t e) = inl e
  Outcome-Mapped (found i e t h s m (inl (same, alive))) = inr (
    i,
    e,
    record {
      aim = t;
      inside = h;
      address = ap (λ x. x.1) same;
      writes =
          subst (λ x. Writes p i e x.0) (sym same)
            (record { size = refl; rounds = refl; net = refl; away = λ _ _. refl; there = s });
      owner = m;
      alive = alive;
      before = inr (e, s, inl (refl, refl));
    },
  )
  Outcome-Mapped (found i e t h s m (inr new)) = inr (
    i,
    renewed e now,
    record {
      aim = t;
      inside = h;
      address = ap (λ x. x.1) new;
      writes =
          subst (λ x. Writes p i (renewed e now) x.0) (sym new)
            (write_slot-Writes v.range i (renewed e now) h);
      owner = m;
      alive = new_alive (renewed e now) now refl;
      before = inr (e, s, inl (refl, refl));
    },
  )
  Outcome-Mapped (reused i e t h s old new) = inr (
    i,
    replaced e domain now,
    record {
      aim = t;
      inside = h;
      address = ap (λ x. x.1) new;
      writes =
          subst (λ x. Writes p i (replaced e domain now) x.0) (sym new)
            (write_slot-Writes v.range i (replaced e domain now) h);
      owner = rw (stored_domain e domain short) (strcmp_eq_self domain);
      alive = new_alive (replaced e domain now) now refl;
      before = inr (e, s, inr (old, refl));
    },
  )
  Outcome-Mapped (inserted i t h s new) =
      let e = first_entry p i domain now in
      inr (
        i,
        e,
        record {
          aim = t;
          inside = h;
          address = ap (λ x. x.1) new;
          writes =
              subst (λ x. Writes p i e x.0) (sym new)
                (subst (Writes p i e) (sym (warn_usage_lem _))
                  (warned-Writes p (write_slot p i e) i _ _ e (write_slot-Writes v.range i e h)));
          owner = rw (stored_domain _ domain short) (strcmp_eq_self domain);
          alive = new_alive e now (set_domain_rest _ domain).1;
          before = inl s;
        },
      )

  -- A call either refuses the domain and changes nothing, or maps it.
  pub lookup_domain-Mapped : Result (lookup_domain hash now memory p domain)
  lookup_domain-Mapped = Outcome-Mapped (lookup_domain-Outcome v hash now memory domain)
