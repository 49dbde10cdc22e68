-- ===== src/FakeDns/Keeps.antt =====
-- src/fakedns.c, `fakedns_lookup_domain` against the invariant of the pool.
use tproxy2ss.Base.{
  ℕ, ◌-◌, ◌<◌, ◌≡◌, inl, inr, refl, sym, ◌∙◌, arith, Bool, some, if◌then◌else◌, leb, length, take,
  length-take,
}
use mathlib.Core.Path.{subst}
use tproxy2ss.Base.Bytes.{Bytes}
use tproxy2ss.FakeDns.Defs.{max_domain_len, Entry, FakeDns, slot, ip_at}
use tproxy2ss.FakeDns.Lookup.{entry_set_domain, warn_usage, lookup_domain}
use tproxy2ss.FakeDns.Outcome.{
  Outcome, no_slot, no_memory, found, reused, inserted, replaced, renewed, first_entry,
  lookup_domain-Outcome, probes,
}
use tproxy2ss.FakeDns.Valid.{IsEntry, IsValid, write_slot-taken, write_slot-vacant}

pub warn_usage_lem :
    (p : FakeDns) → warn_usage p ≡ record p { last_warn_used = (warn_usage p).last_warn_used }
unfolding warn_usage
warn_usage_lem p = ground arith

-- The throttle of the warnings is no part of the invariant.
warned-IsValid :
    {j k q : ℕ} {p : FakeDns} (x : ℕ)
    → IsValid j k q p
    → IsValid j k q (record p { last_warn_used = x })
unfolding slot ip_at
warned-IsValid {p} x v = record {
  range =
      let r = v.range in
      record {
        word = r.word;
        small = r.small;
        base = r.base;
        size = r.size;
        mask = r.mask;
        net = r.net;
        shape = r.shape;
      };
  entries = λ m e s.
      let w = v.entries m e s in
      record { address = w.address; fits = w.fits; clock = w.clock; generation = w.generation };
  used = v.used;
}

copy_len-lt : (n : ℕ) → (if leb max_domain_len n then max_domain_len - 1 else n) < max_domain_len
copy_len-lt n = ground arith

length-take-lt : (n m : ℕ) (xs : Bytes) → n < m → length (take n xs) < m
length-take-lt n m xs h = omega (arith, length-take n xs)

set_domain-fits :
    (e : Entry) (domain : Bytes) → length (entry_set_domain e domain).domain < max_domain_len
unfolding entry_set_domain
set_domain-fits e domain = length-take-lt _ max_domain_len domain (copy_len-lt (length domain))

pub set_domain_rest :
    (e : Entry) (domain : Bytes)
    → ((entry_set_domain e domain).ip ≡ e.ip)
      × ((entry_set_domain e domain).expire ≡ e.expire)
      × ((entry_set_domain e domain).version ≡ e.version)
unfolding entry_set_domain
set_domain_rest e domain = (refl, refl, refl)

module _ {j k q : ℕ} {p : FakeDns} (v : IsValid j k q p) (now : ℕ) (domain : Bytes) (i : ℕ) where
  renewed-IsEntry : (e : Entry) → slot p i ≡ some e → IsEntry p i (renewed e now)
  renewed-IsEntry e s =
      let w = v.entries i e s in
      record { address = w.address; fits = w.fits; clock = omega arith; generation = w.generation }

  replaced-IsEntry : (e : Entry) → slot p i ≡ some e → IsEntry p i (replaced e domain now)
  replaced-IsEntry e s =
      let w = v.entries i e s in
      record {
        address = (set_domain_rest e domain).0 ∙ w.address;
        fits = set_domain-fits e domain;
        clock = omega arith;
        generation = omega arith;
      }

  first_entry-IsEntry : IsEntry p i (first_entry p i domain now)
  first_entry-IsEntry = record {
    address = (set_domain_rest _ domain).0;
    fits = set_domain-fits _ domain;
    clock = rw ((set_domain_rest _ domain).1) (omega arith);
    generation = rw ((set_domain_rest _ domain).2) (omega arith);
  }

module _ {j k q : ℕ} {p : FakeDns} (v : IsValid j k q p) (hash : Bytes → ℕ) (now : ℕ)
    (memory : Bool) (domain : Bytes) where
  Outcome-IsValid :
      {r : FakeDns × ℕ}
      → Outcome (probes hash now p domain) memory p domain now r
      → IsValid j k q r.0
  Outcome-IsValid (no_slot t e) = subst (λ x. IsValid j k q x.0) (sym e) v
  Outcome-IsValid (no_memory t e) = subst (λ x. IsValid j k q x.0) (sym e) v
  Outcome-IsValid (found i e t h s m (inl (same, _))) = subst (λ x. IsValid j k q x.0) (sym same) v
  Outcome-IsValid (found i e t h s m (inr new)) =
      subst (λ x. IsValid j k q x.0) (sym new)
        (write_slot-taken v i (renewed e now) h (renewed-IsEntry v now domain i e s) e s)
  Outcome-IsValid (reused i e t h s old new) =
      subst (λ x. IsValid j k q x.0) (sym new)
        (write_slot-taken v i (replaced e domain now) h (replaced-IsEntry v now domain i e s) e s)
  Outcome-IsValid (inserted i t h s new) =
      subst (λ x. IsValid j k q x.0) (sym new)
        (subst (IsValid j k q) (sym (warn_usage_lem _)) (
          warned-IsValid _ (
            write_slot-vacant v i (first_entry p i domain now) h
              (first_entry-IsEntry v now domain i) s)))

  -- From a well-formed pool `fakedns_lookup_domain` leads to a well-formed pool, on every branch.
  pub lookup_domain-IsValid : IsValid j k q (lookup_domain hash now memory p domain).0
  lookup_domain-IsValid = Outcome-IsValid (lookup_domain-Outcome v hash now memory domain)
