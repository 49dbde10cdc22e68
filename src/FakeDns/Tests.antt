-- ===== src/FakeDns/Tests.antt =====
-- The theorems on src/fakedns.c at a pool of 256 addresses, 198.18.0.0/24, with the length of a
-- name for its hash.
use tproxy2ss.Base.{
  ℕ, zero, suc, ◌+◌, ◌*◌, ◌/◌, ◌^◌, ◌<◌, ◌≡◌, ◌≢◌, refl, arith, true, false, Option, none, some,
  List, [], ◌∷◌, length, replicate,
}
use mathlib.Core.Path.{subst}
use mathlib.Core.Option.{some_inj, none-ne-some}
use tproxy2ss.Base.Word.{htonl}
use tproxy2ss.Base.Bytes.{Bytes, strcmp_eq, c_str}
use tproxy2ss.FakeDns.Defs.{
  max_domain_len, Entry, FakeDns, slot, slot_of, write_slot, ip_at, is_fakeip,
}
use tproxy2ss.FakeDns.Lookup.{
  entry_set_domain, is_expired, note_expired, scan, refresh, overwrite, warn_usage, insert,
  dispatch, lookup_domain,
}
use tproxy2ss.FakeDns.Valid.{IsValid}
use tproxy2ss.FakeDns.Init.{fresh_pool, fresh_pool-IsValid}
use tproxy2ss.FakeDns.Keeps.{lookup_domain-IsValid}
use tproxy2ss.FakeDns.Mapping.{lookup_domain-again, lookup_domain-apart}
use tproxy2ss.FakeDns.Reverse.{mru_start, reverse_lookup}
use tproxy2ss.FakeDns.Coherent.{Coherent, pool_answer, reverse_lookup-exact, mru_start-Coherent}
use tproxy2ss.FakeDns.RoundTrip.{HasVersions, reverse_lookup-lookup_domain}

abbrev network : FakeDns
network = fresh_pool [] (198 * 2 ^ 24 + 18 * 2 ^ 16) 24

network-IsValid : IsValid 24 8 ((198 * 2 ^ 24 + 18 * 2 ^ 16) / 2 ^ 8) network
network-IsValid =
    fresh_pool-IsValid [] (198 * 2 ^ 24 + 18 * 2 ^ 16) 24 (omega arith) (omega arith) (omega arith)

abbrev name : Bytes
name = b'a' ∷ b'.' ∷ b'b' ∷ []

abbrev other_name : Bytes
other_name = b'c' ∷ b'.' ∷ b'd' ∷ []

abbrev asked : FakeDns × ℕ
asked = lookup_domain length 1000 true network name

program : Unit {0}
unfolding fresh_pool lookup_domain entry_set_domain is_expired note_expired scan refresh overwrite
    warn_usage insert dispatch slot_of slot write_slot ip_at is_fakeip htonl strcmp_eq
program = tt

given : asked.1 ≢ 0
unfolding program
given e = absurd (omega (arith, e))

other_asked : (lookup_domain length 2000 true asked.0 other_name).1 ≡ 67113670
unfolding program
other_asked = refl

-- No slot of the fresh pool holds an entry.
vacant : (n i : ℕ) (e : Entry) → slot_of (replicate n none) i ≡ some e → ⊥
unfolding slot_of
vacant zero i e h = none-ne-some e h
vacant (suc n) zero e h = none-ne-some e h
vacant (suc n) (suc i) e h = vacant n i e h

network-HasVersions : HasVersions network
unfolding fresh_pool slot
network-HasVersions i e h = absurd (vacant 256 i e h)

asked-IsValid : IsValid 24 8 ((198 * 2 ^ 24 + 18 * 2 ^ 16) / 2 ^ 8) asked.0
asked-IsValid = lookup_domain-IsValid network-IsValid length 1000 true name

asked_entry : Entry
asked_entry = record { ip = 50336454; expire = 87400; version = 1; domain = name }

asked-slots : asked.0.slots ≡ none ∷ none ∷ none ∷ some asked_entry ∷ replicate 252 none
unfolding program asked_entry
asked-slots = refl

asked-slot : slot asked.0 3 ≡ some asked_entry
unfolding program asked_entry
asked-slot = refl

asked_entry-live : is_expired asked_entry 2000 ≡ false
unfolding program asked_entry
asked_entry-live = refl

live_at :
    (i : ℕ) (e : Entry)
    → slot_of (none ∷ none ∷ none ∷ some asked_entry ∷ replicate 252 none) i ≡ some e
    → is_expired e 2000 ≡ false
unfolding slot_of
live_at zero e h = absurd (none-ne-some e h)
live_at (suc zero) e h = absurd (none-ne-some e h)
live_at (suc (suc zero)) e h = absurd (none-ne-some e h)
live_at (suc (suc (suc zero))) e h =
    subst (λ (x : Entry). is_expired x 2000 ≡ false) (some_inj.0 h) asked_entry-live
live_at (suc (suc (suc (suc i)))) e h = absurd (vacant 252 i e h)

-- The one entry of the pool is live a little later.
asked-live :
    (i : ℕ) (e : Entry)
    → slot asked.0 i ≡ some e
    → strcmp_eq e.domain name ≡ true
    → is_expired e 2000 ≡ false
unfolding slot
asked-live i e h same =
    live_at i e (subst (λ (l : List (Option Entry)). slot_of l i ≡ some e) asked-slots h)

short_name : length name < max_domain_len
short_name = omega arith

short_other : length other_name < max_domain_len
short_other = omega arith

differ : strcmp_eq other_name name ≡ false
unfolding strcmp_eq
differ = refl

lookup_domain-IsValid_example :
    IsValid 24 8
      ((198 * 2 ^ 24 + 18 * 2 ^ 16) / 2 ^ 8)
      (lookup_domain length 2000 true asked.0 other_name).0
lookup_domain-IsValid_example = lookup_domain-IsValid asked-IsValid length 2000 true other_name

lookup_domain-again_example : (lookup_domain length 5000 false asked.0 name).1 ≡ asked.1
lookup_domain-again_example =
    lookup_domain-again length network-IsValid 1000 true name short_name 5000 false given

lookup_domain-apart_example : (lookup_domain length 2000 true asked.0 other_name).1 ≢ asked.1
lookup_domain-apart_example =
    lookup_domain-apart length network-IsValid 1000 true name 2000 true other_name short_name
      short_other differ asked-live given

reverse_lookup-exact_example :
    ((reverse_lookup asked.0 asked.1 max_domain_len mru_start).1
      ≡ pool_answer asked.0 asked.1 max_domain_len)
    × Coherent asked.0 (reverse_lookup asked.0 asked.1 max_domain_len mru_start).0
reverse_lookup-exact_example =
    reverse_lookup-exact asked-IsValid asked.1 max_domain_len mru_start (mru_start-Coherent asked.0)

reverse_lookup-lookup_domain_example :
    (reverse_lookup asked.0 asked.1 max_domain_len mru_start).1 ≡ some (c_str name)
reverse_lookup-lookup_domain_example =
    reverse_lookup-lookup_domain network-IsValid length 1000 true name short_name mru_start
      (mru_start-Coherent asked.0) given
