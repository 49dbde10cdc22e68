-- ===== src/FakeDns/Coherent.antt =====
-- src/fakedns.c: the cache of `fakedns_reverse_lookup` against the pool.
use tproxy2ss.Base.{
  ℕ, ◌-◌, ◌≤◌, ◌<◌, ◌≡◌, inl, inr, refl, sym, ap, ◌∙◌, arith, bit_and, true, false, ◌&&◌, not,
  Option, none, some, [], ◌∷◌, length, take, leb, ◌==◌, if◌then◌else◌, Bool-cases, Option-cases,
  take_of_length-le,
}
use mathlib.Core.Path.{subst}
use tproxy2ss.Base.Word.{sub32, htonl}
use tproxy2ss.Base.Bytes.{Bytes, c_str, c_str-c_str, length-c_str-le}
use tproxy2ss.FakeDns.Defs.{max_domain_len, Entry, FakeDns, slot}
use tproxy2ss.FakeDns.Reverse.{
  MruEntry, Mru, mru_start, Fast, hit, fell, behind, is_clean, fast_path, prefix, drop_last,
  slow_path, answer, reverse_lookup,
}
use tproxy2ss.FakeDns.Valid.{IsValid}

-- The slot that an address names.
abbrev pub slot_for : FakeDns → ℕ → Option Entry
slot_for p ip = slot p (sub32 (htonl ip) p.net_host)

-- A valid item whose version is that of its slot has the slot's domain; versions in the cache
-- are not ahead of the pool.
abbrev pub Agrees : Option Entry → MruEntry → Type 0
Agrees none m = ⊥
Agrees (some e) m = (m.version ≤ e.version) × (m.version ≡ e.version → m.domain ≡ c_str e.domain)

abbrev pub Coherent : FakeDns → Mru → Type 0
Coherent p [] = Unit
Coherent p (m ∷ ms) = (m.valid ≡ true → Agrees (slot_for p m.ip) m) × Coherent p ms

-- What the pool answers for a slot.
abbrev pub told : Option Entry → ℕ → Option Bytes
told none n = none
told (some e) n = some (prefix (n - 1) e.domain)

-- What the pool alone answers.
unfoldable pub pool_answer : FakeDns → ℕ → ℕ → Option Bytes
pool_answer p ip buf_len =
    if buf_len == 0
    then none
    else if not (bit_and (htonl ip) p.mask_host == p.net_host)
    then none
    else if leb p.pool_size (sub32 (htonl ip) p.net_host)
    then none
    else told (slot_for p ip) buf_len

pub mru_start-Coherent : (p : FakeDns) → Coherent p mru_start
mru_start-Coherent p = ground arith

drop_last-Coherent : (p : FakeDns) (l : Mru) → Coherent p l → Coherent p (drop_last l)
unfolding drop_last
drop_last-Coherent p [] c = tt
drop_last-Coherent p (m ∷ []) c = tt
drop_last-Coherent p (m ∷ m' ∷ ms) c = (c.0, drop_last-Coherent p (m' ∷ ms) c.1)

-- What the fast path leaves behind.
abbrev Leaves : FakeDns → ℕ → Fast → Type 0
Leaves p ip (hit m others) =
    Coherent p (m ∷ others)
    × (m.valid ≡ true)
    × (m.ip ≡ ip)
    × (e : Entry) × (slot_for p ip ≡ some e)
    × (m.domain ≡ c_str e.domain)
Leaves p ip (fell l) = Coherent p l

behind-Leaves :
    (p : FakeDns) (ip : ℕ) (m : MruEntry) (f : Fast)
    → (m.valid ≡ true → Agrees (slot_for p m.ip) m)
    → Leaves p ip f
    → Leaves p ip (behind m f)
behind-Leaves p ip m (hit x others) a (c, v, i, e, s, d) = ((c.0, (a, c.1)), v, i, e, s, d)
behind-Leaves p ip m (fell l) a c = (a, c)

clean-hit :
    (cell : Option Entry) (m : MruEntry)
    → is_clean cell m ≡ true
    → Agrees cell m
    → (e : Entry) × (cell ≡ some e) × (m.domain ≡ c_str e.domain)
unfolding is_clean
clean-hit none m t a = elim a [ ]
clean-hit (some e) m t a = (e, refl, a.1 (ground arith))

module _ (cell : Option Entry) (ip : ℕ) (m : MruEntry) (ms : Mru) where
  fast_path-other :
      (m.valid && m.ip == ip) ≡ false → fast_path cell ip (m ∷ ms) ≡ behind m (fast_path cell ip ms)
  unfolding fast_path
  fast_path-other h = rw h

  fast_path-clean :
      (m.valid && m.ip == ip) ≡ true
      → is_clean cell m ≡ true
      → fast_path cell ip (m ∷ ms) ≡ hit m ms
  unfolding fast_path
  fast_path-clean h c = rw (h, c)

  fast_path-dirty :
      (m.valid && m.ip == ip) ≡ true
      → is_clean cell m ≡ false
      → fast_path cell ip (m ∷ ms) ≡ fell (record m { valid = false } ∷ ms)
  unfolding fast_path
  fast_path-dirty h c = rw (h, c)

fast_path-Leaves :
    (p : FakeDns) (ip : ℕ) (l : Mru) → Coherent p l → Leaves p ip (fast_path (slot_for p ip) ip l)
unfolding fast_path
fast_path-Leaves p ip [] c = tt
fast_path-Leaves p ip (m ∷ ms) c = elim (Bool-cases (m.valid && m.ip == ip)) [
  | inr other ↦
      subst (Leaves p ip) (sym (fast_path-other (slot_for p ip) ip m ms other))
        (behind-Leaves p ip m (fast_path (slot_for p ip) ip ms) c.0 (fast_path-Leaves p ip ms c.1))
  | inl here ↦ elim (Bool-cases (is_clean (slot_for p ip) m)) [
    | inl clean ↦
        let v : m.valid ≡ true = ground arith in
        let i : m.ip ≡ ip = ground arith in
        let a = subst (λ n. Agrees (slot_for p n) m) i (c.0 v) in
        let (e, s, d) = clean-hit (slot_for p ip) m clean a in
        subst (Leaves p ip) (sym (fast_path-clean (slot_for p ip) ip m ms here clean))
          (c, v, i, e, s, d)
    | inr dirty ↦
        subst (Leaves p ip) (sym (fast_path-dirty (slot_for p ip) ip m ms here dirty))
          ((λ t. absurd (cc)), c.1)
  ]
]

-- The two ways to copy a domain give the same bytes.
prefix_twice :
    (d : Bytes) (n : ℕ)
    → 0 < n
    → length d < max_domain_len
    → let t = prefix (max_domain_len - 1) d in
      take (if leb n (length t) then n - 1 else length t) t ≡ prefix (n - 1) d
prefix_twice d n pos fits =
    let whole : prefix (max_domain_len - 1) d ≡ c_str d =
      take_of_length-le 243 (c_str d) (omega (arith, length-c_str-le d)) in
    subst (λ t. take (if leb n (length t) then n - 1 else length t) t ≡ take (n - 1) (c_str d))
      (sym whole)
      (elim (Bool-cases (leb n (length (c_str d)))) [
        | inl long ↦ rw long
        | inr short ↦ rw short (
            take_of_length-le (length (c_str d)) (c_str d) (omega arith)
            ∙ sym (take_of_length-le (n - 1) (c_str d) (ground arith)))
      ])

module _ {j k q : ℕ} {p : FakeDns} (v : IsValid j k q p) (ip n : ℕ) (pos : 0 < n) where
  slow_path_lem :
      (l : Mru)
      → Coherent p l
      → ((slow_path (slot_for p ip) ip n l).1 ≡ told (slot_for p ip) n)
        × Coherent p (slow_path (slot_for p ip) ip n l).0
  unfolding slow_path
  slow_path_lem l c = elim (Option-cases (slot_for p ip)) [
    | inl empty ↦ rw (empty, slow_path) (refl, c)
    | inr (e, s) ↦
        let fits = (v.entries (sub32 (htonl ip) p.net_host) e s).fits in
        let m : MruEntry = record {
          ip = ip;
          version = e.version;
          valid = true;
          domain = prefix (max_domain_len - 1) e.domain;
        } in
        let whole : m.domain ≡ c_str e.domain =
          take_of_length-le 243 (c_str e.domain) (omega (arith, length-c_str-le e.domain)) in
        let agrees : Agrees (slot_for p ip) m =
          subst (λ cell. Agrees cell m) (sym s) (omega arith, λ _. whole) in
        subst
          (λ cell. ((slow_path cell ip n l).1 ≡ told cell n) × Coherent p (slow_path cell ip n l).0)
          (sym s)
          (ap some (prefix_twice e.domain n pos fits), ((λ _. agrees), drop_last-Coherent p l c))
  ]

  answer_lem :
      (f : Fast)
      → Leaves p ip f
      → ((answer (slot_for p ip) ip n f).1 ≡ told (slot_for p ip) n)
        × Coherent p (answer (slot_for p ip) ip n f).0
  unfolding answer
  answer_lem (hit m others) (c, _, i, e, s, d) = (
    subst (λ cell. some (prefix (n - 1) m.domain) ≡ told cell n) (sym s)
        (ap some (rw d (ap (take (n - 1)) (c_str-c_str e.domain)))),
    c,
  )
  answer_lem (fell l) c = slow_path_lem l c

-- On a well-formed pool `fakedns_reverse_lookup` answers what the pool alone would answer,
-- whatever a coherent cache holds, for every address and buffer size; and it keeps the cache
-- coherent.
pub reverse_lookup-exact :
    {j k q : ℕ} {p : FakeDns} (v : IsValid j k q p) (ip n : ℕ) (mru : Mru)
    → Coherent p mru
    → ((reverse_lookup p ip n mru).1 ≡ pool_answer p ip n)
      × Coherent p (reverse_lookup p ip n mru).0
unfolding reverse_lookup pool_answer
reverse_lookup-exact {p} v ip n mru c = elim (Bool-cases (n == 0)) [
  | inl empty ↦ rw empty (refl, c)
  | inr room ↦ elim (Bool-cases (bit_and (htonl ip) p.mask_host == p.net_host)) [
    | inr foreign ↦ rw (room, foreign) (refl, c)
    | inl inside ↦ elim (Bool-cases (leb p.pool_size (sub32 (htonl ip) p.net_host))) [
      | inl out ↦ rw (room, inside, out) (refl, c)
      | inr within ↦
          rw (room, inside, within)
            (answer_lem v ip n (ground arith) (fast_path (slot_for p ip) ip mru)
              (fast_path-Leaves p ip mru c))
    ]
  ]
]
