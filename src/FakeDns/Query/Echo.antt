-- ===== src/FakeDns/Query/Echo.antt =====
-- src/fakedns.c, `fakedns_process_query`: what a response repeats of its query.
use tproxy2ss.Base.{
  ℕ, zero, suc, ◌+◌, ◌≤◌, ◌<◌, ◌≡◌, ◌⊎◌, inl, inr, refl, sym, ap, ◌∙◌, arith, bit_or, Bool, Option,
  none, some, [], ◌∷◌, ◌++◌, length, take, set, get_elem?, get_elem?-set_ne, ltb, ◌==◌, Bool-cases,
  Option-cases,
}
use mathlib.Core.Path.{subst}
use mathlib.Core.Option.{none-ne-some}
use tproxy2ss.Base.Bytes.{Bytes}
use tproxy2ss.FakeDns.Defs.{max_domain_len, FakeDns}
use tproxy2ss.FakeDns.Lookup.{lookup_domain}
use tproxy2ss.FakeDns.Name.{walk, encode_dns_name}
use tproxy2ss.FakeDns.Ptr.{parse_ptr_name}
use tproxy2ss.FakeDns.Query.{
  be16, with_flags, response_head, answer_a, answer_ptr, Reply, reply_a, reply_ptr, reply_type,
  process_query,
}
use tproxy2ss.FakeDns.Query.Bounds.{
  flags_for, dropped, refused, asked, process_query-Parsed, length-base,
}
use tproxy2ss.FakeDns.Reverse.{Mru, reverse_lookup}

-- The places that no response changes: the transaction's id, the number of questions, and the
-- question behind the header.
abbrev pub IsKept : ℕ → Type 0
IsKept i = (i < 2) ⊎ ((4 ≤ i) × (i < 6)) ⊎ (12 ≤ i)

get_elem?-take : (n : ℕ) (l : Bytes) (i : ℕ) → i < n → get_elem? (take n l) i ≡ get_elem? l i
get_elem?-take zero l i h = absurd (omega (arith, h))
get_elem?-take (suc n) [] i h = refl
get_elem?-take (suc n) (x ∷ l) zero h = refl
get_elem?-take (suc n) (x ∷ l) (suc i) h = get_elem?-take n l i (omega (arith, h))

get_elem?-append : (l m : Bytes) (i : ℕ) → i < length l → get_elem? (l ++ m) i ≡ get_elem? l i
get_elem?-append [] m i h = absurd (omega (arith, h))
get_elem?-append (x ∷ l) m zero h = refl
get_elem?-append (x ∷ l) m (suc i) h = get_elem?-append l m i (omega (arith, h))

-- The bytes of the header that a response sets
abbrev IsWritten : ℕ → Type 0
IsWritten j = ((2 ≤ j) × (j < 4)) ⊎ ((6 ≤ j) × (j < 12))

-- The response, if there is one, has the byte of the base at a place.
abbrev Keeps : ℕ → Bytes → Option Bytes → Type 0
Keeps i base none = Unit
Keeps i base (some b) = get_elem? b i ≡ get_elem? base i

module _ (i : ℕ) (kept : IsKept i) where
  set-kept : (b : Bytes) (j v : ℕ) → IsWritten j → get_elem? (set b j v) i ≡ get_elem? b i
  set-kept b j v h = get_elem?-set_ne b j i v (ground arith)

  set_zero : (b : Bytes) (j : ℕ) → (6 ≤ j) × (j < 12) → get_elem? (set b j 0) i ≡ get_elem? b i
  set_zero b j h = set-kept b j 0 (inr h)

  with_flags-kept : (flags : ℕ) (b : Bytes) → get_elem? (with_flags flags b) i ≡ get_elem? b i
  unfolding with_flags
  with_flags-kept flags b =
      set-kept (set b 2 _) 3 _ (inl (omega arith)) ∙ set-kept b 2 _ (inl (omega arith))

  response_head-kept : (flags : ℕ) (b : Bytes) → get_elem? (response_head flags b) i ≡ get_elem? b i
  unfolding response_head
  response_head-kept flags b =
      set_zero _ 11 (omega arith)
      ∙ set_zero _ 10 (omega arith)
      ∙ set_zero _ 9 (omega arith)
      ∙ set_zero _ 8 (omega arith)
      ∙ set_zero _ 7 (omega arith)
      ∙ set_zero _ 6 (omega arith)
      ∙ with_flags-kept flags b

  module _ (mru : Mru) (buflen : ℕ) (base : Bytes) (h : i < length base) where
    answered-kept : (answer : Bytes) → get_elem? (set (base ++ answer) 7 1) i ≡ get_elem? base i
    answered-kept answer =
        set-kept (base ++ answer) 7 1 (inr (omega arith)) ∙ get_elem?-append base answer i h

    reply_a-kept :
        (flags : ℕ) (r : FakeDns × ℕ) → Keeps i base (reply_a mru buflen flags base r).response
    unfolding reply_a
    reply_a-kept flags (p, ip) = elim (Bool-cases (ip == 0)) [
      | inl failed ↦ rw failed (with_flags-kept (bit_or flags 2) base)
      | inr given ↦ elim (Bool-cases (ltb buflen (length base + 16))) [
        | inl full ↦ rw (given, full) tt
        | inr room ↦ rw (given, room) (answered-kept (answer_a ip))
      ]
    ]

    reply_ptr-kept :
        (p : FakeDns) (r : Mru × Option Bytes) → Keeps i base (reply_ptr p buflen base r).response
    unfolding reply_ptr
    reply_ptr-kept p (m, none) = refl
    reply_ptr-kept p (m, some d) = elim (Option-cases (encode_dns_name d (max_domain_len + 2))) [
      | inl long ↦ rw (long, reply_ptr) refl
      | inr (rdata, good) ↦ elim (Bool-cases (ltb buflen (length base + 12 + length rdata))) [
        | inl full ↦ rw (good, reply_ptr, full) tt
        | inr room ↦ rw (good, reply_ptr, room) (answered-kept (answer_ptr rdata))
      ]
    ]

    reply_type-kept :
        (hash : Bytes → ℕ) (now : ℕ) (memory : Bool) (p : FakeDns) (flags qtype : ℕ)
        (domain : Bytes)
        → Keeps i base (reply_type hash now memory p mru buflen flags base qtype domain).response
    unfolding reply_type
    reply_type-kept hash now memory p flags qtype domain = elim (Bool-cases (qtype == 1)) [
      | inl a ↦ rw a (reply_a-kept flags (lookup_domain hash now memory p domain))
      | inr other ↦ elim (Bool-cases (qtype == 12)) [
        | inr rest ↦ rw (other, rest) refl
        | inl ptr ↦ elim (Option-cases (parse_ptr_name domain)) [
          | inl bad ↦ rw (other, ptr, bad) refl
          | inr (ip, good) ↦
              rw (other, ptr, good) (reply_ptr-kept p (reverse_lookup p ip max_domain_len mru))
        ]
      ]
    ]

-- The response has the query's bytes at the places that are kept, up to the end of the question.
abbrev pub Echoes : Bytes → Bytes → Type 0
Echoes query b =
    (o : ℕ) × (d : Bytes) × (walk query 128 12 [] ≡ some (o, d))
    × (o + 4 ≤ length query)
    × ((i : ℕ) → IsKept i → i < o + 4 → get_elem? b i ≡ get_elem? query i)

module _ (hash : Bytes → ℕ) (now : ℕ) (memory : Bool) (p : FakeDns) (mru : Mru) (query : Bytes)
    (buflen : ℕ) where
  base-kept :
      (i : ℕ)
      → IsKept i
      → (flags o : ℕ) → i < o + 4
      → get_elem? (response_head flags (take (o + 4) query)) i ≡ get_elem? query i
  base-kept i kept flags o h =
      response_head-kept i kept flags (take (o + 4) query) ∙ get_elem?-take (o + 4) query i h

  -- A response of `fakedns_process_query` repeats the id, the number of questions and the
  -- question, whose name the walk went through.
  pub process_query-Echoes :
      (b : Bytes)
      → (process_query hash now memory p mru query buflen).response ≡ some b
      → Echoes query b
  process_query-Echoes b e = elim (process_query-Parsed hash now memory p mru query buflen) [
    | dropped is ↦ absurd (none-ne-some b (sym (ap (λ (r : Reply). r.response) is) ∙ e))
    | refused o d lo here room w is ↦ (
      o,
      d,
      w,
      here,
      λ i kept h.
          let base = response_head (bit_or (flags_for query) 5) (take (o + 4) query) in
          subst (Keeps i base) e (subst (λ r. Keeps i base r.response) (sym is) refl)
          ∙ base-kept i kept (bit_or (flags_for query) 5) o h,
    )
    | asked o d lo here room short w is ↦ (
      o,
      d,
      w,
      here,
      λ i kept h.
          let base = response_head (flags_for query) (take (o + 4) query) in
          let inside : i < length base =
            omega (arith, length-base (flags_for query) o query here, h) in
          subst (Keeps i base) e (
            subst (λ r. Keeps i base r.response) (sym is)
              (reply_type-kept i kept mru buflen base inside hash now memory p (flags_for query)
                (be16 query o) d))
          ∙ base-kept i kept (flags_for query) o h,
    )
  ]
