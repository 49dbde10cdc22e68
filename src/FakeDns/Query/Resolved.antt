-- ===== src/FakeDns/Query/Resolved.antt =====
-- src/fakedns.c: the answer to an A query, and the reverse lookup of its address.
use tproxy2ss.Base.{
  ℕ, zero, suc, ◌+◌, ◌≤◌, ◌<◌, ◌≡◌, ◌≢◌, inl, inr, refl, sym, ap, ◌∙◌, arith, bit_or, Bool, Option,
  some, [], ◌∷◌, ◌++◌, length, length-set, length-take, take, drop, drop_append, drop-drop, set,
  get_elem?, get_elem?-set_ne, get_elem?-set_self, ltb, ◌==◌, Bool-cases,
}
use mathlib.Core.Path.{subst}
use mathlib.Core.Option.{none-ne-some, some_inj}
use tproxy2ss.Base.Bytes.{Bytes, c_str}
use tproxy2ss.Base.Word.{htonl, raw32}
use tproxy2ss.FakeDns.Coherent.{Coherent}
use tproxy2ss.FakeDns.Defs.{max_domain_len, FakeDns}
use tproxy2ss.FakeDns.Lookup.{lookup_domain}
use tproxy2ss.FakeDns.Name.{walk}
use tproxy2ss.FakeDns.Query.{
  be16, with_flags, response_head, answer_a, Reply, reply_a, reply_type, process_query,
}
use tproxy2ss.FakeDns.Query.Bounds.{
  flags_for, Parsed, dropped, refused, asked, process_query-Parsed, length-base, length-with_flags,
}
use tproxy2ss.FakeDns.Reverse.{Mru, reverse_lookup}
use tproxy2ss.FakeDns.RoundTrip.{reverse_lookup-lookup_domain}
use tproxy2ss.FakeDns.Valid.{IsValid}

-- The low byte of ANCOUNT
abbrev answer_count : Bytes → Option ℕ
answer_count b = get_elem? b 7

drop-set : (n i : ℕ) (l : Bytes) (v : ℕ) → i < n → drop n (set l i v) ≡ drop n l
drop-set zero i l v h = absurd (omega (arith, h))
drop-set (suc n) i [] v h = refl
drop-set (suc n) zero (x ∷ l) v h = refl
drop-set (suc n) (suc i) (x ∷ l) v h = drop-set n i l v (omega (arith, h))

answer_count-head :
    (flags : ℕ) (b : Bytes) → 12 ≤ length b → answer_count (response_head flags b) ≡ some 0
unfolding response_head
answer_count-head flags b h =
    let head = set (with_flags flags b) 6 0 in
    let long : 7 < length head =
      omega (arith, h, length-set (with_flags flags b) 6 0, length-with_flags flags b) in
    get_elem?-set_ne _ 11 7 0 (omega arith)
    ∙ get_elem?-set_ne _ 10 7 0 (omega arith)
    ∙ get_elem?-set_ne _ 9 7 0 (omega arith)
    ∙ get_elem?-set_ne _ 8 7 0 (omega arith)
    ∙ get_elem?-set_self head 7 0 long

answer_count-with_flags :
    (flags : ℕ) (b : Bytes) → answer_count (with_flags flags b) ≡ answer_count b
unfolding with_flags
answer_count-with_flags flags b =
    get_elem?-set_ne _ 3 7 _ (omega arith) ∙ get_elem?-set_ne b 2 7 _ (omega arith)

answer_a-address : (ip : ℕ) → drop 12 (answer_a ip) ≡ raw32 ip
unfolding answer_a raw32 htonl
answer_a-address ip = refl

drop-answer_a :
    (base : Bytes) (ip : ℕ) → drop (length base + 12) (set (base ++ answer_a ip) 7 1) ≡ raw32 ip
drop-answer_a base ip =
    drop-set (length base + 12) 7 (base ++ answer_a ip) 1 (omega arith)
    ∙ sym (drop-drop (length base) 12 (base ++ answer_a ip))
    ∙ ap (drop 12) (drop_append base (answer_a ip))
    ∙ answer_a-address ip

-- A response with an answer comes of an address, which it ends with.
reply_a-answers :
    (mru : Mru) (buflen flags : ℕ) (base b : Bytes) (r : FakeDns × ℕ)
    → answer_count base ≡ some 0
    → (reply_a mru buflen flags base r).response ≡ some b
    → answer_count b ≡ some 1
    → (r.1 ≢ 0)
      × (drop (length base + 12) b ≡ raw32 r.1)
      × ((reply_a mru buflen flags base r).pool ≡ r.0)
unfolding reply_a
reply_a-answers mru buflen flags base b (p, ip) blank e one = elim (Bool-cases (ip == 0)) [
  | inl failed ↦
      let is : with_flags (bit_or flags 2) base ≡ b = some_inj.0 (rw failed at e) in
      let z : 0 ≡ 1 = some_inj.0 (
        sym blank
        ∙ sym (answer_count-with_flags (bit_or flags 2) base)
        ∙ ap answer_count is
        ∙ one) in
      absurd (omega (arith, z))
  | inr given ↦ elim (Bool-cases (ltb buflen (length base + 16))) [
    | inl full ↦ absurd (none-ne-some b (rw (given, full) at e))
    | inr room ↦
        let is : set (base ++ answer_a ip) 7 1 ≡ b = some_inj.0 (rw (given, room) at e) in
        (
          ground (arith, given),
          ap (drop (length base + 12)) (sym is) ∙ drop-answer_a base ip,
          rw (given, room) refl,
        )
  ]
]

module _ {j k q : ℕ} (hash : Bytes → ℕ) (now : ℕ) (memory : Bool) (p : FakeDns) (mru : Mru)
    (query : Bytes) (buflen : ℕ) (v : IsValid j k q p) where
  -- The address that ends a response is resolved back to the domain.
  Resolves : Bytes → ℕ × Bytes → Type 0
  Resolves b (o, d) =
      be16 query o ≡ 1
      → (ip : ℕ) × (drop (o + 16) b ≡ raw32 ip)
        × ((cache : Mru)
            → Coherent (process_query hash now memory p mru query buflen).pool cache
            → (reverse_lookup (process_query hash now memory p mru query buflen).pool ip
                max_domain_len cache).1
              ≡ some (c_str d))

  Parsed-Resolves :
      (b : Bytes)
      → Parsed hash now memory p mru query buflen (process_query hash now memory p mru query buflen)
      → (process_query hash now memory p mru query buflen).response ≡ some b
      → answer_count b ≡ some 1
      → (o : ℕ) × (d : Bytes) × (walk query 128 12 [] ≡ some (o, d)) × Resolves b (o, d)
  unfolding Resolves reply_type
  Parsed-Resolves b (dropped is) e one =
      absurd (none-ne-some b (sym (ap (λ (r : Reply). r.response) is) ∙ e))
  Parsed-Resolves b (refused o d lo here room w is) e one =
      let flags = bit_or (flags_for query) 5 in
      let z : 0 ≡ 1 = some_inj.0 (
        sym (
          answer_count-head flags (take (o + 4) query)
            (omega (arith, lo, here, length-take (o + 4) query)))
        ∙ ap answer_count (some_inj.0 (sym (ap (λ (r : Reply). r.response) is) ∙ e))
        ∙ one) in
      absurd (omega (arith, z))
  Parsed-Resolves b (asked o d lo here room short w is) e one = (
    o,
    d,
    w,
    λ a.
        let flags = flags_for query in
        let base = response_head flags (take (o + 4) query) in
        let r = lookup_domain hash now memory p d in
        let size = length-base flags o query here in
        let end : length base + 12 ≡ o + 16 = omega (arith, size) in
        let all : process_query hash now memory p mru query buflen
            ≡ reply_a mru buflen flags base r =
          is ∙ ap (λ t. reply_type hash now memory p mru buflen flags base t d) a in
        let (given, address, pool) =
          reply_a-answers mru buflen flags base b r
            (answer_count-head flags (take (o + 4) query)
              (omega (arith, lo, here, length-take (o + 4) query)))
            (sym (ap (λ (x : Reply). x.response) all) ∙ e) one in
        let kept : (process_query hash now memory p mru query buflen).pool ≡ r.0 =
          ap (λ (x : Reply). x.pool) all ∙ pool in
        (
          r.1,
          ap (λ n. drop n b) (sym end) ∙ address,
          λ cache c.
              subst (λ x. (reverse_lookup x r.1 max_domain_len cache).1 ≡ some (c_str d)) (sym kept)
                (reverse_lookup-lookup_domain v hash now memory d short cache
                  (subst (λ x. Coherent x cache) kept c) given),
        ),
  )

  -- The response to an A query on a well-formed pool, if it counts an answer, ends with an address
  -- that every thread whose cache is coherent resolves back to the domain that the walk read from
  -- the query, up to its first NUL byte.
  pub process_query-resolves :
      (o : ℕ) (d b : Bytes)
      → walk query 128 12 [] ≡ some (o, d)
      → be16 query o ≡ 1
      → (process_query hash now memory p mru query buflen).response ≡ some b
      → get_elem? b 7 ≡ some 1
      → let r = process_query hash now memory p mru query buflen in
        (ip : ℕ) × (drop (o + 16) b ≡ raw32 ip)
        × ((cache : Mru)
            → Coherent r.pool cache
            → (reverse_lookup r.pool ip max_domain_len cache).1 ≡ some (c_str d))
  unfolding Resolves
  process_query-resolves o d b name type_a e one =
      let (o', d', w, f) =
        Parsed-Resolves b (process_query-Parsed hash now memory p mru query buflen) e one in
      subst (Resolves b) (some_inj.0 (sym w ∙ name)) f type_a
