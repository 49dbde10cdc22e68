-- ===== src/FakeDns/Query/Bounds.antt =====
-- src/fakedns.c, `fakedns_process_query`: the branches of the parser and the response's length.
use tproxy2ss.Base.{
  ℕ, ◌+◌, ◌≤◌, ◌<◌, ◌≡◌, inl, inr, refl, sym, arith, bit_and, bit_or, Bool, ◌||◌, not, Option, none,
  some, [], ◌++◌, length, take, ltb, ◌==◌, ltb→le, Bool-cases, Option-cases, length-append,
  length-take, length-set,
}
use mathlib.Core.Path.{subst}
use tproxy2ss.Base.Word.{raw32}
use tproxy2ss.Base.Bytes.{Bytes}
use tproxy2ss.FakeDns.Defs.{max_domain_len, FakeDns}
use tproxy2ss.FakeDns.Lookup.{lookup_domain}
use tproxy2ss.FakeDns.Name.{walk, encode_dns_name}
use tproxy2ss.FakeDns.Ptr.{parse_ptr_name}
use tproxy2ss.FakeDns.Query.{
  be16, with_flags, response_head, answer_a, answer_ptr, Reply, silent, says, reply_a, reply_ptr,
  reply_type, reply_question, process_query,
}
use tproxy2ss.FakeDns.Query.Walk.{walk_bounds}
use tproxy2ss.FakeDns.Reverse.{Mru, reverse_lookup}

pub length-with_flags : (flags : ℕ) (b : Bytes) → length (with_flags flags b) ≡ length b
unfolding with_flags
length-with_flags flags b = simp length-set

length-response_head : (flags : ℕ) (b : Bytes) → length (response_head flags b) ≡ length b
unfolding response_head
length-response_head flags b = simp (length-set, length-with_flags)

length-answer_a : (ip : ℕ) → length (answer_a ip) ≡ 16
unfolding answer_a raw32
length-answer_a ip = refl

length-answer_ptr : (rdata : Bytes) → length (answer_ptr rdata) ≡ 12 + length rdata
unfolding answer_ptr raw32
length-answer_ptr rdata = omega arith

-- `resp_flags` of a query: an answer, recursion available, and the query's RD bit.
abbrev pub flags_for : Bytes → ℕ
flags_for query = bit_or 0x8180 (bit_and (be16 query 2) 0x0100)

-- What the function does before it looks at the type of the query: it is silent, refuses the
-- class, or goes on with the header and the question as its base.
pub data Parsed (hash : Bytes → ℕ) (now : ℕ) (memory : Bool) (p : FakeDns) (mru : Mru)
    (query : Bytes) (buflen : ℕ) (r : Reply) : Type 0 where
  dropped : r ≡ silent p mru → Parsed hash now memory p mru query buflen r
  refused :
      (o : ℕ) (d : Bytes)
      → 12 ≤ o
      → o + 4 ≤ length query
      → o + 4 ≤ buflen
      → walk query 128 12 [] ≡ some (o, d)
      → r ≡ says p mru (response_head (bit_or (flags_for query) 5) (take (o + 4) query))
      → Parsed hash now memory p mru query buflen r
  asked :
      (o : ℕ) (d : Bytes)
      → 12 ≤ o
      → o + 4 ≤ length query
      → o + 4 ≤ buflen
      → length d < max_domain_len
      → walk query 128 12 [] ≡ some (o, d)
      → r
        ≡ reply_type hash now memory p mru buflen
            (flags_for query)
            (response_head (flags_for query) (take (o + 4) query))
            (be16 query o)
            d
      → Parsed hash now memory p mru query buflen r

module _ (hash : Bytes → ℕ) (now : ℕ) (memory : Bool) (p : FakeDns) (mru : Mru) (query : Bytes)
    (buflen : ℕ) where
  reply_question-Parsed :
      (o : ℕ) (d : Bytes)
      → 12 ≤ length query
      → walk query 128 12 [] ≡ some (o, d)
      → Parsed hash now memory p mru query buflen
          (reply_question hash now memory p mru query buflen (flags_for query) (o, d))
  unfolding reply_question
  reply_question-Parsed o d long e =
      let w = walk_bounds query 128 12 [] o d long (omega arith) e in
      elim (Bool-cases (length d == 0)) [
        | inl empty ↦ dropped (rw empty)
        | inr named ↦ elim (Bool-cases (ltb (length query) (o + 4))) [
          | inl short ↦ dropped (rw (named, short))
          | inr enough ↦ elim (Bool-cases (ltb buflen (o + 4))) [
            | inl full ↦ dropped (rw (named, enough, full))
            | inr room ↦ elim (Bool-cases (be16 query (o + 2) == 1)) [
              | inl internet ↦
                  asked o d w.0 (ground arith) (ground arith) w.2 e
                    (rw (named, enough, room, internet))
              | inr other ↦
                  refused o d w.0 (ground arith) (ground arith) e (rw (named, enough, room, other))
            ]
          ]
        ]
      ]

  pub process_query-Parsed :
      Parsed hash now memory p mru query buflen (process_query hash now memory p mru query buflen)
  unfolding process_query
  process_query-Parsed = elim (Bool-cases (ltb (length query) 12 || ltb buflen (length query))) [
    | inl short ↦ dropped (rw short)
    | inr long ↦
        elim (Bool-cases (not (bit_and (be16 query 2) 0xf800 == 0) || not (be16 query 4 == 1))) [
          | inl strange ↦ dropped (rw (long, strange))
          | inr standard ↦ elim (Option-cases (walk query 128 12 [])) [
            | inl bad ↦ dropped (rw (long, standard, bad))
            | inr ((o, d), good) ↦
                subst (Parsed hash now memory p mru query buflen) (sym (rw (long, standard, good)))
                  (reply_question-Parsed o d (ground arith) good)
          ]
        ]
  ]

-- The base of every response has the length of the question's end.
pub length-base :
    (flags o : ℕ) (query : Bytes)
    → o + 4 ≤ length query
    → length (response_head flags (take (o + 4) query)) ≡ o + 4
length-base flags o query h =
    omega (arith, length-response_head flags (take (o + 4) query), length-take (o + 4) query)

abbrev Within : ℕ → Option Bytes → Type 0
Within buflen none = Unit
Within buflen (some b) = (12 ≤ length b) × (length b ≤ buflen)

module _ (mru : Mru) (buflen : ℕ) (base : Bytes) (low : 12 ≤ length base)
    (high : length base ≤ buflen) where
  reply_a-Within :
      (flags : ℕ) (r : FakeDns × ℕ) → Within buflen (reply_a mru buflen flags base r).response
  unfolding reply_a
  reply_a-Within flags (p, ip) = elim (Bool-cases (ip == 0)) [
    | inl failed ↦ rw failed (omega (arith, length-with_flags (bit_or flags 2) base))
    | inr given ↦ elim (Bool-cases (ltb buflen (length base + 16))) [
      | inl full ↦ rw (given, full) tt
      | inr room ↦
          let fits = ltb→le buflen (length base + 16) room in
          rw (given, room)
            (omega (
              arith,
              length-set (base ++ answer_a ip) 7 1,
              length-append base (answer_a ip),
              length-answer_a ip,
            ))
    ]
  ]

  reply_ptr-Within :
      (p : FakeDns) (r : Mru × Option Bytes) → Within buflen (reply_ptr p buflen base r).response
  unfolding reply_ptr
  reply_ptr-Within p (m, none) = (low, high)
  reply_ptr-Within p (m, some d) = elim (Option-cases (encode_dns_name d (max_domain_len + 2))) [
    | inl long ↦ rw (long, reply_ptr) (low, high)
    | inr (rdata, good) ↦ elim (Bool-cases (ltb buflen (length base + 12 + length rdata))) [
      | inl full ↦ rw (good, reply_ptr, full) tt
      | inr room ↦
          let fits = ltb→le buflen (length base + 12 + length rdata) room in
          rw (good, reply_ptr, room)
            (omega (
              arith,
              length-set (base ++ answer_ptr rdata) 7 1,
              length-append base (answer_ptr rdata),
              length-answer_ptr rdata,
            ))
    ]
  ]

  reply_type-Within :
      (hash : Bytes → ℕ) (now : ℕ) (memory : Bool) (p : FakeDns) (flags qtype : ℕ) (domain : Bytes)
      → Within buflen (reply_type hash now memory p mru buflen flags base qtype domain).response
  unfolding reply_type
  reply_type-Within hash now memory p flags qtype domain = elim (Bool-cases (qtype == 1)) [
    | inl a ↦ rw a (reply_a-Within flags (lookup_domain hash now memory p domain))
    | inr other ↦ elim (Bool-cases (qtype == 12)) [
      | inr rest ↦ rw (other, rest) (low, high)
      | inl ptr ↦ elim (Option-cases (parse_ptr_name domain)) [
        | inl bad ↦ rw (other, ptr, bad) (low, high)
        | inr (ip, good) ↦
            rw (other, ptr, good) (reply_ptr-Within p (reverse_lookup p ip max_domain_len mru))
      ]
    ]
  ]

module _ (hash : Bytes → ℕ) (now : ℕ) (memory : Bool) (p : FakeDns) (mru : Mru) (query : Bytes)
    (buflen : ℕ) where
  Parsed-Within :
      {r : Reply} → Parsed hash now memory p mru query buflen r → Within buflen r.response
  Parsed-Within (dropped e) = rw e tt
  Parsed-Within (refused o d lo here room _ e) =
      rw e (omega (arith, length-base (bit_or (flags_for query) 5) o query here))
  Parsed-Within (asked o d lo here room short e is) =
      let base = response_head (flags_for query) (take (o + 4) query) in
      let long : length base ≡ o + 4 = length-base (flags_for query) o query here in
      subst (λ r. Within buflen r.response) (sym is)
        (reply_type-Within mru buflen base (omega arith) (omega arith) hash now memory p
          (flags_for query) (be16 query o) d)

  -- A response of `fakedns_process_query` is a whole header at least, and never longer than the
  -- buffer.
  pub process_query-within :
      (b : Bytes)
      → (process_query hash now memory p mru query buflen).response ≡ some b
      → (12 ≤ length b) × (length b ≤ buflen)
  process_query-within b e =
      subst (Within buflen) e
        (Parsed-Within (process_query-Parsed hash now memory p mru query buflen))
