-- ===== src/FakeDns/Query.antt =====
-- src/fakedns.c, `fakedns_process_query`: one DNS query to its response. A response is the bytes
-- written to the buffer; `none` is the return value 0. The buffer may be the query's own: the
-- function reads nothing of the query after it has begun to write.
pub mod Walk
pub mod Bounds
pub mod State
pub mod Echo
pub mod Resolved
mod Tests
use tproxy2ss.Base.{
  ℕ, zero, suc, ◌+◌, ◌-◌, ◌*◌, ◌/◌, ◌%◌, ◌^◌, ◌≤◌, ◌<◌, ◌≡◌, bit_and, bit_or, Bool, true, false,
  ◌&&◌, ◌||◌, not, Option, none, some, List, [], ◌∷◌, ◌++◌, length, take, drop, get_or, set, ltb,
  leb, ◌==◌, if◌then◌else◌,
}
use tproxy2ss.Base.Word.{htonl, raw32}
use tproxy2ss.Base.Bytes.{Bytes}
use tproxy2ss.FakeDns.Defs.{max_domain_len, dns_ttl, FakeDns}
use tproxy2ss.FakeDns.Lookup.{lookup_domain}
use tproxy2ss.FakeDns.Name.{walk, encode_dns_name}
use tproxy2ss.FakeDns.Ptr.{parse_ptr_name}
use tproxy2ss.FakeDns.Reverse.{Mru, reverse_lookup}

-- `(query[i] << 8) | query[i + 1]`
abbrev pub be16 : Bytes → ℕ → ℕ
be16 query i = get_or query i 0 * 2 ^ 8 + get_or query (i + 1) 0

-- The header fields that every response sets: flags, ANCOUNT, NSCOUNT, ARCOUNT.
unfoldable pub with_flags : ℕ → Bytes → Bytes
with_flags flags b = set (set b 2 (bit_and (flags / 2 ^ 8) 0xff)) 3 (bit_and flags 0xff)

unfoldable pub response_head : ℕ → Bytes → Bytes
response_head flags b =
    set (set (set (set (set (set (with_flags flags b) 6 0) 7 0) 8 0) 9 0) 10 0) 11 0

-- The answer record of an A query
unfoldable pub answer_a : ℕ → Bytes
answer_a fakeip =
    (0xc0 ∷ 0x0c ∷ 0 ∷ 1 ∷ 0 ∷ 1 ∷ []) ++ raw32 (htonl dns_ttl) ++ (0 ∷ 4 ∷ []) ++ raw32 fakeip

-- The answer record of a PTR query
unfoldable pub answer_ptr : Bytes → Bytes
answer_ptr rdata =
    (0xc0 ∷ 0x0c ∷ 0 ∷ 0x0c ∷ 0 ∷ 1 ∷ [])
    ++ raw32 (htonl dns_ttl)
    ++ (length rdata / 2 ^ 8 % 256 ∷ length rdata % 256 ∷ [])
    ++ rdata

-- The pool, the cache of the DNS thread, and the response.
pub record Reply : Type 0 where
  pub pool : FakeDns
  pub mru : Mru
  pub response : Option Bytes

abbrev pub silent : FakeDns → Mru → Reply
silent p mru = record { pool = p; mru = mru; response = none }

abbrev pub says : FakeDns → Mru → Bytes → Reply
says p mru b = record { pool = p; mru = mru; response = some b }

-- A record: the address that the lookup gives, or SERVFAIL.
unfoldable pub reply_a : Mru → ℕ → ℕ → Bytes → FakeDns × ℕ → Reply
reply_a mru buflen resp_flags base (p, fakeip) =
    if fakeip == 0
    then says p mru (with_flags (bit_or resp_flags 2) base)
    else if ltb buflen (length base + 16)
    then silent p mru
    else says p mru (set (base ++ answer_a fakeip) 7 1)

-- PTR record: the domain of the address, if there is one.
unfoldable pub reply_ptr : FakeDns → ℕ → Bytes → Mru × Option Bytes → Reply
reply_ptr p buflen base (mru, none) = says p mru base
reply_ptr p buflen base (mru, some ptr_domain) =
    elim (encode_dns_name ptr_domain (max_domain_len + 2)) [
      | none ↦ says p mru base
      | some rdata ↦
          if ltb buflen (length base + 12 + length rdata)
          then silent p mru
          else says p mru (set (base ++ answer_ptr rdata) 7 1)
    ]

module _ (hash : Bytes → ℕ) (now : ℕ) (memory : Bool) where
  -- The part of the function behind the question, at the type of the query.
  unfoldable pub reply_type : FakeDns → Mru → ℕ → ℕ → Bytes → ℕ → Bytes → Reply
  reply_type p mru buflen resp_flags base qtype domain =
      if qtype == 1
      then reply_a mru buflen resp_flags base (lookup_domain hash now memory p domain)
      else if qtype == 12
      then elim (parse_ptr_name domain) [
        | none ↦ says p mru base
        | some ptr_ip ↦ reply_ptr p buflen base (reverse_lookup p ptr_ip max_domain_len mru)
      ]
      else says p mru base

  -- The part of the function behind the walk through QNAME
  unfoldable pub reply_question : FakeDns → Mru → Bytes → ℕ → ℕ → ℕ × Bytes → Reply
  reply_question p mru query buflen resp_flags (offset, domain) =
      let qtype = be16 query offset in
      let qclass = be16 query (offset + 2) in
      if length domain == 0
      then silent p mru
      else if ltb (length query) (offset + 4)
      then silent p mru
      else if ltb buflen (offset + 4)
      then silent p mru
      else if not (qclass == 1)
      then says p mru (response_head (bit_or resp_flags 5) (take (offset + 4) query))
      else reply_type p mru buflen resp_flags (response_head resp_flags (take (offset + 4) query))
          qtype domain

  -- `fakedns_process_query`
  unfoldable pub process_query : FakeDns → Mru → Bytes → ℕ → Reply
  process_query p mru query buflen =
      let flags = be16 query 2 in
      let resp_flags = bit_or 0x8180 (bit_and flags 0x0100) in
      if ltb (length query) 12 || ltb buflen (length query)
      then silent p mru
      else if not (bit_and flags 0xf800 == 0) || not (be16 query 4 == 1)
      then silent p mru
      else elim (walk query 128 12 []) [
        | none ↦ silent p mru
        | some found ↦ reply_question p mru query buflen resp_flags found
      ]
