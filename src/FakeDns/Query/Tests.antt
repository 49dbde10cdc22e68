-- ===== src/FakeDns/Query/Tests.antt =====
-- The theorems on the queries and the set-up of src/fakedns.c at concrete inputs.
use tproxy2ss.Base.{
  ℕ, ◌+◌, ◌*◌, ◌/◌, ◌-◌, ◌^◌, ◌<◌, ◌≤◌, ◌≡◌, refl, arith, true, Option, some, [], ◌∷◌, length, drop,
  get_elem?,
}
use tproxy2ss.Base.Word.{htonl, raw32}
use tproxy2ss.Base.Bytes.{Bytes, c_str, strcmp_eq, lower}
use tproxy2ss.Base.Number.{
  strtol, starts_digit, read_sign, skip_space, is_space, is_digit, read_digits,
}
use tproxy2ss.FakeDns.Defs.{max_domain_len, FakeDns, slot, slot_of, write_slot, ip_at}
use tproxy2ss.FakeDns.Lookup.{
  entry_set_domain, is_expired, note_expired, scan, refresh, overwrite, warn_usage, insert,
  dispatch, lookup_domain,
}
use tproxy2ss.FakeDns.Valid.{IsValid}
use tproxy2ss.FakeDns.Init.{
  split_slash, prefix_of, fresh_pool, init_network, init, fresh_pool-IsValid, init-IsValid,
}
use tproxy2ss.FakeDns.Coherent.{Coherent, pool_answer}
use tproxy2ss.FakeDns.Reverse.{Mru, mru_start, reverse_lookup}
use tproxy2ss.FakeDns.Name.{fold_case, walk}
use tproxy2ss.FakeDns.Query.{
  be16, with_flags, response_head, answer_a, reply_a, reply_type, reply_question, process_query,
}
use tproxy2ss.FakeDns.Query.Walk.{walk_bounds}
use tproxy2ss.FakeDns.Query.Resolved.{process_query-resolves}
use tproxy2ss.FakeDns.Query.State.{Reach, here, next, resolve, Reach-exact}

abbrev pool24 : FakeDns
pool24 = fresh_pool [] (198 * 2 ^ 24 + 18 * 2 ^ 16) 24

-- An A query for `a`
abbrev a_query : Bytes
a_query = 0 ∷ 7 ∷ 1 ∷ 0 ∷ 0 ∷ 1 ∷ 0 ∷ 0 ∷ 0 ∷ 0 ∷ 0 ∷ 0 ∷ 1 ∷ b'A' ∷ 0 ∷ 0 ∷ 1 ∷ 0 ∷ 1 ∷ []

program_query : Unit {0}
unfolding fresh_pool lookup_domain entry_set_domain is_expired note_expired scan refresh overwrite
    warn_usage insert dispatch slot_of slot write_slot ip_at htonl strcmp_eq c_str lower fold_case
    walk with_flags response_head answer_a reply_a reply_type reply_question process_query
    split_slash prefix_of init_network init raw32 strtol starts_digit read_sign skip_space is_space
    is_digit read_digits
program_query = tt

name_walked : walk a_query 128 12 [] ≡ some (15, b'a' ∷ [])
unfolding program_query
name_walked = refl

abbrev reply_bytes : Bytes
reply_bytes =
    0 ∷ 7 ∷ 129 ∷ 128 ∷ 0 ∷ 1 ∷ 0 ∷ 1 ∷ 0 ∷ 0 ∷ 0 ∷ 0 ∷ 1 ∷ b'A' ∷ 0 ∷ 0 ∷ 1 ∷ 0 ∷ 1 ∷ 192 ∷ 12 ∷ 0
    ∷ 1 ∷ 0 ∷ 1 ∷ 0 ∷ 0 ∷ 14 ∷ 16 ∷ 0 ∷ 4 ∷ 198 ∷ 18 ∷ 0 ∷ 1 ∷ []

replied : (process_query length 1000 true pool24 mru_start a_query 512).response ≡ some reply_bytes
unfolding program_query
replied = refl

abbrev cidr : Bytes
cidr = b'1' ∷ b'/' ∷ b'2' ∷ b'4' ∷ []

-- An `inet_pton` that knows one address
abbrev to_address : Bytes → Option ℕ
to_address s = some 4806

initialised : init to_address true cidr ≡ some (fresh_pool cidr (htonl 4806) 24)
unfolding program_query
initialised = refl

resolved :
    Reach length
      (record { pool = pool24; dns_mru = mru_start; worker_mru = mru_start })
      (record {
        pool = pool24;
        dns_mru = mru_start;
        worker_mru = (reverse_lookup pool24 4806 244 mru_start).0;
      })
resolved =
    next here
      (resolve (record { pool = pool24; dns_mru = mru_start; worker_mru = mru_start }) 4806 244)

pool24-IsValid : IsValid 24 8 ((198 * 2 ^ 24 + 18 * 2 ^ 16) / 2 ^ 8) pool24
pool24-IsValid =
    fresh_pool-IsValid [] (198 * 2 ^ 24 + 18 * 2 ^ 16) 24 (omega arith) (omega arith) (omega arith)

walk_bounds_example : (12 ≤ 15) × (15 ≤ length a_query) × (1 < max_domain_len)
walk_bounds_example =
    walk_bounds a_query 128 12 [] 15 (b'a' ∷ []) (omega arith) (omega arith) name_walked

init-IsValid_example :
    (n : ℕ) × (q : ℕ) × (8 ≤ n) × (n ≤ 24) × IsValid n (32 - n) q (fresh_pool cidr (htonl 4806) 24)
init-IsValid_example =
    init-IsValid to_address true cidr (fresh_pool cidr (htonl 4806) 24) initialised

Reach-exact_example :
    (reverse_lookup pool24 4806 244 (reverse_lookup pool24 4806 244 mru_start).0).1
    ≡ pool_answer pool24 4806 244
Reach-exact_example = Reach-exact 4806 244 pool24-IsValid resolved

asks_a : be16 a_query 15 ≡ 1
asks_a = refl

one_answer : get_elem? reply_bytes 7 ≡ some 1
one_answer = refl

process_query-resolves_example :
    let r = process_query length 1000 true pool24 mru_start a_query 512 in
    (ip : ℕ) × (drop 31 reply_bytes ≡ raw32 ip)
    × ((cache : Mru)
        → Coherent r.pool cache
        → (reverse_lookup r.pool ip max_domain_len cache).1 ≡ some (c_str (b'a' ∷ [])))
process_query-resolves_example =
    process_query-resolves length 1000 true pool24 mru_start a_query 512 pool24-IsValid 15
      (b'a' ∷ []) reply_bytes name_walked asks_a replied one_answer
