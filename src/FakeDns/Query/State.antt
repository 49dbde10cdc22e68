-- ===== src/FakeDns/Query/State.antt =====
-- src/fakedns.c: queries on the DNS thread and reverse lookups on a worker, in any order.
use tproxy2ss.Base.{
  ℕ, ◌<◌, ◌≡◌, inl, inr, refl, sym, arith, Bool, Option, none, some, ◌==◌, Bool-cases, Option-cases,
  length,
}
use mathlib.Core.Path.{subst}
use tproxy2ss.Base.Bytes.{Bytes}
use tproxy2ss.FakeDns.Coherent.{Coherent, pool_answer, reverse_lookup-exact, mru_start-Coherent}
use tproxy2ss.FakeDns.Defs.{max_domain_len, FakeDns}
use tproxy2ss.FakeDns.Keeps.{lookup_domain-IsValid}
use tproxy2ss.FakeDns.Lookup.{lookup_domain}
use tproxy2ss.FakeDns.Ptr.{parse_ptr_name}
use tproxy2ss.FakeDns.Query.{Reply, reply_a, reply_ptr, reply_type, process_query}
use tproxy2ss.FakeDns.Query.Bounds.{Parsed, dropped, refused, asked, process_query-Parsed}
use tproxy2ss.FakeDns.Reverse.{Mru, mru_start, reverse_lookup}
use tproxy2ss.FakeDns.RoundTrip.{HasVersions, lookup_domain-Coherent}
use tproxy2ss.FakeDns.Valid.{IsValid}

-- The pool, the cache of the DNS thread and the cache of a worker.
pub record State : Type 0 where
  pub pool : FakeDns
  pub dns_mru : Mru
  pub worker_mru : Mru

pub record IsSound (j k q : ℕ) (s : State) : Type 0 where
  pub valid : IsValid j k q s.pool
  pub dns_clean : Coherent s.pool s.dns_mru
  pub worker_clean : Coherent s.pool s.worker_mru

unfoldable pub after_reply : State → Reply → State
after_reply s r = record s { pool = r.pool; dns_mru = r.mru }

reply_a-state :
    (mru : Mru) (buflen flags : ℕ) (base : Bytes) (r : FakeDns × ℕ)
    → ((reply_a mru buflen flags base r).pool ≡ r.0) × ((reply_a mru buflen flags base r).mru ≡ mru)
unfolding reply_a
reply_a-state mru buflen flags base (p, ip) = ground arith

reply_ptr-state :
    (p : FakeDns) (buflen : ℕ) (base : Bytes) (r : Mru × Option Bytes)
    → ((reply_ptr p buflen base r).pool ≡ p) × ((reply_ptr p buflen base r).mru ≡ r.0)
unfolding reply_ptr
reply_ptr-state p buflen base (m, none) = (refl, refl)
reply_ptr-state p buflen base (m, some d) = ground arith

module _ {j k q : ℕ} (hash : Bytes → ℕ) (now : ℕ) (memory : Bool) (p : FakeDns) (mru : Mru)
    (v : IsValid j k q p) where
  reply_type-IsValid :
      (buflen flags qtype : ℕ) (base domain : Bytes)
      → IsValid j k q (reply_type hash now memory p mru buflen flags base qtype domain).pool
  unfolding reply_type
  reply_type-IsValid buflen flags qtype base domain = elim (Bool-cases (qtype == 1)) [
    | inl a ↦
        let r = lookup_domain hash now memory p domain in
        rw a (
          subst (IsValid j k q) (sym (reply_a-state mru buflen flags base r).0)
            (lookup_domain-IsValid v hash now memory domain))
    | inr other ↦ elim (Bool-cases (qtype == 12)) [
      | inr rest ↦ rw (other, rest) v
      | inl ptr ↦ elim (Option-cases (parse_ptr_name domain)) [
        | inl bad ↦ rw (other, ptr, bad) v
        | inr (ip, good) ↦
            let r = reverse_lookup p ip max_domain_len mru in
            rw (other, ptr, good)
              (subst (IsValid j k q) (sym (reply_ptr-state p buflen base r).0) v)
      ]
    ]
  ]

  -- A query keeps the pool well formed, also when no version numbers are left.
  pub process_query-IsValid :
      (query : Bytes) (buflen : ℕ)
      → IsValid j k q (process_query hash now memory p mru query buflen).pool
  process_query-IsValid query buflen =
      elim (process_query-Parsed hash now memory p mru query buflen) [
        | dropped e ↦ subst (λ r. IsValid j k q r.pool) (sym e) v
        | refused o d lo here room _ e ↦ subst (λ r. IsValid j k q r.pool) (sym e) v
        | asked o d lo here room short _ is ↦
            subst (λ r. IsValid j k q r.pool) (sym is) (reply_type-IsValid buflen _ _ _ d)
      ]

module _ {j k q : ℕ} (hash : Bytes → ℕ) (now : ℕ) (memory : Bool) (s : State)
    (sound : IsSound j k q s) (fresh : HasVersions s.pool) where
  reply_type-IsSound :
      (buflen flags qtype : ℕ) (base domain : Bytes)
      → length domain < max_domain_len
      → IsSound j k q (
          after_reply s
            (reply_type hash now memory s.pool s.dns_mru buflen flags base qtype domain))
  unfolding reply_type after_reply
  reply_type-IsSound buflen flags qtype base domain short = elim (Bool-cases (qtype == 1)) [
    | inl a ↦
        let r = lookup_domain hash now memory s.pool domain in
        let (pool, mru) = reply_a-state s.dns_mru buflen flags base r in
        rw a (record {
          valid =
              subst (IsValid j k q) (sym pool)
                (lookup_domain-IsValid sound.valid hash now memory domain);
          dns_clean = subst (Coherent _) (sym mru) (
              subst (λ p. Coherent p s.dns_mru) (sym pool)
                (lookup_domain-Coherent sound.valid hash now memory domain short s.dns_mru fresh
                  sound.dns_clean));
          worker_clean =
              subst (λ p. Coherent p s.worker_mru) (sym pool)
                (lookup_domain-Coherent sound.valid hash now memory domain short s.worker_mru fresh
                  sound.worker_clean);
        })
    | inr other ↦ elim (Bool-cases (qtype == 12)) [
      | inr rest ↦ rw (other, rest) sound
      | inl ptr ↦ elim (Option-cases (parse_ptr_name domain)) [
        | inl bad ↦ rw (other, ptr, bad) sound
        | inr (ip, good) ↦
            let r = reverse_lookup s.pool ip max_domain_len s.dns_mru in
            let (pool, mru) = reply_ptr-state s.pool buflen base r in
            let clean =
              (reverse_lookup-exact sound.valid ip max_domain_len s.dns_mru sound.dns_clean).1 in
            rw (other, ptr, good)
              (record {
                valid = subst (IsValid j k q) (sym pool) sound.valid;
                dns_clean =
                    subst (Coherent _) (sym mru) (subst (λ p. Coherent p r.0) (sym pool) clean);
                worker_clean = subst (λ p. Coherent p s.worker_mru) (sym pool) sound.worker_clean;
              })
      ]
    ]
  ]

  Parsed-IsSound :
      (query : Bytes) (buflen : ℕ) {r : Reply}
      → Parsed hash now memory s.pool s.dns_mru query buflen r
      → IsSound j k q (after_reply s r)
  unfolding after_reply
  Parsed-IsSound query buflen (dropped e) =
      subst (λ r. IsSound j k q (after_reply s r)) (sym e) sound
  Parsed-IsSound query buflen (refused o d lo here room _ e) =
      subst (λ r. IsSound j k q (after_reply s r)) (sym e) sound
  Parsed-IsSound query buflen (asked o d lo here room short e is) =
      subst (λ r. IsSound j k q (after_reply s r)) (sym is)
        (reply_type-IsSound buflen _ _ _ d short)

-- One event: a query on the DNS thread, at some time and with or without memory, or a reverse
-- lookup on the worker.
pub data Step (hash : Bytes → ℕ) : State → State → Type 0 where
  query :
      (s : State) (now : ℕ) (memory : Bool) (q : Bytes) (buflen : ℕ)
      → HasVersions s.pool
      → Step hash s (after_reply s (process_query hash now memory s.pool s.dns_mru q buflen))
  resolve :
      (s : State) (ip buf_len : ℕ)
      → Step hash s (record s { worker_mru = (reverse_lookup s.pool ip buf_len s.worker_mru).0 })

pub data Reach (hash : Bytes → ℕ) (s : State) : State → Type 0 where
  here : Reach hash s s
  next : {t u : State} → Reach hash s t → Step hash t u → Reach hash s u

Step-IsSound :
    {j k q : ℕ} {hash : Bytes → ℕ} {s t : State} → Step hash s t → IsSound j k q s → IsSound j k q t
Step-IsSound {hash = hash} (query s now memory b buflen fresh) sound =
    Parsed-IsSound hash now memory s sound fresh b buflen
      (process_query-Parsed hash now memory s.pool s.dns_mru b buflen)
Step-IsSound (resolve s ip buf_len) sound = record {
  valid = sound.valid;
  dns_clean = sound.dns_clean;
  worker_clean = (reverse_lookup-exact sound.valid ip buf_len s.worker_mru sound.worker_clean).1;
}

pub Reach-IsSound :
    {j k q : ℕ} {hash : Bytes → ℕ} {s t : State}
    → IsSound j k q s
    → Reach hash s t
    → IsSound j k q t
Reach-IsSound sound here = sound
Reach-IsSound sound (next r st) = Step-IsSound st (Reach-IsSound sound r)

pub start-IsSound :
    {j k q : ℕ} {p : FakeDns}
    → IsValid j k q p
    → IsSound j k q (record { pool = p; dns_mru = mru_start; worker_mru = mru_start })
start-IsSound {p} v = record {
  valid = v;
  dns_clean = mru_start-Coherent p;
  worker_clean = mru_start-Coherent p;
}

-- After any sequence of DNS queries and reverse lookups from a well-formed pool and empty caches,
-- in which every query finds version numbers left, a worker's reverse lookup answers what the
-- pool holds: a cached answer is never stale.
pub Reach-exact :
    {j k q : ℕ} {hash : Bytes → ℕ} {p : FakeDns} {t : State} (ip buf_len : ℕ)
    → IsValid j k q p
    → Reach hash (record { pool = p; dns_mru = mru_start; worker_mru = mru_start }) t
    → (reverse_lookup t.pool ip buf_len t.worker_mru).1 ≡ pool_answer t.pool ip buf_len
Reach-exact {j} {k} {q} {hash} {p} {t} ip buf_len v r =
    let sound = Reach-IsSound (start-IsSound v) r in
    (reverse_lookup-exact sound.valid ip buf_len t.worker_mru sound.worker_clean).0
