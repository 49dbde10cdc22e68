-- ===== src/FakeDns/Query/Walk.antt =====
-- src/fakedns.c, `fakedns_process_query`: the walk through QNAME.
use tproxy2ss.Base.{
  ℕ, zero, suc, ◌+◌, ◌≤◌, ◌<◌, ◌≡◌, ◌⊎◌, inl, inr, arith, some, ◌++◌, map, length, take, drop,
  get_or, length-append, length-take, length-map,
}
use tproxy2ss.Base.Bytes.{Bytes}
use tproxy2ss.FakeDns.Defs.{max_domain_len}
use tproxy2ss.FakeDns.Name.{fold_case, separator, walk}

-- The name with one more label
abbrev pub extended : Bytes → ℕ → Bytes → Bytes
extended query offset domain =
    domain
    ++ separator domain
    ++ map fold_case (take (get_or query offset 0) (drop (offset + 1) query))

length-extended :
    (query : Bytes) (offset : ℕ) (domain : Bytes)
    → length (extended query offset domain)
      ≤ length domain + length (separator domain) + get_or query offset 0
length-extended query offset domain =
    let label = map fold_case (take (get_or query offset 0) (drop (offset + 1) query)) in
    omega (
      arith,
      length-append (domain ++ separator domain) label,
      length-append domain (separator domain),
      length-map fold_case (take (get_or query offset 0) (drop (offset + 1) query)),
      length-take (get_or query offset 0) (drop (offset + 1) query),
    )

-- One round: the walk ends here, fails, or goes on behind a label that fits.
pub walk-cases :
    (query : Bytes) (rounds offset : ℕ) (domain : Bytes) (found : ℕ × Bytes)
    → walk query (suc rounds) offset domain ≡ some found
    → ((found ≡ (offset, domain)) × (length query ≤ offset))
      ⊎ ((found ≡ (offset + 1, domain)) × (offset < length query))
      ⊎ ((walk query rounds (offset + 1 + get_or query offset 0) (extended query offset domain)
            ≡ some found)
          × (offset + 1 + get_or query offset 0 ≤ length query)
          × (length (extended query offset domain) < max_domain_len))
unfolding walk
walk-cases query rounds offset domain found h = ground (arith, length-extended query offset domain)

-- From an offset inside the query and with a name that leaves room for a NUL, the walk, when it
-- ends with a name, ends inside the query, not before where it began, and with a name that
-- leaves room for a NUL.
pub walk_bounds :
    (query : Bytes) (rounds offset : ℕ) (domain : Bytes) (o : ℕ) (d : Bytes)
    → offset ≤ length query
    → length domain < max_domain_len
    → walk query rounds offset domain ≡ some (o, d)
    → (offset ≤ o) × (o ≤ length query) × (length d < max_domain_len)
unfolding walk
walk_bounds query zero offset domain o d h g e = ground arith
walk_bounds query (suc n) offset domain o d h g e =
    elim (walk-cases query n offset domain (o, d) e) [
      | inl (end, past) ↦ ground arith
      | inr (inl (end, here)) ↦ ground arith
      | inr (inr (more, inside, fits)) ↦
          let ih =
            walk_bounds query n (offset + 1 + get_or query offset 0) (extended query offset domain)
              o d inside fits more in
          (omega (arith, ih), ih.1, ih.2)
    ]
