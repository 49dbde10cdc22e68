-- ===== src/FakeDns/Name.antt =====
-- src/fakedns.c: the QNAME of a query as a dotted name, the loop of `fakedns_process_query`, and
-- the other way round, `fakedns_encode_dns_name`.
use tproxy2ss.Base.{
  ℕ, zero, suc, ◌+◌, bit_or, ◌&&◌, ◌||◌, not, Option, none, some, [], ◌∷◌, ◌++◌, map, length, take,
  drop, get_or, ltb, leb, ◌==◌, if◌then◌else◌,
}
use tproxy2ss.Base.Bytes.{Bytes}
use tproxy2ss.FakeDns.Defs.{max_domain_len}

-- `(c >= 'A' && c <= 'Z') ? (c | 0x20) : c`
unfoldable pub fold_case : ℕ → ℕ
fold_case c = if leb b'A' c && leb c b'Z' then bit_or c 0x20 else c

-- The dot in front of every label but the first
abbrev pub separator : Bytes → Bytes
separator [] = []
separator (c ∷ cs) = b'.' ∷ []

-- The loop over the labels, with the labels that may still come (128 at the start): the offset
-- behind the name and the name, or `none` where the function returns 0.
unfoldable pub walk : Bytes → ℕ → ℕ → Bytes → Option (ℕ × Bytes)
walk query zero offset domain = if ltb offset (length query) then none else some (offset, domain)
walk query (suc rounds) offset domain =
    let len = get_or query offset 0 in
    let label = map fold_case (take len (drop (offset + 1) query)) in
    let rest = walk query rounds (offset + 1 + len) (domain ++ separator domain ++ label) in
    if not (ltb offset (length query))
    then some (offset, domain)
    else if len == 0
    then some (offset + 1, domain)
    else if ltb 63 len
    then none
    else if ltb (length query) (offset + 1 + len)
    then none
    else if leb max_domain_len (length domain + length (separator domain) + len)
    then none
    else rest

-- `strchr(p, '.')`: the label up to the dot or the end, and what stands behind the dot.
unfoldable pub first_label : Bytes → Bytes
first_label [] = []
first_label (c ∷ cs) = if c == b'.' then [] else c ∷ first_label cs

unfoldable pub after_label : Bytes → Bytes
after_label [] = []
after_label (c ∷ cs) = if c == b'.' then cs else after_label cs

-- The loop of `fakedns_encode_dns_name` at `p`, with what is written so far. A round consumes a
-- byte of `p` at least, so its length is enough fuel.
unfoldable pub encode_from : ℕ → ℕ → Bytes → Bytes → Option Bytes
encode_from outlen fuel [] out = if ltb outlen (length out + 1) then none else some (out ++ 0 ∷ [])
encode_from outlen zero (c ∷ cs) out = none
encode_from outlen (suc fuel) (c ∷ cs) out =
    let label = first_label (c ∷ cs) in
    let label_len = length label in
    let rest = encode_from outlen fuel (after_label (c ∷ cs)) (out ++ label_len ∷ label) in
    if label_len == 0 || ltb 63 label_len
    then none
    else if ltb outlen (length out + 1 + label_len + 1)
    then none
    else rest

-- `fakedns_encode_dns_name` on a C string: the bytes written, or `none` where it returns 0.
unfoldable pub encode_dns_name : Bytes → ℕ → Option Bytes
encode_dns_name domain outlen = encode_from outlen (length domain) domain []
