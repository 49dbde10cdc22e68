-- ===== src/FakeDns/Reload/Item.antt =====
-- src/fakedns.c, `fakedns_load`: what was written is read back, and one entry is restored.
use tproxy2ss.Base.{
  ℕ, suc, ◌+◌, ◌*◌, ◌^◌, ◌%◌, ◌/◌, ◌<◌, ◌≡◌, refl, sym, ap, ◌∙◌, arith, true, false, Option, none,
  some, List, ◌++◌, append_assoc, length, length-append, set, take_append, drop_append, ltb,
}
use mathlib.Core.Path.{subst}
use tproxy2ss.Base.Word.{u32, add32, sub32, htonl, htonl-lt, raw16, raw32}
use tproxy2ss.Base.Bytes.{Bytes, c_str, length-c_str-le}
use tproxy2ss.FakeDns.Defs.{max_domain_len, entry_lifetime, Entry, FakeDns, slot, write_slot, ip_at}
use tproxy2ss.FakeDns.Valid.{Range, ip_at_lem, masked-net, host-lt}
use tproxy2ss.FakeDns.File.{
  saved_entry, read32, read16, read_bytes, restore, read_head, is_skipped, load_entries,
}

pub read32-raw32 : (x : ℕ) (t : Bytes) → x < u32 → read32 (raw32 x ++ t) ≡ some (x, t)
unfolding read32 raw32
read32-raw32 x t h =
    let e : x % 256
          + 2 ^ 8 * (x / 2 ^ 8 % 256)
          + 2 ^ 16 * (x / 2 ^ 16 % 256)
          + 2 ^ 24 * (x / 2 ^ 24 % 256)
        ≡ x =
      omega (arith, h) in
    ap (λ y. some (y, t)) e

pub read16-raw16 : (x : ℕ) (t : Bytes) → x < 2 ^ 16 → read16 (raw16 x ++ t) ≡ some (x, t)
unfolding read16 raw16
read16-raw16 x t h =
    let e : x % 256 + 2 ^ 8 * (x / 2 ^ 8 % 256) ≡ x = omega (arith, h) in ap (λ y. some (y, t)) e

pub read_bytes-append : (s t : Bytes) → read_bytes (length s) (s ++ t) ≡ some (s, t)
unfolding read_bytes
read_bytes-append s t =
    let e : ltb (length (s ++ t)) (length s) ≡ false = ground (arith, length-append s t) in
    rw (e, take_append s t, drop_append s t) refl

-- An entry that comes back: its address and its domain, with a new lifetime.
abbrev pub reloaded : ℕ → Entry → Entry
reloaded later e = record {
  ip = e.ip;
  expire = add32 later entry_lifetime;
  version = 1;
  domain = c_str e.domain;
}

-- The pool with other cells and another count
abbrev pub filled : FakeDns → List (Option Entry) → ℕ → FakeDns
filled p slots used = record p { slots = slots; pool_used = used }

pub Range-filled :
    {j k q : ℕ} (p : FakeDns) (slots : List (Option Entry)) (used : ℕ)
    → Range j k q p
    → length slots ≡ length p.slots
    → Range j k q (filled p slots used)
Range-filled p slots used r e = record {
  word = r.word;
  small = r.small;
  base = r.base;
  size = r.size;
  mask = r.mask;
  net = r.net;
  shape = e ∙ r.shape;
}

read_head-saved_entry :
    (e : Entry) (rest : Bytes)
    → e.ip < u32
    → length e.domain < max_domain_len
    → read_head (saved_entry e ++ rest)
      ≡ some (e.ip, length (c_str e.domain), c_str e.domain ++ rest)
unfolding read_head saved_entry
read_head-saved_entry e rest hip hd =
    let text = c_str e.domain in
    let small : length text < 2 ^ 16 = omega (arith, length-c_str-le e.domain, hd) in
    rw
      (
        append_assoc (raw32 e.ip) (raw16 (length text) ++ text) rest,
        append_assoc (raw16 (length text)) text rest,
        read_head,
        read32-raw32 e.ip (raw16 (length text) ++ (text ++ rest)) hip,
        read16-raw16 (length text) (text ++ rest) small,
      )
      refl

module _ {j k q : ℕ} {p : FakeDns} (r : Range j k q p) (i : ℕ) (h : i < p.pool_size) where
  offset_back : sub32 (htonl (ip_at p i)) p.net_host ≡ i
  offset_back =
      let back : sub32 (p.net_host + i) p.net_host ≡ i = omega (arith, host-lt r i h) in
      rw (ip_at_lem r i h) back

  is_skipped-ip_at : (dlen : ℕ) → dlen < max_domain_len → is_skipped p (ip_at p i) dlen ≡ false
  unfolding is_skipped
  is_skipped-ip_at dlen hd =
      let back : sub32 (p.net_host + i) p.net_host ≡ i = omega (arith, host-lt r i h) in
      rw (ip_at_lem r i h, masked-net r i h, back) (ground arith)

  restore-vacant :
      (later ip : ℕ) (domain : Bytes)
      → slot p i ≡ none
      → restore true later p i ip domain
        ≡ filled p
            (set p.slots i (
              some (record {
                ip = ip;
                expire = add32 later entry_lifetime;
                version = 1;
                domain = domain;
              })))
            (add32 p.pool_used 1)
  unfolding restore write_slot
  restore-vacant later ip domain vacant = rw (restore, vacant) refl

  -- One entry of the file, at an empty slot.
  pub load_entries-saved_entry :
      (later rounds : ℕ) (e : Entry) (rest : Bytes)
      → e.ip ≡ ip_at p i
      → length e.domain < max_domain_len
      → slot p i ≡ none
      → load_entries true later (suc rounds) p (saved_entry e ++ rest)
        ≡ load_entries true later rounds
            (filled p (set p.slots i (some (reloaded later e))) (add32 p.pool_used 1))
            rest
  unfolding load_entries ip_at
  load_entries-saved_entry later rounds e rest hip hd vacant =
      let word : e.ip < u32 = subst (λ a. a < u32) (sym hip) (htonl-lt (add32 p.net_host i)) in
      let short : length (c_str e.domain) < max_domain_len =
        omega (arith, length-c_str-le e.domain, hd) in
      let kept : is_skipped p e.ip (length (c_str e.domain)) ≡ false =
        subst (λ a. is_skipped p a (length (c_str e.domain)) ≡ false) (sym hip)
          (is_skipped-ip_at (length (c_str e.domain)) short) in
      let back : sub32 (htonl e.ip) p.net_host ≡ i =
        subst (λ a. sub32 (htonl a) p.net_host ≡ i) (sym hip) offset_back in
      rw
        (
          load_entries,
          read_head-saved_entry e rest word hd,
          kept,
          read_bytes-append (c_str e.domain) rest,
          back,
          restore-vacant later e.ip (c_str e.domain) vacant,
        )
        refl
