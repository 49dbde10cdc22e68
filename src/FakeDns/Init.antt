-- ===== src/FakeDns/Init.antt =====
-- src/fakedns.c, `fakedns_init`. `inet_pton` and `calloc` are arguments: the first gives the
-- address in network order, the second succeeds or not. `exit(1)` is `none`.
use tproxy2ss.Base.{
  ℕ, zero, suc, ◌-◌, ◌*◌, ◌/◌, ◌%◌, ◌^◌, ◌≤◌, ◌<◌, ◌≡◌, refl, sym, ap, ◌∙◌, arith, bit_and, Bool,
  true, ◌&&◌, ◌||◌, Option, none, some, [], ◌∷◌, take, replicate, ltb, leb, ◌==◌, if◌then◌else◌,
  length-replicate, Option-cases, inl, inr,
}
use mathlib.Core.Path.{subst}
use tproxy2ss.Base.Word.{u32, htonl, htonl-lt}
use tproxy2ss.Base.Bits.{bit_and-high}
use tproxy2ss.Base.Bytes.{Bytes, c_str}
use tproxy2ss.Base.Number.{ℤ, pos, negsuc, strtol}
use tproxy2ss.FakeDns.Defs.{Entry, FakeDns, slot_of, slot}
use tproxy2ss.FakeDns.Valid.{IsValid, count_used}

-- `strchr(ip_str, '/')`: what stands before the slash, and what stands after it.
unfoldable pub split_slash : Bytes → Option (Bytes × Bytes)
split_slash [] = none
split_slash (c ∷ cs) =
    if c == b'/'
    then some ([], cs)
    else elim (split_slash cs) [ none ↦ none | some (a, b) ↦ some (c ∷ a, b) ]

-- `*endptr != '\0' || prefix_len < 8 || prefix_len > 24` is false: the prefix length.
unfoldable pub prefix_of : ℤ × Bytes → Option ℕ
prefix_of (pos n, []) = if ltb n 8 || ltb 24 n then none else some n
prefix_of (pos n, c ∷ cs) = none
prefix_of (negsuc n, rest) = none

-- The globals for a network, with all slots empty.
unfoldable pub fresh_pool : Bytes → ℕ → ℕ → FakeDns
fresh_pool cidr ip_host prefix_len =
    let mask_host = (u32 - 1) * 2 ^ (32 - prefix_len) % u32 in
    let pool_size = 2 ^ (32 - prefix_len) in
    record {
      slots = replicate pool_size none;
      net_host = bit_and ip_host mask_host;
      mask_host = mask_host;
      pool_size = pool_size;
      pool_used = 0;
      last_warn_used = 0;
      max_probes = if ltb pool_size 128 then pool_size else 128;
      cidr_str = cidr;
    }

module _ (inet_pton : Bytes → Option ℕ) (memory : Bool) where
  -- The part of `fakedns_init` behind the slash
  unfoldable pub init_network : Bytes → Bytes → Bytes → Option FakeDns
  init_network cidr ip_str digits = elim (inet_pton ip_str) [
    | none ↦ none
    | some s_addr ↦ elim (prefix_of (strtol digits)) [
      | none ↦ none
      | some prefix_len ↦ if memory then some (fresh_pool cidr (htonl s_addr) prefix_len) else none
    ]
  ]

  -- `fakedns_init`; `cidr_str` is copied into 64 bytes, the last of them NUL.
  unfoldable pub init : Bytes → Option FakeDns
  init cidr_str =
      let cidr = take 63 (c_str cidr_str) in
      elim (split_slash cidr) [
        | none ↦ none
        | some (ip_str, digits) ↦ init_network cidr ip_str digits
      ]

-- The prefix lengths that pass: the mask is the one of the network, whose addresses are 32 bits.
abbrev masks_fit : ℕ → Bool
masks_fit n =
    ltb n 8
    || ((u32 - 1) * 2 ^ (32 - n) % u32 == (2 ^ n - 1) * 2 ^ (32 - n))
      && (2 ^ n * 2 ^ (32 - n) == u32)
      && leb (2 ^ (32 - n)) (2 ^ 24)

all_below : ℕ → (ℕ → Bool) → Bool
all_below zero f = true
all_below (suc n) f = f n && all_below n f

all_below_sound : (n : ℕ) (f : ℕ → Bool) (x : ℕ) → all_below n f ≡ true → x < n → f x ≡ true
unfolding all_below
all_below_sound zero f x h lt = elim lt [ ]
all_below_sound (suc n) f x h lt = ground (arith, all_below_sound n f x)

masks_table : all_below 25 masks_fit ≡ true
unfolding all_below
masks_table = refl

prefix_of_bounds : (r : ℤ × Bytes) (n : ℕ) → prefix_of r ≡ some n → (8 ≤ n) × (n ≤ 24)
unfolding prefix_of
prefix_of_bounds (pos m, []) n h = ground arith
prefix_of_bounds (pos m, c ∷ cs) n h = cc
prefix_of_bounds (negsuc m, rest) n h = cc

count_used-replicate : (n : ℕ) → count_used (replicate n none) ≡ 0
unfolding count_used
count_used-replicate zero = refl
count_used-replicate (suc n) = count_used-replicate n

slot_of-replicate : (n i : ℕ) → slot_of (replicate n none) i ≡ none
unfolding slot_of
slot_of-replicate zero i = refl
slot_of-replicate (suc n) zero = refl
slot_of-replicate (suc n) (suc i) = slot_of-replicate n i

quotient-lt : (a b x : ℕ) → x < a * b → x / b < a
quotient-lt a b x h = grind arith

none-ne-some : {e : Entry} → ¬ (none ≡ some e)
none-ne-some h = cc

-- What the table says of one prefix length.
masks_lem :
    (n : ℕ)
    → 8 ≤ n
    → n ≤ 24
    → ((u32 - 1) * 2 ^ (32 - n) % u32 ≡ (2 ^ n - 1) * 2 ^ (32 - n))
      × (2 ^ n * 2 ^ (32 - n) ≡ u32)
      × (2 ^ (32 - n) ≤ 2 ^ 24)
masks_lem n lo hi =
    let fit = all_below_sound 25 masks_fit n masks_table (omega arith) in ground arith

pub fresh_pool-IsValid :
    (cidr : Bytes) (ip n : ℕ)
    → ip < u32
    → 8 ≤ n
    → n ≤ 24
    → IsValid n (32 - n) (ip / 2 ^ (32 - n)) (fresh_pool cidr ip n)
unfolding fresh_pool slot
fresh_pool-IsValid cidr ip n h lo hi =
    let (mask, word, small) = masks_lem n lo hi in
    record {
      range = record {
        word = word;
        small = small;
        base = quotient-lt (2 ^ n) (2 ^ (32 - n)) ip (rw word h);
        size = refl;
        mask = mask;
        net = ap (bit_and ip) mask ∙ bit_and-high n (32 - n) ip (rw word h);
        shape = length-replicate (2 ^ (32 - n)) none;
      };
      entries = λ i e s. absurd (none-ne-some (sym (slot_of-replicate (2 ^ (32 - n)) i) ∙ s));
      used = sym (count_used-replicate (2 ^ (32 - n)));
    }

module _ (inet_pton : Bytes → Option ℕ) (memory : Bool) where
  init_network-some :
      (cidr ip_str digits : Bytes) (p : FakeDns)
      → init_network inet_pton memory cidr ip_str digits ≡ some p
      → (s : ℕ) × (n : ℕ) × (prefix_of (strtol digits) ≡ some n) × (p ≡ fresh_pool cidr (htonl s) n)
  unfolding init_network
  init_network-some cidr ip_str digits p e = elim (Option-cases (inet_pton ip_str)) [
    | inl bad ↦ absurd (ground arith)
    | inr (s, good) ↦ elim (Option-cases (prefix_of (strtol digits))) [
      | inl bad ↦ absurd (ground arith)
      | inr (n, fits) ↦ (s, n, fits, ground arith)
    ]
  ]

  init-some :
      (cidr_str : Bytes) (p : FakeDns)
      → init inet_pton memory cidr_str ≡ some p
      → (ip_str : Bytes) × (digits : Bytes) × (init_network inet_pton memory
            (take 63 (c_str cidr_str))
            ip_str
            digits
          ≡ some p)
  unfolding init
  init-some cidr_str p e = elim (Option-cases (split_slash (take 63 (c_str cidr_str)))) [
    | inl bad ↦ absurd (ground arith)
    | inr ((a, b), good) ↦ (a, b, ground arith)
  ]

  -- When `fakedns_init` does not exit, the pool that it sets up is well formed, for a prefix
  -- length between 8 and 24.
  pub init-IsValid :
      (cidr_str : Bytes) (p : FakeDns)
      → init inet_pton memory cidr_str ≡ some p
      → (n : ℕ) × (q : ℕ) × (8 ≤ n) × (n ≤ 24) × IsValid n (32 - n) q p
  init-IsValid cidr_str p e =
      let (ip_str, digits, e') = init-some cidr_str p e in
      let (s, n, fits, made) = init_network-some (take 63 (c_str cidr_str)) ip_str digits p e' in
      let (lo, hi) = prefix_of_bounds (strtol digits) n fits in
      (
        n,
        htonl s / 2 ^ (32 - n),
        lo,
        hi,
        subst (IsValid n (32 - n) (htonl s / 2 ^ (32 - n))) (sym made)
            (fresh_pool-IsValid (take 63 (c_str cidr_str)) (htonl s) n (htonl-lt s) lo hi),
      )
