-- ===== src/Mempool/Free.antt =====
-- src/mempool.c: `internal_free` on a block that its caller holds, and on anything else.
use tproxy2ss.Base.{
  ℕ, ◌+◌, ◌-◌, ◌%◌, ◌^◌, ◌≤◌, ◌<◌, ◌≡◌, ◌≢◌, inl, inr, refl, sym, ap, arith, true, false, some,
  List, [], ◌∷◌, ◌++◌, ◌==◌, leb, length-append, append_assoc, Bool-cases, Option-cases, leb→le,
  ==_iff,
}
use mathlib.Core.Path.{subst}
use mathlib.Core.Option.{some_inj}
use tproxy2ss.Mempool.Defs.{
  magic_pool, magic_free, cacheline_size, Slab, Header, Memory, store, Pool, verify_boundary,
  verify_cached, find_slab, free_header, free,
}
use tproxy2ss.Mempool.Chain.{
  NotIn, Distinct, Chain, InUse, IsOwned, AllOwned, IsValid, Chain-store, InUse-store, NotIn-append,
  NotIn-join, Distinct-swap, AllOwned-swap, store_self,
}

Distinct-back : (l m : List ℕ) (x : ℕ) → Distinct (x ∷ (l ++ m)) → Distinct (l ++ x ∷ m)
Distinct-back [] m x d = d
Distinct-back (y ∷ l) m x d =
    let (yl, ym) = NotIn-append y l m d.1.0 in
    (NotIn-join y l (x ∷ m) yl ((λ e. d.0.0 (sym e)), ym), Distinct-back l m x (d.0.1, d.1.1))

AllOwned-back :
    (t : ℕ) (s : List Slab) (l m : List ℕ) (x : ℕ)
    → AllOwned t s (x ∷ (l ++ m))
    → AllOwned t s (l ++ x ∷ m)
AllOwned-back t s [] m x o = o
AllOwned-back t s (y ∷ l) m x o = (o.1.0, AllOwned-back t s l m x (o.0, o.1.1))

-- The blocks in use without the one in the middle, and that one's magic number
InUse-split :
    (mem : Memory) (l r : List ℕ) (x : ℕ)
    → InUse mem (l ++ x ∷ r)
    → ((mem x).magic ≡ magic_pool) × InUse mem (l ++ r)
InUse-split mem [] r x u = u
InUse-split mem (y ∷ l) r x u = let (m, u') = InUse-split mem l r x u.1 in (m, (u.0, u'))

-- A slab that owns a block covers all that its bounds let in.
pub find_slab-covers :
    (t : ℕ) (slabs : List Slab) (x : ℕ) (s : Slab)
    → find_slab t slabs x ≡ some s
    → (y : ℕ) → verify_boundary t s y ≡ true
    → IsOwned t slabs y
unfolding find_slab
find_slab-covers t [] x s e y v = grind arith
find_slab-covers t (c ∷ l) x s e y v = elim (Bool-cases (verify_boundary t c y)) [
  | inl cy ↦ (c, rw cy)
  | inr cn ↦ elim (Bool-cases (verify_boundary t c x)) [
    | inl cx ↦ grind arith
    | inr cx ↦ let (s', e') = find_slab-covers t l x s (grind arith) y v in (s', rw cn e')
  ]
]

pub find_slab-above :
    (t : ℕ) (slabs : List Slab) (x : ℕ) (s : Slab)
    → find_slab t slabs x ≡ some s
    → cacheline_size ≤ x
unfolding find_slab verify_boundary
find_slab-above t [] x s e = grind arith
find_slab-above t (c ∷ l) x s e = elim (Bool-cases (verify_boundary t c x)) [
  | inl cx ↦ elim (Bool-cases (leb (c.base + cacheline_size) x)) [
    | inl h ↦ omega (arith, leb→le (c.base + cacheline_size) x h)
    | inr h ↦ grind (arith, h, cx)
  ]
  | inr cx ↦ find_slab-above t l x s (grind arith)
]

-- A block in use goes to the front of the free list.
pub free_header-IsValid :
    (pool : Pool) (l r avail : List ℕ) (x : ℕ)
    → IsValid pool avail (l ++ x ∷ r)
    → 0 < x
    → IsValid (free_header pool x) (x ∷ avail) (l ++ r)
unfolding free_header
free_header-IsValid pool l r avail x v p =
    let (m, u) = InUse-split pool.mem l r x v.in_use in
    let reassoc = append_assoc l (x ∷ r) avail in
    let d = Distinct-swap l (r ++ avail) x (subst Distinct reassoc v.apart) in
    let o =
      AllOwned-swap pool.total_size pool.slab_list l (r ++ avail) x
        (subst (AllOwned pool.total_size pool.slab_list) reassoc v.owned) in
    let back = sym (append_assoc l r avail) in
    let d' = subst Distinct back d.1 in
    let nx = subst (NotIn x) back d.0 in
    let (nu, na) = NotIn-append x (l ++ r) avail nx in
    let h : Header = record { magic = magic_free; next_free = pool.free_list } in
    let same = store_self pool.mem x h in
    rw m (record {
      chain = (
        refl,
        p,
        ap (λ z. z.magic) same,
        subst (λ (z : Header). Chain (store pool.mem x h) z.next_free avail) (sym same)
            (Chain-store pool.mem x h pool.free_list avail na v.chain),
      );
      in_use = InUse-store pool.mem x h (l ++ r) nu u;
      apart = Distinct-back (l ++ r) avail x (nx, d');
      owned =
          AllOwned-back pool.total_size pool.slab_list (l ++ r) avail x
            (o.0, subst (AllOwned pool.total_size pool.slab_list) back o.1);
      free_count = omega (arith, v.free_count);
      blocks = omega (arith, v.blocks, length-append l (x ∷ r), length-append l r);
      balance = omega (arith, v.balance, length-append l (x ∷ r), length-append l r);
      bounded = v.bounded;
      stride = v.stride;
      cached = v.cached;
    })

-- The cached slab may be any slab that owns a block.
pub cache-IsValid :
    (pool : Pool) (avail used : List ℕ) (x : ℕ) (s : Slab)
    → IsValid pool avail used
    → find_slab pool.total_size pool.slab_list x ≡ some s
    → IsValid (record pool { last_freed_slab = some s }) avail used
cache-IsValid pool avail used x s v e = record {
  chain = v.chain;
  in_use = v.in_use;
  apart = v.apart;
  owned = v.owned;
  free_count = v.free_count;
  blocks = v.blocks;
  balance = v.balance;
  bounded = v.bounded;
  stride = v.stride;
  cached = λ s' y es b.
      find_slab-covers pool.total_size pool.slab_list x s e y
        (subst (λ (z : Slab). verify_boundary pool.total_size z y ≡ true) (sym (some_inj.0 es)) b);
}

-- The pointer behind a header goes back to it.
pub header_of_ptr :
    (x : ℕ)
    → x + cacheline_size < 2 ^ 64
    → (x + cacheline_size + 2 ^ 64 - cacheline_size) % 2 ^ 64 ≡ x
header_of_ptr x h = omega arith

IsOwned-middle :
    (t : ℕ) (s : List Slab) (l r : List ℕ) (x : ℕ) → AllOwned t s ((l ++ x ∷ r)) → IsOwned t s x
IsOwned-middle t s [] r x o = o.0
IsOwned-middle t s (y ∷ l) r x o = IsOwned-middle t s l r x o.1

-- In a well-formed pool, a caller that holds a block gives it back, by the address behind its
-- header, which is below 2^64: the block is the new head of the free list, no other block
-- changes hands, and the pool stays well formed.
pub free-IsValid :
    (pool : Pool) (l r avail : List ℕ) (x : ℕ)
    → IsValid pool avail (l ++ x ∷ r)
    → x + cacheline_size < 2 ^ 64
    → IsValid (free pool (x + cacheline_size)) (x ∷ avail) (l ++ r)
unfolding free
free-IsValid pool l r avail x v h =
    let (s, e) =
      IsOwned-middle pool.total_size pool.slab_list l (r ++ avail) x
        (subst (AllOwned pool.total_size pool.slab_list) (append_assoc l (x ∷ r) avail) v.owned) in
    let p = find_slab-above pool.total_size pool.slab_list x s e in
    let pos : 0 < x = omega (arith, p) in
    let not_null : (x + cacheline_size == 0) ≡ false = ground arith in
    rw (header_of_ptr x h, not_null)
      (elim (Bool-cases (verify_cached pool.total_size pool.last_freed_slab x)) [
        | inl c ↦ rw c (free_header-IsValid pool l r avail x v pos)
        | inr c ↦
            rw (c, e, header_of_ptr x h)
              (free_header-IsValid (record pool { last_freed_slab = some s }) l r avail x
                (cache-IsValid pool avail (l ++ x ∷ r) x s v e) pos)
      ])

header_untouched :
    (pool : Pool) (x : ℕ) → (pool.mem x).magic ≢ magic_pool → free_header pool x ≡ pool
unfolding free_header
header_untouched pool x n = elim (Bool-cases ((pool.mem x).magic == magic_pool)) [
  | inl e ↦ absurd (n ((==_iff (pool.mem x).magic magic_pool).0 e))
  | inr e ↦ ground (arith, e)
]

-- A pointer whose header does not carry the magic number of a block in use, such as a block
-- that is free already, changes nothing in the pool but the slab that the search caches.
pub free-ignored :
    (pool : Pool) (ptr : ℕ)
    → (pool.mem ((ptr + 2 ^ 64 - cacheline_size) % 2 ^ 64)).magic ≢ magic_pool
    → record (free pool ptr) { last_freed_slab = pool.last_freed_slab } ≡ pool
unfolding free
free-ignored pool ptr n =
    let header = (ptr + 2 ^ 64 - cacheline_size) % 2 ^ 64 in
    elim (Bool-cases (ptr == 0)) [
      | inl z ↦ rw z refl
      | inr z ↦ elim (Bool-cases (verify_cached pool.total_size pool.last_freed_slab header)) [
        | inl c ↦
            rw (z, c)
              (ap (λ (q : Pool). record q { last_freed_slab = pool.last_freed_slab })
                (header_untouched pool header n))
        | inr c ↦ elim (Option-cases (find_slab pool.total_size pool.slab_list header)) [
          | inl e ↦ rw (z, c, e) refl
          | inr (s, e) ↦
              rw (z, c, e)
                (ap (λ (q : Pool). record q { last_freed_slab = pool.last_freed_slab })
                  (header_untouched (record pool { last_freed_slab = some s }) header n))
        ]
      ]
    ]
