-- ===== src/Mempool/Blocks.antt =====
-- src/mempool.c: the blocks of a new slab, threaded by `expand_pool_batch`.
use tproxy2ss.Base.{
  ℕ, zero, suc, ◌+◌, ◌-◌, ◌*◌, ◌%◌, ◌≤◌, ◌<◌, ◌≡◌, ◌⊎◌, inl, inr, refl, sym, ap, ◌∙◌, arith, true,
  List, [], ◌∷◌, length, ◌==◌, ltb, leb, if◌then◌else◌, Bool-cases, lt→ltb, ==_iff,
}
use mathlib.Core.Path.{subst}
use native.Mathlib.Nat.{mul-mod_left}
use tproxy2ss.Mempool.Defs.{
  magic_free, cacheline_size, Slab, Header, Memory, store, thread_blocks, verify_boundary,
  find_slab,
}
use tproxy2ss.Mempool.Chain.{NotIn, Distinct, Chain, IsOwned, AllOwned, store_self, store_other}

-- The headers of `n` blocks
unfoldable pub blocks_from : ℕ → ℕ → ℕ → List ℕ
blocks_from stride zero curr = []
blocks_from stride (suc n) curr = curr ∷ blocks_from stride n (curr + stride)

pub length-blocks_from : (stride n curr : ℕ) → length (blocks_from stride n curr) ≡ n
unfolding blocks_from
length-blocks_from stride zero curr = refl
length-blocks_from stride (suc n) curr = ap suc (length-blocks_from stride n (curr + stride))

-- An address in front of the blocks or behind them is none of them.
pub NotIn-blocks_from :
    (stride n curr x : ℕ)
    → 0 < stride
    → (x < curr) ⊎ (curr + n * stride ≤ x)
    → NotIn x (blocks_from stride n curr)
unfolding blocks_from
NotIn-blocks_from stride zero curr x p h = tt
NotIn-blocks_from stride (suc n) curr x p h =
    let more : suc n * stride ≡ stride + n * stride = grind arith in
    (ground (arith, more), NotIn-blocks_from stride n (curr + stride) x p (ground (arith, more)))

pub Distinct-blocks_from : (stride n curr : ℕ) → 0 < stride → Distinct (blocks_from stride n curr)
unfolding blocks_from
Distinct-blocks_from stride zero curr p = tt
Distinct-blocks_from stride (suc n) curr p = (
  NotIn-blocks_from stride n (curr + stride) curr p (inl (omega (arith, p))),
  Distinct-blocks_from stride n (curr + stride) p,
)

module _ (stride tail : ℕ) (p : 0 < stride) where
  -- The loop leaves every other header as it is.
  pub thread_blocks-other :
      (n curr : ℕ) (mem : Memory) (x : ℕ)
      → NotIn x (blocks_from stride n curr)
      → thread_blocks stride tail n curr mem x ≡ mem x
  unfolding thread_blocks blocks_from
  thread_blocks-other zero curr mem x h = refl
  thread_blocks-other (suc n) curr mem x h =
      thread_blocks-other n (curr + stride) (store mem curr _) x h.1 ∙ store_other mem curr x _ h.0

  -- The loop makes the blocks a chain to the tail.
  pub thread_blocks-Chain :
      (n curr : ℕ) (mem : Memory)
      → tail ≡ 0
      → 0 < curr
      → Chain
          (thread_blocks stride tail n curr mem)
          (if n == 0 then tail else curr)
          (blocks_from stride n curr)
  unfolding thread_blocks blocks_from
  thread_blocks-Chain zero curr mem t c = t
  thread_blocks-Chain (suc n) curr mem t c =
      let h : Header = record {
        magic = magic_free;
        next_free = if n == 0 then tail else curr + stride;
      } in
      let same : thread_blocks stride tail (suc n) curr mem curr ≡ h =
        thread_blocks-other n (curr + stride) (store mem curr h) curr
          (NotIn-blocks_from stride n (curr + stride) curr p (inl (omega (arith, p))))
        ∙ store_self mem curr h in
      (
        ground arith,
        c,
        ap (λ z. z.magic) same,
        subst
            (λ (z : Header).
              Chain (thread_blocks stride tail (suc n) curr mem) z.next_free
                (blocks_from stride n (curr + stride)))
            (sym same)
            (thread_blocks-Chain n (curr + stride) (store mem curr h) t (omega (arith, c))),
      )

-- The memory from `lo` to `hi` overlaps none of the slabs.
abbrev pub AllApart : ℕ → ℕ → ℕ → List Slab → Type 0
AllApart t lo hi [] = Unit
AllApart t lo hi (s ∷ l) =
    ((hi ≤ s.base) ⊎ (s.base + cacheline_size + s.block_count * t ≤ lo)) × AllApart t lo hi l

verify_boundary-range :
    (t : ℕ) (s : Slab) (x : ℕ)
    → verify_boundary t s x ≡ true
    → (s.base + cacheline_size ≤ x) × (x < s.base + cacheline_size + s.block_count * t)
unfolding verify_boundary
verify_boundary-range t s x e = ground arith

pub find_slab-away :
    (t lo hi : ℕ) (slabs : List Slab) (x : ℕ)
    → IsOwned t slabs x
    → AllApart t lo hi slabs
    → (x < lo) ⊎ (hi ≤ x)
unfolding find_slab
find_slab-away t lo hi [] x (s, e) a = grind arith
find_slab-away t lo hi (c ∷ l) x (s, e) a = elim (Bool-cases (verify_boundary t c x)) [
  | inl here ↦ ground (arith, verify_boundary-range t c x here, a.0)
  | inr other ↦ find_slab-away t lo hi l x (s, (rw other at e)) a.1
]

pub IsOwned-cons : (t : ℕ) (c : Slab) (l : List Slab) (x : ℕ) → IsOwned t l x → IsOwned t (c ∷ l) x
unfolding find_slab
IsOwned-cons t c l x (s, e) = elim (Bool-cases (verify_boundary t c x)) [
  | inl here ↦ (c, rw here refl)
  | inr other ↦ (s, rw other e)
]

mul_lt : (i n t : ℕ) → 0 < t → i < n → i * t < n * t
mul_lt i n t p h = grind arith

-- The blocks of a new slab belong to it.
pub AllOwned-blocks_from :
    (t raw n : ℕ) (l : List Slab) (i m : ℕ)
    → 0 < t
    → i + m ≤ n
    → AllOwned t
        (record { base = raw; block_count = n } ∷ l)
        (blocks_from t m (raw + cacheline_size + i * t))
unfolding blocks_from find_slab verify_boundary
AllOwned-blocks_from t raw n l i zero p h = tt
AllOwned-blocks_from t raw n l i (suc m) p h =
    let next : raw + cacheline_size + i * t + t ≡ raw + cacheline_size + suc i * t = grind arith in
    let from : leb (raw + cacheline_size) (raw + cacheline_size + i * t) ≡ true = ground arith in
    let below : i * t < n * t = mul_lt i n t p (omega (arith, h)) in
    let to : ltb (raw + cacheline_size + i * t) (raw + cacheline_size + n * t) ≡ true =
      lt→ltb _ _ (omega (arith, below)) in
    let offset : raw + cacheline_size + i * t - (raw + cacheline_size) ≡ i * t = omega arith in
    let edge : ((raw + cacheline_size + i * t - (raw + cacheline_size)) % t == 0) ≡ true =
      (==_iff _ 0).1 (ap (λ a. a % t) offset ∙ mul-mod_left i t) in
    (
      (record { base = raw; block_count = n }, rw (from, to, edge) refl),
      subst (λ a. AllOwned t (record { base = raw; block_count = n } ∷ l) (blocks_from t m a))
          (sym next) (AllOwned-blocks_from t raw n l (suc i) m p (omega (arith, h))),
    )
