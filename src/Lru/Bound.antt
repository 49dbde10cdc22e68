-- ===== src/Lru/Bound.antt =====
-- src/lrucache.h: `LRU_DEFINE_ADD` against the capacity, and the capacities of
-- src/udp_lrucache.c.
use tproxy2ss.Base.{
  ℕ, suc, ◌*◌, ◌^◌, ◌≤◌, ◌<◌, ◌≡◌, ◌≢◌, ◌⊎◌, inl, inr, refl, sym, ap, arith, true, false, Option,
  none, some, List, [], ◌∷◌, length, ltb, Bool-cases, ltb→lt, ltb→le,
}
use mathlib.Core.Path.{subst}
use tproxy2ss.Lru.Defs.{
  Clock, Entry, IsIn, HashTable, find_victim, evict, lru_add, clamp16, udp_lrucache_set_maxsize,
}
use tproxy2ss.Lru.Victim.{IsOldest, find_victim-IsOldest}

module _ {K T : Type 0} where
  -- A list with an entry has a first one.
  first_of : (l : List (Entry K T)) → 0 < length l → (x : Entry K T) × IsIn x l
  first_of [] h = absurd (omega arith)
  first_of (x ∷ l) h = (x, inl refl)

module _ {K T Table : Type 0} where
  -- Below the capacity nothing is evicted.
  lru_add-room :
      (clock : Clock T) (hash : HashTable K T Table) (maxsize : ℕ) (cache : Table)
      (entry : Entry K T)
      → ltb maxsize (hash.hash_cnt (hash.hash_add cache entry)) ≡ false
      → lru_add clock hash maxsize cache entry ≡ (hash.hash_add cache entry, none)
  unfolding lru_add
  lru_add-room clock hash maxsize cache entry h = rw h refl

  lru_add-full :
      (clock : Clock T) (hash : HashTable K T Table) (maxsize : ℕ) (cache : Table)
      (entry v : Entry K T)
      → ltb maxsize (hash.hash_cnt (hash.hash_add cache entry)) ≡ true
      → find_victim clock entry (hash.entries (hash.hash_add cache entry)) none ≡ some v
      → lru_add clock hash maxsize cache entry
        ≡ (hash.hash_del (hash.hash_add cache entry) v, some v)
  unfolding lru_add evict
  lru_add-full clock hash maxsize cache entry v h e = rw (h, e) refl

  -- The two ways in which an addition may go
  pub data Added (clock : Clock T) (hash : HashTable K T Table) (maxsize : ℕ) (cache : Table)
      (entry : Entry K T) (result : Table × Option (Entry K T)) : Type 0 where
    room :
        suc (hash.hash_cnt cache) ≤ maxsize
        → result ≡ (hash.hash_add cache entry, none)
        → Added clock hash maxsize cache entry result
    evicted :
        (v : Entry K T)
        → hash.hash_cnt cache ≡ maxsize
        → IsIn v (hash.entries (hash.hash_add cache entry))
        → IsOldest clock entry (hash.entries (hash.hash_add cache entry)) v
        → result ≡ (hash.hash_del (hash.hash_add cache entry) v, some v)
        → Added clock hash maxsize cache entry result

  -- The addition of an entry at a new address, to a cache within a capacity that is not zero:
  -- either there was room and nothing is evicted, or the cache was full, and then the evicted
  -- entry is in the table, is not the new one, and no entry but the new one is older.
  pub lru_add-Added :
      (clock : Clock T) (hash : HashTable K T Table) (maxsize : ℕ) (cache : Table)
      (entry : Entry K T)
      → ((x : Entry K T) → IsIn x (hash.entries cache) → x.ptr ≢ entry.ptr)
      → 0 < maxsize
      → hash.hash_cnt cache ≤ maxsize
      → Added clock hash maxsize cache entry (lru_add clock hash maxsize cache entry)
  lru_add-Added clock hash maxsize cache entry new pos within =
      let grown = hash.hash_add cache entry in
      elim (Bool-cases (ltb maxsize (hash.hash_cnt grown))) [
        | inl full ↦
            let over = ltb→lt maxsize (hash.hash_cnt grown) full in
            let count : hash.hash_cnt cache ≡ maxsize =
              omega (arith, over, hash.add_cnt cache entry, within) in
            let (x, i) =
              first_of (hash.entries cache) (omega (arith, count, hash.cnt_entries cache, pos)) in
            let (v, e, iv, old) =
              find_victim-IsOldest clock entry (hash.entries grown) x
                (hash.add_keeps cache entry x i) (new x i) in
            evicted v count iv old (lru_add-full clock hash maxsize cache entry v full e)
        | inr room_left ↦
            room
              (omega
                (arith, ltb→le maxsize (hash.hash_cnt grown) room_left, hash.add_cnt cache entry))
              (lru_add-room clock hash maxsize cache entry room_left)
      ]

  -- After the addition of an entry at a new address, to a cache within a capacity that is not
  -- zero, the cache is within its capacity and holds the new entry.
  pub lru_add-within :
      (clock : Clock T) (hash : HashTable K T Table) (maxsize : ℕ) (cache : Table)
      (entry : Entry K T)
      → ((x : Entry K T) → IsIn x (hash.entries cache) → x.ptr ≢ entry.ptr)
      → 0 < maxsize
      → hash.hash_cnt cache ≤ maxsize
      → (hash.hash_cnt (lru_add clock hash maxsize cache entry).0 ≤ maxsize)
        × IsIn entry (hash.entries (lru_add clock hash maxsize cache entry).0)
  lru_add-within clock hash maxsize cache entry new pos within =
      let Claim = λ (r : Table × Option (Entry K T)).
        (hash.hash_cnt r.0 ≤ maxsize) × IsIn entry (hash.entries r.0) in
      let grown = hash.hash_add cache entry in
      elim (lru_add-Added clock hash maxsize cache entry new pos within) [
        | room c e ↦
            subst Claim (sym e)
              (omega (arith, c, hash.add_cnt cache entry), hash.add_in cache entry)
        | evicted v c i old e ↦ subst Claim (sym e) (
          omega (arith, c, hash.add_cnt cache entry, hash.del_cnt grown v i),
          hash.del_keeps grown v entry (hash.add_in cache entry) (λ p. old.other (sym p)),
        )
      ]

  -- The addition of an entry at a new address, to a cache within a capacity that is not zero,
  -- keeps every entry of the cache whose address is not that of the evicted entry.
  pub lru_add-keeps :
      (clock : Clock T) (hash : HashTable K T Table) (maxsize : ℕ) (cache : Table)
      (entry x : Entry K T)
      → ((y : Entry K T) → IsIn y (hash.entries cache) → y.ptr ≢ entry.ptr)
      → 0 < maxsize
      → hash.hash_cnt cache ≤ maxsize
      → IsIn x (hash.entries cache)
      → ((v : Entry K T) → (lru_add clock hash maxsize cache entry).1 ≡ some v → x.ptr ≢ v.ptr)
      → IsIn x (hash.entries (lru_add clock hash maxsize cache entry).0)
  lru_add-keeps clock hash maxsize cache entry x new pos within i safe =
      elim (lru_add-Added clock hash maxsize cache entry new pos within) [
        | room c e ↦
            subst (λ (r : Table × Option (Entry K T)). IsIn x (hash.entries r.0)) (sym e)
              (hash.add_keeps cache entry x i)
        | evicted v c j old e ↦
            subst (λ (r : Table × Option (Entry K T)). IsIn x (hash.entries r.0)) (sym e)
              (hash.del_keeps (hash.hash_add cache entry) v x (hash.add_keeps cache entry x i)
                (safe v (ap (λ r. r.1) e)))
      ]

-- For a 16-bit base size the three capacities are 16-bit values, the full-cone capacity is the
-- base size, and the others are twice and four times it, or 65535 where that does not fit.
pub set_maxsize-bounds :
    (base_size : ℕ)
    → base_size < 2 ^ 16
    → ((udp_lrucache_set_maxsize base_size).fullcone ≡ base_size)
      × ((udp_lrucache_set_maxsize base_size).symmetric < 2 ^ 16)
      × ((udp_lrucache_set_maxsize base_size).tproxy < 2 ^ 16)
      × (((udp_lrucache_set_maxsize base_size).symmetric ≡ base_size * 2)
          ⊎ ((udp_lrucache_set_maxsize base_size).symmetric ≡ 65535))
      × (((udp_lrucache_set_maxsize base_size).tproxy ≡ base_size * 4)
          ⊎ ((udp_lrucache_set_maxsize base_size).tproxy ≡ 65535))
      × (base_size ≤ (udp_lrucache_set_maxsize base_size).symmetric)
      × ((udp_lrucache_set_maxsize base_size).symmetric
          ≤ (udp_lrucache_set_maxsize base_size).tproxy)
unfolding udp_lrucache_set_maxsize clamp16
set_maxsize-bounds base_size h = elim (Bool-cases (ltb 65535 (base_size * 2))) [
  | inl a ↦ elim (Bool-cases (ltb 65535 (base_size * 4))) [
    | inl b ↦
        rw (a, b) (refl, omega arith, omega arith, inr refl, inr refl, omega arith, omega arith)
    | inr b ↦ absurd (omega (arith, ltb→lt 65535 (base_size * 2) a, ltb→le 65535 (base_size * 4) b))
  ]
  | inr a ↦ elim (Bool-cases (ltb 65535 (base_size * 4))) [
    | inl b ↦
        rw (a, b)
          (
            refl,
            omega (arith, ltb→le 65535 (base_size * 2) a),
            omega arith,
            inl refl,
            inr refl,
            omega arith,
            omega (arith, ltb→le 65535 (base_size * 2) a),
          )
    | inr b ↦
        rw (a, b)
          (
            refl,
            omega (arith, ltb→le 65535 (base_size * 2) a),
            omega (arith, ltb→le 65535 (base_size * 4) b),
            inl refl,
            inl refl,
            omega arith,
            omega arith,
          )
  ]
]
