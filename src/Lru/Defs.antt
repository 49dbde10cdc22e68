-- ===== src/Lru/Defs.antt =====
-- src/lrucache.h: `LRU_DEFINE_ADD`, `LRU_DEFINE_FIND`, `LRU_DEFINE_DEL`, `LRU_DEFINE_CLEAR`, and
-- the capacities of src/udp_lrucache.c. The hash table of uthash and the `<` of timestamps are
-- parameters. An entry carries its address, which is what the C code compares.
use tproxy2ss.Base.{
  ℕ, suc, ◌*◌, ◌≡◌, ◌≢◌, ◌⊎◌, Bool, true, false, Option, none, some, List, [], ◌∷◌, length, ltb,
  ◌==◌, if◌then◌else◌,
}

-- The timestamps of entries: a strict order, as `<` is on doubles that are numbers.
pub record Clock (T : Type 0) : Type 0 where
  pub older : T → T → Bool
  pub older_irrefl : (a : T) → older a a ≡ false
  pub older_trans : (a b c : T) → older a b ≡ true → older c b ≡ false → older c a ≡ false

pub record Entry (K T : Type 0) : Type 0 where
  pub ptr : ℕ
  pub key : K
  pub last_active : T

abbrev pub IsIn : {A : Type 0} → A → List A → Type 0
IsIn e [] = ⊥
IsIn e (x ∷ l) = (e ≡ x) ⊎ IsIn e l

-- What the macros take from uthash: an addition is one more entry, a deletion takes out the
-- entry at that address, and the iteration meets each entry once.
pub record HashTable (K T Table : Type 0) : Type 0 where
  pub hash_add : Table → Entry K T → Table
  pub hash_del : Table → Entry K T → Table
  pub hash_get : Table → K → Option (Entry K T)
  pub hash_cnt : Table → ℕ
  pub entries : Table → List (Entry K T)
  pub cnt_entries : (t : Table) → hash_cnt t ≡ length (entries t)
  pub add_cnt : (t : Table) (e : Entry K T) → hash_cnt (hash_add t e) ≡ suc (hash_cnt t)
  pub add_in : (t : Table) (e : Entry K T) → IsIn e (entries (hash_add t e))
  pub add_keeps :
      (t : Table) (e x : Entry K T) → IsIn x (entries t) → IsIn x (entries (hash_add t e))
  pub del_cnt :
      (t : Table) (e : Entry K T) → IsIn e (entries t) → suc (hash_cnt (hash_del t e)) ≡ hash_cnt t
  pub del_keeps :
      (t : Table) (e x : Entry K T)
      → IsIn x (entries t)
      → x.ptr ≢ e.ptr
      → IsIn x (entries (hash_del t e))

module _ {K T : Type 0} where
  -- One round of the loop that looks for the victim
  unfoldable pub pick : Clock T → Entry K T → Entry K T → Option (Entry K T) → Option (Entry K T)
  pick clock entry cur none = if cur.ptr == entry.ptr then none else some cur
  pick clock entry cur (some victim) =
      if cur.ptr == entry.ptr
      then some victim
      else if clock.older cur.last_active victim.last_active
      then some cur
      else some victim

  unfoldable pub find_victim :
      Clock T → Entry K T → List (Entry K T) → Option (Entry K T) → Option (Entry K T)
  find_victim clock entry [] victim = victim
  find_victim clock entry (cur ∷ l) victim = find_victim clock entry l (pick clock entry cur victim)

  unfoldable pub clear_from : {C : Type 0} → (C → Entry K T → C) → List (Entry K T) → C → C
  clear_from cb [] ctx = ctx
  clear_from cb (curr ∷ l) ctx = clear_from cb l (cb ctx curr)

module _ {K T Table : Type 0} where
  unfoldable pub evict :
      HashTable K T Table → Table → Option (Entry K T) → Table × Option (Entry K T)
  evict hash cache none = (cache, none)
  evict hash cache (some victim) = (hash.hash_del cache victim, some victim)

  -- `LRU_DEFINE_ADD`: the cache and the evicted entry
  unfoldable pub lru_add :
      Clock T → HashTable K T Table → ℕ → Table → Entry K T → Table × Option (Entry K T)
  lru_add clock hash maxsize cache entry =
      let grown = hash.hash_add cache entry in
      if ltb maxsize (hash.hash_cnt grown)
      then evict hash grown (find_victim clock entry (hash.entries grown) none)
      else (grown, none)

  unfoldable pub lru_find : HashTable K T Table → Table → K → Option (Entry K T)
  lru_find hash cache key = hash.hash_get cache key

  unfoldable pub lru_del : HashTable K T Table → Table → Entry K T → Table
  lru_del hash cache entry = hash.hash_del cache entry

  -- `LRU_DEFINE_CLEAR`; the iteration is the safe one, so the callback may delete `curr`.
  unfoldable pub lru_clear :
      {C : Type 0} → HashTable K T Table → (C → Entry K T → C) → Table → C → C
  lru_clear hash cb cache ctx = clear_from cb (hash.entries cache) ctx

-- `g_fullcone_cache_maxsize`, `g_symmetric_cache_maxsize`, `g_tproxy_cache_maxsize`
pub record Sizes : Type 0 where
  pub fullcone : ℕ
  pub symmetric : ℕ
  pub tproxy : ℕ

-- `x > 65535u ? 65535u : (uint16_t)x`
unfoldable pub clamp16 : ℕ → ℕ
clamp16 x = if ltb 65535 x then 65535 else x

unfoldable pub udp_lrucache_set_maxsize : ℕ → Sizes
udp_lrucache_set_maxsize base_size = record {
  fullcone = base_size;
  symmetric = clamp16 (base_size * 2);
  tproxy = clamp16 (base_size * 4);
}
