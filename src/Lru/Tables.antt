-- ===== src/Lru/Tables.antt =====
-- src/udp_lrucache.c: the three tables of UDP sessions, and the sweeps of src/udp_proxy.c over
-- them, by what they do to the table: the node of a closed session leaves it. The sessions that are
-- closed with their nodes are in Udp/Collect. The test `now - last_active >= timeout` on doubles is
-- an argument.
use tproxy2ss.Base.{ℕ, ◌+◌, Bool, Option, List, [], ◌∷◌, if◌then◌else◌}
use tproxy2ss.Lru.Defs.{Clock, Entry, HashTable, Sizes, lru_add, lru_find, lru_del, lru_clear}

unfoldable pub udp_lrucache_get_fullcone_maxsize : Sizes → ℕ
udp_lrucache_get_fullcone_maxsize g = g.fullcone

unfoldable pub udp_lrucache_get_symmetric_maxsize : Sizes → ℕ
udp_lrucache_get_symmetric_maxsize g = g.symmetric

unfoldable pub udp_lrucache_get_tproxy_maxsize : Sizes → ℕ
udp_lrucache_get_tproxy_maxsize g = g.tproxy

module _ {K T Table : Type 0} where
  unfoldable pub udp_fullcone_node_add :
      Clock T → HashTable K T Table → Sizes → Table → Entry K T → Table × Option (Entry K T)
  udp_fullcone_node_add clock hash g cache entry = lru_add clock hash g.fullcone cache entry

  unfoldable pub udp_symmetric_node_add :
      Clock T → HashTable K T Table → Sizes → Table → Entry K T → Table × Option (Entry K T)
  udp_symmetric_node_add clock hash g cache entry = lru_add clock hash g.symmetric cache entry

  unfoldable pub udp_tproxy_entry_add :
      Clock T → HashTable K T Table → Sizes → Table → Entry K T → Table × Option (Entry K T)
  udp_tproxy_entry_add clock hash g cache entry = lru_add clock hash g.tproxy cache entry

  -- One table is like another for the other operations.
  unfoldable pub udp_node_find : HashTable K T Table → Table → K → Option (Entry K T)
  udp_node_find hash cache key = lru_find hash cache key

  unfoldable pub udp_node_del : HashTable K T Table → Table → Entry K T → Table
  udp_node_del hash cache entry = lru_del hash cache entry

  unfoldable pub udp_node_clear :
      {C : Type 0} → HashTable K T Table → (C → Entry K T → C) → Table → C → C
  udp_node_clear hash cb cache ctx = lru_clear hash cb cache ctx

  -- The loop of a sweep: the table and the number of entries that were closed
  unfoldable pub sweep_from :
      HashTable K T Table → (T → Bool) → List (Entry K T) → Table → ℕ → Table × ℕ
  sweep_from hash is_idle [] cache evicted = (cache, evicted)
  sweep_from hash is_idle (cur ∷ l) cache evicted =
      let idle = is_idle cur.last_active in
      let left = if idle then udp_node_del hash cache cur else cache in
      sweep_from hash is_idle l left (if idle then evicted + 1 else evicted)

  -- `udp_gc_sweep_fullcone_sessions` and its two likes
  unfoldable pub udp_gc_sweep : HashTable K T Table → (T → Bool) → Table → Table × ℕ
  udp_gc_sweep hash is_idle cache = sweep_from hash is_idle (hash.entries cache) cache 0
