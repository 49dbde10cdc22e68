-- ===== src/Lru/Sweep.antt =====
-- src/udp_proxy.c: a sweep of the garbage collection over a table.
use tproxy2ss.Base.{
  ℕ, ◌+◌, ◌≡◌, ◌≢◌, inl, inr, refl, sym, ap, ◌∙◌, Bool, false, List, [], ◌∷◌, Bool-cases,
}
use mathlib.Core.Bool.{true≢false}
use tproxy2ss.Lru.Defs.{Entry, IsIn, HashTable, lru_del}
use tproxy2ss.Lru.Tables.{udp_node_del, sweep_from, udp_gc_sweep}

module _ {K T Table : Type 0} where
  sweep_from-keeps :
      (hash : HashTable K T Table) (is_idle : T → Bool) (l : List (Entry K T)) (cache : Table)
      (evicted : ℕ) (x : Entry K T)
      → ((c : Entry K T) → IsIn c l → c.ptr ≡ x.ptr → c ≡ x)
      → IsIn x (hash.entries cache)
      → is_idle x.last_active ≡ false
      → IsIn x (hash.entries (sweep_from hash is_idle l cache evicted).0)
  unfolding sweep_from udp_node_del lru_del
  sweep_from-keeps hash is_idle [] cache evicted x own i busy = i
  sweep_from-keeps hash is_idle (cur ∷ l) cache evicted x own i busy =
      let rest = λ (c : Entry K T) (j : IsIn c l). own c (inr j) in
      elim (Bool-cases (is_idle cur.last_active)) [
        | inr e ↦ rw (sweep_from, e) (sweep_from-keeps hash is_idle l cache evicted x rest i busy)
        | inl e ↦
            let apart : x.ptr ≢ cur.ptr = λ p. true≢false (
              sym e
              ∙ ap (λ (z : Entry K T). is_idle z.last_active) (own cur (inl refl) (sym p))
              ∙ busy) in
            rw (sweep_from, e)
              (sweep_from-keeps hash is_idle l (hash.hash_del cache cur) (evicted + 1) x rest
                (hash.del_keeps cache cur x i apart) busy)
      ]

  -- A sweep keeps every entry that is not idle and is the only one of the table at its address.
  udp_gc_sweep-keeps :
      (hash : HashTable K T Table) (is_idle : T → Bool) (cache : Table) (x : Entry K T)
      → ((c : Entry K T) → IsIn c (hash.entries cache) → c.ptr ≡ x.ptr → c ≡ x)
      → IsIn x (hash.entries cache)
      → is_idle x.last_active ≡ false
      → IsIn x (hash.entries (udp_gc_sweep hash is_idle cache).0)
  unfolding udp_gc_sweep
  udp_gc_sweep-keeps hash is_idle cache x own i busy =
      sweep_from-keeps hash is_idle (hash.entries cache) cache 0 x own i busy
