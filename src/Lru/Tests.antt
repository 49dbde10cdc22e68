-- ===== src/Lru/Tests.antt =====
-- The theorems on src/lrucache.h with a list for the hash table, and numbers for timestamps.
use tproxy2ss.Base.{
  ℕ, ◌≡◌, ◌≢◌, inl, inr, refl, ap, arith, some, List, [], ◌∷◌, ltb, ◌==◌, ltb→lt, ltb→le, le→ltb,
}
use tproxy2ss.Lru.Defs.{Clock, Entry, IsIn, pick, find_victim, evict, lru_add}
use tproxy2ss.Lru.Listed.{lists}
use tproxy2ss.Lru.Bound.{Added, lru_add-Added}

abbrev seconds : Clock ℕ
seconds = record {
  older = ltb;
  older_irrefl = λ a. le→ltb a a (omega arith);
  older_trans = λ a b c h k. le→ltb c a (omega (arith, ltb→lt a b h, ltb→le c b k));
}

abbrev first : Entry ℕ ℕ
first = record { ptr = 100; key = 1; last_active = 30 }

abbrev second : Entry ℕ ℕ
second = record { ptr = 200; key = 2; last_active = 20 }

abbrev third : Entry ℕ ℕ
third = record { ptr = 300; key = 3; last_active = 10 }

abbrev two : List (Entry ℕ ℕ)
two = first ∷ second ∷ []

third-new : (x : Entry ℕ ℕ) → IsIn x two → x.ptr ≢ third.ptr
third-new x (inl p) e = absurd (omega (arith, ap (λ (z : Entry ℕ ℕ). z.ptr) p, e))
third-new x (inr (inl p)) e = absurd (omega (arith, ap (λ (z : Entry ℕ ℕ). z.ptr) p, e))
third-new x (inr (inr p)) e = absurd p

-- The oldest of the two others goes, although the new entry is older still.
evicted_second : (lru_add seconds (lists ◌==◌) 2 two third).1 ≡ some second
unfolding lru_add pick find_victim evict
evicted_second = refl

lru_add-Added_example :
    Added seconds (lists ◌==◌) 2 two third (lru_add seconds (lists ◌==◌) 2 two third)
lru_add-Added_example =
    lru_add-Added seconds (lists ◌==◌) 2 two third third-new (omega arith) (omega arith)

first_unique : (c : Entry ℕ ℕ) → IsIn c two → c.ptr ≡ first.ptr → c ≡ first
first_unique c (inl p) e = p
first_unique c (inr (inl p)) e = absurd (omega (arith, ap (λ (z : Entry ℕ ℕ). z.ptr) p, e))
first_unique c (inr (inr p)) e = absurd p
