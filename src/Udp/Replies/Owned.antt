-- ===== src/Udp/Replies/Owned.antt =====
-- src/udp_proxy.c: while a batch of replies is read, every held entry is in the table or among the
-- evicted ones that wait for the flush.
use tproxy2ss.Base.{
  ℕ, ◌+◌, ◌<◌, ◌≡◌, refl, sym, ap, ◌∙◌, arith, ◌⊎◌, inl, inr, Option, none, some, List, [], ◌∷◌,
  ltb, ◌==◌, Bool-cases,
}
use mathlib.Core.Option.{some_inj, none-ne-some}
use tproxy2ss.Lru.Defs.{Clock, Entry, IsIn, pick, find_victim, evict, lru_add}
use tproxy2ss.Udp.Held.{one, count, one_same}
use tproxy2ss.Udp.Replies.{addresses, UdpTable}

module _ {K T : Type 0} where
  pick_in :
      (clock : Clock T) (entry cur v : Entry K T) (o : Option (Entry K T))
      → pick clock entry cur o ≡ some v
      → (o ≡ some v) ⊎ (some cur ≡ some v)
  unfolding pick
  pick_in clock entry cur v none e = elim (Bool-cases (cur.ptr == entry.ptr)) [
    | inl f ↦ inl (sym (rw f refl) ∙ e)
    | inr f ↦ inr (sym (rw f refl) ∙ e)
  ]
  pick_in clock entry cur v (some w) e = elim (Bool-cases (cur.ptr == entry.ptr)) [
    | inl f ↦ inl (sym (rw f refl) ∙ e)
    | inr f ↦ elim (Bool-cases (clock.older cur.last_active w.last_active)) [
      | inl g ↦ inr (sym (rw (f, g) refl) ∙ e)
      | inr g ↦ inl (sym (rw (f, g) refl) ∙ e)
    ]
  ]

  pub addresses_in :
      (x : Entry K T) (l : List (Entry K T)) → IsIn x l → 0 < count x.ptr (addresses l)
  unfolding count
  addresses_in x [] i = absurd i
  addresses_in x (y ∷ l) (inl e) =
      let f : x.ptr ≡ y.ptr = ap (λ (z : Entry K T). z.ptr) e in
      rw (sym f) (omega (arith, one_same x.ptr))
  addresses_in x (y ∷ l) (inr i) = omega (arith, addresses_in x l i)

  unfoldable pub waiting : Option (Entry K T) → List ℕ
  waiting none = []
  waiting (some v) = v.ptr ∷ []

  find_victim-IsIn :
      (clock : Clock T) (entry v : Entry K T) (l : List (Entry K T)) (o : Option (Entry K T))
      → find_victim clock entry l o ≡ some v
      → (o ≡ some v) ⊎ IsIn v l
  unfolding find_victim
  find_victim-IsIn clock entry v [] o e = inl e
  find_victim-IsIn clock entry v (cur ∷ l) o e =
      elim (find_victim-IsIn clock entry v l (pick clock entry cur o) e) [
        | inl f ↦ elim (pick_in clock entry cur v o f) [
          | inl g ↦ inl g
          | inr g ↦ inr (inl (sym (some_inj.0 g)))
        ]
        | inr i ↦ inr (inr i)
      ]

  chosen-IsIn :
      (clock : Clock T) (entry v : Entry K T) (l : List (Entry K T))
      → find_victim clock entry l none ≡ some v
      → IsIn v l
  chosen-IsIn clock entry v l e = elim (find_victim-IsIn clock entry v l none e) [
    | inl g ↦ absurd (none-ne-some v g)
    | inr i ↦ i
  ]

module _ {K T Table : Type 0} (clock : Clock T) (table : UdpTable K T Table) where
  abbrev of : Table → ℕ → ℕ
  of t p = count p (addresses (table.hash.entries t))

  evict-addresses :
      (t : Table) (o : Option (Entry K T))
      → ((v : Entry K T) → o ≡ some v → IsIn v (table.hash.entries t))
      → (p : ℕ)
      → of t p ≡ of (evict table.hash t o).0 p + count p (waiting (evict table.hash t o).1)
  unfolding evict waiting count
  evict-addresses t none i p = omega arith
  evict-addresses t (some v) i p = omega (arith, table.del_addresses t v (i v refl) p)

  -- An addition moves addresses from the new entry and the table to the table and the victim.
  pub lru_add-addresses :
      (maxsize : ℕ) (t : Table) (e : Entry K T) (p : ℕ)
      → let r = lru_add clock table.hash maxsize t e in
        one p e.ptr + of t p ≡ of r.0 p + count p (waiting r.1)
  unfolding waiting count lru_add one
  lru_add-addresses maxsize t e p =
      let grown = table.hash.hash_add t e in
      let victim = find_victim clock e (table.hash.entries grown) none in
      let here : (v : Entry K T) → victim ≡ some v → IsIn v (table.hash.entries grown) =
        λ v f. chosen-IsIn clock e v (table.hash.entries grown) f in
      elim (Bool-cases (ltb maxsize (table.hash.hash_cnt grown))) [
        | inl full ↦
            rw (lru_add, full)
              (omega (arith, table.add_addresses t e p, evict-addresses grown victim here p))
        | inr room ↦ rw (lru_add, room) (omega (arith, table.add_addresses t e p))
      ]
