-- ===== src/Lru/Victim.antt =====
-- src/lrucache.h: the loop over the cache that chooses the entry to evict.
use tproxy2ss.Base.{
  ◌≡◌, ◌≢◌, ◌⊎◌, inl, inr, refl, sym, ap, ◌∙◌, arith, false, none, some, List, [], ◌∷◌, ◌==◌,
  Bool-cases, ==_iff,
}
use mathlib.Core.Path.{subst}
use tproxy2ss.Lru.Defs.{Clock, Entry, IsIn, pick, find_victim}

module _ {K T : Type 0} where
  -- The choice `v` against the entries: it is another entry than `entry`, and none of the
  -- others in the list is older.
  pub record IsOldest (clock : Clock T) (entry : Entry K T) (l : List (Entry K T)) (v : Entry K T)
      : Type 0 where
    pub other : v.ptr ≢ entry.ptr
    pub oldest :
        (c : Entry K T)
        → IsIn c l
        → c.ptr ≢ entry.ptr
        → clock.older c.last_active v.last_active ≡ false

  -- The candidate after a round is no younger than the one before, and than the entry met.
  abbrev NoYounger : Clock T → Entry K T → Entry K T → Type 0
  NoYounger clock v w =
      (c : T) → clock.older c w.last_active ≡ false → clock.older c v.last_active ≡ false

  pick-some :
      (clock : Clock T) (entry cur w : Entry K T)
      → w.ptr ≢ entry.ptr
      → (v : Entry K T) × (pick clock entry cur (some w) ≡ some v)
        × (v.ptr ≢ entry.ptr)
        × NoYounger clock v w
        × ((cur.ptr ≢ entry.ptr) → clock.older cur.last_active v.last_active ≡ false)
        × ((v ≡ w) ⊎ (v ≡ cur))
  unfolding pick
  pick-some clock entry cur w o = elim (Bool-cases (cur.ptr == entry.ptr)) [
    | inl e ↦
        (w, rw e refl, o, (λ c h. h), (λ n. absurd (n ((==_iff cur.ptr entry.ptr).0 e))), inl refl)
    | inr e ↦ elim (Bool-cases (clock.older cur.last_active w.last_active)) [
      | inl y ↦ (
        cur,
        rw (e, y) refl,
        (λ p. grind (arith, e, p, (==_iff cur.ptr entry.ptr).1)),
        (λ c h. clock.older_trans cur.last_active w.last_active c y h),
        (λ n. clock.older_irrefl cur.last_active),
        inr refl,
      )
      | inr y ↦ (w, rw (e, y) refl, o, (λ c h. h), (λ n. y), inl refl)
    ]
  ]

  find_victim-some :
      (clock : Clock T) (entry : Entry K T) (l : List (Entry K T)) (w : Entry K T)
      → w.ptr ≢ entry.ptr
      → (v : Entry K T) × (find_victim clock entry l (some w) ≡ some v)
        × NoYounger clock v w
        × IsOldest clock entry l v
        × ((v ≡ w) ⊎ IsIn v l)
  unfolding find_victim
  find_victim-some clock entry [] w o =
      (w, refl, (λ c h. h), record { other = o; oldest = λ c i n. absurd i }, inl refl)
  find_victim-some clock entry (cur ∷ l) w o =
      let (u, e, ou, yu, fresh, from) = pick-some clock entry cur w o in
      let (v, ev, yv, old, fv) = find_victim-some clock entry l u ou in
      (
        v,
        rw e ev,
        (λ c h. yv c (yu c h)),
        record {
          other = old.other;
          oldest = λ c i n. elim i [
            | inl p ↦
                subst (λ (z : Entry K T). clock.older z.last_active v.last_active ≡ false) (sym p)
                  (yv cur.last_active (fresh (subst (λ (z : Entry K T). z.ptr ≢ entry.ptr) p n)))
            | inr q ↦ old.oldest c q n
          ];
        },
        elim fv [
          | inl p ↦ elim from [ inl q ↦ inl (p ∙ q) | inr q ↦ inr (inl (p ∙ q)) ]
          | inr q ↦ inr (inr q)
        ],
      )

  -- When some other entry is there, the loop finds a victim, and it is the oldest of the others.
  pub find_victim-IsOldest :
      (clock : Clock T) (entry : Entry K T) (l : List (Entry K T)) (x : Entry K T)
      → IsIn x l
      → x.ptr ≢ entry.ptr
      → (v : Entry K T) × (find_victim clock entry l none ≡ some v)
        × IsIn v l
        × IsOldest clock entry l v
  unfolding find_victim pick
  find_victim-IsOldest clock entry [] x i n = absurd i
  find_victim-IsOldest clock entry (cur ∷ l) x i n = elim (Bool-cases (cur.ptr == entry.ptr)) [
    | inl e ↦
        let same = (==_iff cur.ptr entry.ptr).0 e in
        let i' : IsIn x l = elim i [ inl p ↦ absurd (n (ap (λ z. z.ptr) p ∙ same)) | inr q ↦ q ] in
        let (v, ev, iv, old) = find_victim-IsOldest clock entry l x i' n in
        (
          v,
          rw e ev,
          inr iv,
          record {
            other = old.other;
            oldest = λ c j m. elim j [
              | inl p ↦ absurd (m (ap (λ z. z.ptr) p ∙ same))
              | inr q ↦ old.oldest c q m
            ];
          },
        )
    | inr e ↦
        let o : cur.ptr ≢ entry.ptr = λ p. grind (arith, e, p, (==_iff cur.ptr entry.ptr).1) in
        let (v, ev, yv, old, fv) = find_victim-some clock entry l cur o in
        (
          v,
          rw e ev,
          elim fv [ inl p ↦ inl p | inr q ↦ inr q ],
          record {
            other = old.other;
            oldest = λ c j m. elim j [
              | inl p ↦
                  subst (λ (z : Entry K T). clock.older z.last_active v.last_active ≡ false) (sym p)
                    (yv cur.last_active (clock.older_irrefl cur.last_active))
              | inr q ↦ old.oldest c q m
            ];
          },
        )
  ]
