-- ===== src/Lru/Listed.antt =====
-- A table of src/lrucache.h as a list of its entries in the order of their addition, for concrete runs.
use tproxy2ss.Base.{
  ℕ, suc, ◌≡◌, ◌≢◌, inl, inr, refl, ap, ◌∙◌, arith, Bool, Option, none, some, List, [], ◌∷◌, ◌++◌,
  length, length-append, ◌==◌, if◌then◌else◌, Bool-cases, ==_iff,
}
use tproxy2ss.Lru.Defs.{Entry, IsIn, HashTable}

module _ {K T : Type 0} where
  unfoldable pub unlink : ℕ → List (Entry K T) → List (Entry K T)
  unlink p [] = []
  unlink p (x ∷ l) = let rest = unlink p l in if x.ptr == p then l else x ∷ rest

  pub add_last : (l : List (Entry K T)) (e : Entry K T) → IsIn e (l ++ e ∷ [])
  add_last [] e = inl refl
  add_last (x ∷ l) e = inr (add_last l e)

  pub add_others : (l : List (Entry K T)) (e x : Entry K T) → IsIn x l → IsIn x (l ++ e ∷ [])
  add_others [] e x i = absurd i
  add_others (y ∷ l) e x (inl p) = inl p
  add_others (y ∷ l) e x (inr q) = inr (add_others l e x q)

  pub unlink_one :
      (l : List (Entry K T)) (e : Entry K T) → IsIn e l → suc (length (unlink e.ptr l)) ≡ length l
  unfolding unlink
  unlink_one [] e i = absurd i
  unlink_one (y ∷ l) e i = elim (Bool-cases (y.ptr == e.ptr)) [
    | inl same ↦ rw same refl
    | inr other ↦ rw other (elim i [
      | inl p ↦
          absurd (grind (arith, other, (==_iff y.ptr e.ptr).1, ap (λ (z : Entry K T). z.ptr) p))
      | inr q ↦ ap suc (unlink_one l e q)
    ])
  ]

  pub unlink_others :
      (l : List (Entry K T)) (e x : Entry K T) → IsIn x l → x.ptr ≢ e.ptr → IsIn x (unlink e.ptr l)
  unfolding unlink
  unlink_others [] e x i n = absurd i
  unlink_others (y ∷ l) e x i n = elim (Bool-cases (y.ptr == e.ptr)) [
    | inl same ↦ rw same (elim i [
      | inl p ↦ absurd (n (ap (λ (z : Entry K T). z.ptr) p ∙ (==_iff y.ptr e.ptr).0 same))
      | inr q ↦ q
    ])
    | inr other ↦ rw other (elim i [ inl p ↦ inl p | inr q ↦ inr (unlink_others l e x q n) ])
  ]

module _ {K T : Type 0} (same : K → K → Bool) where
  unfoldable pub get_from : K → List (Entry K T) → Option (Entry K T)
  get_from k [] = none
  get_from k (x ∷ l) = let rest = get_from k l in if same x.key k then some x else rest

  abbrev pub lists : HashTable K T (List (Entry K T))
  lists = record {
    hash_add = λ l e. l ++ e ∷ [];
    hash_del = λ l e. unlink e.ptr l;
    hash_get = λ l k. get_from k l;
    hash_cnt = λ l. length l;
    entries = λ l. l;
    cnt_entries = λ l. refl;
    add_cnt = λ l e. omega (arith, length-append l (e ∷ []));
    add_in = add_last;
    add_keeps = add_others;
    del_cnt = unlink_one;
    del_keeps = unlink_others;
  }
