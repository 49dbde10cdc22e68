-- ===== src/Udp/Listed.antt =====
-- A table of UDP sessions as a list of its nodes, for concrete runs.
use tproxy2ss.Base.{
  ℕ, ◌+◌, ◌≡◌, refl, sym, ap, ◌∙◌, arith, Bool, inl, inr, some, List, [], ◌∷◌, ◌++◌, ltb, ◌==◌,
  if◌then◌else◌, Bool-cases, ==_iff, ltb→lt, ltb→le, le→ltb,
}
use mathlib.Core.Option.{some_inj, none-ne-some}
use tproxy2ss.Lru.Defs.{Clock, Entry, IsIn}
use tproxy2ss.Lru.Listed.{unlink, get_from, lists}
use tproxy2ss.Udp.Endpoint.{Endpoint}
use tproxy2ss.Udp.Held.{one, count}
use tproxy2ss.Udp.Replies.{addresses, UdpTable}

abbrev pub seconds : Clock ℕ
seconds = record {
  older = ltb;
  older_irrefl = λ a. le→ltb a a (omega arith);
  older_trans = λ a b c h k. le→ltb c a (omega (arith, ltb→lt a b h, ltb→le c b k));
}

module _ {K : Type 0} where
  abbrev pub set_active : List (Entry K ℕ) → Entry K ℕ → ℕ → List (Entry K ℕ)
  set_active [] e now = []
  set_active (x ∷ l) e now =
      (if x.ptr == e.ptr then record x { last_active = now } else x) ∷ set_active l e now

  pub add_addresses_lem :
      (l : List (Entry K ℕ)) (e : Entry K ℕ) (p : ℕ)
      → count p (addresses (l ++ e ∷ [])) ≡ one p e.ptr + count p (addresses l)
  unfolding count
  add_addresses_lem [] e p = refl
  add_addresses_lem (x ∷ l) e p = omega (arith, add_addresses_lem l e p)

  pub del_addresses_lem :
      (l : List (Entry K ℕ)) (e : Entry K ℕ)
      → IsIn e l
      → (p : ℕ) → count p (addresses l) ≡ one p e.ptr + count p (addresses (unlink e.ptr l))
  unfolding count unlink
  del_addresses_lem [] e i p = absurd i
  del_addresses_lem (x ∷ l) e i p = elim (Bool-cases (x.ptr == e.ptr)) [
    | inl same ↦ rw same (ap (λ q. one p q + count p (addresses l)) ((==_iff x.ptr e.ptr).0 same))
    | inr other ↦ elim i [
      | inl f ↦
          absurd (grind (arith, other, (==_iff x.ptr e.ptr).1, ap (λ (z : Entry K ℕ). z.ptr) f))
      | inr j ↦ rw other (omega (arith, del_addresses_lem l e j p))
    ]
  ]

  pub touch_addresses_lem :
      (l : List (Entry K ℕ)) (e : Entry K ℕ) (now p : ℕ)
      → count p (addresses (set_active l e now)) ≡ count p (addresses l)
  unfolding count
  touch_addresses_lem [] e now p = refl
  touch_addresses_lem (x ∷ l) e now p = elim (Bool-cases (x.ptr == e.ptr)) [
    | inl g ↦ rw g (omega (arith, touch_addresses_lem l e now p))
    | inr g ↦ rw g (omega (arith, touch_addresses_lem l e now p))
  ]

module _ {K : Type 0} (same : K → K → Bool) where
  pub get_in_lem :
      (l : List (Entry K ℕ)) (k : K) (e : Entry K ℕ) → get_from same k l ≡ some e → IsIn e l
  unfolding get_from
  get_in_lem [] k e f = absurd (none-ne-some e f)
  get_in_lem (x ∷ l) k e f = elim (Bool-cases (same x.key k)) [
    | inl g ↦ inl (sym (some_inj.0 (sym (rw g refl) ∙ f)))
    | inr g ↦ inr (get_in_lem l k e (sym (rw g refl) ∙ f))
  ]

  abbrev pub listed : UdpTable K ℕ (List (Entry K ℕ))
  listed = record {
    hash = lists same;
    hash_touch = set_active;
    add_addresses = add_addresses_lem;
    del_addresses = del_addresses_lem;
    get_in = get_in_lem;
    touch_addresses = touch_addresses_lem;
  }

-- The ports are enough to tell the endpoints here apart.
abbrev pub same_port : Endpoint → Endpoint → Bool
same_port a b = a.port == b.port

abbrev pub udp_table : UdpTable Endpoint ℕ (List (Entry Endpoint ℕ))
udp_table = listed same_port
