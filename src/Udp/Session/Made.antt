-- ===== src/Udp/Session/Made.antt =====
-- src/udp_proxy.c, `udp_session_create`: the new session and its node.
use tproxy2ss.Base.{
  ℕ, ◌≡◌, ◌≢◌, ◌⊎◌, inl, inr, refl, sym, ap, ◌∙◌, arith, Bool, true, false, ◌&&◌, Option, none,
  some, List, [], ◌∷◌, ltb, ◌==◌, if◌then◌else◌, Bool-cases, Option-cases,
}
use mathlib.Core.Path.{subst}
use mathlib.Core.Option.{some_inj, none-ne-some}
use tproxy2ss.Lru.Defs.{Clock, Entry, IsIn, pick, find_victim, evict, lru_add}
use tproxy2ss.Udp.Replies.{UdpTable}
use tproxy2ss.Udp.Session.{
  UdpSession, Sessions, Creation, close_victim, register, ready, is_created, create_session,
}
use tproxy2ss.Udp.Session.Freed.{free_session-keeps, close_detached-result}

and_false : (a : Bool) → a && false ≡ false
and_false true = refl
and_false false = refl

is_created-unready : (c : Creation) → ready c ≡ false → is_created c ≡ false
unfolding is_created
is_created-unready c e = rw e refl

is_created-none : (c : Creation) → c.node ≡ none → is_created c ≡ false
unfolding is_created
is_created-none c e = rw e (and_false (ready c))

is_created-some : (c : Creation) (p : ℕ) → ready c ≡ true → c.node ≡ some p → is_created c ≡ true
unfolding is_created
is_created-some c p e f = rw (e, f) refl

module _ {K T : Type 0} (clock : Clock T) (entry : Entry K T) where
  chosen_other : (cur v : Entry K T) → cur.ptr == entry.ptr ≡ false → cur ≡ v → v.ptr ≢ entry.ptr
  chosen_other cur v e f = subst (λ (z : Entry K T). z.ptr ≢ entry.ptr) f (ground (arith, e))

  pick_other :
      (cur v : Entry K T) (o : Option (Entry K T))
      → pick clock entry cur o ≡ some v
      → (o ≡ some v) ⊎ (v.ptr ≢ entry.ptr)
  unfolding pick
  pick_other cur v none e = elim (Bool-cases (cur.ptr == entry.ptr)) [
    | inl f ↦ absurd (none-ne-some v (rw f at e))
    | inr f ↦ inr (chosen_other cur v f (some_inj.0 (rw f at e)))
  ]
  pick_other cur v (some w) e = elim (Bool-cases (cur.ptr == entry.ptr)) [
    | inl f ↦ inl (rw f at e)
    | inr f ↦ elim (Bool-cases (clock.older cur.last_active w.last_active)) [
      | inl g ↦ inr (chosen_other cur v f (some_inj.0 (rw (f, g) at e)))
      | inr g ↦ inl (rw (f, g) at e)
    ]
  ]

  find_victim-other :
      (l : List (Entry K T)) (v : Entry K T) (o : Option (Entry K T))
      → find_victim clock entry l o ≡ some v
      → (o ≡ some v) ⊎ (v.ptr ≢ entry.ptr)
  unfolding find_victim
  find_victim-other [] v o e = inl e
  find_victim-other (cur ∷ l) v o e = elim (find_victim-other l v (pick clock entry cur o) e) [
    | inl f ↦ pick_other cur v o f
    | inr n ↦ inr n
  ]

module _ {K T Table : Type 0} (clock : Clock T) (table : UdpTable K T Table) (maxsize : ℕ)
    (now : T) where
  -- The new entry stays, and the evicted one is another.
  lru_add-holds :
      (t : Table) (entry : Entry K T)
      → let r = lru_add clock table.hash maxsize t entry in
        IsIn entry (table.hash.entries r.0) × ((v : Entry K T) → r.1 ≡ some v → entry.ptr ≢ v.ptr)
  unfolding lru_add evict
  lru_add-holds t entry =
      let grown = table.hash.hash_add t entry in
      let there = table.hash.add_in t entry in
      elim (Bool-cases (ltb maxsize (table.hash.hash_cnt grown))) [
        | inr room ↦ rw room (there, λ v e. absurd (none-ne-some v e))
        | inl full ↦ elim (Option-cases (find_victim clock entry (table.hash.entries grown) none)) [
          | inl nobody ↦ rw (full, nobody) (there, λ v e. absurd (none-ne-some v e))
          | inr (v, found) ↦
              let other : entry.ptr ≢ v.ptr = λ q.
                elim (find_victim-other clock entry (table.hash.entries grown) v none found) [
                  | inl e ↦ none-ne-some v e
                  | inr n ↦ n (sym q)
                ] in
              rw (full, found)
                (
                  table.hash.del_keeps grown v entry there other,
                  λ w e. subst (λ (z : Entry K T). entry.ptr ≢ z.ptr) (some_inj.0 e) other,
                )
        ]
      ]

  close_victim-holds :
      (o : Option (Entry K T)) (st st' : Sessions Table) (p : ℕ) (s : UdpSession)
      → ((v : Entry K T) → o ≡ some v → p ≢ v.ptr)
      → close_victim clock table maxsize now o st ≡ some st'
      → IsIn (p, s) st.sessions
      → (st'.nodes ≡ st.nodes) × IsIn (p, s) st'.sessions
  unfolding close_victim
  close_victim-holds none st st' p s other e i = (
    ap (λ (z : Sessions Table). z.nodes) (sym (some_inj.0 e)),
    subst (λ (z : Sessions Table). IsIn (p, s) z.sessions) (some_inj.0 e) i,
  )
  close_victim-holds (some v) st st' p s other e i =
      let (l, f, same) = close_detached-result clock table maxsize now v st st' e in
      (
        ap (λ (z : Sessions Table). z.nodes) same,
        subst (λ (z : Sessions Table). IsIn (p, s) z.sessions) (sym same)
            (free_session-keeps v.ptr st.sessions l p s f (other v refl) i),
      )

  register-holds :
      (key : K) (s : UdpSession) (p : ℕ) (st st' : Sessions Table)
      → register clock table maxsize now key s (some p) st ≡ some st'
      → IsIn (p, s) st'.sessions
        × IsIn (record { ptr = p; key = key; last_active = now }) (table.hash.entries st'.nodes)
  unfolding register
  register-holds key s p st st' e =
      let entry : Entry K T = record { ptr = p; key = key; last_active = now } in
      let r = lru_add clock table.hash maxsize st.nodes entry in
      let (there, other) = lru_add-holds st.nodes entry in
      let (nodes, held) =
        close_victim-holds r.1 (record { nodes = r.0; sessions = (p, s) ∷ st.sessions }) st' p s
          other e (inl refl) in
      (held, subst (λ t. IsIn entry (table.hash.entries t)) (sym nodes) there)

  -- A session is created under a key: it stands in the list with its new node, which is in the
  -- table under the key; or there is none, since a call of the creation failed.
  pub data Made (key : K) (s : UdpSession) (c : Creation) (st' : Sessions Table)
      (o : Option UdpSession) : Type 0 where
    failed : is_created c ≡ false → o ≡ none → Made key s c st' o
    held :
        (p : ℕ)
        → c.node ≡ some p
        → o ≡ some s
        → IsIn (p, s) st'.sessions
        → IsIn (record { ptr = p; key = key; last_active = now }) (table.hash.entries st'.nodes)
        → Made key s c st' o

  pub create_session-Made :
      (key : K) (s : UdpSession) (c : Creation) (st st' : Sessions Table) (o : Option UdpSession)
      → create_session clock table maxsize now key s c st ≡ some (st', o)
      → Made key s c st' o
  unfolding create_session
  create_session-Made key s c st st' o e = elim (Bool-cases (ready c)) [
    | inr f ↦
        failed (is_created-unready c f)
          (ap (λ (z : Sessions Table × Option UdpSession). z.1) (sym (some_inj.0 (rw f at e))))
    | inl f ↦ elim (Option-cases (register clock table maxsize now key s c.node st)) [
      | inl g ↦ absurd (none-ne-some (st', o) (rw (create_session, f, g) at e))
      | inr (u, g) ↦
          let same = some_inj.0 (rw (create_session, f, g) at e) in
          let made : u ≡ st' = ap (λ (z : Sessions Table × Option UdpSession). z.0) same in
          let out : (if is_created c then some s else none) ≡ o =
            ap (λ (z : Sessions Table × Option UdpSession). z.1) same in
          elim (Option-cases c.node) [
            | inl n ↦
                failed (is_created-none c n)
                  (sym out ∙ ap (λ b. if b then some s else none) (is_created-none c n))
            | inr (p, n) ↦
                let (inside, there) =
                  register-holds key s p st u
                    (subst (λ x. register clock table maxsize now key s x st ≡ some u) n g) in
                held p n (sym out ∙ ap (λ b. if b then some s else none) (is_created-some c p f n))
                  (subst (λ (z : Sessions Table). IsIn (p, s) z.sessions) made inside)
                  (subst
                    (λ (z : Sessions Table).
                      IsIn (record { ptr = p; key = key; last_active = now })
                        (table.hash.entries z.nodes))
                    made there)
          ]
    ]
  ]
