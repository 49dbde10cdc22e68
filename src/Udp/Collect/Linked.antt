-- ===== src/Udp/Collect/Linked.antt =====
-- src/udp_proxy.c: what a sweep closes and what it keeps.
use tproxy2ss.Base.{
  ℕ, suc, true, false, if◌then◌else◌, ◌+◌, ◌≤◌, ◌≡◌, ◌≢◌, refl, sym, ap, ◌∙◌, arith, Bool, inl, inr,
  Option, some, List, [], ◌∷◌, Bool-cases,
}
use mathlib.Core.Path.{subst}
use mathlib.Core.Bool.{true≢false}
use tproxy2ss.Lru.Defs.{Clock, Entry, IsIn, lru_del}
use tproxy2ss.Lru.Tables.{udp_node_del}
use tproxy2ss.Udp.Held.{one, count, one_same}
use tproxy2ss.Udp.Replies.{addresses, UdpTable}
use tproxy2ss.Udp.Replies.Owned.{addresses_in}
use tproxy2ss.Udp.Session.{UdpSession, free_session, Sessions, close_indexed}
use tproxy2ss.Udp.Session.Freed.{free_session-keeps, close_detached-result}
use tproxy2ss.Udp.Session.Linked.{nodes_of, Linked, close_indexed-Closed}
use tproxy2ss.Udp.Collect.{sweep_sessions_from, sweep_sessions}

module _ {K T Table : Type 0} (clock : Clock T) (table : UdpTable K T Table) (maxsize : ℕ) (now : T)
    (is_idle : T → Bool) where
  -- No address stands twice.
  abbrev pub Distinct : List (Entry K T) → Type 0
  Distinct l = (p : ℕ) → count p (addresses l) ≤ 1

  apart :
      (cur x : Entry K T) (l : List (Entry K T)) → Distinct (cur ∷ l) → IsIn x l → x.ptr ≢ cur.ptr
  unfolding count
  apart cur x l d i e =
      let one_here : one x.ptr cur.ptr ≡ 1 = subst (λ q. one x.ptr q ≡ 1) e (one_same x.ptr) in
      absurd (omega (arith, d x.ptr, one_here, addresses_in x l i))

  Distinct-rest : (cur : Entry K T) (l : List (Entry K T)) → Distinct (cur ∷ l) → Distinct l
  unfolding count
  Distinct-rest cur l d p = omega (arith, d p)

  -- The number of idle entries
  unfoldable pub idle_count : List (Entry K T) → ℕ
  idle_count [] = 0
  idle_count (x ∷ l) = let rest = idle_count l in if is_idle x.last_active then suc rest else rest

  closed_state :
      (cur : Entry K T) (st st' : Sessions Table)
      → close_indexed clock table maxsize now cur st ≡ some st'
      → (st'.nodes ≡ table.hash.hash_del st.nodes cur)
        × (free_session cur.ptr st.sessions ≡ some st'.sessions)
  unfolding close_indexed udp_node_del lru_del
  closed_state cur st st' e =
      let (l, f, same) =
        close_detached-result clock table maxsize now cur
          (record st { nodes = table.hash.hash_del st.nodes cur }) st' e in
      (
        ap (λ (z : Sessions Table). z.nodes) same,
        f ∙ ap (λ (z : Sessions Table). some z.sessions) (sym same),
      )

  abbrev pub in_table : Table → ℕ → ℕ
  in_table t p = count p (addresses (table.hash.entries t))

  -- Neither the table nor the sessions have this address.
  abbrev pub IsGone : ℕ → Sessions Table → Type 0
  IsGone p st = (in_table st.nodes p ≡ 0) × (count p (nodes_of st.sessions) ≡ 0)

  -- The entry is in the table, and each session of its address in the sessions as before.
  abbrev pub IsKept : Entry K T → Sessions Table → Sessions Table → Type 0
  IsKept x st st' =
      IsIn x (table.hash.entries st'.nodes)
      × ((s : UdpSession) → IsIn (x.ptr, s) st.sessions → IsIn (x.ptr, s) st'.sessions)

  -- A sweep over `l` from a state: it comes to its end, closes the idle entries of `l` and keeps the
  -- entries of other addresses; `evicted` counts what was closed.
  abbrev pub Swept : List (Entry K T) → Sessions Table → ℕ → Option (Sessions Table × ℕ) → Type 0
  Swept l st evicted r =
      (st' : Sessions Table) × (n : ℕ) × (r ≡ some (st', n))
      × Linked clock table maxsize now st'
      × (n ≡ evicted + idle_count l)
      × ((p : ℕ) → in_table st'.nodes p ≤ in_table st.nodes p)
      × ((x : Entry K T) → IsIn x l → is_idle x.last_active ≡ true → IsGone x.ptr st')
      × ((x : Entry K T)
          → IsIn x (table.hash.entries st.nodes)
          → ((y : Entry K T) → IsIn y l → is_idle y.last_active ≡ true → x.ptr ≢ y.ptr)
          → IsKept x st st')

  -- The entry at the head is idle, and the rest is swept behind its closing.
  Swept-closed :
      (cur : Entry K T) (l : List (Entry K T)) (st st' : Sessions Table) (evicted : ℕ)
      (r : Option (Sessions Table × ℕ))
      → IsIn cur (table.hash.entries st.nodes)
      → Distinct (table.hash.entries st.nodes)
      → is_idle cur.last_active ≡ true
      → close_indexed clock table maxsize now cur st ≡ some st'
      → Swept l st' (evicted + 1) r
      → Swept (cur ∷ l) st evicted r
  unfolding idle_count
  Swept-closed cur l st st' evicted r here d idle e (end, n, f, w, c, less, gone, kept) =
      let (nodes, sessions) = closed_state cur st st' e in
      let moved : (p : ℕ) → in_table st.nodes p ≡ one p cur.ptr + in_table st'.nodes p = λ p.
        table.del_addresses st.nodes cur here p
        ∙ ap (λ t. one p cur.ptr + in_table t p) (sym nodes) in
      let zero : in_table end.nodes cur.ptr ≡ 0 =
        omega (arith, less cur.ptr, moved cur.ptr, one_same cur.ptr, d cur.ptr) in
      (
        end,
        n,
        f,
        w,
        rw idle (omega (arith, c)),
        (λ p. omega (arith, less p, moved p)),
        (λ x i busy. elim i [
          | inl same ↦
              subst (λ (z : Entry K T). IsGone z.ptr end) (sym same) (zero, w cur.ptr ∙ zero)
          | inr j ↦ gone x j busy
        ]),
        λ x i far.
            let ne = far cur (inl refl) idle in
            let left : IsIn x (table.hash.entries st'.nodes) =
              subst (λ t. IsIn x (table.hash.entries t)) (sym nodes)
                (table.hash.del_keeps st.nodes cur x i ne) in
            let (there, held) = kept x left (λ y j. far y (inr j)) in
            (
              there,
              λ s h.
                  held s
                    (free_session-keeps cur.ptr st.sessions st'.sessions x.ptr s sessions ne h),
            ),
      )

  -- The head is not idle.
  Swept-passed :
      (cur : Entry K T) (l : List (Entry K T)) (st : Sessions Table) (evicted : ℕ)
      (r : Option (Sessions Table × ℕ))
      → is_idle cur.last_active ≡ false
      → Swept l st evicted r
      → Swept (cur ∷ l) st evicted r
  unfolding idle_count
  Swept-passed cur l st evicted r active (end, n, f, w, c, less, gone, kept) = (
    end,
    n,
    f,
    w,
    rw active c,
    less,
    (λ x i idle. elim i [
      | inl same ↦
          absurd
            (true≢false (sym idle ∙ ap (λ (z : Entry K T). is_idle z.last_active) same ∙ active))
      | inr j ↦ gone x j idle
    ]),
    λ x i far. kept x i (λ y j. far y (inr j)),
  )

  sweep_passed :
      (cur : Entry K T) (l : List (Entry K T)) (st : Sessions Table) (evicted : ℕ)
      → is_idle cur.last_active ≡ false
      → sweep_sessions_from clock table maxsize now is_idle (cur ∷ l) st evicted
        ≡ sweep_sessions_from clock table maxsize now is_idle l st evicted
  unfolding sweep_sessions_from
  sweep_passed cur l st evicted e = rw e refl

  sweep_closed :
      (cur : Entry K T) (l : List (Entry K T)) (st st' : Sessions Table) (evicted : ℕ)
      → is_idle cur.last_active ≡ true
      → close_indexed clock table maxsize now cur st ≡ some st'
      → sweep_sessions_from clock table maxsize now is_idle (cur ∷ l) st evicted
        ≡ sweep_sessions_from clock table maxsize now is_idle l st' (evicted + 1)
  unfolding sweep_sessions_from
  sweep_closed cur l st st' evicted e f = simp (sweep_sessions_from, e, f) refl

  Swept-end :
      (st : Sessions Table) (evicted : ℕ)
      → Linked clock table maxsize now st
      → Swept [] st evicted (sweep_sessions_from clock table maxsize now is_idle [] st evicted)
  unfolding sweep_sessions_from idle_count
  Swept-end st evicted v = (
    st,
    evicted,
    refl,
    v,
    omega arith,
    (λ p. omega arith),
    (λ x j. absurd j),
    λ x j far. (j, λ s h. h),
  )

  sweep_sessions_from-Swept :
      (l : List (Entry K T)) (st : Sessions Table) (evicted : ℕ)
      → Linked clock table maxsize now st
      → Distinct (table.hash.entries st.nodes)
      → Distinct l
      → ((x : Entry K T) → IsIn x l → IsIn x (table.hash.entries st.nodes))
      → Swept l st evicted (sweep_sessions_from clock table maxsize now is_idle l st evicted)
  sweep_sessions_from-Swept [] st evicted v u d i = Swept-end st evicted v
  sweep_sessions_from-Swept (cur ∷ l) st evicted v u d i =
      elim (Bool-cases (is_idle cur.last_active)) [
        | inr e ↦ subst (Swept (cur ∷ l) st evicted) (sym (sweep_passed cur l st evicted e)) (
            Swept-passed cur l st evicted _ e (
              sweep_sessions_from-Swept l st evicted v u (Distinct-rest cur l d)
                (λ x j. i x (inr j))))
        | inl e ↦
            let here = i cur (inl refl) in
            let (st', f, w) = close_indexed-Closed clock table maxsize now cur st v here in
            let nodes = (closed_state cur st st' f).0 in
            let kept : (x : Entry K T) → IsIn x l → IsIn x (table.hash.entries st'.nodes) = λ x j.
              subst (λ t. IsIn x (table.hash.entries t)) (sym nodes)
                (table.hash.del_keeps st.nodes cur x (i x (inr j)) (apart cur x l d j)) in
            let u' : Distinct (table.hash.entries st'.nodes) = λ p.
              subst (λ t. in_table t p ≤ 1) (sym nodes)
                (omega (arith, u p, table.del_addresses st.nodes cur here p)) in
            subst (Swept (cur ∷ l) st evicted) (sym (sweep_closed cur l st st' evicted e f)) (
              Swept-closed cur l st st' evicted _ here u e f
                (sweep_sessions_from-Swept l st' (evicted + 1) w u' (Distinct-rest cur l d) kept))
      ]

  -- Two entries at one address are the same.
  same_entry :
      (l : List (Entry K T)) (x y : Entry K T)
      → Distinct l
      → IsIn x l
      → IsIn y l
      → x.ptr ≡ y.ptr
      → x ≡ y
  same_entry [] x y d i j e = absurd i
  same_entry (z ∷ l) x y d (inl f) (inl g) e = f ∙ sym g
  same_entry (z ∷ l) x y d (inl f) (inr j) e =
      absurd (apart z y l d j (sym e ∙ ap (λ (w : Entry K T). w.ptr) f))
  same_entry (z ∷ l) x y d (inr i) (inl g) e =
      absurd (apart z x l d i (e ∙ ap (λ (w : Entry K T). w.ptr) g))
  same_entry (z ∷ l) x y d (inr i) (inr j) e = same_entry l x y (Distinct-rest z l d) i j e

  -- What a whole sweep makes of a state
  abbrev pub Collected : Sessions Table → Option (Sessions Table × ℕ) → Type 0
  Collected st r =
      (st' : Sessions Table) × (r ≡ some (st', idle_count (table.hash.entries st.nodes)))
      × Linked clock table maxsize now st'
      × ((p : ℕ) → in_table st'.nodes p ≤ in_table st.nodes p)
      × ((x : Entry K T)
          → IsIn x (table.hash.entries st.nodes)
          → is_idle x.last_active ≡ true
          → IsGone x.ptr st')
      × ((x : Entry K T)
          → IsIn x (table.hash.entries st.nodes)
          → is_idle x.last_active ≡ false
          → IsKept x st st')

  -- When nodes and sessions belong together, and no address stands twice in the table, a sweep comes
  -- to its end without freeing a session that is not there, and nodes and sessions still belong
  -- together. It closes every idle entry, of which neither the table nor the sessions have the
  -- address then, and `evicted` is the number of these; every other entry stays in the table, with
  -- its session; and no address comes into the table.
  pub sweep_sessions-Swept :
      (st : Sessions Table)
      → Linked clock table maxsize now st
      → Distinct (table.hash.entries st.nodes)
      → Collected st (sweep_sessions clock table maxsize now is_idle st)
  unfolding sweep_sessions
  sweep_sessions-Swept st v d =
      let l = table.hash.entries st.nodes in
      let (st', n, f, w, c, less, gone, kept) = sweep_sessions_from-Swept l st 0 v d d (λ x j. j) in
      let all : n ≡ idle_count l = omega (arith, c) in
      (
        st',
        f ∙ ap (λ m. some (st', m)) all,
        w,
        less,
        gone,
        λ x i active. kept x i (λ y j idle e. absurd (
            true≢false (
              sym idle
              ∙ ap (λ (z : Entry K T). is_idle z.last_active) (sym (same_entry l x y d i j e))
              ∙ active))),
      )
