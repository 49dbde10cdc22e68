-- ===== src/Udp/Session/Linked.antt =====
-- src/udp_proxy.c: every session has one node in the table, and every node of the table a session.
use tproxy2ss.Base.{
  ℕ, ◌+◌, ◌<◌, ◌≡◌, refl, sym, ap, ◌∙◌, arith, Bool, true, false, ◌&&◌, ◌⊎◌, inl, inr, Option, none,
  some, List, [], ◌∷◌, ltb, ◌==◌, if◌then◌else◌, Bool-cases,
}
use mathlib.Core.Option.{some_inj, none-ne-some}
use tproxy2ss.Lru.Defs.{Clock, Entry, IsIn, lru_add, lru_find, lru_del}
use tproxy2ss.Lru.Tables.{udp_node_find, udp_node_del}
use tproxy2ss.Selector.Defs.{Selector, rank_at, udp_replacement}
use tproxy2ss.Udp.Endpoint.{Endpoint}
use tproxy2ss.Udp.Held.{one, count, one_same, one_other}
use tproxy2ss.Udp.Replies.{addresses, UdpTable}
use tproxy2ss.Udp.Replies.Owned.{addresses_in, waiting, lru_add-addresses}
use tproxy2ss.Udp.Session.{
  UdpSession, Sessions, session_of, free_session, Creation, new_session, session_lookup, touch,
  close_detached, close_indexed, close_victim, register, ready, is_created, create_session, reuse,
  get_or_create,
}

-- The addresses of the nodes of all sessions
unfoldable pub nodes_of : List (ℕ × UdpSession) → List ℕ
nodes_of [] = []
nodes_of ((p, s) ∷ l) = p ∷ nodes_of l

session_of-some :
    (p : ℕ) (l : List (ℕ × UdpSession))
    → 0 < count p (nodes_of l)
    → (s : UdpSession) × (session_of p l ≡ some s)
unfolding session_of nodes_of count
session_of-some p [] h = absurd (omega (arith, h))
session_of-some p ((q, s) ∷ l) h = elim (Bool-cases (q == p)) [
  | inl e ↦ (s, rw e refl)
  | inr e ↦
      let z : one p q ≡ 0 = one_other p q e in
      let (t, f) = session_of-some p l (omega (arith, h, z)) in (t, rw e f)
]

Freed : ℕ → List (ℕ × UdpSession) → Option (List (ℕ × UdpSession)) → Type 0
Freed p l o =
    (r : List (ℕ × UdpSession)) × (o ≡ some r)
    × ((q : ℕ) → count q (nodes_of l) ≡ one q p + count q (nodes_of r))

free_session-Freed :
    (p : ℕ) (l : List (ℕ × UdpSession)) → 0 < count p (nodes_of l) → Freed p l (free_session p l)
unfolding free_session nodes_of count Freed
free_session-Freed p [] h = absurd (omega (arith, h))
free_session-Freed p ((q, s) ∷ l) h = elim (Bool-cases (q == p)) [
  | inl e ↦
      let f : q ≡ p = ground (arith, e) in
      rw e (l, refl, λ x. ap (λ y. one x y + count x (nodes_of l)) f)
  | inr e ↦
      let z : one p q ≡ 0 = one_other p q e in
      let (r, f, g) = free_session-Freed p l (omega (arith, h, z)) in
      rw (e, f) ((q, s) ∷ r, refl, λ x. omega (arith, g x))
]

chosen : (b : Bool) (x idx : ℕ) → (if b then some x else none) ≡ some idx → x ≡ idx
chosen true x idx e = some_inj.0 e
chosen false x idx e = absurd (none-ne-some idx e)

refused : (a b c d : Bool) (x : ℕ) → (if a && b && false && c && d then some x else none) ≡ none
refused true true c d x = refl
refused true false c d x = refl
refused false b c d x = refl

-- The server that replaces another is not replaced.
udp_replacement_healthy :
    {D : Type 0} (s : Selector D) (i idx : ℕ)
    → udp_replacement s i ≡ some idx
    → udp_replacement s idx ≡ none
unfolding udp_replacement
udp_replacement_healthy s i idx e =
    let f : s.best_idx ≡ idx = chosen _ s.best_idx idx e in
    let g : s.best_idx == idx ≡ true = ground (arith, f) in
    rw g (
      refused (ltb idx s.server_count) (ltb s.best_idx s.server_count) (rank_at s idx == 2)
        (rank_at s s.best_idx == 0) s.best_idx)

module _ {K T Table : Type 0} (clock : Clock T) (table : UdpTable K T Table) (maxsize : ℕ)
    (now : T) where
  abbrev pub in_nodes : Table → ℕ → ℕ
  in_nodes t p = count p (addresses (table.hash.entries t))

  -- Every node of the table has one session, and every session has its node in the table.
  abbrev pub Linked : Sessions Table → Type 0
  Linked st = (p : ℕ) → count p (nodes_of st.sessions) ≡ in_nodes st.nodes p

  abbrev pub Closed : Option (Sessions Table) → Type 0
  Closed o = (st : Sessions Table) × (o ≡ some st) × Linked st

  close_detached-Closed :
      (node : Entry K T) (st : Sessions Table)
      → ((p : ℕ) → count p (nodes_of st.sessions) ≡ one p node.ptr + in_nodes st.nodes p)
      → Closed (close_detached clock table maxsize now node st)
  unfolding close_detached Freed
  close_detached-Closed node st h =
      let more : 0 < count node.ptr (nodes_of st.sessions) =
        omega (arith, h node.ptr, one_same node.ptr) in
      let (r, e, f) = free_session-Freed node.ptr st.sessions more in
      (record st { sessions = r }, simp (close_detached, e) refl, λ p. omega (arith, h p, f p))

  pub close_indexed-Closed :
      (node : Entry K T) (st : Sessions Table)
      → Linked st
      → IsIn node (table.hash.entries st.nodes)
      → Closed (close_indexed clock table maxsize now node st)
  unfolding close_indexed udp_node_del lru_del
  close_indexed-Closed node st v i =
      close_detached-Closed node (record st { nodes = table.hash.hash_del st.nodes node })
        (λ p. v p ∙ table.del_addresses st.nodes node i p)

  close_victim-Closed :
      (o : Option (Entry K T)) (st : Sessions Table)
      → ((p : ℕ) → count p (nodes_of st.sessions) ≡ in_nodes st.nodes p + count p (waiting o))
      → Closed (close_victim clock table maxsize now o st)
  unfolding close_victim waiting count
  close_victim-Closed none st h = (st, refl, λ p. omega (arith, h p))
  close_victim-Closed (some v) st h = close_detached-Closed v st (λ p. omega (arith, h p))

  register-Closed :
      (key : K) (s : UdpSession) (o : Option ℕ) (st : Sessions Table)
      → Linked st
      → Closed (register clock table maxsize now key s o st)
  unfolding register nodes_of count
  register-Closed key s none st v = (st, refl, v)
  register-Closed key s (some p) st v =
      let e : Entry K T = record { ptr = p; key = key; last_active = now } in
      let r = lru_add clock table.hash maxsize st.nodes e in
      close_victim-Closed r.1 (record { nodes = r.0; sessions = (p, s) ∷ st.sessions })
        (λ q. omega (arith, v q, lru_add-addresses clock table maxsize st.nodes e q))

  -- The server of a session that is returned: the best one of the second reading of the selector, or
  -- one that the first reading does not replace.
  unfoldable pub IsServed : {D : Type 0} → Selector D → Selector D → Option UdpSession → Type 0
  IsServed asked best none = Unit
  IsServed asked best (some s) =
      (s.server_idx ≡ best.best_idx) ⊎ (udp_replacement asked s.server_idx ≡ none)

  abbrev pub Served :
      {D : Type 0} → Selector D → Selector D → Option (Sessions Table × Option UdpSession) → Type 0
  Served asked best r =
      (st : Sessions Table) × (o : Option UdpSession) × (r ≡ some (st, o))
      × Linked st
      × IsServed asked best o

  module _ {D : Type 0} (asked best : Selector D) where
    if_IsServed :
        (b : Bool) (s : UdpSession)
        → IsServed asked best (some s)
        → IsServed asked best (if b then some s else none)
    unfolding IsServed
    if_IsServed true s w = w
    if_IsServed false s w = tt

    here :
        (client target : Endpoint)
        → IsServed asked best (some (new_session client target best.best_idx))
    unfolding IsServed
    here client target = inl refl

    create_session-Served :
        (key : K) (s : UdpSession) (c : Creation) (st : Sessions Table)
        → Linked st
        → IsServed asked best (some s)
        → Served asked best (create_session clock table maxsize now key s c st)
    unfolding create_session IsServed
    create_session-Served key s c st v w = elim (Bool-cases (ready c)) [
      | inr e ↦ (st, none, rw e refl, v, tt)
      | inl e ↦
          let (st', f, v') = register-Closed key s c.node st v in
          let kept : IsServed asked best (if is_created c then some s else none) =
            if_IsServed (is_created c) s w in
          (st', (if is_created c then some s else none), simp (e, f) refl, v', kept)
    ]

    replaced-Served :
        (client target : Endpoint) (key : K) (c : Creation) (node : Entry K T) (s : UdpSession)
        (st : Sessions Table) (o : Option ℕ)
        → Linked st
        → IsIn node (table.hash.entries st.nodes)
        → udp_replacement asked s.server_idx ≡ o
        → Served asked best (reuse clock table maxsize now client target key c node s o st)
    unfolding reuse touch IsServed
    replaced-Served client target key c node s st none v i e = (
      touch clock table maxsize now node st,
      some s,
      refl,
      (λ p. v p ∙ sym (table.touch_addresses st.nodes node now p)),
      inr e,
    )
    replaced-Served client target key c node s st (some idx) v i e =
        let (left, f, w) = close_indexed-Closed node st v i in
        let (st', o, g, w', h) =
          create_session-Served key (new_session client target idx) c left w
            (inr (udp_replacement_healthy asked s.server_idx idx e)) in
        (st', o, simp (reuse, f) refl ∙ g, w', h)

    reuse-Served :
        (client target : Endpoint) (key : K) (c : Creation) (node : Entry K T) (s : UdpSession)
        (st : Sessions Table)
        → Linked st
        → IsIn node (table.hash.entries st.nodes)
        → Served asked best (
            reuse clock table maxsize now client target key c node s
              (udp_replacement asked s.server_idx)
              st)
    reuse-Served client target key c node s st v i =
        replaced-Served client target key c node s st (udp_replacement asked s.server_idx) v i refl

    -- When every node of the table has one session and every session its node in the table, then
    -- whatever the selector, the sockets, the pools and the library answer, no session is freed that
    -- is not there, nodes and sessions still belong together, and the server of a session that is
    -- returned is the best one of the second reading of the selector, or one that the first reading
    -- does not replace.
    pub get_or_create-Served :
        (client target : Endpoint) (key : K) (c : Creation) (st : Sessions Table)
        → Linked st
        → Served asked best
            (get_or_create clock table maxsize now client target asked best key c st)
    unfolding get_or_create session_lookup udp_node_find lru_find
    get_or_create-Served client target key c st v =
        looked_up (table.hash.hash_get st.nodes key) refl
      where
        looked_up :
            (x : Option (Entry K T))
            → table.hash.hash_get st.nodes key ≡ x
            → Served asked best (elim x [
              | none ↦
                  create_session clock table maxsize now key
                    (new_session client target best.best_idx)
                    c
                    st
              | some node ↦ elim (session_of node.ptr st.sessions) [
                | none ↦ none
                | some s ↦
                    reuse clock table maxsize now client target key c node s
                      (udp_replacement asked s.server_idx)
                      st
              ]
            ])
        looked_up none e =
            create_session-Served key (new_session client target best.best_idx) c st v
              (here client target)
        looked_up (some node) e =
            let i = table.get_in st.nodes key node e in
            let (s, f) =
              session_of-some node.ptr st.sessions
                (omega (arith, v node.ptr, addresses_in node (table.hash.entries st.nodes) i)) in
            rw f (reuse-Served client target key c node s st v i)
