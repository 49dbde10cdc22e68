-- ===== src/Udp/Session/Given.antt =====
-- src/udp_proxy.c, `udp_session_get_or_create`: which session a datagram is given.
use tproxy2ss.Base.{
  ℕ, ◌≡◌, inl, inr, refl, sym, ap, ◌∙◌, arith, Option, none, some, List, [], ◌∷◌, ◌==◌, Bool-cases,
  Option-cases,
}
use mathlib.Core.Option.{some_inj, none-ne-some}
use tproxy2ss.Lru.Defs.{Clock, Entry, IsIn, lru_find}
use tproxy2ss.Lru.Tables.{udp_node_find}
use tproxy2ss.Selector.Defs.{Selector, udp_replacement}
use tproxy2ss.Udp.Endpoint.{Endpoint}
use tproxy2ss.Udp.Replies.{UdpTable}
use tproxy2ss.Udp.Session.{
  UdpSession, Sessions, session_of, Creation, new_session, session_lookup, touch, close_indexed,
  reuse, get_or_create,
}
use tproxy2ss.Udp.Session.Linked.{Linked, IsServed, get_or_create-Served}
use tproxy2ss.Udp.Session.Made.{Made, create_session-Made}

session_of-IsIn :
    (p : ℕ) (l : List (ℕ × UdpSession)) (s : UdpSession) → session_of p l ≡ some s → IsIn (p, s) l
unfolding session_of
session_of-IsIn p [] s e = absurd (none-ne-some s e)
session_of-IsIn p ((q, t) ∷ l) s e = elim (Bool-cases (q == p)) [
  | inl here ↦
      let same : t ≡ s = some_inj.0 (rw here at e) in
      let at : p ≡ q = ground (arith, here) in
      inl (ap (λ x. (x, s)) at ∙ ap (λ x. (q, x)) (sym same))
  | inr other ↦ inr (session_of-IsIn p l s (rw other at e))
]

module _ {K T Table : Type 0} (clock : Clock T) (table : UdpTable K T Table) (maxsize : ℕ)
    (now : T) where
  module _ {D : Type 0} (asked best : Selector D) (client target : Endpoint) (key : K)
      (c : Creation) (st : Sessions Table) where
    -- A session of the node that the table has under the key, on a server
    abbrev pub IsHeld : Entry K T → UdpSession → Type 0
    IsHeld node s = (table.hash.hash_get st.nodes key ≡ some node) × IsIn (node.ptr, s) st.sessions

    -- What a datagram is given: the session of the node under its key, on a server that is not
    -- replaced, with nothing changed but the node's time; or a new session, for the datagram's client
    -- and target, on the server that replaces that one, or on the best one when the table has no
    -- node under the key.
    pub data Given (st' : Sessions Table) (o : Option UdpSession) : Type 0 where
      found :
          (node : Entry K T) (s : UdpSession)
          → IsHeld node s
          → udp_replacement asked s.server_idx ≡ none
          → o ≡ some s
          → st' ≡ record st { nodes = table.hash_touch st.nodes node now }
          → Given st' o
      replaced :
          (node : Entry K T) (s : UdpSession) (idx : ℕ)
          → IsHeld node s
          → udp_replacement asked s.server_idx ≡ some idx
          → Made clock table maxsize now key (new_session client target idx) c st' o
          → Given st' o
      fresh :
          table.hash.hash_get st.nodes key ≡ none
          → Made clock table maxsize now key (new_session client target best.best_idx) c st' o
          → Given st' o

    reuse-Given :
        (node : Entry K T) (s : UdpSession) (st' : Sessions Table) (o : Option UdpSession)
        (r : Option ℕ)
        → IsHeld node s
        → udp_replacement asked s.server_idx ≡ r
        → reuse clock table maxsize now client target key c node s r st ≡ some (st', o)
        → Given st' o
    unfolding reuse touch
    reuse-Given node s st' o none h e f =
        found node s h e (ap (λ (z : Sessions Table × Option UdpSession). z.1) (sym (some_inj.0 f)))
          (ap (λ (z : Sessions Table × Option UdpSession). z.0) (sym (some_inj.0 f)))
    reuse-Given node s st' o (some idx) h e f =
        elim (Option-cases (close_indexed clock table maxsize now node st)) [
          | inl g ↦ absurd (none-ne-some (st', o) (rw (reuse, g) at f))
          | inr (u, g) ↦ replaced node s idx h e (
              create_session-Made clock table maxsize now key (new_session client target idx) c u
                st' o (rw (reuse, g) at f))
        ]

    get_or_create-cases :
        (st' : Sessions Table) (o : Option UdpSession)
        → get_or_create clock table maxsize now client target asked best key c st ≡ some (st', o)
        → Given st' o
    unfolding get_or_create session_lookup udp_node_find lru_find
    get_or_create-cases st' o e = elim (Option-cases (table.hash.hash_get st.nodes key)) [
      | inl f ↦ fresh f (
          create_session-Made clock table maxsize now key (new_session client target best.best_idx)
            c st st' o (rw (get_or_create, session_lookup, udp_node_find, lru_find, f) at e))
      | inr (node, f) ↦ elim (Option-cases (session_of node.ptr st.sessions)) [
        | inl g ↦ absurd (
            none-ne-some (st', o)
              (rw (get_or_create, session_lookup, udp_node_find, lru_find, f, g) at e))
        | inr (s, g) ↦
            reuse-Given node s st' o (udp_replacement asked s.server_idx)
              (f, session_of-IsIn node.ptr st.sessions s g) refl
              (rw (get_or_create, session_lookup, udp_node_find, lru_find, f, g) at e)
      ]
    ]

    -- When every node of the table has one session and every session its node in the table, then
    -- whatever the selector, the sockets, the pools and the library answer, no session is freed that
    -- is not there, and nodes and sessions still belong together. A datagram whose key the table has
    -- is given the session of that node, with no other change than the node's time, unless the
    -- selector replaces its server; then, or when the table has not the key, it is given a new session
    -- for its client and its target, on the replacing or on the best server, which stands in the
    -- list with its new node, and the node in the table under the key; it is given none only when a
    -- call of the creation failed.
    pub get_or_create-Given :
        Linked clock table maxsize now st
        → (st' : Sessions Table) × (o : Option UdpSession) × (get_or_create clock table maxsize now
              client target asked best key c st
            ≡ some (st', o))
          × Linked clock table maxsize now st'
          × IsServed clock table maxsize now asked best o
          × Given st' o
    get_or_create-Given v =
        let (st', o, e, w, served) =
          get_or_create-Served clock table maxsize now asked best client target key c st v in
        (st', o, e, w, served, get_or_create-cases st' o e)
