-- ===== src/Udp/Proxy/Keeps.antt =====
-- src/udp_proxy.c: a batch of datagrams keeps nodes and sessions together in both tables.
use tproxy2ss.Base.{
  ℕ, ◌+◌, ◌≤◌, ◌≡◌, refl, ◌∙◌, arith, Bool, ◌&&◌, Option, none, some, List, [], ◌∷◌, length,
  length-append, Bool-cases, inl, inr,
}
use tproxy2ss.Lru.Defs.{Clock, Sizes}
use tproxy2ss.Lru.Tables.{udp_lrucache_get_fullcone_maxsize, udp_lrucache_get_symmetric_maxsize}
use tproxy2ss.Tcp.Target.{Target}
use tproxy2ss.Udp.Endpoint.{Endpoint}
use tproxy2ss.Udp.Ingress.{Ingress, ingress_parse}
use tproxy2ss.Udp.Replies.{UdpTable}
use tproxy2ss.Udp.Session.{UdpSession}
use tproxy2ss.Udp.Session.Linked.{Linked, get_or_create-Served}
use tproxy2ss.Udp.Proxy.{
  Datagram, UdpProxy, send_to_server, forward, on_fullcone, on_symmetric, on_packet, handle_ingress,
  on_recvmsg,
}

forward-length :
    {D : Type 0} (d : Datagram D) (target : Target) (o : Option UdpSession)
    (sent : List (ℕ × Target))
    → length (forward d target o sent) ≤ length sent + 1
unfolding forward send_to_server
forward-length d target none sent = omega arith
forward-length d target (some s) sent = elim (Bool-cases (d.seals && d.sends)) [
  | inl e ↦ rw e (omega (arith, length-append sent ((s.server_idx, target) ∷ [])))
  | inr e ↦ rw e (omega arith)
]

module _ {T Full Symm : Type 0} (clock : Clock T) (full : UdpTable Endpoint T Full)
    (symm : UdpTable (Endpoint × Endpoint) T Symm) (sizes : Sizes) (now : T) where
  -- Nodes and sessions belong together in both tables.
  pub record IsLinked (st : UdpProxy Full Symm) : Type 0 where
    pub fullcone : Linked clock full (udp_lrucache_get_fullcone_maxsize sizes) now st.fullcone
    pub symmetric : Linked clock symm (udp_lrucache_get_symmetric_maxsize sizes) now st.symmetric

  -- The handling comes to an end with at most `n` more datagrams sent.
  abbrev pub Handled : ℕ → UdpProxy Full Symm → Option (UdpProxy Full Symm) → Type 0
  Handled n st r =
      (st' : UdpProxy Full Symm) × (r ≡ some st')
      × IsLinked st'
      × (length st'.sent ≤ length st.sent + n)

  on_fullcone-Handled :
      {D : Type 0} (d : Datagram D) (pkt : Ingress) (st : UdpProxy Full Symm)
      → IsLinked st
      → Handled 1 st (on_fullcone clock full symm sizes now d pkt st)
  unfolding on_fullcone
  on_fullcone-Handled d pkt st v =
      let (nodes, o, e, w, served) =
        get_or_create-Served clock full (udp_lrucache_get_fullcone_maxsize sizes) now d.asked d.best
          pkt.client_endpoint pkt.original_target_endpoint pkt.client_endpoint d.creation
          st.fullcone v.fullcone in
      (
        record st { fullcone = nodes; sent = forward d pkt.ss_target o st.sent },
        simp (on_fullcone, e) refl,
        record { fullcone = w; symmetric = v.symmetric },
        forward-length d pkt.ss_target o st.sent,
      )

  on_symmetric-Handled :
      {D : Type 0} (d : Datagram D) (pkt : Ingress) (st : UdpProxy Full Symm)
      → IsLinked st
      → Handled 1 st (on_symmetric clock full symm sizes now d pkt st)
  unfolding on_symmetric
  on_symmetric-Handled d pkt st v =
      let (nodes, o, e, w, served) =
        get_or_create-Served clock symm (udp_lrucache_get_symmetric_maxsize sizes) now d.asked
          d.best pkt.client_endpoint pkt.original_target_endpoint
          (pkt.client_endpoint, pkt.original_target_endpoint) d.creation st.symmetric v.symmetric in
      (
        record st { symmetric = nodes; sent = forward d pkt.ss_target o st.sent },
        simp (on_symmetric, e) refl,
        record { fullcone = v.fullcone; symmetric = w },
        forward-length d pkt.ss_target o st.sent,
      )

  on_packet-Handled :
      {D : Type 0} (d : Datagram D) (o : Option Ingress) (st : UdpProxy Full Symm)
      → IsLinked st
      → Handled 1 st (on_packet clock full symm sizes now d o st)
  unfolding on_packet
  on_packet-Handled d none st v = (st, refl, v, omega arith)
  on_packet-Handled d (some pkt) st v = elim (Bool-cases pkt.uses_fakedns) [
    | inl e ↦ simp e (on_symmetric-Handled d pkt st v)
    | inr e ↦ simp e (on_fullcone-Handled d pkt st v)
  ]

  module _ {D : Type 0} (name_size : ℕ) (enabled is_ipv4 : Bool) where
    handle_ingress-Handled :
        (d : Datagram D) (st : UdpProxy Full Symm)
        → IsLinked st
        → Handled 1 st (handle_ingress clock full symm sizes now name_size enabled is_ipv4 d st)
    unfolding handle_ingress
    handle_ingress-Handled d st v =
        let r =
          ingress_parse name_size enabled is_ipv4 d.namelen d.name d.original d.nrecv d.pool
            st.mru in
        on_packet-Handled d r.1 (record st { mru = r.0 })
          (record { fullcone = v.fullcone; symmetric = v.symmetric })

    -- When nodes and sessions belong together in both tables, then whatever a batch of datagrams and
    -- its handling find, the handling comes to an end without freeing a session that is not there,
    -- nodes and sessions still belong together, and at most as many datagrams were sent as the batch
    -- has.
    pub on_recvmsg-Handled :
        (l : List (Datagram D)) (st : UdpProxy Full Symm)
        → IsLinked st
        → Handled
            (length l)
            st
            (on_recvmsg clock full symm sizes now name_size enabled is_ipv4 l st)
    unfolding on_recvmsg
    on_recvmsg-Handled [] st v = (st, refl, v, omega arith)
    on_recvmsg-Handled (d ∷ l) st v =
        let (st', e, w, h) = handle_ingress-Handled d st v in
        let (st'', f, x, k) = on_recvmsg-Handled l st' w in
        (st'', simp (on_recvmsg, e) refl ∙ f, x, omega (arith, h, k))
