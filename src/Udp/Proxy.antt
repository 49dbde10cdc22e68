-- ===== src/Udp/Proxy.antt =====
-- src/udp_proxy.c: `udp_proxy_handle_ingress`, `udp_relay_send_to_server` and the loop of
-- `udp_proxy_on_recvmsg` over the datagrams of one `recvmmsg`, for a thread with its two tables.
pub mod Keeps
mod Tests
use tproxy2ss.Base.{ℕ, Bool, ◌&&◌, Option, none, some, List, [], ◌∷◌, ◌++◌, if◌then◌else◌}
use tproxy2ss.FakeDns.Defs.{FakeDns}
use tproxy2ss.FakeDns.Reverse.{Mru}
use tproxy2ss.Lru.Defs.{Clock, Sizes}
use tproxy2ss.Lru.Tables.{udp_lrucache_get_fullcone_maxsize, udp_lrucache_get_symmetric_maxsize}
use tproxy2ss.Selector.Defs.{Selector}
use tproxy2ss.Tcp.Target.{SockAddr, Target}
use tproxy2ss.Udp.Endpoint.{Endpoint}
use tproxy2ss.Udp.Ingress.{Ingress, ingress_parse}
use tproxy2ss.Udp.Replies.{UdpTable}
use tproxy2ss.Udp.Session.{UdpSession, Sessions, Creation, get_or_create}

-- A datagram, and what its handling finds: the pool of the fake DNS, the two readings of the
-- selector, the answers for a new session, and whether sealing and sending succeed
pub record Datagram (D : Type 0) : Type 0 where
  pub namelen : ℕ
  pub name : SockAddr
  pub original : Option SockAddr
  pub nrecv : ℕ
  pub pool : FakeDns
  pub asked : Selector D
  pub best : Selector D
  pub creation : Creation
  pub seals : Bool
  pub sends : Bool

-- `sent` has the server and the target of every datagram that was sent.
pub record UdpProxy (Full Symm : Type 0) : Type 0 where
  pub fullcone : Sessions Full
  pub symmetric : Sessions Symm
  pub mru : Mru
  pub sent : List (ℕ × Target)

-- `udp_relay_send_to_server`, which drops what cannot be sent
unfoldable pub send_to_server :
    {D : Type 0} → Datagram D → Target → UdpSession → List (ℕ × Target) → List (ℕ × Target)
send_to_server d target s sent =
    if d.seals && d.sends then sent ++ (s.server_idx, target) ∷ [] else sent

unfoldable pub forward :
    {D : Type 0} → Datagram D → Target → Option UdpSession → List (ℕ × Target) → List (ℕ × Target)
forward d target none sent = sent
forward d target (some s) sent = send_to_server d target s sent

module _ {D T Full Symm : Type 0} (clock : Clock T) (full : UdpTable Endpoint T Full)
    (symm : UdpTable (Endpoint × Endpoint) T Symm) (sizes : Sizes) (now : T) where
  unfoldable pub on_fullcone :
      Datagram D → Ingress → UdpProxy Full Symm → Option (UdpProxy Full Symm)
  on_fullcone d pkt st =
      elim (get_or_create clock full (udp_lrucache_get_fullcone_maxsize sizes) now
        pkt.client_endpoint pkt.original_target_endpoint d.asked d.best pkt.client_endpoint
        d.creation st.fullcone) [
          | none ↦ none
          | some r ↦ some (record st { fullcone = r.0; sent = forward d pkt.ss_target r.1 st.sent })
        ]

  unfoldable pub on_symmetric :
      Datagram D → Ingress → UdpProxy Full Symm → Option (UdpProxy Full Symm)
  on_symmetric d pkt st =
      elim (get_or_create clock symm (udp_lrucache_get_symmetric_maxsize sizes) now
        pkt.client_endpoint pkt.original_target_endpoint d.asked d.best
        (pkt.client_endpoint, pkt.original_target_endpoint) d.creation st.symmetric) [
          | none ↦ none
          | some r ↦
              some (record st { symmetric = r.0; sent = forward d pkt.ss_target r.1 st.sent })
        ]

  -- What `udp_proxy_handle_ingress` does with the parsed datagram
  unfoldable pub on_packet :
      Datagram D → Option Ingress → UdpProxy Full Symm → Option (UdpProxy Full Symm)
  on_packet d none st = some st
  on_packet d (some pkt) st =
      if pkt.uses_fakedns then on_symmetric d pkt st else on_fullcone d pkt st

  module _ (name_size : ℕ) (enabled is_ipv4 : Bool) where
    -- `udp_proxy_handle_ingress`
    unfoldable pub handle_ingress : Datagram D → UdpProxy Full Symm → Option (UdpProxy Full Symm)
    handle_ingress d st =
        let r =
          ingress_parse name_size enabled is_ipv4 d.namelen d.name d.original d.nrecv d.pool
            st.mru in
        on_packet d r.1 (record st { mru = r.0 })

    -- The loop of `udp_proxy_on_recvmsg`
    unfoldable pub on_recvmsg : List (Datagram D) → UdpProxy Full Symm → Option (UdpProxy Full Symm)
    on_recvmsg [] st = some st
    on_recvmsg (d ∷ l) st = elim (handle_ingress d st) [ none ↦ none | some st' ↦ on_recvmsg l st' ]
