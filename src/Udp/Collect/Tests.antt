-- ===== src/Udp/Collect/Tests.antt =====
-- A sweep over two sessions, one of them idle.
use tproxy2ss.Base.{ℕ, ◌≡◌, refl, arith, some, List, [], ◌∷◌, ltb}
use tproxy2ss.Lru.Defs.{Entry, lru_del}
use tproxy2ss.Lru.Tables.{udp_node_del}
use tproxy2ss.Lru.Listed.{unlink}
use tproxy2ss.Udp.Endpoint.{Endpoint, af_inet}
use tproxy2ss.Udp.Held.{one, count}
use tproxy2ss.Udp.Listed.{seconds, udp_table}
use tproxy2ss.Udp.Session.{Sessions, free_session, new_session, close_detached, close_indexed}
use tproxy2ss.Udp.Session.Linked.{nodes_of, Linked}
use tproxy2ss.Udp.Collect.{sweep_sessions_from, sweep_sessions}
use tproxy2ss.Udp.Collect.Linked.{Collected, Distinct, sweep_sessions-Swept}

abbrev client : ℕ → Endpoint
client n = record { family = af_inet; port = n; addr = [] }

abbrev node : ℕ → ℕ → Entry Endpoint ℕ
node p t = record { ptr = p; key = client p; last_active = t }

abbrev two : Sessions (List (Entry Endpoint ℕ))
two = record {
  nodes = node 100 3 ∷ node 200 50 ∷ [];
  sessions =
      (200, new_session (client 200) (client 1) 0)
      ∷ (100, new_session (client 100) (client 1) 1)
      ∷ [];
}

swept :
    sweep_sessions seconds udp_table 4 60 (λ t. ltb t 10) two
    ≡ some (
      record {
        nodes = node 200 50 ∷ [];
        sessions = (200, new_session (client 200) (client 1) 0) ∷ [];
      },
      1,
    )
unfolding sweep_sessions sweep_sessions_from close_indexed close_detached free_session udp_node_del
    lru_del unlink
swept = refl

two-Linked : Linked seconds udp_table 4 60 two
unfolding nodes_of count
two-Linked p = omega arith

two-Distinct : Distinct seconds udp_table 4 60 (λ t. ltb t 10) (node 100 3 ∷ node 200 50 ∷ [])
unfolding count one
two-Distinct p = ground arith

sweep_sessions-Swept_example :
    Collected seconds udp_table 4 60
      (λ t. ltb t 10)
      two
      (sweep_sessions seconds udp_table 4 60 (λ t. ltb t 10) two)
sweep_sessions-Swept_example =
    sweep_sessions-Swept seconds udp_table 4 60 (λ t. ltb t 10) two two-Linked two-Distinct
