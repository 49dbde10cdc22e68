-- ===== src/Udp/Proxy/Tests.antt =====
-- Two datagrams of a client without the fake DNS: the second has the session of the first.
use tproxy2ss.Base.{ℕ, ◌≡◌, refl, true, false, ◌&&◌, some, List, [], ◌∷◌}
use tproxy2ss.Base.Number.{pos}
use tproxy2ss.FakeDns.Reverse.{mru_start}
use tproxy2ss.FakeDns.Init.{fresh_pool}
use tproxy2ss.Lru.Defs.{Entry, Sizes, pick, find_victim, evict, lru_add, lru_find, lru_del}
use tproxy2ss.Lru.Tables.{
  udp_node_find, udp_node_del, udp_lrucache_get_fullcone_maxsize,
  udp_lrucache_get_symmetric_maxsize,
}
use tproxy2ss.Lru.Listed.{unlink, get_from}
use tproxy2ss.Selector.Defs.{Selector, health_rank, rank_at, ok, failed, udp_replacement}
use tproxy2ss.Tcp.Target.{Target, inet, plain_target}
use tproxy2ss.Udp.Endpoint.{Endpoint, udp_endpoint_from_skaddr}
use tproxy2ss.Udp.Held.{count}
use tproxy2ss.Udp.Listed.{seconds, listed, same_port, udp_table}
use tproxy2ss.Udp.Ingress.{
  get_sender, resolve_fakedns, ingress_target, fits_sealed, ingress_of, ingress_parse,
}
use tproxy2ss.Udp.Replies.{UdpTable}
use tproxy2ss.Udp.Session.{
  session_of, free_session, new_session, session_lookup, touch, close_detached, close_indexed,
  close_victim, register, is_created, create_session, reuse, get_or_create,
}
use tproxy2ss.Udp.Session.Linked.{nodes_of}
use tproxy2ss.Udp.Proxy.{
  Datagram, UdpProxy, send_to_server, forward, on_fullcone, on_symmetric, on_packet, handle_ingress,
  on_recvmsg,
}
use tproxy2ss.Udp.Proxy.Keeps.{IsLinked, Handled, on_recvmsg-Handled}

abbrev pairs : UdpTable (Endpoint × Endpoint) ℕ (List (Entry (Endpoint × Endpoint) ℕ))
pairs = listed (λ a b. same_port a.0 b.0 && same_port a.1 b.1)

abbrev sizes : Sizes
sizes = record { fullcone = 4; symmetric = 4; tproxy = 4 }

abbrev selector : Selector ℕ
selector = record {
  server_count = 2;
  best_idx = 1;
  health = failed ∷ ok ∷ [];
  failure_epoch = 1 ∷ 0 ∷ [];
  scores = 10 ∷ 20 ∷ [];
  windows = [];
  probes_remaining = pos 0;
}

abbrev datagram : ℕ → Datagram ℕ
datagram node = record {
  namelen = 16;
  name = inet 16777343 4660;
  original = some (inet 134744072 13568);
  nrecv = 100;
  pool = fresh_pool [] 0 24;
  asked = selector;
  best = selector;
  creation = record {
    connected = true;
    session_memory = true;
    context = true;
    session_init = true;
    node = some node;
  };
  seals = true;
  sends = true;
}

abbrev idle : UdpProxy (List (Entry Endpoint ℕ)) (List (Entry (Endpoint × Endpoint) ℕ))
idle = record {
  fullcone = record { nodes = []; sessions = [] };
  symmetric = record { nodes = []; sessions = [] };
  mru = mru_start;
  sent = [];
}

program : Unit {0}
unfolding pick find_victim evict lru_add lru_find lru_del udp_node_find udp_node_del unlink get_from
    health_rank rank_at udp_replacement udp_lrucache_get_fullcone_maxsize
    udp_lrucache_get_symmetric_maxsize plain_target udp_endpoint_from_skaddr session_of free_session
    session_lookup touch close_detached close_indexed close_victim register is_created
    create_session reuse get_or_create get_sender resolve_fakedns ingress_target fits_sealed
    ingress_of ingress_parse send_to_server forward on_fullcone on_symmetric on_packet
    handle_ingress on_recvmsg
program = tt

abbrev dns : Target
dns = plain_target (inet 134744072 13568)

abbrev client : Endpoint
client = udp_endpoint_from_skaddr (inet 16777343 4660)

received :
    on_recvmsg seconds udp_table pairs sizes 7 255 false true
      (datagram 100 ∷ datagram 200 ∷ [])
      idle
    ≡ some (record idle {
      fullcone = record {
        nodes = record { ptr = 100; key = client; last_active = 7 } ∷ [];
        sessions =
            (100, new_session client (udp_endpoint_from_skaddr (inet 134744072 13568)) 1) ∷ [];
      };
      sent = (1, dns) ∷ (1, dns) ∷ [];
    })
unfolding program
received = refl

idle-IsLinked : IsLinked seconds udp_table pairs sizes 7 idle
unfolding nodes_of count
idle-IsLinked = record { fullcone = λ p. refl; symmetric = λ p. refl }

on_recvmsg-Handled_example : Handled seconds udp_table pairs sizes 7 2 idle (
    on_recvmsg seconds udp_table pairs sizes 7 255 false true
      (datagram 100 ∷ datagram 200 ∷ [])
      idle)
on_recvmsg-Handled_example =
    on_recvmsg-Handled seconds udp_table pairs sizes 7 255 false true
      (datagram 100 ∷ datagram 200 ∷ []) idle idle-IsLinked
