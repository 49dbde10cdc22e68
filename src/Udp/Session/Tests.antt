-- ===== src/Udp/Session/Tests.antt =====
-- A client whose session is on a failed server, and which gets a new one on the best server.
use tproxy2ss.Base.{ℕ, ◌≡◌, refl, true, Option, some, List, [], ◌∷◌}
use tproxy2ss.Base.Number.{pos}
use tproxy2ss.Lru.Defs.{Entry, pick, find_victim, evict, lru_add, lru_find, lru_del}
use tproxy2ss.Lru.Tables.{udp_node_find, udp_node_del}
use tproxy2ss.Lru.Listed.{unlink, get_from}
use tproxy2ss.Selector.Defs.{Selector, health_rank, rank_at, ok, failed, udp_replacement}
use tproxy2ss.Udp.Endpoint.{Endpoint, af_inet}
use tproxy2ss.Udp.Held.{count}
use tproxy2ss.Udp.Listed.{seconds, udp_table}
use tproxy2ss.Udp.Session.{
  Sessions, UdpSession, session_of, free_session, Creation, new_session, session_lookup, touch,
  close_detached, close_indexed, close_victim, register, is_created, create_session, reuse,
  get_or_create,
}
use tproxy2ss.Udp.Session.Linked.{nodes_of, Linked, IsServed}
use tproxy2ss.Udp.Session.Given.{Given, get_or_create-Given}

abbrev client : Endpoint
client = record { family = af_inet; port = 1; addr = [] }

abbrev target : Endpoint
target = record { family = af_inet; port = 2; addr = [] }

abbrev node : Entry Endpoint ℕ
node = record { ptr = 100; key = client; last_active = 3 }

abbrev before : Sessions (List (Entry Endpoint ℕ))
before = record { nodes = node ∷ []; sessions = (100, new_session client target 1) ∷ [] }

abbrev selector : Selector ℕ
selector = record {
  server_count = 2;
  best_idx = 0;
  health = ok ∷ failed ∷ [];
  failure_epoch = 0 ∷ 1 ∷ [];
  scores = 10 ∷ 20 ∷ [];
  windows = [];
  probes_remaining = pos 0;
}

abbrev answers : Creation
answers = record {
  connected = true;
  session_memory = true;
  context = true;
  session_init = true;
  node = some 200;
}

program : Unit {0}
unfolding pick find_victim evict lru_add lru_find lru_del udp_node_find udp_node_del unlink get_from
    health_rank rank_at udp_replacement session_of free_session session_lookup touch close_detached
    close_indexed close_victim register is_created create_session reuse get_or_create
program = tt

replaced :
    get_or_create seconds udp_table 1 7 client target selector selector client answers before
    ≡ some (
      record {
        nodes = record { ptr = 200; key = client; last_active = 7 } ∷ [];
        sessions = (200, new_session client target 0) ∷ [];
      },
      some (new_session client target 0),
    )
unfolding program
replaced = refl

before-Linked : Linked seconds udp_table 1 7 before
unfolding nodes_of count
before-Linked p = refl

get_or_create-Given_example :
    (st' : Sessions (List (Entry Endpoint ℕ))) × (o : Option UdpSession) × (get_or_create seconds
        udp_table 1 7 client target selector selector client answers before
      ≡ some (st', o))
    × Linked seconds udp_table 1 7 st'
    × IsServed seconds udp_table 1 7 selector selector o
    × Given seconds udp_table 1 7 selector selector client target client answers before st' o
get_or_create-Given_example =
    get_or_create-Given seconds udp_table 1 7 selector selector client target client answers before
      before-Linked
