-- ===== src/Udp/Replies/Tests.antt =====
-- A batch of three replies with room for one entry in the table, which evicts two of them.
use tproxy2ss.Base.{ℕ, ◌≤◌, ◌≡◌, refl, arith, false, Option, none, some, List, [], ◌∷◌, length}
use tproxy2ss.Tcp.Target.{Target, host_ipv4}
use tproxy2ss.Lru.Defs.{Entry, Sizes, pick, find_victim, evict, lru_add, lru_find}
use tproxy2ss.Lru.Tables.{udp_node_find, udp_tproxy_entry_add}
use tproxy2ss.Lru.Listed.{unlink, get_from}
use tproxy2ss.Udp.Endpoint.{Endpoint, padding, udp_endpoint_from_addr, af_inet}
use tproxy2ss.Udp.Held.{one, count, release, release_all}
use tproxy2ss.Udp.Flush.{Call, slots_from, swap, gather, flush_from, flush_client_sends}
use tproxy2ss.Udp.Replies.{
  udp_batch_size, Opening, no_memory, opened, Peer, reply_src, defer, create_entry, get_or_create,
  queue, receive, receive_all, are_held, finish, on_server_reply,
}
use tproxy2ss.Udp.Replies.Safe.{Owned, started, receive_all-within, on_server_reply-safe}
use tproxy2ss.Udp.Listed.{seconds, udp_table}

abbrev small : Sizes
small = record { fullcone = 1; symmetric = 1; tproxy = 1 }

abbrev from_port : ℕ → Target
from_port n = record { host = host_ipv4 (8 ∷ 8 ∷ 8 ∷ 8 ∷ []); port = n }

abbrev peer : Peer
peer = record {
  client_endpoint = record { family = af_inet; port = 1; addr = [] };
  original_target_endpoint = record { family = af_inet; port = 2; addr = [] };
  uses_fakedns = false;
}

-- Four replies: from a new source, from another, one that does not open, from the first again
abbrev messages : List (Option Target × Opening)
messages =
    (some (from_port 53), opened 100)
    ∷ (some (from_port 54), opened 200)
    ∷ (none, no_memory)
    ∷ (some (from_port 53), opened 300)
    ∷ []

-- Every call sends one message.
abbrev all_sent : ℕ → Option ℕ
all_sent i = some 1

program : Unit {0}
unfolding one count release release_all slots_from swap gather flush_from flush_client_sends
    reply_src defer create_entry get_or_create queue receive receive_all are_held finish
    on_server_reply pick find_victim evict lru_add lru_find udp_node_find udp_tproxy_entry_add
    unlink get_from udp_endpoint_from_addr
program = tt

-- The first two entries are evicted within the batch and freed only behind the calls that use them.
replied :
    on_server_reply seconds udp_table small 7 all_sent peer messages [] []
    ≡ some (
      record {
        ptr = 300;
        key = record { family = af_inet; port = 13568; addr = 8 ∷ 8 ∷ 8 ∷ 8 ∷ padding };
        last_active = 7;
      }
          ∷ [],
      300 ∷ [],
      (100, 0 ∷ [], some 1) ∷ (200, 1 ∷ [], some 1) ∷ (300, 2 ∷ [], some 1) ∷ [],
    )
unfolding program
replied = refl

nothing-Owned : Owned seconds udp_table small 7 [] []
nothing-Owned p = refl

on_server_reply-safe_example :
    (u : List (Entry Endpoint ℕ)) × (left : List ℕ) × (calls : List Call) × (on_server_reply seconds
        udp_table small 7 all_sent peer messages [] []
      ≡ some (u, left, calls))
    × Owned seconds udp_table small 7 u left
on_server_reply-safe_example =
    on_server_reply-safe seconds udp_table small 7 all_sent peer messages [] [] nothing-Owned

receive_all-within_example :
    let b =
      receive_all seconds udp_table small 7 peer messages
        (started seconds udp_table small 7 [] []) in
    (length b.batch_sends ≤ udp_batch_size) × (length b.deferred_evict ≤ udp_batch_size)
receive_all-within_example =
    receive_all-within seconds udp_table small 7 peer messages [] [] nothing-Owned (omega arith)
