-- ===== src/Udp/Replies.antt =====
-- src/udp_proxy.c, `udp_relay_on_server_reply` with `udp_tproxy_entry_get_or_create`: the replies of
-- one `recvmmsg` and the sockets that they are sent from. The entries of `g_udp_tproxy_pool` that
-- are held are a list of addresses; freeing an entry that is not held, or sending from one, is
-- `none`. An entry owns its socket. `ss2022_udp_client_open` answers the source of a reply.
pub mod Owned
pub mod Balance
pub mod Safe
mod Tests
use tproxy2ss.Base.{
  ℕ, ◌+◌, ◌≡◌, Bool, true, false, ◌&&◌, ◌⊎◌, Option, none, some, List, [], ◌∷◌, ◌++◌, length,
  get_or, ltb, if◌then◌else◌,
}
use tproxy2ss.Tcp.Target.{Host, host_domain, host_ipv4, host_ipv6, Target}
use tproxy2ss.Lru.Defs.{Clock, Entry, IsIn, HashTable, Sizes}
use tproxy2ss.Lru.Tables.{udp_node_find, udp_tproxy_entry_add}
use tproxy2ss.Udp.Endpoint.{Endpoint, udp_endpoint_from_addr}
use tproxy2ss.Udp.Held.{one, count, release_all}
use tproxy2ss.Udp.Flush.{Call, flush_client_sends}

abbrev pub udp_batch_size : ℕ
udp_batch_size = 16

abbrev pub addresses : {K T : Type 0} → List (Entry K T) → List ℕ
addresses [] = []
addresses (x ∷ l) = x.ptr ∷ addresses l

-- What uthash does to the addresses of a table: an addition adds one, a deletion takes one out, a
-- search finds an entry of the table. `hash_touch` is the write to `last_active` of an entry.
pub record UdpTable (K T Table : Type 0) : Type 0 where
  pub hash : HashTable K T Table
  pub hash_touch : Table → Entry K T → T → Table
  pub add_addresses :
      (t : Table) (e : Entry K T) (p : ℕ)
      → count p (addresses (hash.entries (hash.hash_add t e)))
        ≡ one p e.ptr + count p (addresses (hash.entries t))
  pub del_addresses :
      (t : Table) (e : Entry K T)
      → IsIn e (hash.entries t)
      → (p : ℕ)
      → count p (addresses (hash.entries t))
        ≡ one p e.ptr + count p (addresses (hash.entries (hash.hash_del t e)))
  pub get_in :
      (t : Table) (k : K) (e : Entry K T) → hash.hash_get t k ≡ some e → IsIn e (hash.entries t)
  pub touch_addresses :
      (t : Table) (e : Entry K T) (now : T) (p : ℕ)
      → count p (addresses (hash.entries (hash_touch t e now)))
        ≡ count p (addresses (hash.entries t))

-- The opening of a reply socket and its entry: `new_udp_tpsend_sockfd` and `bind` succeed, and the
-- pool has an entry, or one of them fails, and what was opened is closed again.
pub data Opening : Type 0 where
  no_socket : Opening
  not_bound : Opening
  no_memory : Opening
  opened : ℕ → Opening

-- The fields of `udp_session_t` that replies use
pub record Peer : Type 0 where
  pub client_endpoint : Endpoint
  pub original_target_endpoint : Endpoint
  pub uses_fakedns : Bool

-- `deferred_evict` and the `source_entry` of `batch_sends`, both up to their counts
pub record Batch (Table : Type 0) : Type 0 where
  pub table : Table
  pub held : List ℕ
  pub deferred_evict : List ℕ
  pub batch_sends : List ℕ

-- The source of a reply for the client; `none` where the type is neither IPv4 nor IPv6.
unfoldable pub reply_src : Peer → Target → Option Endpoint
reply_src s source = if s.uses_fakedns then some s.original_target_endpoint else elim source.host [
  | host_ipv4 ip ↦ some (udp_endpoint_from_addr source)
  | host_ipv6 ip ↦ some (udp_endpoint_from_addr source)
  | host_domain len name ↦ none
]

module _ {T Table : Type 0} (clock : Clock T) (table : UdpTable Endpoint T Table) (sizes : Sizes)
    (now : T) where
  -- `deferred_evict[(*deferred_evict_count)++] = victim`
  unfoldable pub defer : Option (Entry Endpoint T) → List ℕ → List ℕ
  defer none l = l
  defer (some victim) l = l ++ victim.ptr ∷ []

  unfoldable pub create_entry : Endpoint → Opening → Batch Table → Batch Table × Option ℕ
  create_entry key no_socket b = (b, none)
  create_entry key not_bound b = (b, none)
  create_entry key no_memory b = (b, none)
  create_entry key (opened p) b =
      let r =
        udp_tproxy_entry_add clock table.hash sizes b.table
          (record { ptr = p; key = key; last_active = now }) in
      (
        record b { table = r.0; held = p ∷ b.held; deferred_evict = defer r.1 b.deferred_evict },
        some p,
      )

  -- `udp_tproxy_entry_get_or_create`
  unfoldable pub get_or_create : Endpoint → Opening → Batch Table → Batch Table × Option ℕ
  get_or_create key o b = elim (udp_node_find table.hash b.table key) [
    | some e ↦ (record b { table = table.hash_touch b.table e now }, some e.ptr)
    | none ↦ create_entry key o b
  ]

  -- `udp_tproxy_queue_client_send`
  unfoldable pub queue : Batch Table × Option ℕ → Batch Table
  queue (b, none) = b
  queue (b, some p) = record b { batch_sends = b.batch_sends ++ p ∷ [] }

  -- One round of the loop over the replies, by what `ss2022_udp_client_open` answers
  unfoldable pub receive : Peer → Option Target → Opening → Batch Table → Batch Table
  receive s none o b = b
  receive s (some source) o b = elim (reply_src s source) [
    | none ↦ b
    | some key ↦ queue (get_or_create key o b)
  ]

  unfoldable pub receive_all : Peer → List (Option Target × Opening) → Batch Table → Batch Table
  receive_all s [] b = b
  receive_all s ((source, o) ∷ l) b = receive_all s l (receive s source o b)

  -- Every call sends from an entry that is held.
  unfoldable pub are_held : List ℕ → List Call → Bool
  are_held held [] = true
  are_held held ((entry, group, answer) ∷ l) = ltb 0 (count entry held) && are_held held l

  -- The flush of a batch, and the freeing of the evicted entries behind it: the table, the held
  -- entries and the calls of `sendmmsg`, which `answers` answers
  unfoldable pub finish : (ℕ → Option ℕ) → Batch Table → Option (Table × List ℕ × List Call)
  finish answers b =
      let calls =
        flush_client_sends (λ k. get_or b.batch_sends k 0) answers (length b.batch_sends) in
      if are_held b.held calls
      then elim (release_all b.deferred_evict b.held) [
        | none ↦ none
        | some held ↦ some (b.table, held, calls)
      ]
      else none

  -- `udp_relay_on_server_reply` behind a `recvmmsg` that got messages. The write to `last_active` of
  -- the session's node is not part of this state.
  unfoldable pub on_server_reply :
      (ℕ → Option ℕ)
      → Peer
      → List (Option Target × Opening)
      → Table
      → List ℕ
      → Option (Table × List ℕ × List Call)
  on_server_reply answers s messages t held = finish answers (
      receive_all s messages
        (record { table = t; held = held; deferred_evict = []; batch_sends = [] }))
