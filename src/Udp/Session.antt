-- ===== src/Udp/Session.antt =====
-- src/udp_proxy.c: the sessions of one table, from `udp_session_lookup` to
-- `udp_session_get_or_create`. The two tables are handled alike: `uses_fakedns` of a datagram says
-- which of them is meant, and with it the type of the keys. A session has one node, and the list of
-- sessions has the address of the node with each; freeing a session that is not there, or finding a
-- node whose session is not there, is `none`.
pub mod Linked
pub mod Freed
pub mod Made
pub mod Given
mod Tests
use tproxy2ss.Base.{
  ℕ, ◌+◌, Bool, true, false, ◌&&◌, Option, none, some, List, [], ◌∷◌, length, ltb, ◌==◌,
  if◌then◌else◌,
}
use tproxy2ss.Lru.Defs.{Clock, Entry, lru_add}
use tproxy2ss.Lru.Tables.{udp_node_find, udp_node_del}
use tproxy2ss.Selector.Defs.{Selector, udp_replacement}
use tproxy2ss.Udp.Endpoint.{Endpoint}
use tproxy2ss.Udp.Replies.{UdpTable}

-- The fields of `udp_session_t` but its watcher, its node and the state of the library
pub record UdpSession : Type 0 where
  pub client_endpoint : Endpoint
  pub original_target_endpoint : Endpoint
  pub server_idx : ℕ

pub record Sessions (Table : Type 0) : Type 0 where
  pub nodes : Table
  pub sessions : List (ℕ × UdpSession)

-- `node->session`
unfoldable pub session_of : ℕ → List (ℕ × UdpSession) → Option UdpSession
session_of p [] = none
session_of p ((q, s) ∷ l) = let rest = session_of p l in if q == p then some s else rest

-- `udp_session_free`, and the freeing of the node
unfoldable pub free_session : ℕ → List (ℕ × UdpSession) → Option (List (ℕ × UdpSession))
free_session p [] = none
free_session p ((q, s) ∷ l) =
    let rest = free_session p l in
    if q == p then some l else elim rest [ none ↦ none | some r ↦ some ((q, s) ∷ r) ]

-- What the calls of the creation of a session answer: the socket, the session's memory, the
-- context of the server, the library's session, and the address of a node
pub record Creation : Type 0 where
  pub connected : Bool
  pub session_memory : Bool
  pub context : Bool
  pub session_init : Bool
  pub node : Option ℕ

abbrev pub new_session : Endpoint → Endpoint → ℕ → UdpSession
new_session client target idx = record {
  client_endpoint = client;
  original_target_endpoint = target;
  server_idx = idx;
}

abbrev pub ready : Creation → Bool
ready c = c.connected && (c.session_memory && (c.context && c.session_init))

unfoldable pub is_created : Creation → Bool
is_created c = ready c && (elim c.node [ none ↦ false | some p ↦ true ])

module _ {K T Table : Type 0} (clock : Clock T) (table : UdpTable K T Table) (maxsize : ℕ)
    (now : T) where
  -- `udp_session_lookup`: the node with its session
  unfoldable pub session_lookup : K → Sessions Table → Option (Entry K T)
  session_lookup key st = udp_node_find table.hash st.nodes key

  -- `udp_session_touch`
  unfoldable pub touch : Entry K T → Sessions Table → Sessions Table
  touch node st = record st { nodes = table.hash_touch st.nodes node now }

  -- `udp_session_close_detached`
  unfoldable pub close_detached : Entry K T → Sessions Table → Option (Sessions Table)
  close_detached node st = elim (free_session node.ptr st.sessions) [
    | none ↦ none
    | some l ↦ some (record st { sessions = l })
  ]

  -- `udp_session_close_indexed`
  unfoldable pub close_indexed : Entry K T → Sessions Table → Option (Sessions Table)
  close_indexed node st =
      close_detached node (record st { nodes = udp_node_del table.hash st.nodes node })

  unfoldable pub close_victim : Option (Entry K T) → Sessions Table → Option (Sessions Table)
  close_victim none st = some st
  close_victim (some victim) st = close_detached victim st

  -- `udp_session_register_fullcone` and `udp_session_register_symmetric`; without a node the session
  -- is freed again.
  unfoldable pub register : K → UdpSession → Option ℕ → Sessions Table → Option (Sessions Table)
  register key s none st = some st
  register key s (some p) st =
      let r =
        lru_add clock table.hash maxsize st.nodes
          (record { ptr = p; key = key; last_active = now }) in
      close_victim r.1 (record { nodes = r.0; sessions = (p, s) ∷ st.sessions })

  -- `udp_session_create`: the sessions, and the new session
  unfoldable pub create_session :
      K → UdpSession → Creation → Sessions Table → Option (Sessions Table × Option UdpSession)
  create_session key s c st =
      if ready c
      then elim (register key s c.node st) [
        | none ↦ none
        | some st' ↦ some (st', if is_created c then some s else none)
      ]
      else some (st, none)

  -- What follows the replacement test: the server that the test chose, if it did
  unfoldable pub reuse :
      Endpoint
      → Endpoint
      → K
      → Creation
      → Entry K T
      → UdpSession
      → Option ℕ
      → Sessions Table
      → Option (Sessions Table × Option UdpSession)
  reuse client target key c node s none st = some (touch node st, some s)
  reuse client target key c node s (some idx) st = elim (close_indexed node st) [
    | none ↦ none
    | some st' ↦ create_session key (new_session client target idx) c st'
  ]

  -- `udp_session_get_or_create`; the selector is read at `server_selector_udp_replacement` and at
  -- `server_selector_best_udp`.
  unfoldable pub get_or_create :
      {D : Type 0}
      → Endpoint
      → Endpoint
      → Selector D
      → Selector D
      → K
      → Creation
      → Sessions Table
      → Option (Sessions Table × Option UdpSession)
  get_or_create client target asked best key c st = elim (session_lookup key st) [
    | none ↦ create_session key (new_session client target best.best_idx) c st
    | some node ↦ elim (session_of node.ptr st.sessions) [
      | none ↦ none
      | some s ↦ reuse client target key c node s (udp_replacement asked s.server_idx) st
    ]
  ]
