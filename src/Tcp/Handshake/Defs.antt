-- ===== src/Tcp/Handshake/Defs.antt =====
-- src/tcp_proxy.c: the handshake's state and operations. What the sockets, the allocation and the
-- Shadowsocks library answer is an argument; the selector is shared with other threads, so each
-- call of it names the selector that it finds. `failures`, `chosen` and `queued` are no fields
-- of the code: they record the failures that were reported, the servers that were chosen, and the
-- servers to which a whole request header was sent, the last one first. No function reads them.
use tproxy2ss.Base.{
  ℕ, zero, suc, ◌+◌, ◌^◌, ◌%◌, min, bit_or, Bool, true, false, ◌&&◌, not, Option, none, some, List,
  [], ◌∷◌, ltb, leb, ◌==◌, if◌then◌else◌,
}
use tproxy2ss.Base.Bytes.{Bytes}
use tproxy2ss.Selector.Defs.{Selector, next_best_tcp, attempt_epoch}
use tproxy2ss.Tcp.Relay.Defs.{is_empty}
use tproxy2ss.Tcp.Handshake.Dial.{
  Queued, later, refused, accepted, Established, Connect, failed, in_progress, connected, Dial,
  connect_server,
}

-- `tcp_session_t` in the handshake. `server_open` tells whether the server's watcher holds a
-- socket, `writable` whether its callback is `tcp_handshake_on_server_writable`.
pub record Session : Type 0 where
  pub server_idx : ℕ
  pub tried_servers_mask : ℕ
  pub retry_count : ℕ
  pub selector_attempt_epoch : ℕ
  pub initial_payload : Bytes
  pub client_eof : Bool
  pub request_header_len : ℕ
  pub request_header_sent : ℕ
  pub server_open : Bool
  pub writable : Bool
  pub failures : List ℕ
  pub chosen : List ℕ
  pub queued : List ℕ

-- A handler leaves the session to wait for its server's socket, or for the client's first bytes,
-- enters the relay, or closes the session, by a reset or not. `unfinished` is the end of the list
-- of attempts.
pub data Result : Type 0 where
  waiting : Session → Result
  expecting : Session → Result
  relaying : Session → Result
  ended : Bool → Session → Result
  unfinished : Session → Result

-- One call of `tcp_handshake_try_connect`: the selector of `server_selector_tcp_attempt`, the
-- length of the header that is built, and the answers of the system to the connection.
pub record Try (D : Type 0) : Type 0 where
  pub now : Selector D
  pub header : Option ℕ
  pub dial : Dial

-- One round of the loop in `tcp_handshake_retry`: the client's socket, the selector that names
-- the next server, whether the client of the library is at hand, and the call of
-- `tcp_handshake_try_connect`.
pub record Attempt (D : Type 0) : Type 0 where
  pub client_gone : Bool
  pub view : Selector D
  pub ready : Bool
  pub try : Try D

-- `tcp_handshake_try_connect` returns false, with `node_failure`, or true
pub data Tried : Type 0 where
  not_started : Bool → Session → Tried
  started : Result → Tried

-- The whole header is queued.
unfoldable pub is_queued : Session → Bool
is_queued s = ltb 0 s.request_header_len && leb s.request_header_len s.request_header_sent

-- The guard against replay
unfoldable pub may_replay : Session → Bool
may_replay s = not (is_empty s.initial_payload) && is_queued s

unfoldable pub note_queued : Session → Session
note_queued s = if is_queued s then record s { queued = s.server_idx ∷ s.queued } else s

-- `tcp_session_attach_server`
unfoldable pub attach_server : Option ℕ → Session → Session
attach_server none s = record s { server_open = true; writable = false }
attach_server (some zero) s = record s { server_open = true; writable = false }
attach_server (some (suc n)) s = note_queued (record s {
  server_open = true;
  writable = false;
  request_header_sent = min (suc n) s.request_header_len;
})

-- `tcp_handshake_send_request_header`, and `tcp_handshake_on_server_writable` behind it. `again`
-- is `tcp_handshake_retry`.
unfoldable pub send_request_header : (Bool → Session → Result) → Queued → Session → Result
send_request_header again answer s =
    if ltb s.request_header_len s.request_header_sent
    then ended true s
    else if s.request_header_sent == s.request_header_len
    then relaying s
    else elim answer [
      | later ↦ waiting s
      | refused node_failure ↦ again node_failure s
      | accepted n ↦
          let new_offset = s.request_header_sent + n in
          let sent = note_queued (record s { request_header_sent = new_offset }) in
          if n == 0
          then again true s
          else if ltb s.request_header_len new_offset
          then ended true s
          else if new_offset == s.request_header_len
          then relaying sent
          else waiting sent
    ]

-- `tcp_handshake_on_server_connected`
unfoldable pub on_server_connected : (Bool → Session → Result) → Established → Session → Result
on_server_connected again e s = elim e.socket_error [
  | some node_failure ↦ again node_failure s
  | none ↦
      if leb s.request_header_len s.request_header_sent
      then relaying s
      else send_request_header again e.answer (record s { writable = true })
]

-- `tcp_handshake_build_request_header`: a failure leaves the fields as they were.
unfoldable pub build_request_header : Option ℕ → Session → Option Session
build_request_header none s = none
build_request_header (some n) s =
    if ltb 65535 n
    then none
    else some (record s { request_header_len = n; request_header_sent = 0 })

unfoldable pub connect_with : (Bool → Session → Result) → Connect → Session → Tried
connect_with again (failed node_failure) s = not_started node_failure s
connect_with again (in_progress nsend) s = started (waiting (attach_server nsend s))
connect_with again (connected nsend e) s =
    started (on_server_connected again e (attach_server nsend s))

-- `tcp_handshake_try_connect` behind the header's building
unfoldable pub connect_built : (Bool → Session → Result) → Dial → Session → Option Session → Tried
connect_built again d s none = not_started false s
connect_built again d s (some built) =
    connect_with again (connect_server d built.request_header_len) built

unfoldable pub report_failure : Bool → Session → Session
report_failure true s = record s { failures = s.server_idx ∷ s.failures }
report_failure false s = s

unfoldable pub take_server : ℕ → Session → Session
take_server next s = record s {
  server_idx = next % 2 ^ 8;
  tried_servers_mask = bit_or s.tried_servers_mask (2 ^ next % 2 ^ 8);
  chosen = next ∷ s.chosen;
}

-- What the choice of the next server stores
unfoldable pub choose : ℕ → Session → Session
choose next s = record (take_server next s) {
  server_open = false;
  retry_count = (s.retry_count + 1) % 2 ^ 8;
}

module _ {D : Type 0} where
  -- `tcp_handshake_try_connect`
  unfoldable pub try_connect : (Bool → Session → Result) → Try D → Session → Tried
  try_connect again t s =
      let s' = record s { selector_attempt_epoch = attempt_epoch t.now s.server_idx } in
      connect_built again t.dial s' (build_request_header t.header s')

  -- `tcp_handshake_retry`, with one attempt for each round of its loop
  unfoldable pub retry : List (Attempt D) → Bool → Session → Result
  retry [] node_failure s = unfinished s
  retry (a ∷ l) node_failure s =
      let reported = report_failure node_failure s in
      if may_replay reported
      then ended true reported
      else if a.client_gone
      then ended false (record reported { server_open = false })
      else elim (next_best_tcp a.view reported.tried_servers_mask) [
        | none ↦ ended true (record reported { server_open = false })
        | some next ↦
            let s' = choose next reported in
            if not a.ready then retry l false s' else elim (try_connect (retry l) a.try s') [
              | not_started node_failure' s'' ↦ retry l node_failure' s''
              | started r ↦ r
            ]
      ]

  -- What stands behind a call of `tcp_handshake_try_connect`
  unfoldable pub after_try : List (Attempt D) → Tried → Result
  after_try l (not_started node_failure s) = retry l node_failure s
  after_try l (started r) = r

  -- `tcp_handshake_start`
  unfoldable pub start : Try D → List (Attempt D) → Session → Result
  start t l s = after_try l (try_connect (retry l) t s)

  -- `tcp_handshake_on_timeout`
  unfoldable pub on_timeout : List (Attempt D) → Session → Result
  on_timeout l s = retry l true s

  -- What the event loop calls when the server's socket becomes writable
  unfoldable pub on_server_event : Established → List (Attempt D) → Session → Result
  on_server_event e l s =
      if s.writable
      then send_request_header (retry l) e.answer s
      else on_server_connected (retry l) e s
