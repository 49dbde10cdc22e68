-- ===== src/Tcp/Handshake/Begin.antt =====
-- src/tcp_proxy.c: the beginning of a session, up to the first connection.
use tproxy2ss.Base.{
  ◌-◌, Bool, true, false, ◌&&◌, none, some, List, [], ◌∷◌, ◌++◌, length, take, leb, if◌then◌else◌,
}
use tproxy2ss.Selector.Defs.{Selector, next_best_tcp}
use tproxy2ss.Tcp.Client.{plain_bufsiz}
use tproxy2ss.Tcp.Relay.Defs.{Received, nothing, error, end_of_stream, got, is_empty}
use tproxy2ss.Tcp.Handshake.Defs.{
  Session, Result, expecting, ended, Try, Attempt, take_server, start,
}

-- What `tcp_handshake_read_initial_payload` returns: false, or true with `need_wait`
pub data Initial : Type 0 where
  payload_error : Session → Initial
  payload_read : Bool → Session → Initial

-- The end of the list of answers is EAGAIN.
unfoldable pub read_initial_payload : List Received → Session → Initial
read_initial_payload [] s =
    if leb plain_bufsiz (length s.initial_payload)
    then payload_read false s
    else payload_read (is_empty s.initial_payload) s
read_initial_payload (answer ∷ l) s =
    if leb plain_bufsiz (length s.initial_payload) then payload_read false s else elim answer [
      | nothing ↦ payload_read (is_empty s.initial_payload) s
      | error ↦ payload_error s
      | end_of_stream ↦ payload_read false (record s { client_eof = true })
      | got bs ↦
          let taken = take (plain_bufsiz - length s.initial_payload) bs in
          if is_empty taken
          then payload_read false (record s { client_eof = true })
          else read_initial_payload l (record s { initial_payload = s.initial_payload ++ taken })
    ]

-- One round of the loop in `tcp_session_create`: the selector that is asked, and whether the
-- client of the library is at hand
pub record Pick (D : Type 0) : Type 0 where
  pub view : Selector D
  pub ready : Bool

-- What `tcp_session_create` returns; `undecided` is the end of the list of rounds.
pub data Created : Type 0 where
  no_session : Created
  created : Session → Created
  undecided : Created

abbrev pub zeroed_session : Session
zeroed_session = record {
  server_idx = 0;
  tried_servers_mask = 0;
  retry_count = 0;
  selector_attempt_epoch = 0;
  initial_payload = [];
  client_eof = false;
  request_header_len = 0;
  request_header_sent = 0;
  server_open = false;
  writable = false;
  failures = [];
  chosen = [];
  queued = [];
}

module _ {D : Type 0} where
  -- `tcp_handshake_start_after_initial_payload`
  unfoldable pub start_after_initial_payload : Try D → List (Attempt D) → Session → Result
  start_after_initial_payload t l s =
      if is_empty s.initial_payload && s.client_eof then ended false s else start t l s

  -- What stands behind the read in `tcp_handshake_on_initial_payload_read`
  unfoldable pub after_read : Try D → List (Attempt D) → Initial → Result
  after_read t l (payload_error s) = ended true s
  after_read t l (payload_read true s) = expecting s
  after_read t l (payload_read false s) = start_after_initial_payload t l s

  -- `tcp_handshake_on_initial_payload_read`, and `tcp_handshake_wait_initial_payload`, which then
  -- waits
  unfoldable pub on_initial_payload_read :
      List Received → Try D → List (Attempt D) → Session → Result
  on_initial_payload_read answers t l s = after_read t l (read_initial_payload answers s)

  -- What stands behind the read in `tcp_handshake_on_initial_payload_timeout`
  unfoldable pub after_wait : Try D → List (Attempt D) → Initial → Result
  after_wait t l (payload_error s) = ended true s
  after_wait t l (payload_read need_wait s) = start_after_initial_payload t l s

  -- `tcp_handshake_on_initial_payload_timeout`
  unfoldable pub on_initial_payload_timeout :
      List Received → Try D → List (Attempt D) → Session → Result
  on_initial_payload_timeout answers t l s = after_wait t l (read_initial_payload answers s)

  -- The rounds of `tcp_session_create` behind the first
  unfoldable pub create_next : List (Pick D) → Session → Created
  create_next [] s = undecided
  create_next (p ∷ l) s = elim (next_best_tcp p.view s.tried_servers_mask) [
    | none ↦ no_session
    | some next ↦ let s' = take_server next s in if p.ready then created s' else create_next l s'
  ]

  -- `tcp_session_create`, with the success of the allocation and one pick for each round of its
  -- loop
  unfoldable pub session_create : Bool → List (Pick D) → Created
  session_create false l = no_session
  session_create true [] = undecided
  session_create true (p ∷ l) =
      let s' = take_server p.view.best_idx zeroed_session in
      if p.ready then created s' else create_next l s'
