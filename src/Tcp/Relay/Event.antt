-- ===== src/Tcp/Relay/Event.antt =====
-- src/tcp_proxy.c: the handlers of the relay, from `tcp_relay_server_eof_is_clean` to
-- `tcp_session_enter_relay`.
use tproxy2ss.Base.{
  ℕ, ◌-◌, Bool, true, false, ◌&&◌, ◌||◌, not, none, some, List, [], ◌++◌, length, take, drop, ltb,
  ◌==◌, if◌then◌else◌,
}
use tproxy2ss.Base.Bytes.{Bytes}
use tproxy2ss.Tcp.Client.{plain_bufsiz, resp_in_bufsiz, Ss2022}
use tproxy2ss.Tcp.Relay.Defs.{
  Relay, Sent, Received, nothing, error, end_of_stream, got, Outcome, live, closed, is_empty, drain,
  consume, process_server_data,
}

module _ {C : Type 0} where
  unfoldable pub and_then : Outcome C → (Relay C → Outcome C) → Outcome C
  and_then (live r) f = f r
  and_then (closed reset r) f = closed reset r

  -- The bytes that still have to go to the client
  unfoldable pub pending_out : Relay C → Bytes
  pending_out r = take r.out_len (drop r.out_off r.input)

  -- The chunk whose payload is out is taken off the input.
  unfoldable pub release : Relay C → Relay C
  release r =
      if r.out_len == 0 && ltb 0 r.in_consume
      then record (consume r.in_consume r) { in_consume = 0 }
      else r

  -- `tcp_relay_write_to_client`
  unfoldable pub write_to_client : List Sent → Relay C → Outcome C
  write_to_client answers r =
      let d = drain answers r.out_off (pending_out r) in
      let r' = record r {
        out_off = d.off;
        out_len = length d.left;
        wire = record r.wire { to_client = r.wire.to_client ++ d.sent };
      } in
      if d.alive then live (release r') else closed true r'

  -- `tcp_relay_write_to_server`
  unfoldable pub write_to_server : List Sent → Relay C → Outcome C
  write_to_server answers r =
      let d = drain answers r.client_to_server_off r.client_to_server in
      let r' = record r {
        client_to_server_off = d.off;
        client_to_server = d.left;
        wire = record r.wire { to_server = r.wire.to_server ++ d.sent };
      } in
      if d.alive then live r' else closed true r'

  unfoldable pub compact : Relay C → Relay C
  compact r =
      if r.head == 0
      then r
      else if not (resp_in_bufsiz - r.head - length r.input == 0)
      then r
      else record r { head = 0 }

  -- `tcp_relay_server_eof_is_clean`
  unfoldable pub eof_is_clean : Relay C → Bool
  eof_is_clean r = is_empty r.input && r.response_header_done && r.need_len

  -- `tcp_relay_handle_server_eof`
  unfoldable pub handle_server_eof : Relay C → Outcome C
  handle_server_eof r =
      if eof_is_clean r then live (record r { server_eof = true }) else closed true r

  -- The room behind the input, which is the last argument of `recv`
  unfoldable pub room_of : Relay C → ℕ
  room_of r = resp_in_bufsiz - r.head - length r.input

  module _ (api : Ss2022 C) where
    -- `tcp_relay_process_pending_server_data`
    unfoldable pub process_pending : Relay C → Outcome C
    process_pending r =
        if not (r.out_len == 0) || is_empty r.input then live r else process_server_data api r

    -- `tcp_relay_read_from_client`; no byte read means the end of the stream.
    unfoldable pub read_from_client : Received → Relay C → Outcome C
    read_from_client nothing r = live r
    read_from_client error r = closed true r
    read_from_client end_of_stream r = live (record r { client_eof = true })
    read_from_client (got bs) r =
        let plain = take plain_bufsiz bs in
        if is_empty plain
        then live (record r { client_eof = true })
        else elim (api.seal_payload r.ss_client plain) [
          | none ↦ closed true r
          | some (c, sealed) ↦ live (record r {
            ss_client = c;
            client_to_server_off = 0;
            client_to_server = sealed;
            wire = record r.wire { from_client = r.wire.from_client ++ plain };
          })
        ]

    -- `tcp_relay_read_from_server` behind the compaction
    unfoldable pub read_input : Received → Relay C → Outcome C
    read_input nothing r = live r
    read_input error r = closed true r
    read_input end_of_stream r = handle_server_eof r
    read_input (got bs) r =
        let taken = take (room_of r) bs in
        if is_empty taken
        then handle_server_eof r
        else process_server_data api (record r {
          input = r.input ++ taken;
          wire = record r.wire { from_server = r.wire.from_server ++ taken };
        })

    unfoldable pub read_from_server : Received → Relay C → Outcome C
    read_from_server answer r = read_input answer (compact r)

    -- `tcp_relay_handle_write`, `tcp_relay_handle_read`: the flag is the bit in `revents`.
    unfoldable pub handle_write : Bool → Bool → List Sent → Relay C → Outcome C
    handle_write is_client false answers r = live r
    handle_write true true answers r = write_to_client answers r
    handle_write false true answers r = write_to_server answers r

    unfoldable pub handle_read : Bool → Bool → Received → Relay C → Outcome C
    handle_read is_client false answer r = live r
    handle_read true true answer r =
        if not (is_empty r.client_to_server) then live r else read_from_client answer r
    handle_read false true answer r =
        if not (r.out_len == 0) then live r else read_from_server answer r

  -- The two calls of `shutdown`
  unfoldable pub shut_down : Relay C → Relay C
  shut_down r = record r {
    server_shutdown_sent = r.server_shutdown_sent || (r.client_eof && is_empty r.client_to_server);
    client_shutdown_sent =
        r.client_shutdown_sent || (r.server_eof && r.out_len == 0 && is_empty r.input);
  }

  unfoldable pub is_done : Relay C → Bool
  is_done r =
      (r.client_eof && r.server_eof)
      && (is_empty r.client_to_server && (r.out_len == 0 && is_empty r.input))

  unfoldable pub set_events : Relay C → Relay C
  set_events r = record r {
    client_read = not r.client_eof && is_empty r.client_to_server;
    client_write = ltb 0 r.out_len;
    server_read = not r.server_eof && (r.out_len == 0 && ltb (length r.input) resp_in_bufsiz);
    server_write = not (is_empty r.client_to_server);
  }

  -- `tcp_relay_update_watchers`
  unfoldable pub update_watchers : Relay C → Outcome C
  update_watchers r =
      let r' = shut_down r in if is_done r' then closed false r' else live (set_events r')

  -- `tcp_relay_on_event`, at the watcher of the client or the server
  unfoldable pub on_event :
      Ss2022 C → Bool → Bool → Bool → List Sent → Received → Relay C → Outcome C
  on_event api is_client readable writable answers answer r =
      and_then (handle_write api is_client writable answers r) (λ r1.
        and_then (process_pending api r1)
          (λ r2. and_then (handle_read api is_client readable answer r2) update_watchers))

  -- `memset` of the relay, and what `tcp_session_enter_relay` sets
  unfoldable pub zeroed : C → Bool → ℕ → Relay C
  zeroed c client_eof header_len = record {
    client_eof = client_eof;
    server_eof = false;
    client_shutdown_sent = false;
    server_shutdown_sent = false;
    response_header_done = false;
    response_payload_len = 0;
    response_header_len = header_len;
    client_to_server_off = 0;
    client_to_server = [];
    head = 0;
    input = [];
    need_len = false;
    out_off = 0;
    out_len = 0;
    in_consume = 0;
    ss_client = c;
    reports = 0;
    client_read = true;
    client_write = false;
    server_read = true;
    server_write = false;
    wire = record { from_client = []; to_server = []; from_server = []; to_client = [] };
  }

  -- `tcp_session_enter_relay`; `memory` is the success of the allocation of the input buffer.
  unfoldable pub enter_relay : Ss2022 C → Bool → C → Bool → Outcome C
  enter_relay api memory c client_eof =
      let header_len = api.response_header_size c in
      let r = zeroed c client_eof header_len in
      if not memory
      then closed true r
      else if header_len == 0 || ltb resp_in_bufsiz header_len
      then closed true r
      else update_watchers r
