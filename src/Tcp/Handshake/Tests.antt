-- ===== src/Tcp/Handshake/Tests.antt =====
-- The theorems on the handshake of src/tcp_proxy.c at a session that fails over from one of two
-- servers to the other.
use tproxy2ss.Base.{none, ℕ, ◌≡◌, ◌≢◌, ◌⊎◌, refl, arith, true, false, some, List, [], ◌∷◌}
use tproxy2ss.Base.Number.{pos}
use tproxy2ss.Selector.Defs.{
  Selector, unknown, health_rank, rank_at, score_at, tried, better, consider, candidate_from,
  candidate, next_best_tcp, attempt_epoch,
}
use tproxy2ss.Tcp.Relay.Defs.{nothing, got, is_empty}
use tproxy2ss.Tcp.Handshake.Dial.{
  later, FastOpen, opened_with, rejected, pending, Dial, tcp_plain_connect, fast_connect,
  tcp_connect, connect_of, connect_server,
}
use tproxy2ss.Tcp.Handshake.Defs.{
  Session, Result, waiting, expecting, ended, unfinished, Try, Attempt, is_queued, may_replay,
  note_queued, attach_server, send_request_header, on_server_connected, build_request_header,
  connect_with, connect_built, report_failure, take_server, choose, try_connect, retry, after_try,
  start, on_timeout, on_server_event,
}
use tproxy2ss.Tcp.Handshake.Servers.{Distinct, Marked, occurs}
use tproxy2ss.Tcp.Handshake.Begin.{
  read_initial_payload, Pick, zeroed_session, start_after_initial_payload, after_read,
  on_initial_payload_read, create_next, session_create,
}
use tproxy2ss.Tcp.Handshake.Run.{
  Runs, creation, payload, state_of, Runs-replay, Runs-Distinct, Runs-finishes,
}

abbrev servers : Selector ℕ
servers = record {
  server_count = 2;
  best_idx = 0;
  health = unknown ∷ unknown ∷ [];
  failure_epoch = 0 ∷ 0 ∷ [];
  scores = 10 ∷ 20 ∷ [];
  windows = [];
  probes_remaining = pos 0;
}

abbrev at_hand : Pick ℕ
at_hand = record { view = servers; ready = true }

abbrev dial_to : FastOpen → Dial
dial_to answer = record {
  socket_made = true;
  fast_open = true;
  sendto_answer = answer;
  connect_answer = pending;
  established = record { socket_error = none; answer = later };
}

-- The first server refuses the connection; the second takes the whole header by fast open.
abbrev first_try : Try ℕ
first_try = record { now = servers; header = some 100; dial = dial_to (rejected true) }

abbrev second_try : Try ℕ
second_try = record { now = servers; header = some 120; dial = dial_to (opened_with 120) }

abbrev attempt : Attempt ℕ
attempt = record { client_gone = false; view = servers; ready = true; try = second_try }

abbrev attempts : List (Attempt ℕ)
attempts = attempt ∷ attempt ∷ []

abbrev expected : Session
expected = take_server 0 zeroed_session

abbrev failed_over : Result
failed_over =
    on_initial_payload_read (got (1 ∷ 2 ∷ 3 ∷ []) ∷ nothing ∷ []) first_try attempts expected

abbrev timed_out : Result
timed_out = on_timeout attempts (state_of failed_over)

program : Unit {0}
unfolding tcp_plain_connect fast_connect tcp_connect connect_of connect_server health_rank rank_at
    score_at tried better consider candidate_from candidate next_best_tcp attempt_epoch is_empty
    is_queued may_replay note_queued attach_server send_request_header on_server_connected
    build_request_header connect_with connect_built report_failure take_server choose try_connect
    retry after_try start on_timeout on_server_event read_initial_payload
    start_after_initial_payload after_read on_initial_payload_read create_next session_create occurs
program = tt

expected_run : Runs ℕ 2 (expecting expected)
unfolding program
expected_run = creation true at_hand [] (omega arith) tt refl

failed_over_run : Runs ℕ 2 failed_over
failed_over_run =
    payload (got (1 ∷ 2 ∷ 3 ∷ []) ∷ nothing ∷ []) first_try attempts expected_run
      ((refl, (refl, tt)), omega arith)

has_payload : is_empty (state_of failed_over).initial_payload ≡ false
unfolding program
has_payload = refl

-- The session that failed over has sent its request to the second server, and waits.
failed_over-state :
    (failed_over ≡ waiting (state_of failed_over))
    × ((state_of failed_over).queued ≡ 1 ∷ [])
    × ((state_of failed_over).failures ≡ 0 ∷ [])
unfolding program
failed_over-state = (refl, refl, refl)

-- A timeout does not send the request to a third server, nor to the first one again.
timed_out-state : timed_out ≡ ended true (report_failure true (state_of failed_over))
unfolding program
timed_out-state = refl

Runs-replay_example :
    ((state_of failed_over).queued ≡ [])
    ⊎ (((state_of failed_over).queued ≡ (state_of failed_over).server_idx ∷ [])
        × (is_queued (state_of failed_over) ≡ true))
Runs-replay_example = Runs-replay 2 (omega arith) failed_over failed_over_run has_payload

Runs-Distinct_example :
    Distinct (state_of failed_over).chosen
    × Marked 2 (state_of failed_over).tried_servers_mask (state_of failed_over).chosen
Runs-Distinct_example = Runs-Distinct 2 (omega arith) failed_over failed_over_run

Runs-finishes_example : failed_over ≢ unfinished expected
Runs-finishes_example = Runs-finishes 2 (omega arith) failed_over expected failed_over_run
