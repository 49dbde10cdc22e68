-- ===== src/Tcp/Relay/Tests.antt =====
-- The theorems on the relay of src/tcp_proxy.c at a session with a client that opens plain bytes.
use tproxy2ss.Base.{
  ℕ, suc, ◌+◌, ◌^◌, ◌≤◌, ◌<◌, ◌≡◌, refl, sym, ap, ◌∙◌, arith, Bool, true, false, ◌||◌, Option, none,
  some, inl, inr, [], ◌∷◌, ◌++◌, length, drop, replicate, leb, if◌then◌else◌, Bool-cases, leb→le,
  length-drop,
}
use mathlib.Core.Path.{subst}
use mathlib.Core.Bool.{true≢false}
use mathlib.Core.Option.{some_inj, none-ne-some}
use tproxy2ss.Base.Bytes.{Bytes}
use tproxy2ss.Tcp.Client.{tag_len, cipher_bufsiz, resp_in_bufsiz, Ss2022}
use tproxy2ss.Tcp.Relay.Defs.{
  Relay, wrote, nothing, end_of_stream, got, Outcome, live, closed, is_empty, drain, consume,
  length_opened, opened, payload_part, length_part, header_opened, round, process,
  process_server_data,
}
use tproxy2ss.Tcp.Relay.Event.{
  and_then, pending_out, release, write_to_client, write_to_server, compact, eof_is_clean,
  handle_server_eof, room_of, process_pending, read_from_client, read_input, read_from_server,
  handle_write, handle_read, shut_down, is_done, set_events, update_watchers, on_event, zeroed,
  enter_relay,
}
use tproxy2ss.Tcp.Relay.Sound.{chunk_length, Trace, begins, Streams, IsSound}
use tproxy2ss.Tcp.Relay.Run.{state_of}
use tproxy2ss.Tcp.Relay.Loop.{process-enough}
use tproxy2ss.Tcp.Relay.Reached.{Runs, enter, event}
use tproxy2ss.Tcp.Relay.Integrity.{
  Runs-Streams, Runs-complete, Runs-waits, Runs-within, Runs-room, Runs-reports,
}

-- Headers are a byte 7 and announce one byte, chunks end with a tag that is not looked at.
unfoldable plain_header : ℕ → Bytes → Option (ℕ × ℕ)
plain_header c [] = none
plain_header c (b ∷ bs) = some (suc c, 1)

unfoldable plain_open : ℕ → Bytes → Option (ℕ × Bytes)
plain_open c b = if leb 16 (length b) then some (suc c, drop 16 b) else none

unfoldable plain_seal : ℕ → Bytes → Option (ℕ × Bytes)
plain_seal c b = if leb (length b) 16418 then some (suc c, b) else none

plain_header-short : (c : ℕ) (b : Bytes) (c' n : ℕ) → plain_header c b ≡ some (c', n) → n < 2 ^ 16
unfolding plain_header
plain_header-short c [] c' n e = absurd (none-ne-some _ e)
plain_header-short c (b ∷ bs) c' n e = omega (arith, ap (λ (z : ℕ × ℕ). z.1) (some_inj.0 e))

some_when : {A : Type 0} {x : A} {b : Bool} → b ≡ true → (if b then some x else none) ≡ some x
some_when e = rw e refl

none_when : {A : Type 0} (x : A) {b : Bool} → b ≡ false → none ≡ (if b then some x else none)
none_when x e = rw e refl

plain_open-short :
    (c : ℕ) (b : Bytes) (c' : ℕ) (plain : Bytes)
    → plain_open c b ≡ some (c', plain)
    → length plain + tag_len ≤ length b
unfolding plain_open
plain_open-short c b c' plain e = elim (Bool-cases (leb 16 (length b))) [
  | inl l ↦
      let same : plain ≡ drop 16 b =
        ap (λ (z : ℕ × Bytes). z.1) (some_inj.0 (sym e ∙ some_when l)) in
      subst (λ z. length z + tag_len ≤ length b) (sym same)
        (omega (arith, length-drop 16 b, leb→le 16 (length b) l))
  | inr l ↦ absurd (none-ne-some _ (none_when _ l ∙ e))
]

plain_seal-short :
    (c : ℕ) (b : Bytes) (c' : ℕ) (sealed : Bytes)
    → plain_seal c b ≡ some (c', sealed)
    → length sealed ≤ cipher_bufsiz
unfolding plain_seal
plain_seal-short c b c' sealed e = elim (Bool-cases (leb (length b) 16418)) [
  | inl l ↦
      let same : sealed ≡ b = ap (λ (z : ℕ × Bytes). z.1) (some_inj.0 (sym e ∙ some_when l)) in
      subst (λ z. length z ≤ cipher_bufsiz) (sym same) (leb→le (length b) 16418 l)
  | inr l ↦ absurd (none-ne-some _ (none_when _ l ∙ e))
]

abbrev plain_client : Ss2022 ℕ
plain_client = record {
  response_header_size = λ c. 1;
  open_response_header = plain_header;
  open_length = plain_header;
  open_payload = plain_open;
  seal_payload = plain_seal;
  header_length = plain_header-short;
  chunk_length = plain_header-short;
  payload_fits = plain_open-short;
  sealed_fits = plain_seal-short;
}

-- A response header, a chunk of one byte, and the answers of the sockets
abbrev response : Bytes
response = 7 ∷ (replicate 16 0 ++ (42 ∷ []))

abbrev entered : Outcome ℕ
entered = enter_relay plain_client true 0 true

abbrev answered : Outcome ℕ
answered = on_event plain_client false true false [] (got response) (state_of entered)

abbrev delivered : Outcome ℕ
delivered = on_event plain_client true false true (wrote 1 ∷ []) nothing (state_of answered)

abbrev ended : Outcome ℕ
ended = on_event plain_client false true false [] end_of_stream (state_of delivered)

program : Unit {0}
unfolding plain_header plain_open plain_seal is_empty drain consume length_opened opened
    payload_part length_part header_opened round process process_server_data and_then pending_out
    release write_to_client write_to_server compact eof_is_clean handle_server_eof room_of
    process_pending read_from_client read_input read_from_server handle_write handle_read shut_down
    is_done set_events update_watchers on_event zeroed enter_relay
program = tt

entered_run : Runs plain_client 0 (live (state_of entered))
unfolding program
entered_run = enter true (omega arith) (omega arith)

answered_run : Runs plain_client 0 (live (state_of answered))
unfolding program
answered_run = event false true false [] (got response) entered_run (λ z. refl)

delivered_run : Runs plain_client 0 (live (state_of delivered))
unfolding program
delivered_run =
    event true false true (wrote 1 ∷ []) nothing answered_run (λ z. absurd (true≢false (sym z)))

ended_run : Runs plain_client 0 (closed false (state_of ended))
unfolding program
ended_run = event false true false [] end_of_stream delivered_run (λ z. refl)

Runs-Streams_example : Streams plain_client 1 0 (state_of answered)
Runs-Streams_example = Runs-Streams plain_client 0 (live (state_of answered)) answered_run

Runs-complete_example :
    Trace plain_client 1 0
      (state_of ended).ss_client
      chunk_length
      (state_of ended).wire.from_server
      (state_of ended).wire.to_client
      (state_of ended).wire.from_client
      (state_of ended).wire.to_server
Runs-complete_example = Runs-complete plain_client 0 (state_of ended) ended_run

Runs-waits_example :
    ((state_of answered).client_read
      || ((state_of answered).client_write
          || ((state_of answered).server_read || (state_of answered).server_write)))
    ≡ true
Runs-waits_example = Runs-waits plain_client 0 (state_of answered) answered_run

Runs-within_example :
    ((state_of answered).head + length (state_of answered).input ≤ resp_in_bufsiz)
    × ((state_of answered).out_off + (state_of answered).out_len ≤ length (state_of answered).input)
    × ((state_of answered).client_to_server_off + length (state_of answered).client_to_server
        ≤ cipher_bufsiz)
Runs-within_example = Runs-within plain_client 0 (live (state_of answered)) answered_run

server_reads : (state_of delivered).server_read ≡ true
unfolding program
server_reads = refl

Runs-room_example : 0 < room_of (compact (state_of delivered))
Runs-room_example = Runs-room plain_client 0 (state_of delivered) delivered_run server_reads

Runs-reports_example :
    (state_of answered).reports ≡ (if (state_of answered).response_header_done then 1 else 0)
Runs-reports_example = Runs-reports plain_client 0 (live (state_of answered)) answered_run

-- The byte of the payload went to the client.
ended_output : (state_of ended).wire.to_client ≡ 42 ∷ []
unfolding program
ended_output = refl

-- The relay as it was entered, with a whole response in its input
abbrev filled : Relay ℕ
filled = record (zeroed 0 true 1) {
  input = response;
  wire = record { from_client = []; to_server = []; from_server = response; to_client = [] };
}

filled-IsSound : IsSound plain_client 1 0 false filled
unfolding program
filled-IsSound = record {
  streams = ([], begins, refl);
  eof_is = refl;
  at_eof = λ e. absurd (true≢false (sym e));
  header_len = refl;
  header_fits = omega arith;
  header_pos = omega arith;
  payload_len = omega arith;
  out_in = omega arith;
  consume_in = omega arith;
  idle = λ e. refl;
  fits = omega arith;
  output_fits = omega arith;
  reported = refl;
}

process-enough_example : process plain_client 30 filled ≡ process_server_data plain_client filled
process-enough_example = process-enough plain_client 1 0 30 filled (omega arith) filled-IsSound
