-- ===== src/Tcp/Relay/Integrity.antt =====
-- src/tcp_proxy.c: what a relay guarantees over its whole life.
use mathlib.Core.List.{append-nil}
use tproxy2ss.Base.{
  ℕ, zero, suc, ◌+◌, ◌≤◌, ◌<◌, ◌≡◌, refl, sym, ap, ◌∙◌, arith, Bool, true, false, ◌&&◌, ◌||◌, not,
  [], ◌∷◌, ◌++◌, length, drop, ltb, ◌==◌, if◌then◌else◌, ==_iff, ltb→lt, lt→ltb,
}
use mathlib.Core.Path.{subst}
use mathlib.Core.Bool.{true≢false}
use tproxy2ss.Base.Bytes.{Bytes}
use tproxy2ss.Tcp.Client.{cipher_bufsiz, resp_in_bufsiz, Ss2022}
use tproxy2ss.Tcp.Relay.Defs.{Relay, Outcome, live, closed, is_empty}
use tproxy2ss.Tcp.Relay.Event.{compact, room_of, is_done}
use tproxy2ss.Tcp.Relay.Sound.{chunk_length, Trace, phase_of, Streams}
use tproxy2ss.Tcp.Relay.Rounds.{pending_none}
use tproxy2ss.Tcp.Relay.Reads.{is_empty-nil, nil-is_empty}
use tproxy2ss.Tcp.Relay.Inputs.{compact-room}
use tproxy2ss.Tcp.Relay.Run.{state_of}
use tproxy2ss.Tcp.Relay.Reached.{Runs, Runs-Rests, Runs-IsSound}

all_four :
    (a b c d e : Bool)
    → ((a && b) && (c && (d && e))) ≡ true
    → (b ≡ true) × (c ≡ true) × (d ≡ true) × (e ≡ true)
all_four true true true true true h = (refl, refl, refl, refl)
all_four true true true true false h = absurd (true≢false (sym h))
all_four true true true false e h = absurd (true≢false (sym h))
all_four true true false d e h = absurd (true≢false (sym h))
all_four true false c d e h = absurd (true≢false (sym h))
all_four false b c d e h = absurd (true≢false (sym h))

-- The tests of the watchers, where something is left to do
some_event :
    (client_eof unsent_none quiet server_eof input_none room out : Bool)
    → (quiet ≡ false → out ≡ true)
    → (quiet ≡ true → room ≡ true)
    → (server_eof ≡ true → input_none ≡ true)
    → ((client_eof && server_eof) && (unsent_none && (quiet && input_none))) ≡ false
    → ((not client_eof && unsent_none)
        || (out || ((not server_eof && (quiet && room)) || not unsent_none)))
      ≡ true
some_event false true q s i room out a b c d = refl
some_event false false false s i room out a b c d = rw (a refl) refl
some_event false false true true i room true a b c d = refl
some_event false false true true i room false a b c d = refl
some_event false false true false i room true a b c d = refl
some_event false false true false i room false a b c d = rw (b refl) refl
some_event true true false s i room out a b c d = rw (a refl) refl
some_event true true true true i room out a b c d = absurd (true≢false (sym (c refl) ∙ d))
some_event true true true false i room true a b c d = refl
some_event true true true false i room false a b c d = rw (b refl) refl
some_event true false false s i room out a b c d = rw (a refl) refl
some_event true false true true i room true a b c d = refl
some_event true false true true i room false a b c d = refl
some_event true false true false i room true a b c d = refl
some_event true false true false i room false a b c d = rw (b refl) refl

drop_of_nil : (n : ℕ) (l : Bytes) → l ≡ [] → drop n l ≡ []
drop_of_nil zero l e = e
drop_of_nil (suc n) [] e = refl
drop_of_nil (suc n) (x ∷ l) e = absurd (omega (arith, ap length e))

last_of : (a b c : Bool) → (not a && (b && c)) ≡ true → c ≡ true
last_of false true c e = e
last_of false false c e = absurd (true≢false (sym e))
last_of true b c e = absurd (true≢false (sym e))

quiet_room :
    {C : Type 0} (r : Relay C)
    → (not r.server_eof && (r.out_len == 0 && ltb (length r.input) resp_in_bufsiz)) ≡ true
    → length r.input < resp_in_bufsiz
quiet_room r e = ltb→lt (length r.input) resp_in_bufsiz (last_of r.server_eof (r.out_len == 0) _ e)

module _ {C : Type 0} (api : Ss2022 C) (start : C) where
  -- At every moment of a relay whose response header fits the input buffer, and after its end,
  -- nothing is lost, added or reordered in either direction: what was sent to the client, with
  -- the output that is pending, is what the chunks from the server give when they are opened
  -- one after the other; what was sent to the server, with the bytes that are pending, is what
  -- the client's bytes give when they are sealed; and the bytes from the server are those that
  -- were opened and those that stand in the input.
  pub Runs-Streams :
      (o : Outcome C)
      → Runs api start o
      → Streams api (api.response_header_size start) start (state_of o)
  Runs-Streams o run = (Runs-IsSound api start o run).1.streams

  done-parts :
      (r : Relay C)
      → is_done r ≡ true
      → (r.server_eof ≡ true) × (r.client_to_server ≡ []) × (r.out_len ≡ 0) × (r.input ≡ [])
  unfolding is_done
  done-parts r e =
      let (s, a, q, i) =
        all_four r.client_eof r.server_eof (is_empty r.client_to_server) (r.out_len == 0)
          (is_empty r.input) e in
      (s, is_empty-nil r.client_to_server a, (==_iff r.out_len 0).0 q, is_empty-nil r.input i)

  -- A relay whose response header fits the input buffer and that closes its session without a
  -- reset has delivered all: the whole stream from the server was opened, up to a chunk's end,
  -- and sent to the client, and the whole stream from the client was sealed and sent to the
  -- server.
  pub Runs-complete :
      (r : Relay C)
      → Runs api start (closed false r)
      → Trace api
          (api.response_header_size start)
          start
          r.ss_client
          chunk_length
          r.wire.from_server
          r.wire.to_client
          r.wire.from_client
          r.wire.to_server
  Runs-complete r run =
      let h = api.response_header_size start in
      let (eof, v, done) = Runs-Rests api start run in
      let (s, none_sealed, none_out, none_in) = done-parts r done in
      let (opened, t, e) = v.streams in
      let whole : r.wire.from_server ≡ opened =
        e ∙ ap (λ x. opened ++ x) (drop_of_nil r.in_consume r.input none_in) ∙ append-nil opened in
      subst
        (λ x.
          Trace api h start r.ss_client chunk_length x r.wire.to_client r.wire.from_client
            r.wire.to_server)
        (sym whole)
        (subst
          (λ x.
            Trace api h start r.ss_client x opened r.wire.to_client r.wire.from_client
              r.wire.to_server)
          (v.at_eof (sym v.eof_is ∙ s)).1
          (subst
            (λ x.
              Trace api h start r.ss_client (phase_of r) opened r.wire.to_client r.wire.from_client
                x)
            (ap (λ x. r.wire.to_server ++ x) none_sealed ∙ append-nil r.wire.to_server)
            (subst
              (λ x.
                Trace api h start r.ss_client (phase_of r) opened x r.wire.from_client
                  (r.wire.to_server ++ r.client_to_server))
              (ap (λ x. r.wire.to_client ++ x) (pending_none r none_out)
                ∙ append-nil r.wire.to_client)
              t)))

  -- A relay whose response header fits the input buffer is never stuck while it is open:
  -- between two events it waits for at least one kind of event.
  pub Runs-waits :
      (r : Relay C)
      → Runs api start (live r)
      → (r.client_read || (r.client_write || (r.server_read || r.server_write))) ≡ true
  unfolding is_done
  Runs-waits r run =
      let (eof, v, room, w) = Runs-Rests api start run in
      subst (λ b. (b || (r.client_write || (r.server_read || r.server_write))) ≡ true)
        (sym w.client_reads)
        (subst
          (λ b.
            ((not r.client_eof && is_empty r.client_to_server)
              || (b || (r.server_read || r.server_write)))
            ≡ true)
          (sym w.client_writes)
          (subst
            (λ b.
              ((not r.client_eof && is_empty r.client_to_server)
                || (ltb 0 r.out_len || (b || r.server_write)))
              ≡ true)
            (sym w.server_reads)
            (subst
              (λ b.
                ((not r.client_eof && is_empty r.client_to_server)
                  || (ltb 0 r.out_len
                      || ((not r.server_eof
                            && (r.out_len == 0 && ltb (length r.input) resp_in_bufsiz))
                          || b)))
                ≡ true)
              (sym w.server_writes)
              (some_event r.client_eof (is_empty r.client_to_server) (r.out_len == 0) r.server_eof
                (is_empty r.input) (ltb (length r.input) resp_in_bufsiz) (ltb 0 r.out_len)
                (λ e. ground (arith, e))
                (λ e. lt→ltb (length r.input) resp_in_bufsiz (room ((==_iff r.out_len 0).0 e)))
                (λ e. nil-is_empty r.input (v.at_eof (sym v.eof_is ∙ e)).0) w.unfinished))))

  -- At every moment of a relay whose response header fits the input buffer, the input stays
  -- within its buffer, the output to the client within the input, and the sealed bytes within
  -- theirs.
  pub Runs-within :
      (o : Outcome C)
      → Runs api start o
      → ((state_of o).head + length (state_of o).input ≤ resp_in_bufsiz)
        × ((state_of o).out_off + (state_of o).out_len ≤ length (state_of o).input)
        × ((state_of o).client_to_server_off + length (state_of o).client_to_server ≤ cipher_bufsiz)
  Runs-within o run =
      let v = (Runs-IsSound api start o run).1 in
      (v.fits, omega (arith, v.out_in, v.consume_in), v.output_fits)

  -- In a relay whose response header fits the input buffer, when the server's watcher waits for
  -- input, the `recv` of the next event has room for at least one byte, so that its answer 0
  -- means the end of the stream and not a full buffer.
  pub Runs-room :
      (r : Relay C) → Runs api start (live r) → r.server_read ≡ true → 0 < room_of (compact r)
  Runs-room r run reads =
      let (eof, v, room, w) = Runs-Rests api start run in
      compact-room r v.fits (quiet_room r (sym w.server_reads ∙ reads))

  -- In a relay whose response header fits the input buffer, the success of the connection is
  -- reported to the server selector exactly once when the response header has been opened, and
  -- not before.
  pub Runs-reports :
      (o : Outcome C)
      → Runs api start o
      → (state_of o).reports ≡ (if (state_of o).response_header_done then 1 else 0)
  Runs-reports o run = (Runs-IsSound api start o run).1.reported
