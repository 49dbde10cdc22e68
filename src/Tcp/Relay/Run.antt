-- ===== src/Tcp/Relay/Run.antt =====
-- src/tcp_proxy.c: the relay from `tcp_session_enter_relay` on, through any sequence of events.
use tproxy2ss.Base.{
  ℕ, ◌≡◌, inl, inr, refl, sym, ◌∙◌, Bool, true, false, ◌&&◌, not, List, length, ltb, ◌==◌,
  Bool-cases, ==_iff,
}
use mathlib.Core.Path.{subst}
use mathlib.Core.Bool.{true≢false}
use tproxy2ss.Tcp.Client.{resp_in_bufsiz, Ss2022}
use tproxy2ss.Tcp.Relay.Defs.{Relay, Sent, Received, Outcome, live, closed, is_empty}
use tproxy2ss.Tcp.Relay.Event.{
  and_then, pending_out, handle_write, handle_read, shut_down, is_done, set_events, update_watchers,
  on_event,
}
use tproxy2ss.Tcp.Relay.Sound.{IsSound, HasRoom}
use tproxy2ss.Tcp.Relay.Loop.{Settles}
use tproxy2ss.Tcp.Relay.Writes.{Keeps, write_to_client-Keeps, write_to_server-Keeps}
use tproxy2ss.Tcp.Relay.Reads.{
  is_empty-nil, Ends, Settles-Ends, process_pending-Settles, read_from_client-Settles,
}
use tproxy2ss.Tcp.Relay.Inputs.{read_from_server-Ends}

module _ {C : Type 0} where
  -- What the watchers wait for, after an event
  pub record HasEvents (r : Relay C) : Type 0 where
    pub client_reads : r.client_read ≡ not r.client_eof && is_empty r.client_to_server
    pub client_writes : r.client_write ≡ ltb 0 r.out_len
    pub server_reads :
        r.server_read ≡ not r.server_eof && (r.out_len == 0 && ltb (length r.input) resp_in_bufsiz)
    pub server_writes : r.server_write ≡ not (is_empty r.client_to_server)
    pub unfinished : is_done r ≡ false

  -- The state of a session, open or closed
  abbrev pub state_of : Outcome C → Relay C
  state_of (live r) = r
  state_of (closed reset r) = r

  -- The events that one of the watchers waits for: `is_client` tells which
  abbrev pub may_read : Bool → Relay C → Bool
  may_read true r = r.client_read
  may_read false r = r.server_read

not_first : (a b : Bool) → (not a && b) ≡ true → a ≡ false
not_first false b e = refl
not_first true b e = absurd (true≢false (sym e))

module _ {C : Type 0} (api : Ss2022 C) (h : ℕ) (start : C) where
  -- Between two events, or after the session was closed; without a reset, it was done.
  abbrev pub Rests : Outcome C → Type 0
  Rests (live r) = (eof : Bool) × IsSound api h start eof r × HasRoom r × HasEvents r
  Rests (closed true r) = (eof : Bool) × IsSound api h start eof r
  Rests (closed false r) = (eof : Bool) × IsSound api h start eof r × (is_done r ≡ true)

  handle_write-Keeps :
      (is_client writable : Bool) (answers : List Sent) (eof : Bool) (r : Relay C)
      → IsSound api h start eof r
      → Keeps api h start eof (handle_write api is_client writable answers r)
  unfolding handle_write
  handle_write-Keeps is_client false answers eof r v = v
  handle_write-Keeps true true answers eof r v = write_to_client-Keeps api h start eof r v answers
  handle_write-Keeps false true answers eof r v = write_to_server-Keeps api h start eof r v answers

  handle_read-Ends :
      (is_client readable : Bool) (answer : Received) (eof : Bool) (r : Relay C)
      → IsSound api h start eof r
      → HasRoom r
      → (is_client ≡ false → readable ≡ true → eof ≡ false)
      → Ends api h start (handle_read api is_client readable answer r)
  unfolding handle_read
  handle_read-Ends is_client false answer eof r v room before = (eof, v, room)
  handle_read-Ends true true answer eof r v room before =
      elim (Bool-cases (is_empty r.client_to_server)) [
        | inl e ↦ simp e (
            Settles-Ends api h start eof _ (
              read_from_client-Settles api h start answer eof r v room
                (is_empty-nil r.client_to_server e)))
        | inr e ↦ simp e (eof, v, room)
      ]
  handle_read-Ends false true answer eof r v room before = elim (Bool-cases (r.out_len == 0)) [
    | inl e ↦ simp e (
        read_from_server-Ends api h start answer r
          (subst (λ b. IsSound api h start b r) (before refl refl) v) room
          ((==_iff r.out_len 0).0 e))
    | inr e ↦ simp e (eof, v, room)
  ]

  shut_down-IsSound :
      (eof : Bool) (r : Relay C) → IsSound api h start eof r → IsSound api h start eof (shut_down r)
  unfolding shut_down pending_out
  shut_down-IsSound eof r v = record {
    streams = v.streams;
    eof_is = v.eof_is;
    at_eof = v.at_eof;
    header_len = v.header_len;
    header_fits = v.header_fits;
    header_pos = v.header_pos;
    payload_len = v.payload_len;
    out_in = v.out_in;
    consume_in = v.consume_in;
    idle = v.idle;
    fits = v.fits;
    output_fits = v.output_fits;
    reported = v.reported;
  }

  set_events-IsSound :
      (eof : Bool) (r : Relay C)
      → IsSound api h start eof r
      → IsSound api h start eof (set_events r)
  unfolding set_events pending_out
  set_events-IsSound eof r v = record {
    streams = v.streams;
    eof_is = v.eof_is;
    at_eof = v.at_eof;
    header_len = v.header_len;
    header_fits = v.header_fits;
    header_pos = v.header_pos;
    payload_len = v.payload_len;
    out_in = v.out_in;
    consume_in = v.consume_in;
    idle = v.idle;
    fits = v.fits;
    output_fits = v.output_fits;
    reported = v.reported;
  }

  update-done :
      (r : Relay C) → is_done (shut_down r) ≡ true → update_watchers r ≡ closed false (shut_down r)
  unfolding update_watchers
  update-done r e = simp e refl

  update-live :
      (r : Relay C)
      → is_done (shut_down r) ≡ false
      → update_watchers r ≡ live (set_events (shut_down r))
  unfolding update_watchers
  update-live r e = simp e refl

  set_events-HasEvents : (r : Relay C) → is_done r ≡ false → HasEvents (set_events r)
  unfolding set_events is_done
  set_events-HasEvents r e = record {
    client_reads = refl;
    client_writes = refl;
    server_reads = refl;
    server_writes = refl;
    unfinished = e;
  }

  still_room : (r : Relay C) → HasRoom r → HasRoom (set_events (shut_down r))
  unfolding set_events shut_down
  still_room r room = room

  pub update_watchers-Rests :
      (eof : Bool) (r : Relay C) → IsSound api h start eof r → HasRoom r → Rests (update_watchers r)
  update_watchers-Rests eof r v room =
      let v' = shut_down-IsSound eof r v in
      elim (Bool-cases (is_done (shut_down r))) [
        | inl e ↦ subst Rests (sym (update-done r e)) (eof, v', e)
        | inr e ↦ subst Rests (sym (update-live r e)) (
          eof,
          set_events-IsSound eof (shut_down r) v',
          still_room r room,
          set_events-HasEvents (shut_down r) e,
        )
      ]

  after_write-Rests :
      (eof : Bool) (o : Outcome C) (f : Relay C → Outcome C)
      → Keeps api h start eof o
      → ((r : Relay C) → IsSound api h start eof r → Rests (f r))
      → Rests (and_then o f)
  unfolding and_then
  after_write-Rests eof (live r) f k next = next r k
  after_write-Rests eof (closed true r) f k next = (eof, k)
  after_write-Rests eof (closed false r) f k next = absurd k

  after_processing-Rests :
      (eof : Bool) (o : Outcome C) (f : Relay C → Outcome C)
      → Settles api h start eof o
      → ((r : Relay C) → IsSound api h start eof r → HasRoom r → Rests (f r))
      → Rests (and_then o f)
  unfolding and_then
  after_processing-Rests eof (live r) f k next = next r k.0 k.1
  after_processing-Rests eof (closed true r) f k next = (eof, k)
  after_processing-Rests eof (closed false r) f k next = absurd k

  after_read-Rests : (o : Outcome C) → Ends api h start o → Rests (and_then o update_watchers)
  unfolding and_then
  after_read-Rests (live r) (eof, v, room) = update_watchers-Rests eof r v room
  after_read-Rests (closed true r) e = e
  after_read-Rests (closed false r) e = absurd e

  -- The server's watcher waits for input only before the end of the stream.
  before_eof :
      (eof is_client readable : Bool) (r : Relay C)
      → IsSound api h start eof r
      → HasEvents r
      → (readable ≡ true → may_read is_client r ≡ true)
      → is_client ≡ false
      → readable ≡ true
      → eof ≡ false
  before_eof eof true readable r v w may e ready = absurd (true≢false e)
  before_eof eof false readable r v w may e ready =
      sym v.eof_is ∙ not_first r.server_eof _ (sym w.server_reads ∙ may ready)

  pub on_event-Rests :
      (eof is_client readable writable : Bool) (answers : List Sent) (answer : Received)
      (r : Relay C)
      → IsSound api h start eof r
      → HasEvents r
      → (readable ≡ true → may_read is_client r ≡ true)
      → Rests (on_event api is_client readable writable answers answer r)
  unfolding on_event
  on_event-Rests eof is_client readable writable answers answer r v w may =
      let before = before_eof eof is_client readable r v w may in
      after_write-Rests eof _ _ (handle_write-Keeps is_client writable answers eof r v) (λ r1 v1.
        after_processing-Rests eof _ _ (process_pending-Settles api h start eof r1 v1)
          (λ r2 v2 room2.
            after_read-Rests _ (handle_read-Ends is_client readable answer eof r2 v2 room2 before)))
