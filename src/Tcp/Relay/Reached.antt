-- ===== src/Tcp/Relay/Reached.antt =====
-- src/tcp_proxy.c: the runs of a relay, which keep the invariant.
use tproxy2ss.Base.{ℕ, ◌≤◌, ◌<◌, ◌≡◌, refl, sym, arith, Bool, true, false, List, [], ◌==◌, le→ltb}
use mathlib.Core.Path.{subst}
use mathlib.Core.Bool.{true≢false}
use tproxy2ss.Tcp.Client.{resp_in_bufsiz, Ss2022}
use tproxy2ss.Tcp.Relay.Defs.{Relay, Sent, Received, Outcome, live, closed}
use tproxy2ss.Tcp.Relay.Event.{update_watchers, on_event, zeroed, enter_relay}
use tproxy2ss.Tcp.Relay.Sound.{begins, IsSound, HasRoom}
use tproxy2ss.Tcp.Relay.Rounds.{quiet-Streams}
use tproxy2ss.Tcp.Relay.Run.{state_of, may_read, Rests, update_watchers-Rests, on_event-Rests}

-- A session from the entry into its relay, with the input buffer at hand and a response header
-- that fits it, through events that its watchers wait for. What `send` and `recv` answer is free.
pub data Runs {C : Type 0} (api : Ss2022 C) (start : C) : Outcome C → Type 0 where
  enter :
      (client_eof : Bool)
      → 0 < api.response_header_size start
      → api.response_header_size start ≤ resp_in_bufsiz
      → Runs api start (enter_relay api true start client_eof)
  event :
      {r : Relay C} (is_client readable writable : Bool) (answers : List Sent) (answer : Received)
      → Runs api start (live r)
      → (readable ≡ true → may_read is_client r ≡ true)
      → Runs api start (on_event api is_client readable writable answers answer r)

module _ {C : Type 0} (api : Ss2022 C) (start : C) where
  zeroed-IsSound :
      (client_eof : Bool) (h : ℕ)
      → 0 < h
      → h ≤ resp_in_bufsiz
      → IsSound api h start false (zeroed start client_eof h)
  unfolding zeroed
  zeroed-IsSound client_eof h pos fits = record {
    streams = quiet-Streams api h start _ [] refl refl begins refl;
    eof_is = refl;
    at_eof = λ x. absurd (true≢false (sym x));
    header_len = refl;
    header_fits = fits;
    header_pos = pos;
    payload_len = omega arith;
    out_in = omega arith;
    consume_in = omega arith;
    idle = λ x. refl;
    fits = omega arith;
    output_fits = omega arith;
    reported = refl;
  }

  entered :
      (client_eof : Bool)
      → 0 < api.response_header_size start
      → api.response_header_size start ≤ resp_in_bufsiz
      → enter_relay api true start client_eof
        ≡ update_watchers (zeroed start client_eof (api.response_header_size start))
  unfolding enter_relay
  entered client_eof pos fits =
      let nonzero : (api.response_header_size start == 0) ≡ false = ground (arith, pos) in
      simp (nonzero, le→ltb resp_in_bufsiz (api.response_header_size start) fits) refl

  zeroed-HasRoom : (client_eof : Bool) (h : ℕ) → HasRoom (zeroed start client_eof h)
  unfolding zeroed
  zeroed-HasRoom client_eof h e = omega arith

  pub Runs-Rests :
      {o : Outcome C} → Runs api start o → Rests api (api.response_header_size start) start o
  Runs-Rests (enter client_eof pos fits) =
      subst (Rests api (api.response_header_size start) start) (sym (entered client_eof pos fits)) (
        update_watchers-Rests api _ start false _ (zeroed-IsSound client_eof _ pos fits)
          (zeroed-HasRoom client_eof _))
  Runs-Rests (event {r} is_client readable writable answers answer run may) =
      let (eof, v, room, w) = Runs-Rests run in
      on_event-Rests api _ start eof is_client readable writable answers answer r v w may

  Rests-IsSound :
      (o : Outcome C)
      → Rests api (api.response_header_size start) start o
      → (eof : Bool) × IsSound api (api.response_header_size start) start eof (state_of o)
  Rests-IsSound (live r) (eof, v, room, w) = (eof, v)
  Rests-IsSound (closed true r) e = e
  Rests-IsSound (closed false r) (eof, v, d) = (eof, v)

  pub Runs-IsSound :
      (o : Outcome C)
      → Runs api start o
      → (eof : Bool) × IsSound api (api.response_header_size start) start eof (state_of o)
  Runs-IsSound o run = Rests-IsSound o (Runs-Rests run)
