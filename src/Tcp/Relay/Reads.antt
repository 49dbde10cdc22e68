-- ===== src/Tcp/Relay/Reads.antt =====
-- src/tcp_proxy.c: the functions of the relay that read, against the invariant.
use mathlib.Core.List.{append-nil}
use tproxy2ss.Base.{
  ℕ, ◌<◌, ◌≡◌, inl, inr, refl, sym, ap, ◌∙◌, arith, Bool, true, false, ◌||◌, not, none, some, [],
  ◌∷◌, ◌++◌, length, take, ◌==◌, Bool-cases, Option-cases,
}
use mathlib.Core.Path.{subst}
use mathlib.Core.Bool.{true≢false}
use tproxy2ss.Base.Bytes.{Bytes}
use tproxy2ss.Tcp.Client.{plain_bufsiz, Ss2022}
use tproxy2ss.Tcp.Relay.Defs.{
  Relay, Received, nothing, error, end_of_stream, got, Outcome, live, closed, is_empty,
  process_server_data,
}
use tproxy2ss.Tcp.Relay.Event.{pending_out, process_pending, read_from_client}
use tproxy2ss.Tcp.Relay.Sound.{Trace, seals, phase_of, IsSound, HasRoom}
use tproxy2ss.Tcp.Relay.Loop.{Settles, process_server_data-Settles}

pub is_empty-nil : (l : Bytes) → is_empty l ≡ true → l ≡ []
unfolding is_empty
is_empty-nil [] e = refl
is_empty-nil (x ∷ l) e = absurd (true≢false (sym e))

pub nil-is_empty : (l : Bytes) → l ≡ [] → is_empty l ≡ true
unfolding is_empty
nil-is_empty [] e = refl
nil-is_empty (x ∷ l) e = absurd (omega (arith, ap length e))

pub not_empty-length : (l : Bytes) → is_empty l ≡ false → 0 < length l
unfolding is_empty
not_empty-length [] e = absurd (true≢false e)
not_empty-length (x ∷ l) e = omega arith

module _ {C : Type 0} (api : Ss2022 C) (h : ℕ) (start : C) where
  -- A function may meet the end of the stream from the server.
  abbrev pub Ends : Outcome C → Type 0
  Ends (live r) = (eof : Bool) × IsSound api h start eof r × HasRoom r
  Ends (closed true r) = (eof : Bool) × IsSound api h start eof r
  Ends (closed false r) = ⊥

  pub Settles-Ends : (eof : Bool) (o : Outcome C) → Settles api h start eof o → Ends o
  Settles-Ends eof (live r) (v, room) = (eof, v, room)
  Settles-Ends eof (closed true r) v = (eof, v)
  Settles-Ends eof (closed false r) v = v

  pending-skip :
      (r : Relay C)
      → (not (r.out_len == 0) || is_empty r.input) ≡ true
      → process_pending api r ≡ live r
  unfolding process_pending
  pending-skip r e = simp e refl

  pending-runs :
      (r : Relay C)
      → (not (r.out_len == 0) || is_empty r.input) ≡ false
      → process_pending api r ≡ process_server_data api r
  unfolding process_pending
  pending-runs r e = simp e refl

  -- Input that is left means that the stream has not ended.
  running :
      (eof : Bool) (r : Relay C)
      → IsSound api h start eof r
      → is_empty r.input ≡ false
      → Settles api h start eof (process_server_data api r)
  running true r v more = absurd (true≢false (sym (nil-is_empty r.input (v.at_eof refl).0) ∙ more))
  running false r v more = process_server_data-Settles api h start r v

  pub process_pending-Settles :
      (eof : Bool) (r : Relay C)
      → IsSound api h start eof r
      → Settles api h start eof (process_pending api r)
  process_pending-Settles eof r v = elim (Bool-cases (r.out_len == 0)) [
    | inr busy ↦
        subst (Settles api h start eof) (sym (pending-skip r (simp busy refl)))
          (v, λ z. absurd (grind (arith, busy, z)))
    | inl quiet ↦ elim (Bool-cases (is_empty r.input)) [
      | inl none_left ↦
          subst (Settles api h start eof) (sym (pending-skip r (simp (quiet, none_left) refl)))
            (v, λ z. omega (arith, ap length (is_empty-nil r.input none_left)))
      | inr more ↦
          subst (Settles api h start eof) (sym (pending-runs r (simp (quiet, more) refl)))
            (running eof r v more)
    ]
  ]

  client_eof-IsSound :
      (eof : Bool) (r : Relay C)
      → IsSound api h start eof r
      → IsSound api h start eof (record r { client_eof = true })
  unfolding pending_out
  client_eof-IsSound eof r v = record {
    streams = v.streams;
    eof_is = v.eof_is;
    at_eof = v.at_eof;
    header_len = v.header_len;
    header_fits = v.header_fits;
    header_pos = v.header_pos;
    payload_len = v.payload_len;
    out_in = v.out_in;
    consume_in = v.consume_in;
    idle = v.idle;
    fits = v.fits;
    output_fits = v.output_fits;
    reported = v.reported;
  }

  sealed_state : Relay C → C → Bytes → Bytes → Relay C
  sealed_state r c plain sealed = record r {
    ss_client = c;
    client_to_server_off = 0;
    client_to_server = sealed;
    wire = record r.wire { from_client = r.wire.from_client ++ plain };
  }

  sealed-IsSound :
      (eof : Bool) (r : Relay C) (c : C) (plain sealed : Bytes)
      → IsSound api h start eof r
      → r.client_to_server ≡ []
      → api.seal_payload r.ss_client plain ≡ some (c, sealed)
      → IsSound api h start eof (sealed_state r c plain sealed)
  unfolding sealed_state pending_out
  sealed-IsSound eof r c plain sealed v none_left e =
      let (s, t, w) = v.streams in
      record {
        streams = (
          s,
          subst
              (λ x.
                Trace api h start c (phase_of r) s (r.wire.to_client ++ pending_out r)
                  (r.wire.from_client ++ plain) x)
              (ap (λ x. (r.wire.to_server ++ x) ++ sealed) none_left
                ∙ ap (λ x. x ++ sealed) (append-nil r.wire.to_server))
              (seals plain sealed t e),
          w,
        );
        eof_is = v.eof_is;
        at_eof = v.at_eof;
        header_len = v.header_len;
        header_fits = v.header_fits;
        header_pos = v.header_pos;
        payload_len = v.payload_len;
        out_in = v.out_in;
        consume_in = v.consume_in;
        idle = v.idle;
        fits = v.fits;
        output_fits = omega (arith, api.sealed_fits r.ss_client plain c sealed e);
        reported = v.reported;
      }

  client-nothing_read :
      (bs : Bytes) (r : Relay C)
      → is_empty (take plain_bufsiz bs) ≡ true
      → read_from_client api (got bs) r ≡ live (record r { client_eof = true })
  unfolding read_from_client
  client-nothing_read bs r e = simp e refl

  client-unsealed :
      (bs : Bytes) (r : Relay C)
      → is_empty (take plain_bufsiz bs) ≡ false
      → api.seal_payload r.ss_client (take plain_bufsiz bs) ≡ none
      → read_from_client api (got bs) r ≡ closed true r
  unfolding read_from_client
  client-unsealed bs r e f = simp (e, f) refl

  client-sealed :
      (bs : Bytes) (r : Relay C) (c : C) (sealed : Bytes)
      → is_empty (take plain_bufsiz bs) ≡ false
      → api.seal_payload r.ss_client (take plain_bufsiz bs) ≡ some (c, sealed)
      → read_from_client api (got bs) r ≡ live (sealed_state r c (take plain_bufsiz bs) sealed)
  unfolding read_from_client sealed_state
  client-sealed bs r c sealed e f = simp (e, f) refl

  sealed_state-HasRoom :
      (r : Relay C) (c : C) (plain sealed : Bytes)
      → HasRoom r
      → HasRoom (sealed_state r c plain sealed)
  unfolding sealed_state
  sealed_state-HasRoom r c plain sealed room = room

  client-nothing : (r : Relay C) → read_from_client api nothing r ≡ live r
  unfolding read_from_client
  client-nothing r = refl

  client-error : (r : Relay C) → read_from_client api error r ≡ closed true r
  unfolding read_from_client
  client-error r = refl

  client-end :
      (r : Relay C) → read_from_client api end_of_stream r ≡ live (record r { client_eof = true })
  unfolding read_from_client
  client-end r = refl

  pub read_from_client-Settles :
      (answer : Received) (eof : Bool) (r : Relay C)
      → IsSound api h start eof r
      → HasRoom r
      → r.client_to_server ≡ []
      → Settles api h start eof (read_from_client api answer r)
  read_from_client-Settles nothing eof r v room none_left =
      subst (Settles api h start eof) (sym (client-nothing r)) (v, room)
  read_from_client-Settles error eof r v room none_left =
      subst (Settles api h start eof) (sym (client-error r)) v
  read_from_client-Settles end_of_stream eof r v room none_left =
      subst (Settles api h start eof) (sym (client-end r)) (client_eof-IsSound eof r v, room)
  read_from_client-Settles (got bs) eof r v room none_left =
      let plain = take plain_bufsiz bs in
      elim (Bool-cases (is_empty plain)) [
        | inl e ↦
            subst (Settles api h start eof) (sym (client-nothing_read bs r e))
              (client_eof-IsSound eof r v, room)
        | inr e ↦ elim (Option-cases (api.seal_payload r.ss_client plain)) [
          | inl f ↦ subst (Settles api h start eof) (sym (client-unsealed bs r e f)) v
          | inr ((c, sealed), f) ↦
              subst (Settles api h start eof) (sym (client-sealed bs r c sealed e f)) (
                sealed-IsSound eof r c plain sealed v none_left f,
                sealed_state-HasRoom r c plain sealed room,
              )
        ]
      ]
