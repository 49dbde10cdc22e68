-- ===== src/Tcp/Relay/Inputs.antt =====
-- src/tcp_proxy.c: the reads of the relay from the server, against the invariant.
use mathlib.Core.List.{append-nil}
use tproxy2ss.Base.{
  ℕ, ◌+◌, ◌-◌, ◌≤◌, ◌<◌, ◌≡◌, ◌⊎◌, inl, inr, refl, sym, ap, ◌∙◌, arith, Bool, true, false, ◌&&◌,
  ◌++◌, append_assoc, length, take, ◌==◌, Bool-cases, length-append, length-take, ==_iff,
}
use mathlib.Core.Path.{subst}
use mathlib.Core.Bool.{true≢false}
use tproxy2ss.Base.Bytes.{Bytes}
use tproxy2ss.Tcp.Client.{resp_in_bufsiz, Ss2022}
use tproxy2ss.Tcp.Relay.Defs.{
  Relay, Received, nothing, error, end_of_stream, got, live, closed, is_empty, process_server_data,
}
use tproxy2ss.Tcp.Relay.Event.{
  pending_out, compact, eof_is_clean, handle_server_eof, room_of, read_input, read_from_server,
}
use tproxy2ss.Tcp.Relay.Sound.{IsSound, HasRoom}
use tproxy2ss.Tcp.Relay.Rounds.{quiet-Streams, split_front}
use tproxy2ss.Tcp.Relay.Loop.{process_server_data-Settles}
use tproxy2ss.Tcp.Relay.Reads.{is_empty-nil, Ends, Settles-Ends}

all_three : (a b c : Bool) → (a && b && c) ≡ true → (a ≡ true) × (b ≡ true) × (c ≡ true)
all_three true true true e = (refl, refl, refl)
all_three true true false e = absurd (true≢false (sym e))
all_three true false c e = absurd (true≢false (sym e))
all_three false b c e = absurd (true≢false (sym e))

compact_at_front : {C : Type 0} (r : Relay C) → (r.head == 0) ≡ true → compact r ≡ r
unfolding compact
compact_at_front r e = simp e refl

compact_moves :
    {C : Type 0} (r : Relay C)
    → (r.head == 0) ≡ false
    → (resp_in_bufsiz - r.head - length r.input == 0) ≡ true
    → compact r ≡ record r { head = 0 }
unfolding compact
compact_moves r e f = simp (e, f) refl

compact_fits :
    {C : Type 0} (r : Relay C)
    → (r.head == 0) ≡ false
    → (resp_in_bufsiz - r.head - length r.input == 0) ≡ false
    → compact r ≡ r
unfolding compact
compact_fits r e f = simp (e, f) refl

-- The compaction moves the input to the front of the buffer, or does nothing.
compact-cases : {C : Type 0} (r : Relay C) → (compact r ≡ r) ⊎ (compact r ≡ record r { head = 0 })
compact-cases r = elim (Bool-cases (r.head == 0)) [
  | inl e ↦ inl (compact_at_front r e)
  | inr e ↦ elim (Bool-cases (resp_in_bufsiz - r.head - length r.input == 0)) [
    | inl f ↦ inr (compact_moves r e f)
    | inr f ↦ inl (compact_fits r e f)
  ]
]

module _ {C : Type 0} (api : Ss2022 C) (h : ℕ) (start : C) where
  head-IsSound :
      (r : Relay C)
      → IsSound api h start false r
      → IsSound api h start false (record r { head = 0 })
  unfolding pending_out
  head-IsSound r v = record {
    streams = v.streams;
    eof_is = v.eof_is;
    at_eof = v.at_eof;
    header_len = v.header_len;
    header_fits = v.header_fits;
    header_pos = v.header_pos;
    payload_len = v.payload_len;
    out_in = v.out_in;
    consume_in = v.consume_in;
    idle = v.idle;
    fits = omega (arith, v.fits);
    output_fits = v.output_fits;
    reported = v.reported;
  }

  server_eof-IsSound :
      (r : Relay C)
      → IsSound api h start false r
      → eof_is_clean r ≡ true
      → IsSound api h start true (record r { server_eof = true })
  unfolding eof_is_clean pending_out
  server_eof-IsSound r v e =
      let (none_left, done, due) =
        all_three (is_empty r.input) r.response_header_done r.need_len e in
      record {
        streams = v.streams;
        eof_is = refl;
        at_eof = λ x. (is_empty-nil r.input none_left, simp (done, due) refl);
        header_len = v.header_len;
        header_fits = v.header_fits;
        header_pos = v.header_pos;
        payload_len = v.payload_len;
        out_in = v.out_in;
        consume_in = v.consume_in;
        idle = v.idle;
        fits = v.fits;
        output_fits = v.output_fits;
        reported = v.reported;
      }

  clean-eof :
      (r : Relay C)
      → eof_is_clean r ≡ true
      → handle_server_eof r ≡ live (record r { server_eof = true })
  unfolding handle_server_eof
  clean-eof r e = simp e refl

  unclean-eof : (r : Relay C) → eof_is_clean r ≡ false → handle_server_eof r ≡ closed true r
  unfolding handle_server_eof
  unclean-eof r e = simp e refl

  handle_server_eof-Ends :
      (r : Relay C)
      → IsSound api h start false r
      → HasRoom r
      → Ends api h start (handle_server_eof r)
  handle_server_eof-Ends r v room = elim (Bool-cases (eof_is_clean r)) [
    | inl e ↦ subst (Ends api h start) (sym (clean-eof r e)) (true, server_eof-IsSound r v e, room)
    | inr e ↦ subst (Ends api h start) (sym (unclean-eof r e)) (false, v)
  ]

  with_input : Relay C → Bytes → Relay C
  with_input r taken = record r {
    input = r.input ++ taken;
    wire = record r.wire { from_server = r.wire.from_server ++ taken };
  }

  with_input-IsSound :
      (r : Relay C) (bs : Bytes)
      → IsSound api h start false r
      → r.out_len ≡ 0
      → IsSound api h start false (with_input r (take (room_of r) bs))
  unfolding with_input room_of
  with_input-IsSound r bs v quiet =
      let taken = take (resp_in_bufsiz - r.head - length r.input) bs in
      let held = v.idle quiet in
      let (s, t, w) = split_front api h start r v quiet 0 in
      let size = length-append r.input taken in
      record {
        streams = quiet-Streams api h start _ s quiet held t (
            ap (λ x. x ++ taken) (w ∙ ap (λ x. x ++ r.input) (append-nil s))
            ∙ append_assoc s r.input taken);
        eof_is = v.eof_is;
        at_eof = λ x. absurd (true≢false (sym x));
        header_len = v.header_len;
        header_fits = v.header_fits;
        header_pos = v.header_pos;
        payload_len = v.payload_len;
        out_in = v.out_in;
        consume_in = omega (arith, held);
        idle = v.idle;
        fits =
            omega (arith, size, length-take (resp_in_bufsiz - r.head - length r.input) bs, v.fits);
        output_fits = v.output_fits;
        reported = v.reported;
      }

  input-end :
      (bs : Bytes) (r : Relay C)
      → is_empty (take (room_of r) bs) ≡ true
      → read_input api (got bs) r ≡ handle_server_eof r
  unfolding read_input
  input-end bs r e = simp e refl

  input-more :
      (bs : Bytes) (r : Relay C)
      → is_empty (take (room_of r) bs) ≡ false
      → read_input api (got bs) r ≡ process_server_data api (with_input r (take (room_of r) bs))
  unfolding read_input with_input
  input-more bs r e = simp e refl

  input-nothing : (r : Relay C) → read_input api nothing r ≡ live r
  unfolding read_input
  input-nothing r = refl

  input-error : (r : Relay C) → read_input api error r ≡ closed true r
  unfolding read_input
  input-error r = refl

  input-end_of_stream : (r : Relay C) → read_input api end_of_stream r ≡ handle_server_eof r
  unfolding read_input
  input-end_of_stream r = refl

  read_input-Ends :
      (answer : Received) (r : Relay C)
      → IsSound api h start false r
      → HasRoom r
      → r.out_len ≡ 0
      → Ends api h start (read_input api answer r)
  read_input-Ends nothing r v room quiet =
      subst (Ends api h start) (sym (input-nothing r)) (false, v, room)
  read_input-Ends error r v room quiet = subst (Ends api h start) (sym (input-error r)) (false, v)
  read_input-Ends end_of_stream r v room quiet =
      subst (Ends api h start) (sym (input-end_of_stream r)) (handle_server_eof-Ends r v room)
  read_input-Ends (got bs) r v room quiet = elim (Bool-cases (is_empty (take (room_of r) bs))) [
    | inl e ↦ subst (Ends api h start) (sym (input-end bs r e)) (handle_server_eof-Ends r v room)
    | inr e ↦ subst (Ends api h start) (sym (input-more bs r e)) (
        Settles-Ends api h start false _
          (process_server_data-Settles api h start _ (with_input-IsSound r bs v quiet)))
  ]

  pub read_from_server-Ends :
      (answer : Received) (r : Relay C)
      → IsSound api h start false r
      → HasRoom r
      → r.out_len ≡ 0
      → Ends api h start (read_from_server api answer r)
  unfolding read_from_server
  read_from_server-Ends answer r v room quiet = elim (compact-cases r) [
    | inl e ↦
        subst (λ q. Ends api h start (read_input api answer q)) (sym e)
          (read_input-Ends answer r v room quiet)
    | inr e ↦
        subst (λ q. Ends api h start (read_input api answer q)) (sym e)
          (read_input-Ends answer (record r { head = 0 }) (head-IsSound r v) room quiet)
  ]

-- When the input does not fill the buffer and stands inside it, the compaction leaves room behind
-- the input: the `recv` that follows asks for at least one byte.
pub compact-room :
    {C : Type 0} (r : Relay C)
    → r.head + length r.input ≤ resp_in_bufsiz
    → length r.input < resp_in_bufsiz
    → 0 < room_of (compact r)
unfolding room_of
compact-room r fits room = elim (Bool-cases (r.head == 0)) [
  | inl e ↦
      subst (λ (q : Relay _). 0 < resp_in_bufsiz - q.head - length q.input)
        (sym (compact_at_front r e)) (omega (arith, (==_iff r.head 0).0 e, room))
  | inr e ↦ elim (Bool-cases (resp_in_bufsiz - r.head - length r.input == 0)) [
    | inl f ↦
        subst (λ (q : Relay _). 0 < resp_in_bufsiz - q.head - length q.input)
          (sym (compact_moves r e f)) (omega (arith, room))
    | inr f ↦
        subst (λ (q : Relay _). 0 < resp_in_bufsiz - q.head - length q.input)
          (sym (compact_fits r e f)) (ground (arith, f))
  ]
]
