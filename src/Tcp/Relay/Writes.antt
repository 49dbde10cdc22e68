-- ===== src/Tcp/Relay/Writes.antt =====
-- src/tcp_proxy.c: the two functions that write, against the invariant.
use mathlib.Core.List.{append-nil}
use tproxy2ss.Base.{
  ℕ, zero, suc, ◌<◌, ◌≡◌, inl, inr, refl, sym, ap, ◌∙◌, arith, Bool, true, false, ◌&&◌, List, [],
  ◌∷◌, ◌++◌, append_assoc, length, take, drop, ltb, ◌==◌, Bool-cases, length-drop, length-take,
  take-drop, take_append, ltb→lt, ltb→le,
}
use mathlib.Core.Path.{subst}
use tproxy2ss.Base.Bytes.{Bytes}
use tproxy2ss.Tcp.Client.{Ss2022}
use tproxy2ss.Tcp.Relay.Defs.{Relay, Sent, Outcome, live, closed, consume, Drained, drain}
use tproxy2ss.Tcp.Relay.Event.{pending_out, release, write_to_client, write_to_server}
use tproxy2ss.Tcp.Relay.Sound.{Trace, phase_of, IsSound, consume_lem}
use tproxy2ss.Tcp.Relay.Rounds.{quiet-Streams}
use tproxy2ss.Tcp.Relay.Drains.{IsDrained, drain-IsDrained}

length_zero : (l : Bytes) → length l ≡ 0 → l ≡ []
length_zero [] h = refl
length_zero (x ∷ l) h = absurd (omega arith)

-- Bytes stand at any offset of some buffer.
padded : (n : ℕ) (xs : Bytes) → (buffer : Bytes) × (drop n buffer ≡ xs ++ [])
padded zero xs = (xs, sym (append-nil xs))
padded (suc n) xs = let (buffer, e) = padded n xs in (0 ∷ buffer, e)

release_same :
    {C : Type 0} (q : Relay C) → ((q.out_len == 0) && ltb 0 q.in_consume) ≡ false → release q ≡ q
unfolding release
release_same q e = simp e refl

release_now :
    {C : Type 0} (q : Relay C)
    → ((q.out_len == 0) && ltb 0 q.in_consume) ≡ true
    → release q ≡ record (consume q.in_consume q) { in_consume = 0 }
unfolding release
release_now q e = simp e refl

unfoldable after_write : {C : Type 0} → Relay C → Drained → Relay C
after_write r d = record r {
  out_off = d.off;
  out_len = length d.left;
  wire = record r.wire { to_client = r.wire.to_client ++ d.sent };
}

write_to_client-alive :
    {C : Type 0} (answers : List Sent) (r : Relay C)
    → (drain answers r.out_off (pending_out r)).alive ≡ true
    → write_to_client answers r
      ≡ live (release (after_write r (drain answers r.out_off (pending_out r))))
unfolding write_to_client after_write
write_to_client-alive answers r e = simp e refl

write_to_client-dead :
    {C : Type 0} (answers : List Sent) (r : Relay C)
    → (drain answers r.out_off (pending_out r)).alive ≡ false
    → write_to_client answers r
      ≡ closed true (after_write r (drain answers r.out_off (pending_out r)))
unfolding write_to_client after_write
write_to_client-dead answers r e = simp e refl

module _ {C : Type 0} (api : Ss2022 C) (h : ℕ) (start : C) where
  -- A function that writes keeps the invariant; where it closes the session, it is by a reset.
  abbrev pub Keeps : Bool → Outcome C → Type 0
  Keeps eof (live r) = IsSound api h start eof r
  Keeps eof (closed true r) = IsSound api h start eof r
  Keeps eof (closed false r) = ⊥

  module _ (eof : Bool) (r : Relay C) (v : IsSound api h start eof r) where
    pending_length : length (pending_out r) ≡ r.out_len
    unfolding pending_out
    pending_length = omega (
      arith,
      length-take r.out_len (drop r.out_off r.input),
      length-drop r.out_off r.input,
      v.out_in,
      v.consume_in,
    )

    pending_stands : (rest : Bytes) × (drop r.out_off r.input ≡ pending_out r ++ rest)
    unfolding pending_out
    pending_stands = (
      drop r.out_len (drop r.out_off r.input),
      sym (take-drop r.out_len (drop r.out_off r.input)),
    )

    pending_left :
        (d : Drained)
        → IsDrained r.input r.out_off (pending_out r) d
        → pending_out (after_write r d) ≡ d.left
    unfolding pending_out after_write
    pending_left d w = elim (Bool-cases (ltb 0 (length d.left))) [
      | inl some_left ↦
          let (rest, e) = w.stands (ltb→lt 0 (length d.left) some_left) in
          ap (take (length d.left)) e ∙ take_append d.left rest
      | inr none_left ↦
          let z : length d.left ≡ 0 = omega (arith, ltb→le 0 (length d.left) none_left) in
          ap (λ n. take n (drop d.off r.input)) z ∙ sym (length_zero d.left z)
    ]

    -- The output as two parts: what was sent and what is left
    sent-Trace :
        (d : Drained)
        → IsDrained r.input r.out_off (pending_out r) d
        → (opened : Bytes) × Trace api h start r.ss_client
            (phase_of r)
            opened
            ((r.wire.to_client ++ d.sent) ++ d.left)
            r.wire.from_client
            (r.wire.to_server ++ r.client_to_server)
          × (r.wire.from_server ≡ opened ++ drop r.in_consume r.input)
    sent-Trace d w =
        let (s, t, e) = v.streams in
        (
          s,
          subst
              (λ x.
                Trace api h start r.ss_client (phase_of r) s x r.wire.from_client
                  (r.wire.to_server ++ r.client_to_server))
              (ap (λ x. r.wire.to_client ++ x) w.parts
                ∙ sym (append_assoc r.wire.to_client d.sent d.left))
              t,
          e,
        )

    after_write-IsSound :
        (d : Drained)
        → IsDrained r.input r.out_off (pending_out r) d
        → (length d.left ≡ 0 → r.in_consume ≡ 0)
        → IsSound api h start eof (after_write r d)
    unfolding after_write
    after_write-IsSound d w held =
        let (s, t, e) = sent-Trace d w in
        record {
          streams = (
            s,
            subst
                (λ x.
                  Trace api h start r.ss_client (phase_of r) s ((r.wire.to_client ++ d.sent) ++ x)
                    r.wire.from_client (r.wire.to_server ++ r.client_to_server))
                (sym (pending_left d w)) t,
            e,
          );
          eof_is = v.eof_is;
          at_eof = v.at_eof;
          header_len = v.header_len;
          header_fits = v.header_fits;
          header_pos = v.header_pos;
          payload_len = v.payload_len;
          out_in = omega (arith, w.within, pending_length, v.out_in);
          consume_in = v.consume_in;
          idle = held;
          fits = v.fits;
          output_fits = v.output_fits;
          reported = v.reported;
        }

    released-IsSound :
        (d : Drained)
        → IsDrained r.input r.out_off (pending_out r) d
        → length d.left ≡ 0
        → 0 < r.in_consume
        → IsSound api h start eof
            (record (consume r.in_consume (after_write r d)) { in_consume = 0 })
    unfolding after_write
    released-IsSound d w z held =
        let (s, t, e) = sent-Trace d w in
        let (at, eq, fits) = consume_lem r.in_consume (after_write r d) in
        rw eq (record {
          streams =
              quiet-Streams api h start _ s z refl
                (subst
                  (λ x.
                    Trace api h start r.ss_client (phase_of r) s x r.wire.from_client
                      (r.wire.to_server ++ r.client_to_server))
                  (ap (λ x. (r.wire.to_client ++ d.sent) ++ x) (length_zero d.left z)
                    ∙ append-nil (r.wire.to_client ++ d.sent))
                  t)
                e;
          eof_is = v.eof_is;
          at_eof = λ x. absurd (omega (arith, ap length (v.at_eof x).0, held, v.consume_in));
          header_len = v.header_len;
          header_fits = v.header_fits;
          header_pos = v.header_pos;
          payload_len = v.payload_len;
          out_in = omega (arith, w.reset z, z);
          consume_in = omega arith;
          idle = λ x. refl;
          fits = omega (arith, fits, v.fits);
          output_fits = v.output_fits;
          reported = v.reported;
        })

    pub write_to_client-Keeps : (answers : List Sent) → Keeps eof (write_to_client answers r)
    unfolding after_write
    write_to_client-Keeps answers =
        let d = drain answers r.out_off (pending_out r) in
        let (rest, stands) = pending_stands in
        let w = drain-IsDrained answers r.input r.out_off (pending_out r) rest stands in
        let q = after_write r d in
        let test : (b : Bool)
            → ((length d.left == 0) && ltb 0 r.in_consume) ≡ b
            → ((q.out_len == 0) && ltb 0 q.in_consume) ≡ b =
          λ b e. e in
        elim (Bool-cases d.alive) [
          | inr dead ↦
              subst (Keeps eof) (sym (write_to_client-dead answers r dead))
                (after_write-IsSound d w (λ z. absurd (omega (arith, w.failed dead, z))))
          | inl alive ↦
              subst (Keeps eof) (sym (write_to_client-alive answers r alive))
                (elim (Bool-cases ((length d.left == 0) && ltb 0 r.in_consume)) [
                  | inl now ↦
                      let both : (length d.left ≡ 0) × (0 < r.in_consume) = ground (arith, now) in
                      subst (IsSound api h start eof) (sym (release_now q (test true now)))
                        (released-IsSound d w both.0 both.1)
                  | inr same ↦
                      subst (IsSound api h start eof) (sym (release_same q (test false same)))
                        (after_write-IsSound d w (λ z. ground (arith, same, z)))
                ])
        ]

    pub write_to_server-Keeps : (answers : List Sent) → Keeps eof (write_to_server answers r)
    unfolding write_to_server pending_out
    write_to_server-Keeps answers =
        let d = drain answers r.client_to_server_off r.client_to_server in
        let (buffer, at) = padded r.client_to_server_off r.client_to_server in
        let w = drain-IsDrained answers buffer r.client_to_server_off r.client_to_server [] at in
        let (s, t, e) = v.streams in
        let sound : IsSound api h start eof (record r {
          client_to_server_off = d.off;
          client_to_server = d.left;
          wire = record r.wire { to_server = r.wire.to_server ++ d.sent };
        }) =
          record {
            streams = (
              s,
              subst
                  (λ x.
                    Trace api h start r.ss_client (phase_of r) s (r.wire.to_client ++ pending_out r)
                      r.wire.from_client x)
                  (ap (λ x. r.wire.to_server ++ x) w.parts
                    ∙ sym (append_assoc r.wire.to_server d.sent d.left))
                  t,
              e,
            );
            eof_is = v.eof_is;
            at_eof = v.at_eof;
            header_len = v.header_len;
            header_fits = v.header_fits;
            header_pos = v.header_pos;
            payload_len = v.payload_len;
            out_in = v.out_in;
            consume_in = v.consume_in;
            idle = v.idle;
            fits = v.fits;
            output_fits = omega (arith, w.within, v.output_fits);
            reported = v.reported;
          } in
        elim (Bool-cases d.alive) [ inl alive ↦ simp alive sound | inr dead ↦ simp dead sound ]
