-- ===== src/Tcp/Relay/Opened.antt =====
-- src/tcp_proxy.c: a payload chunk that opens, in a round of `tcp_relay_process_server_data`.
use mathlib.Core.List.{append-nil}
use tproxy2ss.Base.{
  ℕ, suc, ◌+◌, ◌≡◌, inl, inr, refl, sym, ap, ◌∙◌, arith, true, false, some, [], ◌∷◌, ◌++◌, length,
  take, drop, ltb, ◌==◌, if◌then◌else◌, length-append, length-drop, drop-overwrite, ltb→le,
}
use mathlib.Core.Path.{subst}
use mathlib.Core.Bool.{true≢false}
use tproxy2ss.Base.Bytes.{Bytes}
use tproxy2ss.Tcp.Client.{tag_len, Ss2022}
use tproxy2ss.Tcp.Relay.Defs.{Relay, goes, opened}
use tproxy2ss.Tcp.Relay.Sound.{header, chunk_length, Trace, opens_chunk, IsSound, consume_lem}
use tproxy2ss.Tcp.Relay.Rounds.{pending_all, quiet-Streams, RoundEnds, split_front, front_length}

module _ {C : Type 0} (api : Ss2022 C) (h : ℕ) (start : C) (r : Relay C)
    (v : IsSound api h start false r) (quiet : r.out_len ≡ 0) (done : r.response_header_done ≡ true)
    (due : r.need_len ≡ false)
    (enough : ltb (length r.input) (r.response_payload_len + tag_len) ≡ false) (c : C) where
  -- The trace behind the chunk
  opened-Trace :
      (plain : Bytes)
      → api.open_payload r.ss_client (take (r.response_payload_len + tag_len) r.input)
        ≡ some (c, plain)
      → let need = r.response_payload_len + tag_len in
        (s : Bytes) × Trace api h start c
          (if r.response_header_done then chunk_length else header)
          (s ++ take need r.input)
          (r.wire.to_client ++ plain)
          r.wire.from_client
          (r.wire.to_server ++ r.client_to_server)
        × (r.wire.from_server ≡ (s ++ take need r.input) ++ drop need r.input)
  opened-Trace plain e =
      let need = r.response_payload_len + tag_len in
      let (s, t, w) = split_front api h start r v quiet need in
      let due_here =
        subst
          (λ ph.
            Trace api h start r.ss_client ph s r.wire.to_client r.wire.from_client
              (r.wire.to_server ++ r.client_to_server))
          (rw (done, due) refl) t in
      let phase : chunk_length ≡ (if r.response_header_done then chunk_length else header) =
        rw done refl in
      (
        s,
        subst
            (λ ph.
              Trace api h start c ph (s ++ take need r.input) (r.wire.to_client ++ plain)
                r.wire.from_client (r.wire.to_server ++ r.client_to_server))
            phase
            (opens_chunk (take need r.input) plain due_here
              (front_length api h start r v quiet need enough) e),
        w,
      )

  -- An empty chunk is taken off at once.
  empty-RoundEnds :
      api.open_payload r.ss_client (take (r.response_payload_len + tag_len) r.input) ≡ some (c, [])
      → RoundEnds api h start (length r.input) (goes (opened api r c []))
  unfolding opened
  empty-RoundEnds e =
      let need = r.response_payload_len + tag_len in
      let (s, t, w) = opened-Trace [] e in
      let written : Relay C = record r {
        ss_client = c;
        input = r.input;
        out_off = 0;
        out_len = 0;
        need_len = true;
      } in
      let (at, eq, fits) = consume_lem need written in
      let trace =
        subst
          (λ x.
            Trace api h start c (if r.response_header_done then chunk_length else header)
              (s ++ take need r.input) x r.wire.from_client
              (r.wire.to_server ++ r.client_to_server))
          (append-nil r.wire.to_client) t in
      rw eq (
        record {
          streams = quiet-Streams api h start _ (s ++ take need r.input) refl refl trace w;
          eof_is = v.eof_is;
          at_eof = λ f. absurd (true≢false (sym f));
          header_len = v.header_len;
          header_fits = v.header_fits;
          header_pos = v.header_pos;
          payload_len = v.payload_len;
          out_in = omega arith;
          consume_in = omega arith;
          idle = λ z. refl;
          fits = omega (arith, fits, v.fits);
          output_fits = v.output_fits;
          reported = v.reported;
        },
        inr (omega (arith, length-drop need r.input, ltb→le (length r.input) need enough)),
      )

  -- A chunk with bytes stays in the input, with its bytes as the output.
  some-RoundEnds :
      (x : ℕ) (l : Bytes)
      → api.open_payload r.ss_client (take (r.response_payload_len + tag_len) r.input)
        ≡ some (c, x ∷ l)
      → RoundEnds api h start (length r.input) (goes (opened api r c (x ∷ l)))
  unfolding opened
  some-RoundEnds x l e =
      let need = r.response_payload_len + tag_len in
      let plain : Bytes = x ∷ l in
      let (s, t, w) = opened-Trace plain e in
      let long = ltb→le (length r.input) need enough in
      let small = api.payload_fits r.ss_client (take need r.input) c plain e in
      let whole = front_length api h start r v quiet need enough in
      let some_out : (suc (length l) == 0) ≡ false = ground arith in
      let input : Bytes = plain ++ drop (length plain) r.input in
      let size : length input ≡ length r.input = omega (
        arith,
        length-append plain (drop (length plain) r.input),
        length-drop (length plain) r.input,
        small,
        whole,
        long,
      ) in
      let after : Relay C = record r {
        ss_client = c;
        input = input;
        out_off = 0;
        out_len = length plain;
        need_len = true;
        in_consume = need;
      } in
      let out = pending_all after plain (drop (length plain) r.input) refl refl refl in
      rw some_out (
        record {
          streams = (
            s ++ take need r.input,
            subst
                (λ o.
                  Trace api h start c (if r.response_header_done then chunk_length else header)
                    (s ++ take need r.input) (r.wire.to_client ++ o) r.wire.from_client
                    (r.wire.to_server ++ r.client_to_server))
                (sym out) t,
            w
                ∙ ap (λ k. (s ++ take need r.input) ++ k)
                    (sym (drop-overwrite need plain r.input (omega (arith, small, whole)))),
          );
          eof_is = v.eof_is;
          at_eof = λ f. absurd (true≢false (sym f));
          header_len = v.header_len;
          header_fits = v.header_fits;
          header_pos = v.header_pos;
          payload_len = v.payload_len;
          out_in = omega (arith, small, whole);
          consume_in = omega (arith, size, long);
          idle = λ z. absurd (omega (arith, z));
          fits = omega (arith, size, v.fits);
          output_fits = v.output_fits;
          reported = v.reported;
        },
        inl (omega arith),
      )

  pub opened-RoundEnds :
      (plain : Bytes)
      → api.open_payload r.ss_client (take (r.response_payload_len + tag_len) r.input)
        ≡ some (c, plain)
      → RoundEnds api h start (length r.input) (goes (opened api r c plain))
  opened-RoundEnds [] e = empty-RoundEnds e
  opened-RoundEnds (x ∷ l) e = some-RoundEnds x l e
