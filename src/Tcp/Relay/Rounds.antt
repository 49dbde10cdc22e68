-- ===== src/Tcp/Relay/Rounds.antt =====
-- src/tcp_proxy.c: one round of `tcp_relay_process_server_data` against the invariant.
use mathlib.Core.List.{append-nil}
use tproxy2ss.Base.{
  ℕ, ◌≤◌, ◌<◌, ◌≡◌, ◌⊎◌, refl, sym, ap, ◌∙◌, arith, true, false, some, [], ◌∷◌, ◌++◌, append_assoc,
  length, take, drop, ltb, if◌then◌else◌, length-drop, length-take, take-drop, take_append, ltb→le,
}
use mathlib.Core.Path.{subst}
use mathlib.Core.Bool.{true≢false}
use tproxy2ss.Base.Bytes.{Bytes}
use tproxy2ss.Tcp.Client.{length_chunk_len, resp_in_bufsiz, Ss2022}
use tproxy2ss.Tcp.Relay.Defs.{
  Relay, Round, waits, fails, goes, opened, length_opened, header_opened,
}
use tproxy2ss.Tcp.Relay.Event.{pending_out}
use tproxy2ss.Tcp.Relay.Sound.{
  header, chunk, Trace, opens_header, opens_length, phase_of, Streams, IsSound, consume_lem,
}

length_nil : (l : Bytes) → length l ≡ 0 → l ≡ []
length_nil [] h = refl
length_nil (x ∷ l) h = absurd (omega arith)

module _ {C : Type 0} where
  pub pending_none : (r : Relay C) → r.out_len ≡ 0 → pending_out r ≡ []
  unfolding pending_out
  pending_none r h = ap (λ n. take n (drop r.out_off r.input)) h

  pub pending_all :
      (r : Relay C) (plain rest : Bytes)
      → r.out_off ≡ 0
      → r.out_len ≡ length plain
      → r.input ≡ plain ++ rest
      → pending_out r ≡ plain
  unfolding pending_out
  pending_all r plain rest off len is =
      ap (λ n. take n (drop r.out_off r.input)) len
      ∙ ap (λ n. take (length plain) (drop n r.input)) off
      ∙ ap (λ l. take (length plain) l) is
      ∙ take_append plain rest

  -- The streams of a state with no output
  pub quiet-Streams :
      (api : Ss2022 C) (h : ℕ) (start : C) (r : Relay C) (opened : Bytes)
      → r.out_len ≡ 0
      → r.in_consume ≡ 0
      → Trace api h start r.ss_client
          (phase_of r)
          opened
          r.wire.to_client
          r.wire.from_client
          (r.wire.to_server ++ r.client_to_server)
      → r.wire.from_server ≡ opened ++ r.input
      → Streams api h start r
  quiet-Streams api h start r opened quiet none_held t e = (
    opened,
    subst
        (λ x.
          Trace api h start r.ss_client (phase_of r) opened x r.wire.from_client
            (r.wire.to_server ++ r.client_to_server))
        (sym (ap (λ x. r.wire.to_client ++ x) (pending_none r quiet) ∙ append-nil r.wire.to_client))
        t,
    e ∙ ap (λ k. opened ++ drop k r.input) (sym none_held),
  )

  -- A round that starts with no output keeps the invariant; it waits with room for more input, or
  -- goes on with output or with less input.
  abbrev pub RoundEnds : Ss2022 C → ℕ → C → ℕ → Round C → Type 0
  RoundEnds api h start bytes (waits r) =
      IsSound api h start false r × (length r.input < resp_in_bufsiz)
  RoundEnds api h start bytes (fails r) = IsSound api h start false r
  RoundEnds api h start bytes (goes r) =
      IsSound api h start false r × ((0 < r.out_len) ⊎ (length r.input < bytes))

  module _ (api : Ss2022 C) (h : ℕ) (start : C) (r : Relay C) (v : IsSound api h start false r)
      (quiet : r.out_len ≡ 0) where
    pub no_consume : r.in_consume ≡ 0
    no_consume = v.idle quiet

    -- The streams of a state with no output, with the front of the input split off
    pub split_front :
        (n : ℕ)
        → (opened : Bytes) × Trace api h start r.ss_client
            (phase_of r)
            opened
            r.wire.to_client
            r.wire.from_client
            (r.wire.to_server ++ r.client_to_server)
          × (r.wire.from_server ≡ (opened ++ take n r.input) ++ drop n r.input)
    split_front n =
        let (s, t, e) = v.streams in
        (
          s,
          subst
              (λ x.
                Trace api h start r.ss_client (phase_of r) s x r.wire.from_client
                  (r.wire.to_server ++ r.client_to_server))
              (ap (λ x. r.wire.to_client ++ x) (pending_none r quiet) ∙ append-nil r.wire.to_client)
              t,
          e
              ∙ ap (λ x. s ++ drop x r.input) no_consume
              ∙ ap (λ x. s ++ x) (sym (take-drop n r.input))
              ∙ sym (append_assoc s (take n r.input) (drop n r.input)),
        )

    pub front_length : (n : ℕ) → ltb (length r.input) n ≡ false → length (take n r.input) ≡ n
    front_length n e = omega (arith, length-take n r.input, ltb→le (length r.input) n e)

    pub header_opened-IsSound :
        (c : C) (n : ℕ)
        → r.response_header_done ≡ false
        → ltb (length r.input) r.response_header_len ≡ false
        → api.open_response_header r.ss_client (take r.response_header_len r.input) ≡ some (c, n)
        → IsSound api h start false (header_opened api r c n)
          × (length (header_opened api r c n).input ≤ length r.input)
          × ((header_opened api r c n).out_len ≡ 0)
    unfolding header_opened
    header_opened-IsSound c n first enough e =
        let len = r.response_header_len in
        let (s, t, w) = split_front len in
        let (at, eq, fits) =
          consume_lem len (record r { ss_client = c; response_payload_len = n }) in
        let shorter = length-drop len r.input in
        let once : r.reports ≡ 0 = v.reported ∙ ap {B = ℕ} (λ b. if b then 1 else 0) first in
        let front =
          opens_header (take len r.input)
            (subst
              (λ ph.
                Trace api h start r.ss_client ph s r.wire.to_client r.wire.from_client
                  (r.wire.to_server ++ r.client_to_server))
              (rw first refl) t)
            (front_length len enough ∙ v.header_len) e in
        rw eq (
          record {
            streams = quiet-Streams api h start _ (s ++ take len r.input) quiet no_consume front w;
            eof_is = v.eof_is;
            at_eof = λ f. absurd (true≢false (sym f));
            header_len = v.header_len;
            header_fits = v.header_fits;
            header_pos = v.header_pos;
            payload_len = api.header_length r.ss_client (take len r.input) c n e;
            out_in = v.out_in;
            consume_in = omega (arith, no_consume);
            idle = v.idle;
            fits = omega (arith, fits, v.fits);
            output_fits = v.output_fits;
            reported = omega (arith, once);
          },
          omega (arith, shorter),
          quiet,
        )

    pub length_opened-IsSound :
        (c : C) (n : ℕ)
        → r.response_header_done ≡ true
        → r.need_len ≡ true
        → ltb (length r.input) length_chunk_len ≡ false
        → api.open_length r.ss_client (take length_chunk_len r.input) ≡ some (c, n)
        → IsSound api h start false (length_opened r c n)
          × (length (length_opened r c n).input ≤ length r.input)
          × ((length_opened r c n).out_len ≡ 0)
          × ((length_opened r c n).response_header_done ≡ true)
          × ((length_opened r c n).need_len ≡ false)
    unfolding length_opened
    length_opened-IsSound c n done due enough e =
        let (s, t, w) = split_front length_chunk_len in
        let (at, eq, fits) =
          consume_lem length_chunk_len (record r { ss_client = c; response_payload_len = n }) in
        let shorter = length-drop length_chunk_len r.input in
        let front =
          opens_length (take length_chunk_len r.input)
            (subst
              (λ ph.
                Trace api h start r.ss_client ph s r.wire.to_client r.wire.from_client
                  (r.wire.to_server ++ r.client_to_server))
              (rw (done, due) refl) t)
            (front_length length_chunk_len enough) e in
        let phase : chunk n ≡ (if r.response_header_done then chunk n else header) = rw done refl in
        rw eq (
          record {
            streams =
                quiet-Streams api h start _ (s ++ take length_chunk_len r.input) quiet no_consume
                  (subst
                    (λ ph.
                      Trace api h start c ph (s ++ take length_chunk_len r.input) r.wire.to_client
                        r.wire.from_client (r.wire.to_server ++ r.client_to_server))
                    phase front)
                  w;
            eof_is = v.eof_is;
            at_eof = λ f. absurd (true≢false (sym f));
            header_len = v.header_len;
            header_fits = v.header_fits;
            header_pos = v.header_pos;
            payload_len = api.chunk_length r.ss_client (take length_chunk_len r.input) c n e;
            out_in = v.out_in;
            consume_in = omega (arith, no_consume);
            idle = v.idle;
            fits = omega (arith, fits, v.fits);
            output_fits = v.output_fits;
            reported = v.reported;
          },
          omega (arith, shorter),
          quiet,
          done,
          refl,
        )
