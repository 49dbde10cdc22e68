-- ===== src/Tcp/Relay/Chunks.antt =====
-- src/tcp_proxy.c: the rounds of `tcp_relay_process_server_data` by their branches.
use tproxy2ss.Base.{
  ℕ, ◌+◌, ◌≤◌, ◌≡◌, inl, inr, refl, sym, arith, true, false, none, some, length, take, ltb,
  Bool-cases, Option-cases, ltb→lt,
}
use mathlib.Core.Path.{subst}
use tproxy2ss.Tcp.Client.{tag_len, length_chunk_len, Ss2022}
use tproxy2ss.Tcp.Relay.Defs.{
  Relay, Round, waits, fails, goes, payload_part, length_opened, length_part, header_opened, round,
}
use tproxy2ss.Tcp.Relay.Sound.{IsSound}
use tproxy2ss.Tcp.Relay.Rounds.{RoundEnds, header_opened-IsSound, length_opened-IsSound}
use tproxy2ss.Tcp.Relay.Opened.{opened-RoundEnds}

module _ {C : Type 0} (api : Ss2022 C) (h : ℕ) (start : C) where
  module _ (r : Relay C) (v : IsSound api h start false r) (quiet : r.out_len ≡ 0)
      (done : r.response_header_done ≡ true) where
    -- With the payload chunk due
    payload_part-RoundEnds :
        r.need_len ≡ false → RoundEnds api h start (length r.input) (payload_part api r)
    unfolding payload_part
    payload_part-RoundEnds due =
        let need = r.response_payload_len + tag_len in
        elim (Bool-cases (ltb (length r.input) need)) [
          | inl e ↦ rw e (v, omega (arith, v.payload_len, ltb→lt (length r.input) need e))
          | inr e ↦ elim (Option-cases (api.open_payload r.ss_client (take need r.input))) [
            | inl f ↦ rw (e, f) v
            | inr ((c, plain), f) ↦
                rw (e, f) (opened-RoundEnds api h start r v quiet done due e c plain f)
          ]
        ]

  RoundEnds-fewer :
      (n m : ℕ) (x : Round C) → n ≤ m → RoundEnds api h start n x → RoundEnds api h start m x
  RoundEnds-fewer n m (waits r) l e = e
  RoundEnds-fewer n m (fails r) l e = e
  RoundEnds-fewer n m (goes r) l (v, inl o) = (v, inl o)
  RoundEnds-fewer n m (goes r) l (v, inr o) = (v, inr (omega (arith, o, l)))

  -- The tests of the round, one equation each
  length_part-skip : (r : Relay C) → r.need_len ≡ false → length_part api r ≡ payload_part api r
  unfolding length_part
  length_part-skip r due = simp due refl

  length_part-waits :
      (r : Relay C)
      → r.need_len ≡ true
      → ltb (length r.input) length_chunk_len ≡ true
      → length_part api r ≡ waits r
  unfolding length_part
  length_part-waits r due e = simp (due, e) refl

  length_part-fails :
      (r : Relay C)
      → r.need_len ≡ true
      → ltb (length r.input) length_chunk_len ≡ false
      → api.open_length r.ss_client (take length_chunk_len r.input) ≡ none
      → length_part api r ≡ fails r
  unfolding length_part
  length_part-fails r due e f = simp (due, e, f) refl

  length_part-opens :
      (r : Relay C) (c : C) (n : ℕ)
      → r.need_len ≡ true
      → ltb (length r.input) length_chunk_len ≡ false
      → api.open_length r.ss_client (take length_chunk_len r.input) ≡ some (c, n)
      → length_part api r ≡ payload_part api (length_opened r c n)
  unfolding length_part
  length_part-opens r c n due e f = simp (due, e, f) refl

  length_part-RoundEnds :
      (r : Relay C)
      → IsSound api h start false r
      → r.out_len ≡ 0
      → r.response_header_done ≡ true
      → RoundEnds api h start (length r.input) (length_part api r)
  length_part-RoundEnds r v quiet done =
      let Ends = RoundEnds api h start (length r.input) in
      elim (Bool-cases r.need_len) [
        | inr due ↦
            subst Ends (sym (length_part-skip r due)) (payload_part-RoundEnds r v quiet done due)
        | inl due ↦ elim (Bool-cases (ltb (length r.input) length_chunk_len)) [
          | inl e ↦
              subst Ends (sym (length_part-waits r due e))
                (v, omega (arith, ltb→lt (length r.input) length_chunk_len e))
          | inr e ↦
              elim (Option-cases (api.open_length r.ss_client (take length_chunk_len r.input))) [
                | inl f ↦ subst Ends (sym (length_part-fails r due e f)) v
                | inr ((c, n), f) ↦
                    let (v', less, quiet', done', due') =
                      length_opened-IsSound api h start r v quiet c n done due e f in
                    subst Ends (sym (length_part-opens r c n due e f)) (
                      RoundEnds-fewer (length (length_opened r c n).input) (length r.input) _ less
                        (payload_part-RoundEnds (length_opened r c n) v' quiet' done' due'))
              ]
        ]
      ]

  round-later : (r : Relay C) → r.response_header_done ≡ true → round api r ≡ length_part api r
  unfolding round
  round-later r done = simp done refl

  round-waits :
      (r : Relay C)
      → r.response_header_done ≡ false
      → ltb (length r.input) r.response_header_len ≡ true
      → round api r ≡ waits r
  unfolding round
  round-waits r first e = simp (first, e) refl

  round-fails :
      (r : Relay C)
      → r.response_header_done ≡ false
      → ltb (length r.input) r.response_header_len ≡ false
      → api.open_response_header r.ss_client (take r.response_header_len r.input) ≡ none
      → round api r ≡ fails r
  unfolding round
  round-fails r first e f = simp (first, e, f) refl

  round-opens :
      (r : Relay C) (c : C) (n : ℕ)
      → r.response_header_done ≡ false
      → ltb (length r.input) r.response_header_len ≡ false
      → api.open_response_header r.ss_client (take r.response_header_len r.input) ≡ some (c, n)
      → round api r ≡ length_part api (header_opened api r c n)
  unfolding round
  round-opens r c n first e f = simp (first, e, f) refl

  header_opened-done :
      (r : Relay C) (c : C) (n : ℕ) → (header_opened api r c n).response_header_done ≡ true
  unfolding header_opened
  header_opened-done r c n = refl

  pub round-RoundEnds :
      (r : Relay C)
      → IsSound api h start false r
      → r.out_len ≡ 0
      → RoundEnds api h start (length r.input) (round api r)
  round-RoundEnds r v quiet =
      let Ends = RoundEnds api h start (length r.input) in
      elim (Bool-cases r.response_header_done) [
        | inl done ↦ subst Ends (sym (round-later r done)) (length_part-RoundEnds r v quiet done)
        | inr first ↦ elim (Bool-cases (ltb (length r.input) r.response_header_len)) [
          | inl e ↦ subst Ends (sym (round-waits r first e)) (
            v,
            omega (
              arith,
              ltb→lt (length r.input) r.response_header_len e,
              v.header_len,
              v.header_fits,
            ),
          )
          | inr e ↦
              elim (Option-cases
                (api.open_response_header r.ss_client (take r.response_header_len r.input))) [
                  | inl f ↦ subst Ends (sym (round-fails r first e f)) v
                  | inr ((c, n), f) ↦
                      let q = header_opened api r c n in
                      let (v', less, quiet') =
                        header_opened-IsSound api h start r v quiet c n first e f in
                      subst Ends (sym (round-opens r c n first e f)) (
                        RoundEnds-fewer (length q.input) (length r.input) _ less
                          (length_part-RoundEnds q v' quiet' (header_opened-done r c n)))
                ]
        ]
      ]
