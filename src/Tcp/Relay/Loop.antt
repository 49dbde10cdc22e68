-- ===== src/Tcp/Relay/Loop.antt =====
-- src/tcp_proxy.c: the loop of `tcp_relay_process_server_data`.
use tproxy2ss.Base.{
  ℕ, zero, suc, ◌<◌, ◌≡◌, ◌⊎◌, inl, inr, refl, sym, ◌∙◌, arith, Bool, true, false, length, ◌==◌,
  Bool-cases, ==_iff,
}
use mathlib.Core.Path.{subst}
use tproxy2ss.Tcp.Client.{Ss2022}
use tproxy2ss.Tcp.Relay.Defs.{
  Relay, Round, waits, fails, goes, Outcome, live, closed, round, process, process_server_data,
}
use tproxy2ss.Tcp.Relay.Sound.{IsSound, HasRoom}
use tproxy2ss.Tcp.Relay.Rounds.{RoundEnds}
use tproxy2ss.Tcp.Relay.Chunks.{round-RoundEnds}

Round-cases :
    {C : Type 0} (x : Round C)
    → ((r : Relay C) × (x ≡ waits r))
      ⊎ (((r : Relay C) × (x ≡ fails r)) ⊎ ((r : Relay C) × (x ≡ goes r)))
Round-cases (waits r) = inl (r, refl)
Round-cases (fails r) = inr (inl (r, refl))
Round-cases (goes r) = inr (inr (r, refl))

module _ {C : Type 0} (api : Ss2022 C) where
  process-busy : (fuel : ℕ) (r : Relay C) → (r.out_len == 0) ≡ false → process api fuel r ≡ live r
  unfolding process
  process-busy zero r e = refl
  process-busy (suc fuel) r e = simp e refl

  process-waits :
      (fuel : ℕ) (r q : Relay C)
      → (r.out_len == 0) ≡ true
      → round api r ≡ waits q
      → process api (suc fuel) r ≡ live q
  unfolding process
  process-waits fuel r q e f = simp (e, f) refl

  process-fails :
      (fuel : ℕ) (r q : Relay C)
      → (r.out_len == 0) ≡ true
      → round api r ≡ fails q
      → process api (suc fuel) r ≡ closed true q
  unfolding process
  process-fails fuel r q e f = simp (e, f) refl

  process-goes :
      (fuel : ℕ) (r q : Relay C)
      → (r.out_len == 0) ≡ true
      → round api r ≡ goes q
      → process api (suc fuel) r ≡ process api fuel q
  unfolding process
  process-goes fuel r q e f = simp (e, f) refl

  module _ (h : ℕ) (start : C) where
    -- A handler keeps the invariant, and a session that goes on has room for input.
    abbrev pub Settles : Bool → Outcome C → Type 0
    Settles eof (live r) = IsSound api h start eof r × HasRoom r
    Settles eof (closed true r) = IsSound api h start eof r
    Settles eof (closed false r) = ⊥

    goes-ends :
        (r q : Relay C)
        → IsSound api h start false r
        → (r.out_len == 0) ≡ true
        → round api r ≡ goes q
        → IsSound api h start false q × ((0 < q.out_len) ⊎ (length q.input < length r.input))
    goes-ends r q v e f =
        subst (RoundEnds api h start (length r.input)) f
          (round-RoundEnds api h start r v ((==_iff r.out_len 0).0 e))

    process-Settles :
        (fuel : ℕ) (r : Relay C)
        → length r.input < fuel
        → IsSound api h start false r
        → Settles false (process api fuel r)
    process-Settles zero r l v = absurd (omega arith)
    process-Settles (suc fuel) r l v = elim (Bool-cases (r.out_len == 0)) [
      | inr e ↦
          subst (Settles false) (sym (process-busy (suc fuel) r e))
            (v, λ z. absurd (grind (arith, z, e)))
      | inl e ↦
          let ends = round-RoundEnds api h start r v ((==_iff r.out_len 0).0 e) in
          elim (Round-cases (round api r)) [
            | inl (q, f) ↦
                let (v', room) = subst (RoundEnds api h start (length r.input)) f ends in
                subst (Settles false) (sym (process-waits fuel r q e f)) (v', λ z. room)
            | inr (inl (q, f)) ↦
                subst (Settles false) (sym (process-fails fuel r q e f))
                  (subst (RoundEnds api h start (length r.input)) f ends)
            | inr (inr (q, f)) ↦
                let (v', more) = goes-ends r q v e f in
                subst (Settles false) (sym (process-goes fuel r q e f)) (elim more [
                  | inl out ↦
                      let busy : (q.out_len == 0) ≡ false = ground (arith, out) in
                      subst (Settles false) (sym (process-busy fuel q busy))
                        (v', λ z. absurd (omega (arith, z, out)))
                  | inr less ↦ process-Settles fuel q (omega (arith, less, l)) v'
                ])
          ]
    ]

    process-fuel :
        (f g : ℕ) (r : Relay C)
        → length r.input < f
        → length r.input < g
        → IsSound api h start false r
        → process api f r ≡ process api g r
    process-fuel zero g r l m v = absurd (omega arith)
    process-fuel (suc f) zero r l m v = absurd (omega arith)
    process-fuel (suc f) (suc g) r l m v = elim (Bool-cases (r.out_len == 0)) [
      | inr e ↦ process-busy (suc f) r e ∙ sym (process-busy (suc g) r e)
      | inl e ↦ elim (Round-cases (round api r)) [
        | inl (q, x) ↦ process-waits f r q e x ∙ sym (process-waits g r q e x)
        | inr (inl (q, x)) ↦ process-fails f r q e x ∙ sym (process-fails g r q e x)
        | inr (inr (q, x)) ↦
            let (v', more) = goes-ends r q v e x in
            process-goes f r q e x
            ∙ elim more [
              | inl out ↦
                  let busy : (q.out_len == 0) ≡ false = ground (arith, out) in
                  process-busy f q busy ∙ sym (process-busy g q busy)
              | inr less ↦ process-fuel f g q (omega (arith, less, l)) (omega (arith, less, m)) v'
            ]
            ∙ sym (process-goes g r q e x)
      ]
    ]

    -- The loop ends by its own tests: any fuel above the length of the input gives the result that
    -- the model takes, in every state that satisfies the invariant before the end of the stream.
    pub process-enough :
        (fuel : ℕ) (r : Relay C)
        → length r.input < fuel
        → IsSound api h start false r
        → process api fuel r ≡ process_server_data api r
    unfolding process_server_data
    process-enough fuel r l v = process-fuel fuel (suc (length r.input)) r l (omega arith) v

    pub process_server_data-Settles :
        (r : Relay C) → IsSound api h start false r → Settles false (process_server_data api r)
    unfolding process_server_data
    process_server_data-Settles r v = process-Settles (suc (length r.input)) r (omega arith) v
