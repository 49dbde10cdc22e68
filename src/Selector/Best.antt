-- ===== src/Selector/Best.antt =====
-- src/server_selector.c: the best index under `ss_update_best_locked` and the reports.
use native.Mathlib.Nat.{pow-suc}
use tproxy2ss.Base.{
  ℕ, zero, suc, ◌/◌, ◌^◌, ◌<◌, ◌≡◌, ◌≢◌, ◌⊎◌, inl, inr, refl, sym, ap, ◌∙◌, arith, bit_and, Bool,
  true, false, ◌&&◌, Option, some, ltb, leb, ◌==◌, if◌then◌else◌, Bool-cases, Option-cases, lt→ltb,
  ==_iff, ==_self,
}
use mathlib.Core.Path.{subst}
use mathlib.Core.Bool.{true≢false}
use tproxy2ss.Base.Bits.{bit_and-halves, zero-bit_and, bit_and-zero_within}
use tproxy2ss.Selector.Defs.{
  Selector, tried, is_index, candidate, switch, update_best, report_tcp_failure, mark_failed,
}
use tproxy2ss.Selector.Candidate.{Chosen, candidate-Chosen}

-- A mask with one bit
and_one_bit : (p i : ℕ) → p ≢ i → bit_and (2 ^ p) (2 ^ i) ≡ 0
and_one_bit zero zero n = absurd (n refl)
and_one_bit zero (suc i) n =
    bit_and-halves 1 (2 ^ suc i) ∙ omega (arith, pow-suc 2 i, zero-bit_and (2 ^ suc i / 2))
and_one_bit (suc p) zero n =
    bit_and-halves (2 ^ suc p) 1
    ∙ omega (arith, pow-suc 2 p, bit_and-zero_within (2 ^ suc p / 2) (2 ^ suc p / 2) (omega arith))
and_one_bit (suc p) (suc i) n =
    let h : 2 ^ suc p / 2 ≡ 2 ^ p = omega (arith, pow-suc 2 p) in
    let k : 2 ^ suc i / 2 ≡ 2 ^ i = omega (arith, pow-suc 2 i) in
    bit_and-halves (2 ^ suc p) (2 ^ suc i)
    ∙ rw (h, k, and_one_bit p i (λ e. n (ap suc e))) (omega (arith, pow-suc 2 p))

and_same_bit : (p : ℕ) → 0 < bit_and (2 ^ p) (2 ^ p)
and_same_bit zero = omega arith
and_same_bit (suc p) =
    let h : 2 ^ suc p / 2 ≡ 2 ^ p = omega (arith, pow-suc 2 p) in
    rw (bit_and-halves (2 ^ suc p) (2 ^ suc p), h) (omega (arith, and_same_bit p))

pub tried_self : (p : ℕ) → tried (2 ^ p) p ≡ true
unfolding tried
tried_self p = ground (arith, and_same_bit p)

pub tried-other : (p i : ℕ) → p ≢ i → tried (2 ^ p) i ≡ false
unfolding tried
tried-other p i n = rw (and_one_bit p i n) refl

pub tried-none : (i : ℕ) → tried 0 i ≡ false
unfolding tried
tried-none i = rw (zero-bit_and (2 ^ i)) refl

three_gates :
    {A : Type 0} (a b c : Bool) (x y : A)
    → ((if a then x else if b then x else if c then x else y) ≡ x)
      ⊎ ((if a then x else if b then x else if c then x else y) ≡ y)
three_gates true b c x y = inl refl
three_gates false true c x y = inl refl
three_gates false false true x y = inl refl
three_gates false false false x y = inr refl

module _ {D : Type 0} where
  switch-either :
      (s : Selector D) (force allow : Bool) (best : ℕ)
      → (switch s force allow best ≡ s) ⊎ (switch s force allow best ≡ record s { best_idx = best })
  unfolding switch
  switch-either s force allow best =
      three_gates (best == s.best_idx) _ _ s (record s { best_idx = best })

  switch-forced :
      (s : Selector D) (allow : Bool) (best : ℕ)
      → (best == s.best_idx) ≡ false
      → switch s true allow best ≡ record s { best_idx = best }
  unfolding switch
  switch-forced s allow best n = rw n refl

  candidate-index : (s : Selector D) (mask b : ℕ) → candidate s mask ≡ some b → b < s.server_count
  candidate-index s mask b e = (subst (Chosen s mask s.server_count) e (candidate-Chosen s mask)).0

  -- The result of an update is the selector with some index of a server as the best.
  pub update_best-index :
      (s : Selector D) (failed_idx : Option ℕ) (allow : Bool)
      → s.best_idx < s.server_count
      → (b : ℕ) × (b < s.server_count)
        × (update_best s failed_idx allow ≡ record s { best_idx = b })
  unfolding update_best
  update_best-index s failed_idx allow h =
      let switched : (force : Bool) (best : ℕ)
          → best < s.server_count
          → (b : ℕ) × (b < s.server_count)
            × (switch s force allow best ≡ record s { best_idx = b }) =
        λ force best l. elim (switch-either s force allow best) [
          | inl e ↦ (s.best_idx, h, e)
          | inr e ↦ (best, l, e)
        ] in
      elim (Option-cases (candidate s 0)) [
        | inl e ↦ rw (update_best, e) (s.best_idx, h, refl)
        | inr (best, e) ↦
            elim (Bool-cases
              ((is_index failed_idx s.best_idx && ltb 1 s.server_count) && best == s.best_idx)) [
                | inr f ↦ rw (update_best, e, f) (switched _ best (candidate-index s 0 best e))
                | inl f ↦ elim (Option-cases (candidate s (2 ^ s.best_idx))) [
                  | inl e' ↦ rw (update_best, e, f, e') (s.best_idx, h, refl)
                  | inr (other, e') ↦
                      rw (update_best, e, f, e')
                        (switched _ other (candidate-index s (2 ^ s.best_idx) other e'))
                ]
              ]
      ]

  -- With two servers or more, some server is not the best one.
  another :
      (s : Selector D) → 1 < s.server_count → (i : ℕ) × (i < s.server_count) × (s.best_idx ≢ i)
  another s h = elim (Bool-cases (s.best_idx == 0)) [
    | inl z ↦ (1, h, λ e. grind (arith, (==_iff s.best_idx 0).0 z, e))
    | inr p ↦ (0, omega (arith, h), λ e. grind (arith, (==_iff s.best_idx 0).1, p, e))
  ]

  other_candidate :
      (s : Selector D)
      → 1 < s.server_count
      → (b : ℕ) × (candidate s (2 ^ s.best_idx) ≡ some b) × (b ≢ s.best_idx)
  other_candidate s h = elim (Option-cases (candidate s (2 ^ s.best_idx))) [
    | inl e ↦
        let (i, l, n) = another s h in
        let all =
          subst (Chosen s (2 ^ s.best_idx) s.server_count) e
            (candidate-Chosen s (2 ^ s.best_idx)) in
        absurd (true≢false (sym (all i l) ∙ tried-other s.best_idx i n))
    | inr (b, e) ↦
        let c =
          subst (Chosen s (2 ^ s.best_idx) s.server_count) e
            (candidate-Chosen s (2 ^ s.best_idx)) in
        (
          b,
          e,
          λ p.
              true≢false
                (sym (tried_self s.best_idx) ∙ subst (λ z. tried (2 ^ s.best_idx) z ≡ false) p c.1),
        )
  ]

  -- An update for the failure of the best server moves the best index, with two servers or
  -- more.
  pub update_best-failover :
      (s : Selector D) (allow : Bool)
      → 1 < s.server_count
      → (update_best s (some s.best_idx) allow).best_idx ≢ s.best_idx
  unfolding update_best is_index
  update_best-failover s allow h =
      let (b, e, n) = other_candidate s h in
      let nb : (b == s.best_idx) ≡ false = ground (arith, n) in
      let self = ==_self s.best_idx in
      let forced : (is_index (some s.best_idx) s.best_idx && ltb 1 s.server_count) ≡ true =
        rw (is_index, self, lt→ltb 1 s.server_count h) refl in
      elim (Option-cases (candidate s 0)) [
        | inl none_left ↦
            let all = subst (Chosen s 0 s.server_count) none_left (candidate-Chosen s 0) in
            absurd (true≢false (sym (all 0 (omega (arith, h))) ∙ tried-none 0))
        | inr (best, c) ↦ elim (Bool-cases (best == s.best_idx)) [
          | inl q ↦ rw (update_best, c, forced, q, e, forced, switch-forced s allow b nb) n
          | inr q ↦
              rw (update_best, c, forced, q, switch-forced s allow best q)
                (λ p. grind (arith, (==_iff best s.best_idx).1, q, p))
        ]
      ]

  -- A reported TCP failure of the best server, when that is the index of a server, moves the
  -- best index elsewhere if there are two servers or more, whatever the health and scores of
  -- the others are.
  pub report_tcp_failure-moves :
      (s : Selector D)
      → s.best_idx < s.server_count
      → 1 < s.server_count
      → (report_tcp_failure s s.best_idx).best_idx ≢ s.best_idx
  unfolding report_tcp_failure mark_failed
  report_tcp_failure-moves s h two =
      let here : leb s.server_count s.best_idx ≡ false = ground (arith, h) in
      rw here (update_best-failover (mark_failed s s.best_idx) false two)
