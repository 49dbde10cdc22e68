-- ===== src/Selector/Candidate.antt =====
-- src/server_selector.c: the server that `ss_candidate_locked` chooses.
use tproxy2ss.Base.{
  ℕ, zero, suc, ◌+◌, ◌<◌, ◌≡◌, ◌⊎◌, inl, inr, sym, arith, Bool, true, false, ◌&&◌, ◌||◌, Option,
  none, some, ltb, leb, ◌==◌, Bool-cases, ltb→lt, ltb→le, leb_false→lt,
}
use mathlib.Core.Path.{subst}
use tproxy2ss.Selector.Defs.{
  Selector, tried, rank_at, score_at, better, consider, candidate_from, candidate,
}

-- Pairs of a rank and a score in lexicographic order
lex : ℕ → ℕ → ℕ → ℕ → Bool
lex r s r' s' = ltb r r' || ((r == r') && ltb s s')

lex_irrefl : (r s : ℕ) → lex r s r s ≡ false
unfolding lex
lex_irrefl r s = ground arith

lex_trans : (r s r' s' q t : ℕ) → lex r s r' s' ≡ true → lex q t r' s' ≡ false → lex q t r s ≡ false
unfolding lex
lex_trans r s r' s' q t h k = ground arith

module _ {D : Type 0} (s : Selector D) where
  pub better_irrefl : (a : ℕ) → better s a a ≡ false
  unfolding better lex
  better_irrefl a = lex_irrefl (rank_at s a) (score_at s a)

  pub better_trans : (a b c : ℕ) → better s a b ≡ true → better s c b ≡ false → better s c a ≡ false
  unfolding better lex
  better_trans a b c h k =
      lex_trans (rank_at s a) (score_at s a) (rank_at s b) (score_at s b) (rank_at s c)
        (score_at s c) h k

  -- What the loop knows of its choice after the first `i` servers
  abbrev pub Chosen : ℕ → ℕ → Option ℕ → Type 0
  Chosen mask i none = (j : ℕ) → j < i → tried mask j ≡ true
  Chosen mask i (some b) =
      (b < s.server_count)
      × (tried mask b ≡ false)
      × ((j : ℕ) → j < i → tried mask j ≡ false → better s j b ≡ false)

  split_lt : (j i : ℕ) → j < i + 1 → (j < i) ⊎ (j ≡ i)
  split_lt j i h = elim (Bool-cases (ltb j i)) [
    | inl e ↦ inl (ltb→lt j i e)
    | inr e ↦ inr (omega (arith, ltb→le j i e))
  ]

  consider-Chosen :
      (mask i : ℕ) (best : Option ℕ)
      → i < s.server_count
      → Chosen mask i best
      → Chosen mask (i + 1) (consider s mask i best)
  unfolding consider
  consider-Chosen mask i none h c = elim (Bool-cases (tried mask i)) [
    | inl t ↦ rw t (λ j l. elim (split_lt j i l) [
      | inl p ↦ c j p
      | inr p ↦ subst (λ z. tried mask z ≡ true) (sym p) t
    ])
    | inr t ↦ rw t (
      h,
      t,
      λ j l u. elim (split_lt j i l) [
        | inl p ↦ absurd (grind (arith, c j p, u))
        | inr p ↦ subst (λ z. better s z i ≡ false) (sym p) (better_irrefl i)
      ],
    )
  ]
  consider-Chosen mask i (some b) h c = elim (Bool-cases (tried mask i)) [
    | inl t ↦ rw t (
      c.0,
      c.1,
      λ j l u. elim (split_lt j i l) [
        | inl p ↦ c.2 j p u
        | inr p ↦ absurd (grind (arith, u, t, p))
      ],
    )
    | inr t ↦ elim (Bool-cases (better s i b)) [
      | inl g ↦
          rw (t, g)
            (
              h,
              t,
              λ j l u. elim (split_lt j i l) [
                | inl p ↦ better_trans i b j g (c.2 j p u)
                | inr p ↦ subst (λ z. better s z i ≡ false) (sym p) (better_irrefl i)
              ],
            )
      | inr g ↦
          rw (t, g)
            (
              c.0,
              c.1,
              λ j l u. elim (split_lt j i l) [
                | inl p ↦ c.2 j p u
                | inr p ↦ subst (λ z. better s z b ≡ false) (sym p) g
              ],
            )
    ]
  ]

  candidate_from-Chosen :
      (mask left i : ℕ) (best : Option ℕ)
      → i + left ≡ s.server_count
      → Chosen mask i best
      → Chosen mask s.server_count (candidate_from s mask left i best)
  unfolding candidate_from
  candidate_from-Chosen mask zero i best e c = subst (λ n. Chosen mask n best) (omega (arith, e)) c
  candidate_from-Chosen mask (suc left) i best e c =
      candidate_from-Chosen mask left (i + 1) (consider s mask i best) (omega (arith, e))
        (consider-Chosen mask i best (omega (arith, e)) c)

  -- A candidate is a server that the mask leaves, and no server that the mask leaves is better;
  -- when there is none, the mask holds every server.
  pub candidate-Chosen : (mask : ℕ) → Chosen mask s.server_count (candidate s mask)
  unfolding candidate
  candidate-Chosen mask =
      candidate_from-Chosen mask s.server_count 0 _ (omega arith)
        (elim (Bool-cases (leb s.server_count s.best_idx)) [
          | inl out ↦ rw out (λ j l. absurd (omega arith))
          | inr inside ↦ elim (Bool-cases (tried mask s.best_idx)) [
            | inl t ↦ rw (inside, t) (λ j l. absurd (omega arith))
            | inr t ↦
                rw (inside, t)
                  (leb_false→lt s.server_count s.best_idx inside, t, λ j l u. absurd (omega arith))
          ]
        ])
