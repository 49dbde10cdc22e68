-- ===== src/Tcp/Handshake/Servers.antt =====
-- src/tcp_proxy.c: the mask of the servers that a session has tried.
use tproxy2ss.Base.{
  ℕ, zero, suc, ◌+◌, ◌^◌, ◌%◌, ◌≤◌, ◌<◌, bit_and, bit_or, ◌≡◌, ◌≢◌, inl, inr, refl, sym, ap, ◌∙◌,
  arith, Bool, true, false, ◌||◌, List, [], ◌∷◌, ◌==◌, if◌then◌else◌, Bool-cases, ==_iff,
}
use mathlib.Core.Path.{subst}
use mathlib.Core.Bool.{true≢false}
use tproxy2ss.Base.Masks.{or_self, or_other, or_keeps}
use tproxy2ss.Selector.Defs.{max_servers, tried}

-- A server is marked as tried.
abbrev pub mark : ℕ → ℕ → ℕ
mark mask next = bit_or mask (2 ^ next % 2 ^ 8)

-- The number of the servers below `n` that are not marked
unfoldable pub untried : ℕ → ℕ → ℕ
untried zero mask = 0
untried (suc n) mask = (if tried mask n then 0 else 1) + untried n mask

unfoldable pub occurs : ℕ → List ℕ → Bool
occurs x [] = false
occurs x (y ∷ l) = (x == y) || occurs x l

abbrev pub Distinct : List ℕ → Type 0
Distinct [] = Unit
Distinct (x ∷ l) = (occurs x l ≡ false) × Distinct l

-- Each of them is the index of a server, and marked.
abbrev pub Marked : ℕ → ℕ → List ℕ → Type 0
Marked n mask [] = Unit
Marked n mask (x ∷ l) = (x < n) × (tried mask x ≡ true) × Marked n mask l

tried_pos : (m i : ℕ) → tried m i ≡ true → 0 < bit_and m (2 ^ i)
unfolding tried
tried_pos m i e = ground (arith, e)

pos_tried : (m i : ℕ) → 0 < bit_and m (2 ^ i) → tried m i ≡ true
unfolding tried
pos_tried m i p = ground (arith, p)

bit_small : (b : ℕ) → b < max_servers → 2 ^ b % 2 ^ 8 ≡ 2 ^ b
bit_small zero h = refl
bit_small (suc zero) h = refl
bit_small (suc (suc zero)) h = refl
bit_small (suc (suc (suc zero))) h = refl
bit_small (suc (suc (suc (suc zero)))) h = refl
bit_small (suc (suc (suc (suc (suc zero))))) h = refl
bit_small (suc (suc (suc (suc (suc (suc zero)))))) h = refl
bit_small (suc (suc (suc (suc (suc (suc (suc zero))))))) h = refl
bit_small (suc (suc (suc (suc (suc (suc (suc (suc b)))))))) h = absurd (omega (arith, h))

module _ (b m : ℕ) (h : b < max_servers) where
  mark_eq : mark m b ≡ bit_or m (2 ^ b)
  mark_eq = ap (bit_or m) (bit_small b h)

  pub mark_self : tried (mark m b) b ≡ true
  mark_self =
      subst (λ z. tried z b ≡ true) (sym mark_eq) (pos_tried (bit_or m (2 ^ b)) b (or_self b m))

  pub mark_keeps : (i : ℕ) → tried m i ≡ true → tried (mark m b) i ≡ true
  mark_keeps i t =
      subst (λ z. tried z i ≡ true) (sym mark_eq)
        (pos_tried (bit_or m (2 ^ b)) i (or_keeps b m i (tried_pos m i t)))

  mark_other : (i : ℕ) → b ≢ i → tried (mark m b) i ≡ true → tried m i ≡ true
  mark_other i ne t =
      pos_tried m i (
        or_other b m i ne
          (tried_pos (bit_or m (2 ^ b)) i (subst (λ z. tried z i ≡ true) mark_eq t)))

  mark_same : (i : ℕ) → b ≢ i → tried (mark m b) i ≡ tried m i
  mark_same i ne = elim (Bool-cases (tried m i)) [
    | inl t ↦ mark_keeps i t ∙ sym t
    | inr f ↦ elim (Bool-cases (tried (mark m b) i)) [
      | inl t ↦ absurd (true≢false (sym (mark_other i ne t) ∙ f))
      | inr g ↦ g ∙ sym f
    ]
  ]

  untried_above : (n : ℕ) → n ≤ b → untried n (mark m b) ≡ untried n m
  unfolding untried
  untried_above zero l = refl
  untried_above (suc n) l =
      ap (λ z. (if z then 0 else 1) + untried n (mark m b))
        (mark_same n (λ e. absurd (omega (arith, e, l))))
      ∙ ap (λ z. (if tried m n then 0 else 1) + z) (untried_above n (omega (arith, l)))

  -- A mark on a server that had none
  pub untried-mark : (n : ℕ) → b < n → tried m b ≡ false → untried n (mark m b) + 1 ≡ untried n m
  unfolding untried
  untried-mark zero l f = absurd (omega (arith, l))
  untried-mark (suc n) l f = elim (Bool-cases (n == b)) [
    | inl e ↦
        let same = (==_iff n b).0 e in
        subst
          (λ z.
            (if tried (mark m b) z then 0 else 1) + untried n (mark m b) + 1
            ≡ (if tried m z then 0 else 1) + untried n m)
          (sym same) (rw (mark_self, f) (omega (arith, untried_above n (omega (arith, same)))))
    | inr ne ↦
        let other : b ≢ n = λ e. true≢false (sym ((==_iff n b).1 (sym e)) ∙ ne) in
        let below : b < n = ground (arith, l, ne) in
        rw (mark_same n other) (omega (arith, untried-mark n below f))
  ]

  pub Marked-mark : (n : ℕ) (l : List ℕ) → Marked n m l → Marked n (mark m b) l
  Marked-mark n [] u = tt
  Marked-mark n (x ∷ l) (p, t, u) = (p, mark_keeps x t, Marked-mark n l u)

-- A server without a mark is none of those that were marked.
pub unmarked-occurs :
    (n mask x : ℕ) (l : List ℕ) → Marked n mask l → tried mask x ≡ false → occurs x l ≡ false
unfolding occurs
unmarked-occurs n mask x [] u f = refl
unmarked-occurs n mask x (y ∷ l) (p, t, u) f = elim (Bool-cases (x == y)) [
  | inl e ↦ absurd (true≢false (sym t ∙ subst (λ z. tried mask z ≡ false) ((==_iff x y).0 e) f))
  | inr e ↦ rw e (unmarked-occurs n mask x l u f)
]

pub untried_bound : (n mask : ℕ) → untried n mask ≤ n
unfolding untried
untried_bound zero mask = omega arith
untried_bound (suc n) mask = elim (Bool-cases (tried mask n)) [
  | inl t ↦ rw t (omega (arith, untried_bound n mask))
  | inr t ↦ rw t (omega (arith, untried_bound n mask))
]
