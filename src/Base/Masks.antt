-- ===== src/Base/Masks.antt =====
-- Sets of small numbers as masks: `mask & (1 << i)` and `mask | (1 << i)`.
use Prim.Native.Nat.{
  ℕ, zero, suc, ◌+◌, ◌*◌, ◌/◌, ◌%◌, ◌^◌, ◌≤◌, ◌<◌, max, bit_and, bit_or, digits, bit_or-bitwise,
}
use mathlib.Core.Path.{◌≡◌, refl, ap, ◌∙◌}
use mathlib.Core.Logic.{◌≢◌}
use native.Mathlib.Nat.{pow-suc}
use native.Mathlib.Omega.{arith}
use tproxy2ss.Base.Bits.{bit_and-halves, bit_and-zero_within}

abbrev or_digits : ℕ → ℕ → ℕ → ℕ
or_digits = digits (λ b. b) max

enough_or_digits : (n m a b : ℕ) → a ≤ n → a ≤ m → or_digits n a b ≡ or_digits m a b
enough_or_digits zero zero a b p q = refl
enough_or_digits zero (suc m) zero b p q = refl
enough_or_digits zero (suc m) (suc a) b p q = absurd (omega arith)
enough_or_digits (suc n) zero zero b p q = refl
enough_or_digits (suc n) zero (suc a) b p q = absurd (omega arith)
enough_or_digits (suc n) (suc m) zero b p q = refl
enough_or_digits (suc n) (suc m) (suc a) b p q =
    omega (arith, enough_or_digits n m (suc a / 2) (b / 2) (omega arith) (omega arith))

zero-bit_or : (b : ℕ) → bit_or 0 b ≡ b
zero-bit_or b = bit_or-bitwise 0 b

-- The lowest binary digit of a disjunction, and the rest.
bit_or-halves : (a b : ℕ) → bit_or a b ≡ bit_or (a / 2) (b / 2) * 2 + max (a % 2) (b % 2)
bit_or-halves zero b = omega (arith, zero-bit_or b, zero-bit_or (b / 2))
bit_or-halves (suc a) b = omega (
  arith,
  bit_or-bitwise (suc a) b,
  bit_or-bitwise (suc a / 2) (b / 2),
  enough_or_digits a (suc a / 2) (suc a / 2) (b / 2) (omega arith) (omega arith),
)

bit_or-zero_within : (n a : ℕ) → a ≤ n → bit_or a 0 ≡ a
bit_or-zero_within n zero h = zero-bit_or 0
bit_or-zero_within zero (suc a) h = absurd (omega arith)
bit_or-zero_within (suc n) (suc a) h =
    omega (arith, bit_or-halves (suc a) 0, bit_or-zero_within n (suc a / 2) (omega arith))

-- One binary digit
and_one : (m : ℕ) → bit_and m 1 ≡ m % 2
and_one m = omega (arith, bit_and-halves m 1, bit_and-zero_within (m / 2) (m / 2) (omega arith))

and_above : (m i : ℕ) → bit_and m (2 ^ suc i) ≡ bit_and (m / 2) (2 ^ i) * 2
and_above m i =
    let h : 2 ^ suc i / 2 ≡ 2 ^ i = omega (arith, pow-suc 2 i) in
    bit_and-halves m (2 ^ suc i) ∙ omega (arith, pow-suc 2 i, ap (bit_and (m / 2)) h)

or_above :
    (m k : ℕ)
    → (bit_or m (2 ^ suc k) / 2 ≡ bit_or (m / 2) (2 ^ k)) × (bit_or m (2 ^ suc k) % 2 ≡ m % 2)
or_above m k =
    let h : 2 ^ suc k / 2 ≡ 2 ^ k = omega (arith, pow-suc 2 k) in
    let e = bit_or-halves m (2 ^ suc k) in
    (omega (arith, e, pow-suc 2 k, ap (bit_or (m / 2)) h), omega (arith, e, pow-suc 2 k))

or_one : (m : ℕ) → (bit_or m 1 / 2 ≡ m / 2) × (bit_or m 1 % 2 ≡ 1)
or_one m =
    let e = bit_or-halves m 1 in
    let z = bit_or-zero_within (m / 2) (m / 2) (omega arith) in
    (omega (arith, e, z), omega (arith, e, z))

-- The added number is in the set.
pub or_self : (k m : ℕ) → 0 < bit_and (bit_or m (2 ^ k)) (2 ^ k)
or_self zero m = omega (arith, and_one (bit_or m 1), (or_one m).1)
or_self (suc k) m = omega (
  arith,
  and_above (bit_or m (2 ^ suc k)) k,
  ap (λ x. bit_and x (2 ^ k)) (or_above m k).0,
  or_self k (m / 2),
)

-- The others stay as they were.
pub or_other :
    (k m i : ℕ) → k ≢ i → (0 < bit_and (bit_or m (2 ^ k)) (2 ^ i)) → 0 < bit_and m (2 ^ i)
or_other zero m zero n h = absurd (n refl)
or_other zero m (suc i) n h =
    omega
      (arith, h, and_above (bit_or m 1) i, and_above m i, ap (λ x. bit_and x (2 ^ i)) (or_one m).0)
or_other (suc k) m zero n h =
    omega (arith, h, and_one (bit_or m (2 ^ suc k)), and_one m, (or_above m k).1)
or_other (suc k) m (suc i) n h =
    let lower : 0 < bit_and (bit_or (m / 2) (2 ^ k)) (2 ^ i) = omega (
      arith,
      h,
      and_above (bit_or m (2 ^ suc k)) i,
      ap (λ x. bit_and x (2 ^ i)) (or_above m k).0,
    ) in
    omega (arith, and_above m i, or_other k (m / 2) i (λ e. n (ap suc e)) lower)

pub or_keeps : (k m i : ℕ) → 0 < bit_and m (2 ^ i) → 0 < bit_and (bit_or m (2 ^ k)) (2 ^ i)
or_keeps zero m zero h = omega (arith, and_one (bit_or m 1), (or_one m).1)
or_keeps zero m (suc i) h =
    omega
      (arith, h, and_above (bit_or m 1) i, and_above m i, ap (λ x. bit_and x (2 ^ i)) (or_one m).0)
or_keeps (suc k) m zero h =
    omega (arith, h, and_one (bit_or m (2 ^ suc k)), and_one m, (or_above m k).1)
or_keeps (suc k) m (suc i) h =
    let lower : 0 < bit_and (m / 2) (2 ^ i) = omega (arith, h, and_above m i) in
    omega (
      arith,
      and_above (bit_or m (2 ^ suc k)) i,
      ap (λ x. bit_and x (2 ^ i)) (or_above m k).0,
      or_keeps k (m / 2) i lower,
    )
