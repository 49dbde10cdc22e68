-- ===== src/Base/Bits.antt =====
-- `x & (2^k - 1)` and `x & ~(2^k - 1)` as arithmetic, at every width.
use Prim.Native.Nat.{
  ℕ, zero, suc, ◌+◌, ◌-◌, ◌*◌, ◌/◌, ◌%◌, ◌^◌, ◌≤◌, ◌<◌, min, bit_and, digits, bit_and-bitwise,
}
use mathlib.Core.Path.{◌≡◌, refl, ap, subst, ◌∙◌}
use native.Mathlib.Nat.{pow-suc, one-le-pow, div-add-mod', mod-lt, mod-eq_of_lt, div-lt_iff_lt-mul}
use native.Mathlib.Omega.{arith}

abbrev and_digits : ℕ → ℕ → ℕ → ℕ
and_digits = digits (λ b. zero) min

enough_digits : (n m a b : ℕ) → a ≤ n → a ≤ m → and_digits n a b ≡ and_digits m a b
enough_digits zero zero a b p q = refl
enough_digits zero (suc m) zero b p q = refl
enough_digits zero (suc m) (suc a) b p q = absurd (omega arith)
enough_digits (suc n) zero zero b p q = refl
enough_digits (suc n) zero (suc a) b p q = absurd (omega arith)
enough_digits (suc n) (suc m) zero b p q = refl
enough_digits (suc n) (suc m) (suc a) b p q =
    omega (arith, enough_digits n m (suc a / 2) (b / 2) (omega arith) (omega arith))

pub zero-bit_and : (b : ℕ) → bit_and 0 b ≡ 0
zero-bit_and b = bit_and-bitwise 0 b

-- The lowest binary digit of a conjunction, and the rest.
pub bit_and-halves : (a b : ℕ) → bit_and a b ≡ bit_and (a / 2) (b / 2) * 2 + min (a % 2) (b % 2)
bit_and-halves zero b = omega (arith, zero-bit_and b, zero-bit_and (b / 2))
bit_and-halves (suc a) b = omega (
  arith,
  bit_and-bitwise (suc a) b,
  bit_and-bitwise (suc a / 2) (b / 2),
  enough_digits a (suc a / 2) (suc a / 2) (b / 2) (omega arith) (omega arith),
)

pub bit_and-zero_within : (n a : ℕ) → a ≤ n → bit_and a 0 ≡ 0
bit_and-zero_within n zero h = zero-bit_and 0
bit_and-zero_within zero (suc a) h = absurd (omega arith)
bit_and-zero_within (suc n) (suc a) h =
    omega (arith, bit_and-halves (suc a) 0, bit_and-zero_within n (suc a / 2) (omega arith))

pow_double : (k q : ℕ) → q * 2 ^ suc k ≡ 2 * (q * 2 ^ k)
pow_double k q = omega (arith, ap (λ (t : ℕ). q * t) (pow-suc 2 k))

halves_of_ones :
    (k q r : ℕ) → ((q * 2 ^ suc k + r) / 2 ≡ q * 2 ^ k + r / 2) × ((2 ^ suc k - 1) / 2 ≡ 2 ^ k - 1)
halves_of_ones k q r = omega (arith, pow_double k q, pow-suc 2 k, one-le-pow k 2)

bit_and-low_part : (k q r : ℕ) → r < 2 ^ k → bit_and (q * 2 ^ k + r) (2 ^ k - 1) ≡ r
bit_and-low_part zero q r h = omega (arith, bit_and-zero_within (q * 1 + r) (q * 1 + r))
bit_and-low_part (suc k) q r h =
    let ih = bit_and-low_part k q (r / 2) (omega (arith, pow-suc 2 k)) in
    let (top, ones) = halves_of_ones k q r in
    rw (bit_and-halves (q * 2 ^ suc k + r) (2 ^ suc k - 1), top, ones, ih)
      (omega (arith, pow_double k q, pow-suc 2 k, one-le-pow k 2))

-- `a & (2^k - 1)` is the remainder by `2^k`.
pub bit_and-low : (k a : ℕ) → bit_and a (2 ^ k - 1) ≡ a % 2 ^ k
bit_and-low k a =
    let e : a / 2 ^ k * 2 ^ k + a % 2 ^ k ≡ a = div-add-mod' a (2 ^ k) in
    subst (λ x. bit_and x (2 ^ k - 1) ≡ a % 2 ^ k) e
      (bit_and-low_part k (a / 2 ^ k) (a % 2 ^ k) (mod-lt a (omega (arith, one-le-pow k 2))))

bit_and-shift :
    (k q r m : ℕ) → r < 2 ^ k → bit_and (q * 2 ^ k + r) (m * 2 ^ k) ≡ bit_and q m * 2 ^ k
bit_and-shift zero q r m h =
    let e : q * 1 + r ≡ q = omega arith in
    let e' : m * 1 ≡ m = omega arith in rw (e, e') (omega arith)
bit_and-shift (suc k) q r m h =
    let ih = bit_and-shift k q (r / 2) m (omega (arith, pow-suc 2 k)) in
    let (top, _) = halves_of_ones k q r in
    let low : m * 2 ^ suc k / 2 ≡ m * 2 ^ k = omega (arith, pow_double k m) in
    rw (bit_and-halves (q * 2 ^ suc k + r) (m * 2 ^ suc k), top, low, ih)
      (omega (arith, pow_double k q, pow_double k m, pow_double k (bit_and q m)))

-- `a & (~0 << k)` clears the low `k` bits of a word of `j + k` bits.
pub bit_and-high :
    (j k a : ℕ) → a < 2 ^ j * 2 ^ k → bit_and a ((2 ^ j - 1) * 2 ^ k) ≡ a / 2 ^ k * 2 ^ k
bit_and-high j k a h =
    let pos : 0 < 2 ^ k = omega (arith, one-le-pow k 2) in
    let e : a / 2 ^ k * 2 ^ k + a % 2 ^ k ≡ a = div-add-mod' a (2 ^ k) in
    let fits : a / 2 ^ k < 2 ^ j = (div-lt_iff_lt-mul pos).1 h in
    subst (λ x. bit_and x ((2 ^ j - 1) * 2 ^ k) ≡ a / 2 ^ k * 2 ^ k) e
      (bit_and-shift k (a / 2 ^ k) (a % 2 ^ k) (2 ^ j - 1) (mod-lt a pos)
        ∙ ap (λ (t : ℕ). t * 2 ^ k) (bit_and-low j (a / 2 ^ k) ∙ mod-eq_of_lt fits))
