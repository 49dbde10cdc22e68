-- ===== src/Base/Number.antt =====
-- Decimal numbers as the C library reads them: `strtol` and `strtoul` in base 10.
use Prim.Native.Nat.{ℕ, zero, suc, ◌+◌, ◌-◌, ◌*◌, ◌^◌, ◌%◌, min}
use mathlib.Core.Bool.{Bool, true, false, ◌&&◌, ◌||◌}
use mathlib.Core.List.{[], ◌∷◌}
use tproxy2ss.Base.Bytes.{Bytes}
use tproxy2ss.Base.Tests.{◌==◌, leb, if◌then◌else◌}

-- `negsuc n` is -(n + 1).
pub data ℤ : Type 0 where
  pos : ℕ → ℤ
  negsuc : ℕ → ℤ

unfoldable pub is_digit : ℕ → Bool
is_digit c = leb b'0' c && leb c b'9'

-- `isspace` in the C locale
unfoldable pub is_space : ℕ → Bool
is_space c = c == 32 || (leb 9 c && leb c 13)

unfoldable pub skip_space : Bytes → Bytes
skip_space [] = []
skip_space (c ∷ cs) = if is_space c then skip_space cs else c ∷ cs

-- The number that begins a text, and what follows it.
unfoldable pub read_digits : ℕ → Bytes → ℕ × Bytes
read_digits acc [] = (acc, [])
read_digits acc (c ∷ cs) =
    let rest = read_digits (10 * acc + (c - b'0')) cs in if is_digit c then rest else (acc, c ∷ cs)

unfoldable pub starts_digit : Bytes → Bool
starts_digit [] = false
starts_digit (c ∷ cs) = is_digit c

-- The sign in front of the digits
unfoldable pub read_sign : Bytes → Bool × Bytes
read_sign [] = (false, [])
read_sign (c ∷ cs) =
    if c == b'-' then (true, cs) else if c == b'+' then (false, cs) else (false, c ∷ cs)

abbrev signed : Bool → ℕ → ℤ
signed false n = pos n
signed true zero = pos 0
signed true (suc n) = negsuc n

-- `strtol(s, &endptr, 10)`: the value, clamped to a `long`, and the text at `endptr`.
unfoldable pub strtol : Bytes → ℤ × Bytes
strtol s =
    let (negative, digits) = read_sign (skip_space s) in
    let (n, rest) = read_digits 0 digits in
    let limit = if negative then 2 ^ 63 else 2 ^ 63 - 1 in
    if starts_digit digits then (signed negative (min n limit), rest) else (pos 0, s)

-- `strtoul(s, &endptr, 10)`: a minus sign negates modulo 2^64, and a number that is too large
-- gives ULONG_MAX.
unfoldable pub strtoul : Bytes → ℕ × Bytes
strtoul s =
    let (negative, digits) = read_sign (skip_space s) in
    let (n, rest) = read_digits 0 digits in
    let value =
      if leb (2 ^ 64) n then 2 ^ 64 - 1 else if negative then (2 ^ 64 - n) % 2 ^ 64 else n in
    if starts_digit digits then (value, rest) else (0, s)
