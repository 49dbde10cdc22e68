-- ===== src/Base/Word.antt =====
-- `uint32_t` as a number below 2^32: differences, the reading as `int32_t`, and the byte order.
use Prim.Native.Nat.{ℕ, ◌+◌, ◌-◌, ◌*◌, ◌/◌, ◌%◌, ◌^◌, ◌<◌}
use mathlib.Core.Path.{◌≡◌}
use mathlib.Core.Bool.{Bool}
use mathlib.Core.List.{List, [], ◌∷◌}
use native.Mathlib.Omega.{arith}
use tproxy2ss.Base.Tests.{leb}

abbrev pub u32 : ℕ
u32 = 2 ^ 32

abbrev pub u32_max : ℕ
u32_max = 2 ^ 32 - 1

abbrev pub add32 : ℕ → ℕ → ℕ
add32 a b = (a + b) % u32

-- `-` on ℕ stops at 0, so the modulus is added first.
abbrev pub sub32 : ℕ → ℕ → ℕ
sub32 a b = (a + u32 - b) % u32

-- `(int32_t)w < 0`
abbrev pub is_negative : ℕ → Bool
is_negative w = leb (2 ^ 31) w

-- `htonl`, and `ntohl`, on a little-endian machine: the four bytes in the other order.
unfoldable pub htonl : ℕ → ℕ
htonl x = x % 256 * 2 ^ 24 + x / 2 ^ 8 % 256 * 2 ^ 16 + x / 2 ^ 16 % 256 * 2 ^ 8 + x / 2 ^ 24 % 256

pub htonl-htonl : (x : ℕ) → x < u32 → htonl (htonl x) ≡ x
unfolding htonl
htonl-htonl x h = omega arith

pub htonl-lt : (x : ℕ) → htonl x < u32
unfolding htonl
htonl-lt x = omega arith

-- The bytes of a `uint32_t` as `memcpy` moves them, on a little-endian machine.
unfoldable pub raw32 : ℕ → List ℕ
raw32 x = x % 256 ∷ x / 2 ^ 8 % 256 ∷ x / 2 ^ 16 % 256 ∷ x / 2 ^ 24 % 256 ∷ []

-- The same for a `uint16_t`
unfoldable pub raw16 : ℕ → List ℕ
raw16 x = x % 256 ∷ x / 2 ^ 8 % 256 ∷ []
