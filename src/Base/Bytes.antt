-- ===== src/Base/Bytes.antt =====
-- Text as the C code sees it: a list of bytes, read up to the first NUL by the string functions.
use Prim.Native.Nat.{ℕ, zero, suc, ◌+◌, ◌≤◌, ◌<◌}
use mathlib.Core.Path.{◌≡◌, refl}
use mathlib.Core.Logic.{◌↔◌}
use mathlib.Core.Bool.{Bool, true, false, ◌&&◌}
use mathlib.Core.List.{List, [], ◌∷◌}
use native.Mathlib.Omega.{arith}
use tproxy2ss.Base.Tests.{◌==◌, leb, if◌then◌else◌}
use tproxy2ss.Base.Lists.{length, take}

abbrev pub Bytes : Type 0
Bytes = List ℕ

unfoldable pub bytes_eq : Bytes → Bytes → Bool
bytes_eq [] [] = true
bytes_eq [] (y ∷ ys) = false
bytes_eq (x ∷ xs) [] = false
bytes_eq (x ∷ xs) (y ∷ ys) = x == y && bytes_eq xs ys

pub bytes_eq_iff : (xs ys : Bytes) → (bytes_eq xs ys ≡ true) ↔ (xs ≡ ys)
unfolding bytes_eq
bytes_eq_iff [] [] = ((λ _. refl), λ _. refl)
bytes_eq_iff [] (y ∷ ys) = ground arith
bytes_eq_iff (x ∷ xs) [] = ground arith
bytes_eq_iff (x ∷ xs) (y ∷ ys) = ground (arith, bytes_eq_iff xs ys)

pub bytes_eq_self : (xs : Bytes) → bytes_eq xs xs ≡ true
bytes_eq_self xs = (bytes_eq_iff xs xs).1 refl

-- The C string that begins a buffer: what stands before the first NUL.
unfoldable pub c_str : Bytes → Bytes
c_str [] = []
c_str (x ∷ xs) = if x == 0 then [] else x ∷ c_str xs

-- `strcmp(a, b) == 0`
unfoldable pub strcmp_eq : Bytes → Bytes → Bool
unfolding bytes_eq c_str
strcmp_eq a b = bytes_eq (c_str a) (c_str b)

-- No byte of the text is NUL.
abbrev pub IsText : Bytes → Type 0
IsText [] = Unit
IsText (x ∷ xs) = (0 < x) × IsText xs

pub c_str-text : (xs : Bytes) → IsText xs → c_str xs ≡ xs
unfolding c_str
c_str-text [] h = refl
c_str-text (x ∷ xs) h = ground (arith, c_str-text xs h.1)

pub c_str-IsText : (xs : Bytes) → IsText (c_str xs)
unfolding c_str
c_str-IsText [] = tt
c_str-IsText (x ∷ xs) = ground (arith, c_str-IsText xs)

pub take-c_str : (n : ℕ) (xs : Bytes) → take n (c_str xs) ≡ c_str (take n xs)
unfolding c_str
take-c_str zero xs = refl
take-c_str (suc n) [] = refl
take-c_str (suc n) (x ∷ xs) = ground (arith, take-c_str n xs)

pub c_str-c_str : (xs : Bytes) → c_str (c_str xs) ≡ c_str xs
c_str-c_str xs = c_str-text (c_str xs) (c_str-IsText xs)

pub length-c_str-le : (xs : Bytes) → length (c_str xs) ≤ length xs
unfolding c_str
length-c_str-le [] = omega arith
length-c_str-le (x ∷ xs) = ground (arith, length-c_str-le xs)

-- ASCII letters in lower case, as `strncasecmp` compares them
unfoldable pub lower : ℕ → ℕ
lower c = if leb 65 c && leb c 90 then c + 32 else c
