-- ===== src/Base/Partial.antt =====
-- Chains of steps that fail by `none`, and what holds of their results.
use mathlib.Core.Path.{◌≡◌, refl}
use mathlib.Core.Bool.{Bool, true, false}
use mathlib.Core.Option.{Option, none, some}
use tproxy2ss.Base.Tests.{if◌then◌else◌}

infixl 5 ◌>>=◌ ◌>>◌
abbrev pub ◌>>=◌ : {A B : Type 0} → Option A → (A → Option B) → Option B
none >>= f = none
some a >>= f = f a

abbrev pub ◌>>◌ : {B : Type 0} → Option (Unit {0}) → Option B → Option B
m >> k = m >>= λ u. k

abbrev pub guard : Bool → Option (Unit {0})
guard true = some tt
guard false = none

-- The result, if there is one, has the property.
pub data Ensures {A : Type 0} (P : A → Type 0) : Option A → Type 0 where
  fails : Ensures P none
  gives : {a : A} → P a → Ensures P (some a)

pub Ensures-some : {A : Type 0} {P : A → Type 0} {a : A} → Ensures P (some a) → P a
Ensures-some (gives p) = p

pub Ensures-imp :
    {A : Type 0} {P Q : A → Type 0} {o : Option A}
    → Ensures P o
    → ((a : A) → P a → Q a)
    → Ensures Q o
Ensures-imp fails k = fails
Ensures-imp (gives p) k = gives (k _ p)

module _ {A B : Type 0} {P : A → Type 0} {Q : B → Type 0} where
  pub Ensures-bind :
      {o : Option A} {f : A → Option B}
      → Ensures P o
      → ((a : A) → P a → Ensures Q (f a))
      → Ensures Q (o >>= f)
  Ensures-bind fails k = fails
  Ensures-bind (gives p) k = k _ p

module _ {B : Type 0} {Q : B → Type 0} where
  pub Ensures-guard :
      {k : Option B} (b : Bool) → (b ≡ true → Ensures Q k) → Ensures Q (guard b >> k)
  Ensures-guard true k = k refl
  Ensures-guard false k = fails

  pub Ensures-if :
      {x y : Option B} (b : Bool)
      → (b ≡ true → Ensures Q x)
      → (b ≡ false → Ensures Q y)
      → Ensures Q (if b then x else y)
  Ensures-if true p q = p refl
  Ensures-if false p q = q refl
