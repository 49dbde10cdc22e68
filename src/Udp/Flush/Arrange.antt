-- ===== src/Udp/Flush/Arrange.antt =====
-- src/udp_proxy.c, `udp_tproxy_flush_client_sends`: the slots of the messages, rearranged.
use mathlib.Core.List.{Perm, perm_middle}
use mathlib.Core.List.Perm
use tproxy2ss.Base.{
  ℕ, suc, ◌+◌, ◌≡◌, refl, sym, ap, ◌∙◌, arith, List, [], ◌∷◌, ◌++◌, append_assoc, length, get_or,
  set,
}
use mathlib.Core.Path.{subst}
use tproxy2ss.Udp.Flush.{swap}

-- A property of every element
abbrev pub Each : (ℕ → Type 0) → List ℕ → Type 0
Each P [] = Unit
Each P (x ∷ l) = P x × Each P l

pub Each-append : (P : ℕ → Type 0) (xs ys : List ℕ) → Each P xs → Each P ys → Each P (xs ++ ys)
Each-append P [] ys a b = b
Each-append P (x ∷ xs) ys a b = (a.0, Each-append P xs ys a.1 b)

pub Each-parts : (P : ℕ → Type 0) (xs ys : List ℕ) → Each P (xs ++ ys) → Each P xs × Each P ys
Each-parts P [] ys a = (tt, a)
Each-parts P (x ∷ xs) ys a = let (l, r) = Each-parts P xs ys a.1 in ((a.0, l), r)

pub get_or-middle : (xs ys : List ℕ) (y d : ℕ) → get_or (xs ++ y ∷ ys) (length xs) d ≡ y
get_or-middle [] ys y d = refl
get_or-middle (x ∷ xs) ys y d = get_or-middle xs ys y d

set-middle : (xs ys : List ℕ) (y v : ℕ) → set (xs ++ y ∷ ys) (length xs) v ≡ xs ++ v ∷ ys
set-middle [] ys y v = refl
set-middle (x ∷ xs) ys y v = ap (◌∷◌ x) (set-middle xs ys y v)

-- The exchange of two elements
pub swap-middle :
    (a b c : List ℕ) (x y : ℕ)
    → swap (a ++ x ∷ (b ++ y ∷ c)) (length a) (length a + suc (length b)) ≡ a ++ y ∷ (b ++ x ∷ c)
unfolding swap
swap-middle [] b c x y =
    let e : 0 + suc (length b) ≡ suc (length b) = omega arith in
    ap (λ j. swap (x ∷ (b ++ y ∷ c)) 0 j) e
    ∙ ap (λ z. z ∷ set (b ++ y ∷ c) (length b) x) (get_or-middle b c y 0)
    ∙ ap (◌∷◌ y) (set-middle b c y x)
swap-middle (z ∷ a) b c x y =
    let e : suc (length a) + suc (length b) ≡ suc (length a + suc (length b)) = omega arith in
    ap (λ j. swap (z ∷ (a ++ x ∷ (b ++ y ∷ c))) (suc (length a)) j) e
    ∙ ap (◌∷◌ z) (swap-middle a b c x y)

-- The elements before, in the group, between and behind, when one more is looked at
pub rearranged :
    (grp oth t : List ℕ) (x : ℕ) → Perm ((grp ++ x ∷ []) ++ (oth ++ t)) (grp ++ (oth ++ x ∷ t))
rearranged grp oth t x =
    subst (λ l. Perm l (grp ++ (oth ++ x ∷ t))) (sym (append_assoc grp (x ∷ []) (oth ++ t)))
      (Perm.append_left grp (Perm.symm (perm_middle oth t)))

pub rotated : (os t : List ℕ) (o : ℕ) → Perm ((os ++ o ∷ []) ++ t) ((o ∷ os) ++ t)
rotated os t o =
    subst (λ l. Perm l (o ∷ (os ++ t))) (sym (append_assoc os (o ∷ []) t)) (perm_middle os t)

-- The element is of the group, and nothing stands between.
pub Each-joined :
    (P : ℕ → Type 0) (grp oth t : List ℕ) (x : ℕ)
    → Each P (grp ++ (oth ++ x ∷ t))
    → Each P ((grp ++ x ∷ []) ++ (oth ++ t))
Each-joined P grp oth t x a =
    let (g, rest) = Each-parts P grp (oth ++ x ∷ t) a in
    let (o, xt) = Each-parts P oth (x ∷ t) rest in
    Each-append P (grp ++ x ∷ []) (oth ++ t) (Each-append P grp (x ∷ []) g (xt.0, tt))
      (Each-append P oth t o xt.1)

pub Each-rotated :
    (P : ℕ → Type 0) (os t : List ℕ) (o : ℕ) → Each P ((o ∷ os) ++ t) → Each P ((os ++ o ∷ []) ++ t)
Each-rotated P os t o (a, b) =
    let (l, r) = Each-parts P os t b in
    Each-append P (os ++ o ∷ []) t (Each-append P os (o ∷ []) l (a, tt)) r
