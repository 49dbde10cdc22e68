-- ===== src/Udp/Held.antt =====
-- Lists of addresses as multisets: the blocks that are held, and giving one back.
use tproxy2ss.Base.{
  ℕ, ◌+◌, ◌<◌, ◌≡◌, refl, ap, ◌∙◌, arith, false, Option, none, some, List, [], ◌∷◌, ◌++◌, ◌==◌,
  if◌then◌else◌, Bool-cases, inl, inr,
}

-- 1 where the addresses are the same
unfoldable pub one : ℕ → ℕ → ℕ
one p q = if q == p then 1 else 0

unfoldable pub count : ℕ → List ℕ → ℕ
count p [] = 0
count p (q ∷ l) = one p q + count p l

-- The block at an address is given back; `none` where no such block is held.
unfoldable pub release : ℕ → List ℕ → Option (List ℕ)
release p [] = none
release p (q ∷ l) =
    let rest = release p l in
    if q == p then some l else elim rest [ none ↦ none | some r ↦ some (q ∷ r) ]

unfoldable pub release_all : List ℕ → List ℕ → Option (List ℕ)
release_all [] l = some l
release_all (p ∷ ps) l = elim (release p l) [ none ↦ none | some r ↦ release_all ps r ]

pub count-append : (p : ℕ) (l m : List ℕ) → count p (l ++ m) ≡ count p l + count p m
unfolding count
count-append p [] m = omega arith
count-append p (q ∷ l) m = omega (arith, count-append p l m)

pub one_same : (p : ℕ) → one p p ≡ 1
unfolding one
one_same p = ground arith

pub one_other : (p q : ℕ) → q == p ≡ false → one p q ≡ 0
unfolding one
one_other p q e = rw e refl

unfoldable pub Released : ℕ → List ℕ → Option (List ℕ) → Type 0
Released p l o = (r : List ℕ) × (o ≡ some r) × ((q : ℕ) → count q l ≡ one q p + count q r)

pub release-Released : (p : ℕ) (l : List ℕ) → 0 < count p l → Released p l (release p l)
unfolding release count Released
release-Released p [] h = absurd (omega (arith, h))
release-Released p (q ∷ l) h = elim (Bool-cases (q == p)) [
  | inl e ↦
      let f : q ≡ p = ground (arith, e) in rw e (l, refl, λ x. ap (λ y. one x y + count x l) f)
  | inr e ↦
      let z : one p q ≡ 0 = one_other p q e in
      let (r, f, g) = release-Released p l (omega (arith, h, z)) in
      rw (e, f) (q ∷ r, refl, λ x. omega (arith, g x))
]

release_all-next :
    (p : ℕ) (ps l r : List ℕ) → release p l ≡ some r → release_all (p ∷ ps) l ≡ release_all ps r
unfolding release_all
release_all-next p ps l r e = simp (release_all, e) refl

pub release_all-count :
    (ps l rest : List ℕ)
    → ((q : ℕ) → count q l ≡ count q ps + count q rest)
    → (r : List ℕ) × (release_all ps l ≡ some r) × ((q : ℕ) → count q r ≡ count q rest)
unfolding release_all count Released
release_all-count [] l rest h = (l, refl, λ q. omega (arith, h q))
release_all-count (p ∷ ps) l rest h =
    let more : 0 < count p l = omega (arith, h p, one_same p) in
    let (r, e, f) = release-Released p l more in
    let (t, g, k) = release_all-count ps r rest (λ q. omega (arith, h q, f q)) in
    (t, release_all-next p ps l r e ∙ g, k)
