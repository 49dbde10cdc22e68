-- ===== src/Options/Sound.antt =====
-- src/main.c: `parse_server` accepts texts of the documented form only.
use tproxy2ss.Base.{
  ℕ, ◌+◌, ◌-◌, ◌*◌, ◌^◌, ◌≡◌, refl, sym, ap, arith, true, false, not, ◌&&◌, Option, some, none, [],
  ◌∷◌, ◌++◌, leb, ◌==◌, if◌then◌else◌, Bool-cases, inl, inr,
}
use mathlib.Core.Path.{subst, ◌∙◌}
use tproxy2ss.Base.Bytes.{Bytes}
use tproxy2ss.Base.Number.{
  is_digit, is_space, skip_space, read_digits, starts_digit, read_sign, strtoul,
}
use tproxy2ss.Base.Partial.{
  Ensures-imp, ◌>>=◌, Ensures, fails, gives, Ensures-bind, Ensures-guard, Ensures-if,
}
use tproxy2ss.Options.Numbers.{
  v6, Method, aes_128_gcm, aes_256_gcm, System, is_family, get_ipstr_family,
}
use tproxy2ss.Options.Server.{
  method_128, method_256, split_at, strip, fits_ipstr, port_of, parse_port, parse_method,
  parse_bracketed, parse_plain, parse_addr, parse_server,
}
use tproxy2ss.Options.Accepted.{InRange, parse_psk-accepts}
use tproxy2ss.Options.Grammar.{
  Lacks, Digits, decimal, Unbracketed, method_name, IsPort, port, IsAddr, plain, bracketed, IsSpec,
  spec,
}

-- `split_at` cuts at the first occurrence of the character.
Cuts : ℕ → Bytes → Bytes × Bytes → Type 0
Cuts c s r = (r.0 ++ c ∷ r.1 ≡ s) × Lacks c r.0

split_at-Cuts : (c : ℕ) (s : Bytes) → Ensures (Cuts c s) (split_at c s)
unfolding split_at Cuts Lacks
split_at-Cuts c [] = fails
split_at-Cuts c (b ∷ s) =
    Ensures-if (b == c) (λ e. gives (ground (arith, e), tt))
      (λ e. Ensures-bind (split_at-Cuts c s) (λ r v. gives (ap (λ l. b ∷ l) v.0, (e, v.1))))

cons_eq : (c b : ℕ) (x y : Bytes) → b == c ≡ true → x ≡ y → c ∷ x ≡ b ∷ y
cons_eq c b x y e f = let g : c ≡ b = ground (arith, e) in rw (g, f) refl

strip-prefix : (p s : Bytes) → Ensures (λ rest. p ++ rest ≡ s) (strip p s)
unfolding strip
strip-prefix [] s = gives refl
strip-prefix (c ∷ p) [] = fails
strip-prefix (c ∷ p) (b ∷ s) =
    Ensures-if (b == c)
      (λ e. Ensures-imp (strip-prefix p s) (λ rest v. cons_eq c b (p ++ rest) s e v)) (λ e. fails)

read_digits-Digits :
    (acc : ℕ) (s : Bytes)
    → (ds : Bytes) × Digits ds
      × (ds ++ (read_digits acc s).1 ≡ s)
      × (decimal acc ds ≡ (read_digits acc s).0)
unfolding read_digits Digits decimal
read_digits-Digits acc [] = ([], tt, refl, refl)
read_digits-Digits acc (c ∷ s) = elim (Bool-cases (is_digit c)) [
  | inl e ↦
      let (ds, d, f, g) = read_digits-Digits (10 * acc + (c - b'0')) s in
      simp e (c ∷ ds, (e, d), ap (λ l. c ∷ l) f, g)
  | inr e ↦ simp e ([], tt, refl, refl)
]

-- A text that begins with a digit is read as its digits.
abbrev pub saturated : ℕ → ℕ
saturated n = if leb (2 ^ 64) n then 2 ^ 64 - 1 else n

skip_space-digit : (c : ℕ) (s : Bytes) → is_digit c ≡ true → skip_space (c ∷ s) ≡ c ∷ s
unfolding skip_space is_digit is_space
skip_space-digit c s e = ground (arith, e)

read_sign-digit : (c : ℕ) (s : Bytes) → is_digit c ≡ true → read_sign (c ∷ s) ≡ (false, c ∷ s)
unfolding read_sign is_digit
read_sign-digit c s e = ground (arith, e)

pub strtoul-digits :
    (s : Bytes)
    → starts_digit s ≡ true
    → strtoul s ≡ (saturated (read_digits 0 s).0, (read_digits 0 s).1)
unfolding starts_digit strtoul
strtoul-digits [] e = ground (arith, e)
strtoul-digits (c ∷ s) e = simp (skip_space-digit c s e, read_sign-digit c s e, e) refl

port_of-IsPort :
    (ds : Bytes) (n : ℕ) (rest : Bytes)
    → Digits ds
    → decimal 0 ds ≡ n
    → Ensures (IsPort (ds ++ rest)) (port_of (saturated n, rest))
unfolding port_of
port_of-IsPort ds n [] d e = fails
port_of-IsPort ds n (c ∷ rest) d e =
    Ensures-guard (c == b':' && (not (saturated n == 0) && leb (saturated n) 65535)) (λ g.
      let f : c ≡ b':' = ground (arith, g) in
      let h : saturated n ≡ n = ground (arith, g) in
      let i : InRange 65535 n = ground (arith, g) in rw (f, h) (gives (port ds d e i)))

parse_port-IsPort : (p : Bytes) → Ensures (IsPort p) (parse_port p)
unfolding parse_port
parse_port-IsPort p = Ensures-guard (starts_digit p) (λ e.
    let (ds, d, f, g) = read_digits-Digits 0 p in
    rw (strtoul-digits p e) (
      subst (λ t. Ensures (IsPort t) (port_of (saturated (read_digits 0 p).0, (read_digits 0 p).1)))
        f (port_of-IsPort ds (read_digits 0 p).0 (read_digits 0 p).1 d g)))

Names : Bytes → Method × Bytes → Type 0
Names p r = method_name r.0 ++ r.1 ≡ p

parse_method-Names : (p : Bytes) → Ensures (Names p) (parse_method p)
unfolding parse_method Names
parse_method-Names p =
    named (strip method_128 p) (strip method_256 p) (strip-prefix method_128 p)
      (strip-prefix method_256 p)
  where
    named :
        (x y : Option Bytes)
        → Ensures (λ rest. method_128 ++ rest ≡ p) x
        → Ensures (λ rest. method_256 ++ rest ≡ p) y
        → Ensures (Names p) (elim x [
          | some rest ↦ some (aes_128_gcm, rest)
          | none ↦ (do rest ← y; some (aes_256_gcm, rest))
        ])
    named (some rest) y (gives e) f = gives e
    named none y e f = Ensures-bind f (λ rest g. gives g)

module _ (sys : System) where
  Unbracketed-append : (a b : Bytes) → Unbracketed (a ++ b) → Unbracketed a
  unfolding Unbracketed
  Unbracketed-append [] b u = tt
  Unbracketed-append (c ∷ a) b u = u

  parse_plain-IsAddr : (p : Bytes) → Unbracketed p → Ensures (IsAddr sys p) (parse_plain sys p)
  unfolding parse_plain Cuts
  parse_plain-IsAddr p u = Ensures-bind (split_at-Cuts b':' p) (λ r v.
      Ensures-guard (fits_ipstr r.0) (λ e.
        Ensures-guard (is_family none (get_ipstr_family sys r.0)) (λ f.
          let w : Unbracketed r.0 =
            Unbracketed-append r.0 (b':' ∷ r.1) (subst Unbracketed (sym v.0) u) in
          gives (subst (λ t. IsAddr sys t r) v.0 (plain r.0 w v.1 e f)))))

  parse_bracketed-IsAddr : (p : Bytes) → Ensures (IsAddr sys (b'[' ∷ p)) (parse_bracketed sys p)
  unfolding parse_bracketed Cuts
  parse_bracketed-IsAddr p = Ensures-bind (split_at-Cuts b']' p) (λ r v.
      Ensures-bind (strip-prefix (b':' ∷ []) r.1) (λ rest w. Ensures-guard (fits_ipstr r.0) (λ e.
        Ensures-guard (is_family (some v6) (get_ipstr_family sys r.0)) (λ f.
          let q : r.0 ++ b']' ∷ b':' ∷ rest ≡ p = ap (λ t. r.0 ++ b']' ∷ t) w ∙ v.0 in
          gives (subst (λ t. IsAddr sys (b'[' ∷ t) (r.0, rest)) q (bracketed r.0 v.1 e f))))))

  parse_addr-IsAddr : (p : Bytes) → Ensures (IsAddr sys p) (parse_addr sys p)
  unfolding parse_addr Unbracketed
  parse_addr-IsAddr [] = parse_plain-IsAddr [] tt
  parse_addr-IsAddr (c ∷ p) =
      Ensures-if (c == b'[')
        (λ e. let f : c ≡ b'[' = ground (arith, e) in rw f (parse_bracketed-IsAddr p))
        (λ e. parse_plain-IsAddr (c ∷ p) e)

  pub parse_server-IsSpec : (str : Bytes) → Ensures (IsSpec sys str) (parse_server sys str)
  unfolding parse_server Names
  parse_server-IsSpec str = Ensures-bind (parse_addr-IsAddr str) (λ a f.
      Ensures-bind (parse_port-IsPort a.1) (λ b g. Ensures-bind (parse_method-Names b.1) (λ m h.
        Ensures-bind (parse_psk-accepts sys m.0 m.1) (λ psk (i, j, k).
          let q : IsPort a.1 (b.0, method_name m.0 ++ psk) =
            subst (λ t. IsPort a.1 (b.0, t)) (sym h ∙ ap (λ t. method_name m.0 ++ t) i) g in
          gives (spec a.0 b.0 m.0 f q j k)))))
