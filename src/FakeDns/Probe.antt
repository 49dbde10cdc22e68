-- ===== src/FakeDns/Probe.antt =====
-- src/fakedns.c: the probe loop of `fakedns_lookup_domain`.
use tproxy2ss.Base.{
  ℕ, zero, suc, ◌-◌, ◌<◌, ◌≡◌, ◌≢◌, ◌⊎◌, inl, inr, refl, sym, ap, ◌∙◌, arith, bit_and, true, false,
  Option, none, some, Bool-cases, Option-cases, if◌then◌else◌, ◌==◌,
}
use mathlib.Core.Path.{subst}
use native.Mathlib.Decide.{ℕ_discrete}
use tproxy2ss.Base.Word.{u32_max, add32}
use tproxy2ss.Base.Bytes.{Bytes, strcmp_eq}
use tproxy2ss.FakeDns.Defs.{Entry, FakeDns, slot}
use tproxy2ss.FakeDns.Lookup.{Scan, matched, vacant, exhausted, is_expired, note_expired, scan}
use tproxy2ss.FakeDns.Valid.{Range, masked-lt}

-- `first_expired_offset` is unset, or an offset at which an expired entry stands.
abbrev pub IsNote : FakeDns → ℕ → ℕ → Type 0
IsNote p now f =
    (f ≡ u32_max)
    ⊎ ((f < p.pool_size) × (e : Entry) × (slot p f ≡ some e) × (is_expired e now ≡ true))

-- What the loop reports is so.
abbrev pub Reports : FakeDns → Bytes → ℕ → Scan → Type 0
Reports p domain now (matched i e) =
    (i < p.pool_size) × (slot p i ≡ some e) × (strcmp_eq e.domain domain ≡ true)
Reports p domain now (vacant i f) = (i < p.pool_size) × (slot p i ≡ none) × IsNote p now f
Reports p domain now (exhausted f) = IsNote p now f

-- `first_expired_offset` stays, or is set to this offset for the first expired entry.
note_expired-cases :
    (now : ℕ) (e : Entry) (i f : ℕ)
    → (note_expired now e i f ≡ f)
      ⊎ ((note_expired now e i f ≡ i) × (f ≡ u32_max) × (is_expired e now ≡ true))
unfolding note_expired
note_expired-cases now e i f = elim (Bool-cases (is_expired e now)) [
  | inl old ↦ ground arith
  | inr new ↦ ground arith
]

note_expired-ne : (now : ℕ) (e : Entry) (i f w : ℕ) → i ≢ w → f ≢ w → note_expired now e i f ≢ w
note_expired-ne now e i f w away ne = ground (arith, note_expired-cases now e i f)

module _ (p : FakeDns) (domain : Bytes) (step now n offset f : ℕ) where
  scan-exhausted : scan p domain step now zero offset f ≡ exhausted f
  unfolding scan
  scan-exhausted = refl

  scan-vacant : slot p offset ≡ none → scan p domain step now (suc n) offset f ≡ vacant offset f
  unfolding scan
  scan-vacant s = rw (s, scan)

  scan-matched :
      (e : Entry)
      → slot p offset ≡ some e
      → strcmp_eq e.domain domain ≡ true
      → scan p domain step now (suc n) offset f ≡ matched offset e
  unfolding scan
  scan-matched e s m = rw (s, scan, m)

  scan-next :
      (e : Entry)
      → slot p offset ≡ some e
      → strcmp_eq e.domain domain ≡ false
      → scan p domain step now (suc n) offset f
        ≡ scan p domain step now n
            (bit_and (add32 offset step) (p.pool_size - 1))
            (note_expired now e offset f)
  unfolding scan
  scan-next e s m = rw (s, scan, m)

module _ {j k q : ℕ} {p : FakeDns} (r : Range j k q p) (domain : Bytes) (step now : ℕ) where
  note_expired-IsNote :
      (e : Entry) (i f : ℕ)
      → i < p.pool_size
      → slot p i ≡ some e
      → IsNote p now f
      → IsNote p now (note_expired now e i f)
  note_expired-IsNote e i f h s note = elim (note_expired-cases now e i f) [
    | inl same ↦ subst (IsNote p now) (sym same) note
    | inr (here, unset, old) ↦ subst (IsNote p now) (sym here) (inr (h, e, s, old))
  ]

  pub scan-Reports :
      (rounds offset f : ℕ)
      → offset < p.pool_size
      → IsNote p now f
      → Reports p domain now (scan p domain step now rounds offset f)
  unfolding scan
  scan-Reports zero offset f h note = note
  scan-Reports (suc n) offset f h note = elim (Option-cases (slot p offset)) [
    | inl empty ↦
        subst (Reports p domain now) (sym (scan-vacant p domain step now n offset f empty))
          (h, empty, note)
    | inr (e, s) ↦ elim (Bool-cases (strcmp_eq e.domain domain)) [
      | inl same ↦
          subst (Reports p domain now) (sym (scan-matched p domain step now n offset f e s same))
            (h, s, same)
      | inr other ↦
          subst (Reports p domain now) (sym (scan-next p domain step now n offset f e s other)) (
            scan-Reports n (bit_and (add32 offset step) (p.pool_size - 1))
              (note_expired now e offset f) (masked-lt r (add32 offset step))
              (note_expired-IsNote e offset f h s note))
    ]
  ]

-- The offset that phase 2 touches after the loop, if any.
abbrev pub target : Scan → Option ℕ
target (matched i e) = some i
target (vacant i f) = if f == u32_max then some i else some f
target (exhausted f) = if f == u32_max then none else some f

-- In a pool with the same range that differs at `w` only and holds an entry for the domain there,
-- the loop ends at `w` whenever it had `w` as its target.
pub scan-target :
    (p p' : FakeDns) (domain : Bytes) (step now now' w : ℕ) (e' : Entry)
    → p'.pool_size ≡ p.pool_size
    → ((i : ℕ) → i ≢ w → slot p' i ≡ slot p i)
    → slot p' w ≡ some e'
    → strcmp_eq e'.domain domain ≡ true
    → (rounds offset f f' : ℕ) → f ≢ w
    → target (scan p domain step now rounds offset f) ≡ some w
    → scan p' domain step now' rounds offset f' ≡ matched w e'
scan-target p p' domain step now now' w e' size same there match zero offset f f' ne t =
    let t' = subst (λ x. target x ≡ some w) (scan-exhausted p domain step now 0 offset f) t in
    absurd (ground arith)
scan-target p p' domain step now now' w e' size same there match (suc n) offset f f' ne t =
    elim (ℕ_discrete offset w) [
      | yes here ↦
          scan-matched p' domain step now' n offset f' e' (rw here there) match
          ∙ ap (λ i. matched i e') here
      | no away ↦ elim (Option-cases (slot p offset)) [
        | inl empty ↦
            let t' =
              subst (λ x. target x ≡ some w) (scan-vacant p domain step now n offset f empty) t in
            absurd (ground arith)
        | inr (e, s) ↦ elim (Bool-cases (strcmp_eq e.domain domain)) [
          | inl found ↦
              let t' =
                subst (λ x. target x ≡ some w) (scan-matched p domain step now n offset f e s found)
                  t in
              absurd (ground arith)
          | inr other ↦
              scan-next p' domain step now' n offset f' e (same offset away ∙ s) other
              ∙ ap
                  (λ o.
                    scan p' domain step now' n (bit_and (add32 offset step) (o - 1))
                      (note_expired now' e offset f'))
                  size
              ∙ scan-target p p' domain step now now' w e' size same there match n
                  (bit_and (add32 offset step) (p.pool_size - 1)) (note_expired now e offset f)
                  (note_expired now' e offset f') (note_expired-ne now e offset f w away ne)
                  (subst (λ x. target x ≡ some w) (scan-next p domain step now n offset f e s other)
                    t)
        ]
      ]
    ]
