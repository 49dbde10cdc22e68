-- ===== src/FakeDns/Reload/Loop.antt =====
-- src/fakedns.c, `fakedns_load`: the loop over the entries that `fakedns_save` wrote.
use tproxy2ss.Base.{
  ℕ, suc, ◌+◌, ◌≤◌, ◌<◌, ◌≡◌, refl, sym, ap, ◌∙◌, arith, true, false, Option, none, some, List, [],
  ◌∷◌, ◌++◌, append_assoc, length, length-append, length-replicate, set, replicate, map,
  if◌then◌else◌, Bool-cases, inl, inr,
}
use mathlib.Core.Path.{subst}
use tproxy2ss.Base.Word.{add32, htonl}
use tproxy2ss.Base.Bytes.{Bytes}
use tproxy2ss.FakeDns.Defs.{max_domain_len, Entry, FakeDns, slot_of, slot, ip_at}
use tproxy2ss.FakeDns.Valid.{Range}
use tproxy2ss.FakeDns.File.{is_saved, saved_entry, saved_entries, saved_count, load_entries}
use tproxy2ss.FakeDns.Reload.Item.{reloaded, filled, Range-filled, load_entries-saved_entry}

-- What becomes of a cell: an entry that has not expired comes back, any other is lost.
unfoldable pub restored : ℕ → ℕ → Option Entry → Option Entry
restored now later none = none
restored now later (some e) = if is_saved now (some e) then some (reloaded later e) else none

-- The entries from an offset on have the addresses of their slots.
pub AreAt : ℕ → ℕ → List (Option Entry) → Type 0
AreAt net i [] = Unit
AreAt net i (none ∷ l) = AreAt net (suc i) l
AreAt net i (some e ∷ l) =
    (e.ip ≡ htonl (add32 net i)) × (length e.domain < max_domain_len) × AreAt net (suc i) l

length-onward :
    (pre : List (Option Entry)) (c : Option Entry) → length (pre ++ c ∷ []) ≡ suc (length pre)
length-onward pre c = omega (arith, length-append pre (c ∷ []))

AreAt-onward :
    (net : ℕ) (pre l : List (Option Entry)) (c : Option Entry)
    → AreAt net (suc (length pre)) l
    → AreAt net (length (pre ++ c ∷ [])) l
AreAt-onward net pre l c a = subst (λ i. AreAt net i l) (sym (length-onward pre c)) a

pub AreAt-slots :
    (net i : ℕ) (l : List (Option Entry))
    → ((n : ℕ) (e : Entry)
        → slot_of l n ≡ some e
        → (e.ip ≡ htonl (add32 net (i + n))) × (length e.domain < max_domain_len))
    → AreAt net i l
unfolding AreAt slot_of
AreAt-slots net i [] h = tt
AreAt-slots net i (none ∷ l) h = AreAt-slots net (suc i) l (λ n e s.
    let (a, b) = h (suc n) e s in (subst (λ m. e.ip ≡ htonl (add32 net m)) (omega arith) a, b))
AreAt-slots net i (some x ∷ l) h =
    let (a, b) = h 0 x refl in
    (
      subst (λ m. x.ip ≡ htonl (add32 net m)) (omega arith) a,
      b,
      AreAt-slots net (suc i) l (λ n e s.
          let (c, d) = h (suc n) e s in
          (subst (λ m. e.ip ≡ htonl (add32 net m)) (omega arith) c, d)),
    )

slot_of-middle :
    (pre l : List (Option Entry)) (c : Option Entry) → slot_of (pre ++ c ∷ l) (length pre) ≡ c
unfolding slot_of
slot_of-middle [] l c = refl
slot_of-middle (x ∷ pre) l c = slot_of-middle pre l c

set_middle :
    (pre l : List (Option Entry)) (c d : Option Entry)
    → set (pre ++ c ∷ l) (length pre) d ≡ (pre ++ d ∷ []) ++ l
set_middle [] l c d = refl
set_middle (x ∷ pre) l c d = ap (◌∷◌ x) (set_middle pre l c d)

module _ (now later : ℕ) {j k q : ℕ} (p : FakeDns) (r : Range j k q p) where
  -- The loop from a slot on: the cells in front of it are done, those behind it are empty.
  unfoldable pub Reloads : List (Option Entry) → List (Option Entry) → ℕ → Type 0
  Reloads pre l used =
      load_entries true later (saved_count now l) (filled p (pre ++ replicate (length l) none) used)
        (saved_entries now l)
      ≡ filled p (pre ++ map (restored now later) l) (used + saved_count now l)

  Reloads-end : (pre : List (Option Entry)) (used : ℕ) → Reloads pre [] used
  unfolding Reloads saved_count saved_entries load_entries
  Reloads-end pre used = let e : used ≡ used + 0 = omega arith in ap (filled p (pre ++ [])) e

  -- The round of one cell, with the cell that comes of it joined to those in front.
  Reloads-next :
      (pre l : List (Option Entry)) (c : Option Entry) (used : ℕ)
      → Reloads (pre ++ c ∷ []) l used
      → load_entries true later
          (saved_count now l)
          (filled p (pre ++ c ∷ replicate (length l) none) used)
          (saved_entries now l)
        ≡ filled p (pre ++ c ∷ map (restored now later) l) (used + saved_count now l)
  unfolding Reloads
  Reloads-next pre l c used ih =
      rw
        (
          ← append_assoc pre (c ∷ []) (replicate (length l) none),
          ← append_assoc pre (c ∷ []) (map (restored now later) l),
        )
        ih

  Reloads-dropped :
      (pre l : List (Option Entry)) (c : Option Entry) (used : ℕ)
      → is_saved now c ≡ false
      → Reloads (pre ++ none ∷ []) l used
      → Reloads pre (c ∷ l) used
  unfolding Reloads saved_count saved_entries restored
  Reloads-dropped pre l none used past ih = rw past (Reloads-next pre l none used ih)
  Reloads-dropped pre l (some e) used past ih = rw past (Reloads-next pre l none used ih)

  Reloads-kept :
      (pre l : List (Option Entry)) (e : Entry) (used : ℕ)
      → is_saved now (some e) ≡ true
      → load_entries true later
          (suc (saved_count now l))
          (filled p (pre ++ none ∷ replicate (length l) none) used)
          (saved_entry e ++ saved_entries now l)
        ≡ load_entries true later
            (saved_count now l)
            (filled p (pre ++ some (reloaded later e) ∷ replicate (length l) none) (suc used))
            (saved_entries now l)
      → Reloads (pre ++ some (reloaded later e) ∷ []) l (suc used)
      → Reloads pre (some e ∷ l) used
  unfolding Reloads saved_count saved_entries restored
  Reloads-kept pre l e used kept step ih =
      let count : suc used + saved_count now l ≡ used + suc (saved_count now l) = omega arith in
      rw kept (
        step
        ∙ Reloads-next pre l (some (reloaded later e)) (suc used) ih
        ∙ ap (filled p (pre ++ some (reloaded later e) ∷ map (restored now later) l)) count)

  -- The round of an entry that has not expired, at the empty slot it was saved from.
  load_entries-filled :
      (pre l : List (Option Entry)) (e : Entry) (used rounds : ℕ) (rest : Bytes)
      → length pre + suc (length l) ≡ p.pool_size
      → used ≤ length pre
      → e.ip ≡ ip_at p (length pre)
      → length e.domain < max_domain_len
      → load_entries true later
          (suc rounds)
          (filled p (pre ++ none ∷ replicate (length l) none) used)
          (saved_entry e ++ rest)
        ≡ load_entries true later rounds
            (filled p (pre ++ some (reloaded later e) ∷ replicate (length l) none) (suc used))
            rest
  unfolding slot ip_at
  load_entries-filled pre l e used rounds rest fits le place short =
      let tail : List (Option Entry) = replicate (length l) none in
      let size : length (pre ++ none ∷ tail) ≡ length p.slots = omega (
        arith,
        fits,
        r.shape,
        length-append pre (none ∷ tail),
        length-replicate {A = Option Entry} (length l) none,
      ) in
      let word : add32 used 1 ≡ suc used = omega (arith, fits, le, r.small, r.size) in
      let cells : set (pre ++ none ∷ tail) (length pre) (some (reloaded later e))
          ≡ pre ++ some (reloaded later e) ∷ tail =
        set_middle pre tail none (some (reloaded later e))
        ∙ append_assoc pre (some (reloaded later e) ∷ []) tail in
      load_entries-saved_entry (Range-filled p (pre ++ none ∷ tail) used r size) (length pre)
        (omega (arith, fits)) later rounds e rest place short (slot_of-middle pre tail none)
      ∙ ap (λ s. load_entries true later rounds (filled p s (add32 used 1)) rest) cells
      ∙ ap
          (λ n.
            load_entries true later rounds (filled p (pre ++ some (reloaded later e) ∷ tail) n)
              rest)
          word

  pub load_entries-saved_entries :
      (l pre : List (Option Entry)) (used : ℕ)
      → length pre + length l ≡ p.pool_size
      → used ≤ length pre
      → AreAt p.net_host (length pre) l
      → Reloads pre l used
  unfolding AreAt is_saved ip_at
  load_entries-saved_entries [] pre used fits le a = Reloads-end pre used
  load_entries-saved_entries (none ∷ l) pre used fits le a =
      let e = length-onward pre none in
      Reloads-dropped pre l none used refl (
        load_entries-saved_entries l (pre ++ none ∷ []) used (omega (arith, e, fits))
          (omega (arith, e, le)) (AreAt-onward p.net_host pre l none a))
  load_entries-saved_entries (some x ∷ l) pre used fits le (place, short, a) =
      let e = length-onward pre in
      elim (Bool-cases (is_saved now (some x))) [
        | inl kept ↦
            Reloads-kept pre l x used kept
              (load_entries-filled pre l x used (saved_count now l) (saved_entries now l) fits le
                place short)
              (load_entries-saved_entries l (pre ++ some (reloaded later x) ∷ []) (suc used)
                (omega (arith, e (some (reloaded later x)), fits))
                (omega (arith, e (some (reloaded later x)), le))
                (AreAt-onward p.net_host pre l (some (reloaded later x)) a))
        | inr past ↦ Reloads-dropped pre l (some x) used past (
            load_entries-saved_entries l (pre ++ none ∷ []) used (omega (arith, e none, fits))
              (omega (arith, e none, le)) (AreAt-onward p.net_host pre l none a))
      ]
