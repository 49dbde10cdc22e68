-- ===== src/Udp/Flush/Gather.antt =====
-- src/udp_proxy.c: the loop of `udp_tproxy_flush_client_sends` that gathers the messages of one socket.
use mathlib.Core.List.{Perm, append-nil}
use mathlib.Core.List.Perm
use tproxy2ss.Base.{
  ℕ, suc, ◌+◌, ◌≤◌, ◌≡◌, ◌≢◌, inl, inr, refl, sym, ap, ◌∙◌, arith, true, false, List, [], ◌∷◌, ◌++◌,
  append_assoc, length, get_or, ◌==◌, Bool-cases, ==_iff, length-append,
}
use mathlib.Core.Path.{subst}
use mathlib.Core.Bool.{true≢false}
use tproxy2ss.Udp.Flush.{swap, gather}
use tproxy2ss.Udp.Flush.Arrange.{
  Each, Each-append, Each-parts, get_or-middle, swap-middle, rearranged, rotated, Each-joined,
  Each-rotated,
}

module _ (entry_of : ℕ → ℕ) where
  abbrev pub Sames : ℕ → List ℕ → Type 0
  Sames entry l = Each (λ k. entry_of k ≡ entry) l

  abbrev pub Others : ℕ → List ℕ → Type 0
  Others entry l = Each (λ k. entry_of k ≢ entry) l

  -- What the loop leaves behind the messages that were sent before: those of the entry, and the
  -- others.
  pub record Gathered (done all : List ℕ) (entry least : ℕ) (r : List ℕ × ℕ) : Type 0 where
    pub group : List ℕ
    pub others : List ℕ
    pub parts : r.0 ≡ done ++ (group ++ others)
    pub count : r.1 ≡ length group
    pub grown : least ≤ length group
    pub same : Sames entry group
    pub apart : Others entry others
    pub size : length group + length others ≡ length all
    pub perm : Perm (group ++ others) all
    pub inherits : (e : ℕ) → Others e all → Others e others

  Gathered-of :
      (done all all' : List ℕ) (entry least : ℕ) (r : List ℕ × ℕ)
      → Perm all all'
      → length all ≡ length all'
      → ((e : ℕ) → Others e all' → Others e all)
      → Gathered done all entry (least + 1) r
      → Gathered done all' entry least r
  Gathered-of done all all' entry least r p same_size f g = record {
    group = g.group;
    others = g.others;
    parts = g.parts;
    count = g.count;
    grown = omega (arith, g.grown);
    same = g.same;
    apart = g.apart;
    size = g.size ∙ same_size;
    perm = Perm.trans g.perm p;
    inherits = λ e a. g.inherits e (f e a);
  }

  gather-next :
      (left entry i j g : ℕ) (indices : List ℕ)
      → (entry_of (get_or indices j 0) == entry) ≡ false
      → gather entry_of (suc left) entry i j g indices
        ≡ gather entry_of left entry i (j + 1) g indices
  unfolding gather
  gather-next left entry i j g indices e = rw e refl

  pub gather-here :
      (left entry i j g : ℕ) (indices : List ℕ)
      → (entry_of (get_or indices j 0) == entry) ≡ true
      → (j == i + g) ≡ true
      → gather entry_of (suc left) entry i j g indices
        ≡ gather entry_of left entry i (j + 1) (g + 1) indices
  unfolding gather
  gather-here left entry i j g indices e f = rw (e, f) refl

  gather-swap :
      (left entry i j g : ℕ) (indices : List ℕ)
      → (entry_of (get_or indices j 0) == entry) ≡ true
      → (j == i + g) ≡ false
      → gather entry_of (suc left) entry i j g indices
        ≡ gather entry_of left entry i (j + 1) (g + 1) (swap indices (i + g) j)
  unfolding gather
  gather-swap left entry i j g indices e f = rw (e, f) refl

  module _ (entry : ℕ) (done : List ℕ) where
    -- What the loop knows before it looks at `todo`
    pub record Midway (grp oth todo : List ℕ) (i j g : ℕ) (indices : List ℕ) : Type 0 where
      pub at_i : i ≡ length done
      pub at_g : g ≡ length grp
      pub at_j : j ≡ length done + length grp + length oth
      pub stands : indices ≡ done ++ (grp ++ (oth ++ todo))
      pub same : Sames entry grp
      pub apart : Others entry oth

    seen_at :
        (grp oth t : List ℕ) (x i j g : ℕ) (indices : List ℕ)
        → Midway grp oth (x ∷ t) i j g indices
        → get_or indices j 0 ≡ x
    seen_at grp oth t x i j g indices m =
        let flat : indices ≡ ((done ++ grp) ++ oth) ++ x ∷ t =
          m.stands
          ∙ sym (append_assoc done grp (oth ++ x ∷ t))
          ∙ sym (append_assoc (done ++ grp) oth (x ∷ t)) in
        let at : j ≡ length ((done ++ grp) ++ oth) =
          omega (arith, m.at_j, length-append (done ++ grp) oth, length-append done grp) in
        ap (λ l. get_or l j 0) flat
        ∙ ap (λ k. get_or (((done ++ grp) ++ oth) ++ x ∷ t) k 0) at
        ∙ get_or-middle ((done ++ grp) ++ oth) t x 0

    Midway-next :
        (grp oth t : List ℕ) (x i j g : ℕ) (indices : List ℕ)
        → Midway grp oth (x ∷ t) i j g indices
        → entry_of x ≢ entry
        → Midway grp (oth ++ x ∷ []) t i (j + 1) g indices
    Midway-next grp oth t x i j g indices m ne = record {
      at_i = m.at_i;
      at_g = m.at_g;
      at_j = omega (arith, m.at_j, length-append oth (x ∷ []));
      stands = m.stands ∙ ap (λ l. done ++ (grp ++ l)) (sym (append_assoc oth (x ∷ []) t));
      same = m.same;
      apart = Each-append _ oth (x ∷ []) m.apart (ne, tt);
    }

    Midway-here :
        (grp t : List ℕ) (x i j g : ℕ) (indices : List ℕ)
        → Midway grp [] (x ∷ t) i j g indices
        → entry_of x ≡ entry
        → Midway (grp ++ x ∷ []) [] t i (j + 1) (g + 1) indices
    Midway-here grp t x i j g indices m e = record {
      at_i = m.at_i;
      at_g = omega (arith, m.at_g, length-append grp (x ∷ []));
      at_j = omega (arith, m.at_j, length-append grp (x ∷ []));
      stands = m.stands ∙ ap (λ l. done ++ l) (sym (append_assoc grp (x ∷ []) t));
      same = Each-append _ grp (x ∷ []) m.same (e, tt);
      apart = tt;
    }

    Midway-swap :
        (grp os t : List ℕ) (o x i j g : ℕ) (indices : List ℕ)
        → Midway grp (o ∷ os) (x ∷ t) i j g indices
        → entry_of x ≡ entry
        → Midway (grp ++ x ∷ []) (os ++ o ∷ []) t i (j + 1) (g + 1) (swap indices (i + g) j)
    Midway-swap grp os t o x i j g indices m e =
        let front = done ++ grp in
        let size = length-append done grp in
        let flat : indices ≡ front ++ o ∷ (os ++ x ∷ t) =
          m.stands ∙ sym (append_assoc done grp (o ∷ (os ++ x ∷ t))) in
        let at_i : i + g ≡ length front = omega (arith, m.at_i, m.at_g, size) in
        let at_j : j ≡ length front + suc (length os) = omega (arith, m.at_j, size) in
        record {
          at_i = m.at_i;
          at_g = omega (arith, m.at_g, length-append grp (x ∷ []));
          at_j = omega (arith, m.at_j, length-append grp (x ∷ []), length-append os (o ∷ []));
          stands =
              ap (λ l. swap l (i + g) j) flat
              ∙ ap (λ k. swap (front ++ o ∷ (os ++ x ∷ t)) k j) at_i
              ∙ ap (swap (front ++ o ∷ (os ++ x ∷ t)) (length front)) at_j
              ∙ swap-middle front os t o x
              ∙ append_assoc done grp (x ∷ (os ++ o ∷ t))
              ∙ ap (λ l. done ++ l) (sym (append_assoc grp (x ∷ []) (os ++ o ∷ t)))
              ∙ ap (λ l. done ++ ((grp ++ x ∷ []) ++ l)) (sym (append_assoc os (o ∷ []) t));
          same = Each-append _ grp (x ∷ []) m.same (e, tt);
          apart = Each-append _ os (o ∷ []) m.apart.1 (m.apart.0, tt);
        }

    -- A message of the entry is put behind its group.
    matched :
        (x : ℕ) (t grp oth : List ℕ) (i j g : ℕ) (indices : List ℕ)
        → Midway grp oth (x ∷ t) i j g indices
        → (entry_of (get_or indices j 0) == entry) ≡ true
        → entry_of x ≡ entry
        → ((grp oth : List ℕ) (i j g : ℕ) (indices : List ℕ)
            → Midway grp oth t i j g indices
            → Gathered done
                (grp ++ (oth ++ t))
                entry
                g
                (gather entry_of (length t) entry i j g indices))
        → Gathered done
            (grp ++ (oth ++ x ∷ t))
            entry
            g
            (gather entry_of (suc (length t)) entry i j g indices)
    matched x t grp [] i j g indices m e here ih =
        let at : (j == i + g) ≡ true =
          (==_iff j (i + g)).1 (omega (arith, m.at_i, m.at_j, m.at_g)) in
        subst (Gathered done (grp ++ x ∷ t) entry g)
          (sym (gather-here (length t) entry i j g indices e at))
          (Gathered-of done ((grp ++ x ∷ []) ++ t) (grp ++ x ∷ t) entry g _ (rearranged grp [] t x)
            (omega (
              arith,
              length-append (grp ++ x ∷ []) t,
              length-append grp (x ∷ []),
              length-append grp (x ∷ t),
            ))
            (λ e' a. Each-joined _ grp [] t x a)
            (ih (grp ++ x ∷ []) [] i (j + 1) (g + 1) indices
              (Midway-here grp t x i j g indices m here)))
    matched x t grp (o ∷ os) i j g indices m e here ih =
        let at : (j == i + g) ≡ false = ground (arith, m.at_i, m.at_j, m.at_g) in
        subst (Gathered done (grp ++ ((o ∷ os) ++ x ∷ t)) entry g)
          (sym (gather-swap (length t) entry i j g indices e at))
          (Gathered-of done ((grp ++ x ∷ []) ++ ((os ++ o ∷ []) ++ t)) (grp ++ ((o ∷ os) ++ x ∷ t))
            entry g _
            (Perm.trans (Perm.append_left (grp ++ x ∷ []) (rotated os t o))
              (rearranged grp (o ∷ os) t x))
            (omega (
              arith,
              length-append (grp ++ x ∷ []) ((os ++ o ∷ []) ++ t),
              length-append grp (x ∷ []),
              length-append (os ++ o ∷ []) t,
              length-append os (o ∷ []),
              length-append grp ((o ∷ os) ++ x ∷ t),
              length-append os (x ∷ t),
            ))
            (λ e' a.
              let (l, r) =
                Each-parts _ (grp ++ x ∷ []) ((o ∷ os) ++ t) (Each-joined _ grp (o ∷ os) t x a) in
              Each-append _ (grp ++ x ∷ []) ((os ++ o ∷ []) ++ t) l (Each-rotated _ os t o r))
            (ih (grp ++ x ∷ []) (os ++ o ∷ []) i (j + 1) (g + 1) (swap indices (i + g) j)
              (Midway-swap grp os t o x i j g indices m here)))

    pub gather-Gathered :
        (todo grp oth : List ℕ) (i j g : ℕ) (indices : List ℕ)
        → Midway grp oth todo i j g indices
        → Gathered done
            (grp ++ (oth ++ todo))
            entry
            g
            (gather entry_of (length todo) entry i j g indices)
    unfolding gather
    gather-Gathered [] grp oth i j g indices m = record {
      group = grp;
      others = oth;
      parts = m.stands ∙ ap (λ l. done ++ (grp ++ l)) (append-nil oth);
      count = m.at_g;
      grown = omega (arith, m.at_g);
      same = m.same;
      apart = m.apart;
      size = omega (arith, length-append grp (oth ++ []), length-append oth []);
      perm = subst (λ l. Perm (grp ++ oth) (grp ++ l)) (sym (append-nil oth)) Perm.rfl;
      inherits =
          λ e a. (Each-parts _ grp oth (subst (λ l. Others e (grp ++ l)) (append-nil oth) a)).1;
    }
    gather-Gathered (x ∷ t) grp oth i j g indices m =
        let seen = seen_at grp oth t x i j g indices m in
        let left = length t in
        elim (Bool-cases (entry_of (get_or indices j 0) == entry)) [
          | inr e ↦
              let ne : entry_of x ≢ entry =
                λ q. true≢false (sym ((==_iff _ entry).1 (ap entry_of seen ∙ q)) ∙ e) in
              let from = append_assoc oth (x ∷ []) t in
              subst (Gathered done (grp ++ (oth ++ x ∷ t)) entry g)
                (sym (gather-next left entry i j g indices e))
                (subst
                  (λ l.
                    Gathered done (grp ++ l) entry g
                      (gather entry_of left entry i (j + 1) g indices))
                  from
                  (gather-Gathered t grp (oth ++ x ∷ []) i (j + 1) g indices
                    (Midway-next grp oth t x i j g indices m ne)))
          | inl e ↦
              let here : entry_of x ≡ entry = sym (ap entry_of seen) ∙ (==_iff _ entry).0 e in
              matched x t grp oth i j g indices m e here (gather-Gathered t)
        ]
