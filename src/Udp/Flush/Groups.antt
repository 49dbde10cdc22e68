-- ===== src/Udp/Flush/Groups.antt =====
-- src/udp_proxy.c: what `udp_tproxy_flush_client_sends` sends and drops.
use mathlib.Core.List.{Perm, perm_append_comm}
use mathlib.Core.List.Perm
use tproxy2ss.Base.{
  ℕ, zero, suc, ◌+◌, ◌-◌, ◌≤◌, ◌<◌, ◌≡◌, ◌≢◌, refl, sym, ap, ◌∙◌, arith, true, Option, none, some,
  List, [], ◌∷◌, ◌++◌, append_assoc, length, get_or, take, drop, ◌==◌, ==_self, length-append,
  take_append, drop_append, take-drop, lt→ltb, le→ltb,
}
use mathlib.Core.Path.{subst}
use tproxy2ss.Udp.Flush.{
  Call, sent_of, dropped_of, slots_from, gather, flush_from, flush_client_sends,
}
use tproxy2ss.Udp.Flush.Arrange.{get_or-middle}
use tproxy2ss.Udp.Flush.Gather.{Sames, Others, Gathered, gather-here, gather-Gathered}

-- The messages that all calls are given, in their order, and of these what went out and what was
-- dropped
unfoldable pub given_to : List Call → List ℕ
given_to [] = []
given_to ((entry, group, answer) ∷ l) = group ++ given_to l

unfoldable pub sent_by : List Call → List ℕ
sent_by [] = []
sent_by ((entry, group, answer) ∷ l) = sent_of group answer ++ sent_by l

unfoldable pub dropped_by : List Call → List ℕ
dropped_by [] = []
dropped_by ((entry, group, answer) ∷ l) = dropped_of group answer ++ dropped_by l

sent_of-dropped_of :
    (group : List ℕ) (answer : Option ℕ) → sent_of group answer ++ dropped_of group answer ≡ group
unfolding sent_of dropped_of
sent_of-dropped_of group none = refl
sent_of-dropped_of group (some sent) = take-drop sent group

same_Perm : {l m : List ℕ} → l ≡ m → Perm l m
same_Perm {l} e = subst (Perm l) e Perm.rfl

-- The second and the third of four parts change places.
exchange : (a b c d : List ℕ) → Perm ((a ++ b) ++ (c ++ d)) ((a ++ c) ++ (b ++ d))
exchange a b c d =
    Perm.trans (same_Perm (append_assoc a b (c ++ d) ∙ ap (λ l. a ++ l) (sym (append_assoc b c d))))
      (Perm.trans (Perm.append_left a (Perm.append_right d (perm_append_comm b c)))
        (same_Perm (ap (λ l. a ++ l) (append_assoc c b d) ∙ sym (append_assoc a c (b ++ d)))))

-- What went out and what was dropped is what the calls were given.
sent_by-dropped_by : (l : List Call) → Perm (sent_by l ++ dropped_by l) (given_to l)
unfolding sent_by dropped_by given_to
sent_by-dropped_by [] = Perm.rfl
sent_by-dropped_by ((entry, group, answer) ∷ l) =
    Perm.trans
      (exchange (sent_of group answer) (sent_by l) (dropped_of group answer) (dropped_by l))
      (Perm.trans
        (same_Perm (ap (λ g. g ++ (sent_by l ++ dropped_by l)) (sent_of-dropped_of group answer)))
        (Perm.append_left group (sent_by-dropped_by l)))

module _ (entry_of : ℕ → ℕ) where
  -- No call is for this entry.
  abbrev pub NotFor : ℕ → List Call → Type 0
  NotFor e [] = Unit
  NotFor e ((entry, group, answer) ∷ l) = (entry ≢ e) × NotFor e l

  -- Every call has messages, all of its own entry, and no later call is for the same entry.
  abbrev pub AreGroups : List Call → Type 0
  AreGroups [] = Unit
  AreGroups ((entry, group, answer) ∷ l) =
      (0 < length group) × Sames entry_of entry group × NotFor entry l × AreGroups l

  module _ (answers : ℕ → Option ℕ) where
    flush_from-next :
        (fuel i send_count : ℕ) (indices : List ℕ)
        → i < send_count
        → let entry = entry_of (get_or indices i 0) in
          let r = gather entry_of (send_count - i) entry i i 0 indices in
          flush_from entry_of answers (suc fuel) i send_count indices
          ≡ (entry, take r.1 (drop i r.0), answers i)
            ∷ flush_from entry_of answers fuel (i + r.1) send_count r.0
    unfolding flush_from
    flush_from-next fuel i send_count indices l = rw (lt→ltb i send_count l) refl

    flush_from-end :
        (fuel i send_count : ℕ) (indices : List ℕ)
        → send_count ≤ i
        → flush_from entry_of answers fuel i send_count indices ≡ []
    unfolding flush_from
    flush_from-end zero i send_count indices l = refl
    flush_from-end (suc fuel) i send_count indices l = rw (le→ltb i send_count l) refl

    Flushed : List ℕ → List Call → Type 0
    Flushed rest gs =
        Perm (given_to gs) rest × AreGroups gs × ((e : ℕ) → Others entry_of e rest → NotFor e gs)

    -- The first round, which takes the message that it looks at
    first_group :
        (done t : List ℕ) (x : ℕ)
        → let i = length done in
          Gathered entry_of done
            (x ∷ t)
            (entry_of x)
            1
            (gather entry_of (suc (length t)) (entry_of x) i i 0 (done ++ x ∷ t))
    first_group done t x =
        let i = length done in
        let indices = done ++ x ∷ t in
        let here : (entry_of (get_or indices i 0) == entry_of x) ≡ true =
          ap (λ k. entry_of k == entry_of x) (get_or-middle done t x 0) ∙ ==_self (entry_of x) in
        let at : (i == i + 0) ≡ true = ground arith in
        subst (Gathered entry_of done (x ∷ t) (entry_of x) 1)
          (sym (gather-here entry_of (length t) (entry_of x) i i 0 indices here at))
          (gather-Gathered entry_of (entry_of x) done t (x ∷ []) [] i (i + 1) 1 indices (record {
            at_i = refl;
            at_g = refl;
            at_j = omega arith;
            stands = refl;
            same = (refl, tt);
            apart = tt;
          }))

    round_eq :
        (fuel : ℕ) (done t : List ℕ) (x : ℕ)
        → let i = length done in
          let indices = done ++ x ∷ t in
          let r = gather entry_of (suc (length t)) (entry_of x) i i 0 indices in
          flush_from entry_of answers (suc fuel) i (i + suc (length t)) indices
          ≡ (entry_of x, take r.1 (drop i r.0), answers i)
            ∷ flush_from entry_of answers fuel (i + r.1) (i + suc (length t)) r.0
    round_eq fuel done t x =
        let i = length done in
        let n = i + suc (length t) in
        let indices = done ++ x ∷ t in
        let left : n - i ≡ suc (length t) = omega arith in
        let step = λ (y k : ℕ).
          let r = gather entry_of k (entry_of y) i i 0 indices in
          (entry_of y, take r.1 (drop i r.0), answers i)
          ∷ flush_from entry_of answers fuel (i + r.1) n r.0 in
        flush_from-next fuel i n indices (omega arith)
        ∙ ap (λ y. step y (n - i)) (get_or-middle done t x 0)
        ∙ ap (step x) left

    -- The round in terms of what it gathers
    round-parts :
        (fuel : ℕ) (done t : List ℕ) (x : ℕ)
        (g : Gathered entry_of done (x ∷ t) (entry_of x) 1 (
          gather entry_of
            (suc (length t))
            (entry_of x)
            (length done)
            (length done)
            0
            (done ++ x ∷ t)))
        → let before = done ++ g.group in
          flush_from entry_of answers
            (suc fuel)
            (length done)
            (length done + suc (length t))
            (done ++ x ∷ t)
          ≡ (entry_of x, g.group, answers (length done))
            ∷ flush_from entry_of answers fuel
                (length before)
                (length before + length g.others)
                (before ++ g.others)
    round-parts fuel done t x g =
        let i = length done in
        let n = i + suc (length t) in
        let e = entry_of x in
        let r = gather entry_of (suc (length t)) e i i 0 (done ++ x ∷ t) in
        let before = done ++ g.group in
        let grown = length-append done g.group in
        let next : i + length g.group ≡ length before = omega (arith, grown) in
        let whole : n ≡ length before + length g.others = omega (arith, grown, g.size) in
        let taken : take (length g.group) (drop i (done ++ (g.group ++ g.others))) ≡ g.group =
          ap (take (length g.group)) (drop_append done (g.group ++ g.others))
          ∙ take_append g.group g.others in
        let step = λ (l : List ℕ) (k : ℕ).
          (e, take k (drop i l), answers i) ∷ flush_from entry_of answers fuel (i + k) n l in
        round_eq fuel done t x
        ∙ ap (λ l. step l r.1) g.parts
        ∙ ap (step (done ++ (g.group ++ g.others))) g.count
        ∙ ap
            (λ z.
              (e, z, answers i)
              ∷ flush_from entry_of answers fuel (i + length g.group) n
                  (done ++ (g.group ++ g.others)))
            taken
        ∙ ap
            (λ k.
              (e, g.group, answers i)
              ∷ flush_from entry_of answers fuel k n (done ++ (g.group ++ g.others)))
            next
        ∙ ap
            (λ k.
              (e, g.group, answers i)
              ∷ flush_from entry_of answers fuel (length before) k (done ++ (g.group ++ g.others)))
            whole
        ∙ ap
            (λ l.
              (e, g.group, answers i)
              ∷ flush_from entry_of answers fuel (length before) (length before + length g.others)
                  l)
            (sym (append_assoc done g.group g.others))

    flush_from-Flushed :
        (fuel : ℕ) (done rest : List ℕ)
        → length rest ≤ fuel
        → Flushed rest (
            flush_from entry_of answers fuel
              (length done)
              (length done + length rest)
              (done ++ rest))
    unfolding Flushed given_to
    flush_from-Flushed fuel done [] h =
        subst (Flushed [])
          (sym (flush_from-end fuel (length done) (length done + 0) (done ++ []) (omega arith)))
          (Perm.rfl, tt, λ e o. tt)
    flush_from-Flushed zero done (x ∷ t) h = absurd (omega (arith, h))
    flush_from-Flushed (suc fuel) done (x ∷ t) h =
        let g = first_group done t x in
        let (perm, groups, away) =
          flush_from-Flushed fuel (done ++ g.group) g.others (omega (arith, h, g.size, g.grown)) in
        subst (Flushed (x ∷ t)) (sym (round-parts fuel done t x g)) (
          Perm.trans (Perm.append_left g.group perm) g.perm,
          (g.grown, g.same, away (entry_of x) g.apart, groups),
          λ e o. (o.0, away e (g.inherits e o)),
        )

    slots_from-length : (n i : ℕ) → length (slots_from n i) ≡ n
    unfolding slots_from
    slots_from-length zero i = refl
    slots_from-length (suc n) i = ap suc (slots_from-length n (i + 1))

    -- The calls of `sendmmsg` are given all replies of a batch.
    pub flush_client_sends-given_to :
        (send_count : ℕ)
        → Perm (given_to (flush_client_sends entry_of answers send_count)) (slots_from send_count 0)
          × AreGroups (flush_client_sends entry_of answers send_count)
    unfolding flush_client_sends Flushed
    flush_client_sends-given_to send_count =
        let slots = slots_from send_count 0 in
        let size = slots_from-length send_count 0 in
        let (perm, groups, away) = flush_from-Flushed send_count [] slots (omega (arith, size)) in
        let count : 0 + length slots ≡ send_count = omega (arith, size) in
        subst
          (λ n.
            Perm (given_to (flush_from entry_of answers send_count 0 n slots)) slots
            × AreGroups (flush_from entry_of answers send_count 0 n slots))
          count (perm, groups)

    -- Whatever `sendmmsg` answers, each reply of a batch is given to one of its calls, by the socket of
    -- the reply's own entry, and no two calls are for the same entry. What goes out and what is dropped,
    -- because a call fails or sends less than it is given, is together the batch, each reply once.
    pub flush_client_sends-groups :
        (send_count : ℕ)
        → let calls = flush_client_sends entry_of answers send_count in
          Perm (given_to calls) (slots_from send_count 0)
          × AreGroups calls
          × Perm (sent_by calls ++ dropped_by calls) (slots_from send_count 0)
    flush_client_sends-groups send_count =
        let (perm, groups) = flush_client_sends-given_to send_count in
        (
          perm,
          groups,
          Perm.trans (sent_by-dropped_by (flush_client_sends entry_of answers send_count)) perm,
        )
