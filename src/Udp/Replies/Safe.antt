-- ===== src/Udp/Replies/Safe.antt =====
-- src/udp_proxy.c: the flush of a batch of replies sends from entries that are held, and what is
-- freed behind it is what was evicted.
use mathlib.Core.List.{Permᴰ}
use mathlib.Core.Logic.{∥∥₁_elim}
use tproxy2ss.Base.{
  ℕ, zero, suc, ◌+◌, ◌<◌, ◌≤◌, ◌≡◌, refl, ap, ◌∙◌, arith, Bool, true, false, ◌&&◌, Option, some,
  List, [], ◌∷◌, ◌++◌, length, get_or, ltb, lt→ltb,
}
use mathlib.Core.Bool.{Bool-set}
use mathlib.Core.Path.{subst}
use tproxy2ss.Tcp.Target.{Target}
use tproxy2ss.Lru.Defs.{Clock, Sizes}
use tproxy2ss.Udp.Endpoint.{Endpoint}
use tproxy2ss.Udp.Held.{count, release_all, release_all-count}
use tproxy2ss.Udp.Flush.{Call, slots_from, flush_client_sends}
use tproxy2ss.Udp.Flush.Groups.{given_to, AreGroups, flush_client_sends-given_to}
use tproxy2ss.Udp.Replies.{
  addresses, udp_batch_size, UdpTable, Opening, Peer, Batch, receive_all, are_held, finish,
  on_server_reply,
}
use tproxy2ss.Udp.Replies.Balance.{AllHeld, in_table, Balanced, receive_all-Balanced}

-- The messages are slots of a batch of `n`.
unfoldable below : ℕ → List ℕ → Bool
below n [] = true
below n (k ∷ l) = ltb k n && below n l

and_swap : (a b c : Bool) → a && (b && c) ≡ b && (a && c)
and_swap true true c = refl
and_swap true false c = refl
and_swap false true c = refl
and_swap false false c = refl

below-Perm : (n : ℕ) (l m : List ℕ) → Permᴰ l m → below n l ≡ below n m
unfolding below
below-Perm n l m Permᴰ.nil = refl
below-Perm n (a ∷ l) (b ∷ m) (Permᴰ.cons e d) = rw e (ap (λ x. ltb b n && x) (below-Perm n l m d))
below-Perm n (a ∷ b ∷ l) (c ∷ d ∷ m) (Permᴰ.swap e f) =
    rw (e, f) (and_swap (ltb d n) (ltb c n) (below n l))
below-Perm n l m (Permᴰ.trans {l₂ = k} d e) = below-Perm n l k d ∙ below-Perm n k m e

below-slots_from : (n m i : ℕ) → i + m ≤ n → below n (slots_from m i) ≡ true
unfolding below slots_from
below-slots_from n zero i h = refl
below-slots_from n (suc m) i h =
    let e : ltb i n ≡ true = lt→ltb i n (omega (arith, h)) in
    rw (e, below-slots_from n m (i + 1) (omega (arith, h))) refl

below-append : (n : ℕ) (l m : List ℕ) → below n (l ++ m) ≡ true → below n m ≡ true
unfolding below
below-append n [] m h = h
below-append n (k ∷ l) m h = below-append n l m (ground (arith, h))

AllHeld-get_or :
    (held l : List ℕ) (k : ℕ) → AllHeld held l → k < length l → 0 < count (get_or l k 0) held
unfolding AllHeld
AllHeld-get_or held [] k h i = absurd (omega (arith, i))
AllHeld-get_or held (p ∷ l) zero h i = h.0
AllHeld-get_or held (p ∷ l) (suc k) h i = AllHeld-get_or held l k h.1 (omega (arith, i))

module _ {T Table : Type 0} (clock : Clock T) (table : UdpTable Endpoint T Table) (sizes : Sizes)
    (now : T) where
  groups-are_held :
      (held sends : List ℕ) (calls : List Call)
      → AllHeld held sends
      → AreGroups (λ k. get_or sends k 0) calls
      → below (length sends) (given_to calls) ≡ true
      → are_held clock table sizes now held calls ≡ true
  unfolding are_held given_to below
  groups-are_held held sends [] h g b = refl
  groups-are_held held sends ((entry, [], answer) ∷ l) h (pos, same, away, g) b =
      absurd (omega (arith, pos))
  groups-are_held held sends ((entry, k ∷ group, answer) ∷ l) h (pos, same, away, g) b =
      let inside : k < length sends = ground (arith, b) in
      let rest : below (length sends) (group ++ given_to l) ≡ true = ground (arith, b) in
      let live : 0 < count entry held =
        subst (λ x. 0 < count x held) same.0 (AllHeld-get_or held sends k h inside) in
      rw (lt→ltb 0 (count entry held) live)
        (groups-are_held held sends l h g (below-append (length sends) group (given_to l) rest))

  -- The held entries are those of the table, each as often.
  abbrev pub Owned : Table → List ℕ → Type 0
  Owned t held = (p : ℕ) → count p held ≡ in_table clock table sizes now t p

  -- The state before the first reply
  abbrev pub started : Table → List ℕ → Batch Table
  started t held = record { table = t; held = held; deferred_evict = []; batch_sends = [] }

  started-Balanced :
      (t : Table) (held : List ℕ) → Owned t held → Balanced clock table sizes now 0 (started t held)
  unfolding AllHeld count
  started-Balanced t held v = record {
    balance = λ p. omega (arith, v p);
    queued = tt;
    deferred = omega arith;
    sends = omega arith;
  }

  -- When the held entries are those of the table, a batch of at most sixteen replies is read without
  -- a write behind the end of `batch_sends` or of `deferred_evict`.
  pub receive_all-within :
      (s : Peer) (messages : List (Option Target × Opening)) (t : Table) (held : List ℕ)
      → Owned t held
      → length messages ≤ udp_batch_size
      → let b = receive_all clock table sizes now s messages (started t held) in
        (length b.batch_sends ≤ udp_batch_size) × (length b.deferred_evict ≤ udp_batch_size)
  receive_all-within s messages t held v h =
      let b =
        receive_all-Balanced clock table sizes now 0 s messages (started t held)
          (started-Balanced t held v) in
      (omega (arith, h, b.sends), omega (arith, h, b.deferred))

  finish-next :
      (answers : ℕ → Option ℕ) (b : Batch Table) (rest : List ℕ)
      → let calls =
          flush_client_sends (λ k. get_or b.batch_sends k 0) answers (length b.batch_sends) in
        are_held clock table sizes now b.held calls ≡ true
        → release_all b.deferred_evict b.held ≡ some rest
        → finish clock table sizes now answers b ≡ some (b.table, rest, calls)
  unfolding finish
  finish-next answers b rest e f = simp (e, f) refl

  -- When the held entries are those of the table, and whatever the sockets, the pool and the library
  -- answer for the replies of a batch, every call of `sendmmsg` is for an entry that is still held,
  -- every entry that is freed was held, and behind it the held entries are again those of the table,
  -- each once for each time it stands there.
  pub on_server_reply-safe :
      (answers : ℕ → Option ℕ) (s : Peer) (messages : List (Option Target × Opening)) (t : Table)
      (held : List ℕ)
      → Owned t held
      → (u : Table) × (left : List ℕ) × (calls : List Call) × (on_server_reply clock table sizes now
            answers s messages t held
          ≡ some (u, left, calls))
        × Owned u left
  unfolding on_server_reply
  on_server_reply-safe answers s messages t held v =
      let b = receive_all clock table sizes now s messages (started t held) in
      let w =
        receive_all-Balanced clock table sizes now 0 s messages (started t held)
          (started-Balanced t held v) in
      let entry_of : ℕ → ℕ = λ k. get_or b.batch_sends k 0 in
      let n = length b.batch_sends in
      let calls = flush_client_sends entry_of answers n in
      let (perm, groups) = flush_client_sends-given_to entry_of answers n in
      let inside : below n (given_to calls) ≡ true =
        ∥∥₁_elim perm (Bool-set (below n (given_to calls)) true) (λ d.
          below-Perm n (given_to calls) (slots_from n 0) d
          ∙ below-slots_from n n 0 (omega arith)) in
      let (left, e, f) =
        release_all-count b.deferred_evict b.held (addresses (table.hash.entries b.table))
          (λ p. omega (arith, w.balance p)) in
      (
        b.table,
        left,
        calls,
        finish-next answers b left
            (groups-are_held b.held b.batch_sends calls w.queued groups inside) e,
        f,
      )
