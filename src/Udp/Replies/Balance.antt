-- ===== src/Udp/Replies/Balance.antt =====
-- src/udp_proxy.c: while a batch of replies is read, every held entry is in the table or among the
-- evicted ones that wait for the flush, and every queued reply has a held entry.
use tproxy2ss.Base.{
  ℕ, suc, ◌+◌, ◌<◌, ◌≤◌, ◌≡◌, refl, arith, Option, none, some, List, [], ◌∷◌, ◌++◌, length,
  length-append,
}
use mathlib.Core.Path.{subst}
use mathlib.Core.Option.{some_inj, none-ne-some}
use tproxy2ss.Tcp.Target.{Target}
use tproxy2ss.Lru.Defs.{Clock, Entry, IsIn, Sizes, lru_find}
use tproxy2ss.Lru.Tables.{udp_node_find, udp_tproxy_entry_add}
use tproxy2ss.Udp.Endpoint.{Endpoint}
use tproxy2ss.Udp.Held.{count, count-append, one_same}
use tproxy2ss.Udp.Replies.{
  addresses, UdpTable, Opening, no_socket, not_bound, no_memory, opened, Peer, Batch, reply_src,
  defer, create_entry, get_or_create, queue, receive, receive_all,
}
use tproxy2ss.Udp.Replies.Owned.{addresses_in, waiting, lru_add-addresses}

unfoldable pub AllHeld : List ℕ → List ℕ → Type 0
AllHeld held [] = Unit
AllHeld held (p ∷ l) = (0 < count p held) × AllHeld held l

AllHeld-more : (q : ℕ) (held l : List ℕ) → AllHeld held l → AllHeld (q ∷ held) l
unfolding AllHeld count
AllHeld-more q held [] h = tt
AllHeld-more q held (p ∷ l) h = (omega (arith, h.0), AllHeld-more q held l h.1)

AllHeld-append :
    (held l : List ℕ) (p : ℕ) → AllHeld held l → 0 < count p held → AllHeld held (l ++ p ∷ [])
unfolding AllHeld
AllHeld-append held [] p h k = (k, tt)
AllHeld-append held (q ∷ l) p h k = (h.0, AllHeld-append held l p h.1 k)

module _ {T Table : Type 0} (clock : Clock T) (table : UdpTable Endpoint T Table) (sizes : Sizes)
    (now : T) where
  abbrev pub in_table : Table → ℕ → ℕ
  in_table t p = count p (addresses (table.hash.entries t))

  -- The evicted entries are fewer than the replies that were looked at.
  pub record Balanced (n : ℕ) (b : Batch Table) : Type 0 where
    pub balance : (p : ℕ) → count p b.held ≡ in_table b.table p + count p b.deferred_evict
    pub queued : AllHeld b.held b.batch_sends
    pub deferred : length b.deferred_evict ≤ n
    pub sends : length b.batch_sends ≤ n

  defer-count :
      (v : Option (Entry Endpoint T)) (l : List ℕ) (p : ℕ)
      → count p (defer clock table sizes now v l) ≡ count p l + count p (waiting v)
  unfolding defer waiting count
  defer-count none l p = omega arith
  defer-count (some v) l p = count-append p l (v.ptr ∷ [])

  defer-length :
      (v : Option (Entry Endpoint T)) (l : List ℕ)
      → length (defer clock table sizes now v l) ≤ suc (length l)
  unfolding defer
  defer-length none l = omega arith
  defer-length (some v) l = omega (arith, length-append l (v.ptr ∷ []))

  -- A step to a batch with an entry, if there is one, that is held
  abbrev Step : ℕ → Batch Table × Option ℕ → Type 0
  Step n r =
      Balanced (suc n) r.0
      × (length r.0.batch_sends ≤ n)
      × ((p : ℕ) → r.1 ≡ some p → 0 < count p r.0.held)

  stay : (n : ℕ) (b : Batch Table) → Balanced n b → Balanced (suc n) b
  stay n b v = record {
    balance = v.balance;
    queued = v.queued;
    deferred = omega (arith, v.deferred);
    sends = omega (arith, v.sends);
  }

  fail : (n : ℕ) (b : Batch Table) → Balanced n b → Step n (b, none)
  fail n b v = (stay n b v, v.sends, λ p e. absurd (none-ne-some p e))

  create_entry-Step :
      (n : ℕ) (key : Endpoint) (o : Opening) (b : Batch Table)
      → Balanced n b
      → Step n (create_entry clock table sizes now key o b)
  unfolding create_entry udp_tproxy_entry_add count
  create_entry-Step n key no_socket b v = fail n b v
  create_entry-Step n key not_bound b v = fail n b v
  create_entry-Step n key no_memory b v = fail n b v
  create_entry-Step n key (opened p) b v =
      let e : Entry Endpoint T = record { ptr = p; key = key; last_active = now } in
      let r = udp_tproxy_entry_add clock table.hash sizes b.table e in
      (
        record {
          balance = λ q. omega (
            arith,
            v.balance q,
            lru_add-addresses clock table sizes.tproxy b.table e q,
            defer-count r.1 b.deferred_evict q,
          );
          queued = AllHeld-more p b.held b.batch_sends v.queued;
          deferred = omega (arith, defer-length r.1 b.deferred_evict, v.deferred);
          sends = omega (arith, v.sends);
        },
        v.sends,
        λ q f. subst (λ x. 0 < count x (p ∷ b.held)) (some_inj.0 f) (omega (arith, one_same p)),
      )

  touched :
      (n : ℕ) (e : Entry Endpoint T) (b : Batch Table)
      → Balanced n b
      → IsIn e (table.hash.entries b.table)
      → Step n (record b { table = table.hash_touch b.table e now }, some e.ptr)
  touched n e b v i = (
    record {
      balance = λ p. omega (arith, v.balance p, table.touch_addresses b.table e now p);
      queued = v.queued;
      deferred = omega (arith, v.deferred);
      sends = omega (arith, v.sends);
    },
    v.sends,
    λ p f.
        subst (λ x. 0 < count x b.held) (some_inj.0 f)
          (omega (arith, v.balance e.ptr, addresses_in e (table.hash.entries b.table) i)),
  )

  get_or_create-Step :
      (n : ℕ) (key : Endpoint) (o : Opening) (b : Batch Table)
      → Balanced n b
      → Step n (get_or_create clock table sizes now key o b)
  unfolding get_or_create udp_node_find lru_find
  get_or_create-Step n key o b v = found (table.hash.hash_get b.table key) refl
    where
      found :
          (x : Option (Entry Endpoint T))
          → table.hash.hash_get b.table key ≡ x
          → Step n (elim x [
            | some e ↦ (record b { table = table.hash_touch b.table e now }, some e.ptr)
            | none ↦ create_entry clock table sizes now key o b
          ])
      found none e = create_entry-Step n key o b v
      found (some x) e = touched n x b v (table.get_in b.table key x e)

  queue-Balanced :
      (n : ℕ) (r : Batch Table × Option ℕ)
      → Step n r
      → Balanced (suc n) (queue clock table sizes now r)
  unfolding queue
  queue-Balanced n (b, none) v = v.0
  queue-Balanced n (b, some p) (v, l, h) = record {
    balance = v.balance;
    queued = AllHeld-append b.held b.batch_sends p v.queued (h p refl);
    deferred = v.deferred;
    sends = omega (arith, l, length-append b.batch_sends (p ∷ []));
  }

  receive-Balanced :
      (n : ℕ) (s : Peer) (source : Option Target) (o : Opening) (b : Batch Table)
      → Balanced n b
      → Balanced (suc n) (receive clock table sizes now s source o b)
  unfolding receive
  receive-Balanced n s none o b v = stay n b v
  receive-Balanced n s (some source) o b v = routed (reply_src s source)
    where
      routed :
          (x : Option Endpoint)
          → Balanced (suc n) (elim x [
            | none ↦ b
            | some key ↦ queue clock table sizes now (get_or_create clock table sizes now key o b)
          ])
      routed none = stay n b v
      routed (some key) =
          queue-Balanced n (get_or_create clock table sizes now key o b)
            (get_or_create-Step n key o b v)

  pub receive_all-Balanced :
      (n : ℕ) (s : Peer) (l : List (Option Target × Opening)) (b : Batch Table)
      → Balanced n b
      → Balanced (length l + n) (receive_all clock table sizes now s l b)
  unfolding receive_all
  receive_all-Balanced n s [] b v = subst (λ m. Balanced m b) (omega arith) v
  receive_all-Balanced n s ((source, o) ∷ l) b v =
      subst
        (λ m.
          Balanced m
            (receive_all clock table sizes now s l (receive clock table sizes now s source o b)))
        (omega arith)
        (receive_all-Balanced (suc n) s l (receive clock table sizes now s source o b)
          (receive-Balanced n s source o b v))
