-- ===== src/Tcp/Handshake/Choice.antt =====
-- src/tcp_proxy.c: the choice of the next server keeps the handshake's invariant.
use tproxy2ss.Base.{
  ℕ, ◌+◌, ◌≤◌, ◌<◌, ◌≡◌, inl, inr, refl, sym, ◌∙◌, arith, Bool, true, false, List, ◌∷◌,
}
use mathlib.Core.Bool.{true≢false}
use tproxy2ss.Selector.Defs.{max_servers, tried}
use tproxy2ss.Tcp.Handshake.Defs.{
  Session, is_queued, may_replay, report_failure, take_server, choose,
}
use tproxy2ss.Tcp.Handshake.Servers.{
  mark, untried, Distinct, Marked, untried-mark, mark_self, Marked-mark, unmarked-occurs,
}
use tproxy2ss.Tcp.Handshake.Valid.{IsValid, IsFresh}

module _ (n : ℕ) (small : n ≤ max_servers) where
  pub taken-Marked :
      (mask next : ℕ) (chosen : List ℕ)
      → next < n
      → tried mask next ≡ false
      → Marked n mask chosen
      → Distinct chosen
      → Marked n (mark mask next) (next ∷ chosen) × Distinct (next ∷ chosen)
  taken-Marked mask next chosen l t marked distinct =
      let small_next : next < max_servers = omega (arith, l, small) in
      (
        (l, mark_self next mask small_next, Marked-mark next mask small_next n chosen marked),
        (unmarked-occurs n mask next chosen marked t, distinct),
      )

  pub untried-taken :
      (mask next : ℕ)
      → next < n
      → tried mask next ≡ false
      → untried n (mark mask next) + 1 ≡ untried n mask
  untried-taken mask next l t = untried-mark next mask (omega (arith, l, small)) n l t

  pub report_failure-IsValid :
      (b : Bool) (s : Session) → IsValid n s → IsValid n (report_failure b s)
  unfolding report_failure is_queued
  report_failure-IsValid false s v = v
  report_failure-IsValid true s v = record {
    marked = v.marked;
    distinct = v.distinct;
    count = v.count;
    sent_le = v.sent_le;
    once = v.once;
  }

  pub report_failure-mask :
      (b : Bool) (s : Session) → (report_failure b s).tried_servers_mask ≡ s.tried_servers_mask
  unfolding report_failure
  report_failure-mask false s = refl
  report_failure-mask true s = refl

  pub closed-IsValid : (s : Session) → IsValid n s → IsValid n (record s { server_open = false })
  unfolding is_queued
  closed-IsValid s v = record {
    marked = v.marked;
    distinct = v.distinct;
    count = v.count;
    sent_le = v.sent_le;
    once = v.once;
  }

  -- The guard against replay
  pub guarded-IsFresh : (s : Session) → IsValid n s → may_replay s ≡ false → IsFresh s
  unfolding may_replay
  guarded-IsFresh s v g e = elim (v.once e) [
    | inl f ↦ f
    | inr (f, q) ↦ absurd (true≢false (sym (rw (e, q) refl) ∙ g))
  ]

  pub choose-IsValid :
      (s : Session) (next : ℕ)
      → IsValid n s
      → IsFresh s
      → next < n
      → tried s.tried_servers_mask next ≡ false
      → IsValid n (choose next s)
  unfolding choose take_server
  choose-IsValid s next v fresh l t =
      let (marked, distinct) =
        taken-Marked s.tried_servers_mask next s.chosen l t v.marked v.distinct in
      record {
        marked = marked;
        distinct = distinct;
        count = omega (arith, v.count, untried-taken s.tried_servers_mask next l t);
        sent_le = v.sent_le;
        once = λ e. inl (fresh e);
      }

  pub choose-mask :
      (s : Session) (next : ℕ) → (choose next s).tried_servers_mask ≡ mark s.tried_servers_mask next
  unfolding choose take_server
  choose-mask s next = refl

  pub choose-IsFresh : (s : Session) (next : ℕ) → IsFresh s → IsFresh (choose next s)
  unfolding choose take_server
  choose-IsFresh s next fresh = fresh
