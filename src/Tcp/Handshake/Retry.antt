-- ===== src/Tcp/Handshake/Retry.antt =====
-- src/tcp_proxy.c: the loop of `tcp_handshake_retry`.
use tproxy2ss.Base.{
  ℕ, suc, ◌+◌, ◌≤◌, ◌<◌, ◌≡◌, inl, inr, refl, sym, ap, ◌∙◌, arith, Bool, true, false, not, none,
  some, List, [], ◌∷◌, if◌then◌else◌, length, Bool-cases, Option-cases,
}
use mathlib.Core.Path.{subst}
use tproxy2ss.Selector.Defs.{Selector, max_servers, tried, next_best_tcp}
use tproxy2ss.Selector.Candidate.{Chosen, candidate-Chosen}
use tproxy2ss.Tcp.Handshake.Dial.{Established}
use tproxy2ss.Tcp.Handshake.Defs.{
  Session, Result, ended, Attempt, Tried, not_started, started, may_replay, try_connect,
  report_failure, choose, retry, after_try, start, on_server_event, Try,
}
use tproxy2ss.Tcp.Handshake.Servers.{untried}
use tproxy2ss.Tcp.Handshake.Valid.{IsValid, IsFresh, Fine, Fine-map}
use tproxy2ss.Tcp.Handshake.Tries.{TriedFine, try_connect-Fine, sent-Fine, on_server_connected-Fine}
use tproxy2ss.Tcp.Handshake.Choice.{
  untried-taken, report_failure-IsValid, report_failure-mask, closed-IsValid, guarded-IsFresh,
  choose-IsValid, choose-mask, choose-IsFresh,
}

-- Every selector that is asked has `n` servers.
abbrev pub HasServers : {D : Type 0} → ℕ → List (Attempt D) → Type 0
HasServers n [] = Unit
HasServers n (a ∷ l) = (a.view.server_count ≡ n) × HasServers n l

module _ {D : Type 0} (n : ℕ) (small : n ≤ max_servers) where
  -- The selector names a server without a mark.
  pub next-unmarked :
      (view : Selector D) (mask next : ℕ)
      → view.server_count ≡ n
      → next_best_tcp view mask ≡ some next
      → (next < n) × (tried mask next ≡ false)
  unfolding next_best_tcp
  next-unmarked view mask next c e =
      let (l, t, best) =
        subst (Chosen view mask view.server_count) e (candidate-Chosen view mask) in
      (omega (arith, l, c), t)

  -- The branches of a round
  retry-replay :
      (a : Attempt D) (l : List (Attempt D)) (b : Bool) (s : Session)
      → may_replay (report_failure b s) ≡ true
      → retry (a ∷ l) b s ≡ ended true (report_failure b s)
  unfolding retry
  retry-replay a l b s e = simp e refl

  retry-gone :
      (a : Attempt D) (l : List (Attempt D)) (b : Bool) (s : Session)
      → may_replay (report_failure b s) ≡ false
      → a.client_gone ≡ true
      → retry (a ∷ l) b s ≡ ended false (record (report_failure b s) { server_open = false })
  unfolding retry
  retry-gone a l b s e g = simp (e, g) refl

  retry-exhausted :
      (a : Attempt D) (l : List (Attempt D)) (b : Bool) (s : Session)
      → may_replay (report_failure b s) ≡ false
      → a.client_gone ≡ false
      → next_best_tcp a.view (report_failure b s).tried_servers_mask ≡ none
      → retry (a ∷ l) b s ≡ ended true (record (report_failure b s) { server_open = false })
  unfolding retry
  retry-exhausted a l b s e g f = simp (e, g, f) refl

  -- What a round goes on with, behind the choice
  abbrev chosen_round : Attempt D → List (Attempt D) → Session → Result
  chosen_round a l s =
      if not a.ready then retry l false s else after_try l (try_connect (retry l) a.try s)

  retry-chosen :
      (a : Attempt D) (l : List (Attempt D)) (b : Bool) (s : Session) (next : ℕ)
      → may_replay (report_failure b s) ≡ false
      → a.client_gone ≡ false
      → next_best_tcp a.view (report_failure b s).tried_servers_mask ≡ some next
      → retry (a ∷ l) b s ≡ chosen_round a l (choose next (report_failure b s))
  unfolding retry after_try
  retry-chosen a l b s next e g f = simp (e, g, f) refl

  module _ (bound : Type 0) (u : ℕ) (l : List (Attempt D))
      (rest : (b : Bool) (s : Session)
        → IsValid n s
        → untried n s.tried_servers_mask ≡ u
        → Fine n bound (retry l b s)) where
    after_try-Fine :
        (o : Tried) → TriedFine n bound u (retry l) rest o → Fine n bound (after_try l o)
    unfolding after_try
    after_try-Fine (not_started b s) (v, e) = rest b s v e
    after_try-Fine (started r) v = v

    chosen_round-Fine :
        (a : Attempt D) (s : Session)
        → IsValid n s
        → IsFresh s
        → untried n s.tried_servers_mask ≡ u
        → Fine n bound (chosen_round a l s)
    chosen_round-Fine a s v fresh e = elim (Bool-cases a.ready) [
      | inl ready ↦ simp ready (
          after_try-Fine (try_connect (retry l) a.try s)
            (try_connect-Fine n bound u (retry l) rest a.try s v fresh e))
      | inr not_ready ↦ simp not_ready (rest false s v e)
    ]

  -- A retry keeps the invariant, and comes to the end of the attempts only if there are no more
  -- attempts than servers without a mark.
  pub retry-Fine :
      (l : List (Attempt D)) (b : Bool) (s : Session)
      → HasServers n l
      → IsValid n s
      → Fine n (length l ≤ untried n s.tried_servers_mask) (retry l b s)
  unfolding retry
  retry-Fine [] b s h v = (v, omega arith)
  retry-Fine (a ∷ l) b s (c, h) v =
      let r = report_failure b s in
      let w : IsValid n r = report_failure-IsValid n small b s v in
      let bound = suc (length l) ≤ untried n s.tried_servers_mask in
      elim (Bool-cases (may_replay r)) [
        | inl replay ↦ subst (Fine n bound) (sym (retry-replay a l b s replay)) w
        | inr guarded ↦ elim (Bool-cases a.client_gone) [
          | inl gone ↦
              subst (Fine n bound) (sym (retry-gone a l b s guarded gone))
                (closed-IsValid n small r w)
          | inr there ↦ elim (Option-cases (next_best_tcp a.view r.tried_servers_mask)) [
            | inl e ↦
                subst (Fine n bound) (sym (retry-exhausted a l b s guarded there e))
                  (closed-IsValid n small r w)
            | inr (next, e) ↦
                let (lt, t) = next-unmarked a.view r.tried_servers_mask next c e in
                let fresh = guarded-IsFresh n small r w guarded in
                let less : untried n (choose next r).tried_servers_mask + 1
                    ≡ untried n s.tried_servers_mask =
                  ap (λ z. untried n z + 1) (choose-mask n small r next)
                  ∙ untried-taken n small r.tried_servers_mask next lt t
                  ∙ ap (untried n) (report_failure-mask n small b s) in
                subst (Fine n bound) (sym (retry-chosen a l b s next guarded there e)) (
                  chosen_round-Fine bound (untried n (choose next r).tried_servers_mask) l
                    (λ b' s' v' same.
                      Fine-map n (λ k. omega (arith, k, same, less)) (retry l b' s')
                        (retry-Fine l b' s' h v'))
                    a (choose next r) (choose-IsValid n small r next w fresh lt t)
                    (choose-IsFresh n small r next fresh) refl)
          ]
        ]
      ]

  pub start-Fine :
      (t : Try D) (l : List (Attempt D)) (s : Session)
      → HasServers n l
      → IsValid n s
      → IsFresh s
      → Fine n (length l ≤ untried n s.tried_servers_mask) (start t l s)
  unfolding start
  start-Fine t l s h v fresh =
      let bound = length l ≤ untried n s.tried_servers_mask in
      let rest : (b : Bool) (s' : Session)
          → IsValid n s'
          → untried n s'.tried_servers_mask ≡ untried n s.tried_servers_mask
          → Fine n bound (retry l b s') =
        λ b s' v' same.
          Fine-map n (λ k. omega (arith, k, same)) (retry l b s') (retry-Fine l b s' h v') in
      after_try-Fine bound (untried n s.tried_servers_mask) l rest (try_connect (retry l) t s)
        (try_connect-Fine n bound (untried n s.tried_servers_mask) (retry l) rest t s v fresh refl)

  -- What the event loop calls on the server's socket
  pub on_server_event-Fine :
      (e : Established) (l : List (Attempt D)) (s : Session)
      → HasServers n l
      → IsValid n s
      → Fine n (length l ≤ untried n s.tried_servers_mask) (on_server_event e l s)
  unfolding on_server_event
  on_server_event-Fine e l s h v =
      let bound = length l ≤ untried n s.tried_servers_mask in
      let rest : (b : Bool) (s' : Session)
          → IsValid n s'
          → untried n s'.tried_servers_mask ≡ untried n s.tried_servers_mask
          → Fine n bound (retry l b s') =
        λ b s' v' same.
          Fine-map n (λ k. omega (arith, k, same)) (retry l b s') (retry-Fine l b s' h v') in
      elim (Bool-cases s.writable) [
        | inl w ↦
            simp w
              (sent-Fine n bound (untried n s.tried_servers_mask) (retry l) rest e.answer s v refl)
        | inr w ↦ simp w (
            on_server_connected-Fine n bound (untried n s.tried_servers_mask) (retry l) rest e s v
              refl)
      ]
