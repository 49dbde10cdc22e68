-- ===== src/Udp/Session/Freed.antt =====
-- src/udp_proxy.c: `udp_session_free` and `udp_session_close_indexed` by what they leave alone.
use tproxy2ss.Base.{
  ℕ, ◌≡◌, ◌≢◌, inl, inr, sym, ap, ◌∙◌, arith, some, List, [], ◌∷◌, ◌==◌, Bool-cases, Option-cases,
}
use mathlib.Core.Path.{subst}
use mathlib.Core.Option.{some_inj, none-ne-some}
use tproxy2ss.Lru.Defs.{Clock, Entry, IsIn}
use tproxy2ss.Udp.Replies.{UdpTable}
use tproxy2ss.Udp.Session.{UdpSession, free_session, Sessions, close_detached}

-- A freed session takes no session of another node along.
pub free_session-keeps :
    (p : ℕ) (l r : List (ℕ × UdpSession)) (q : ℕ) (s : UdpSession)
    → free_session p l ≡ some r
    → q ≢ p
    → IsIn (q, s) l
    → IsIn (q, s) r
unfolding free_session
free_session-keeps p [] r q s e ne i = absurd i
free_session-keeps p ((x, t) ∷ l) r q s e ne i = elim (Bool-cases (x == p)) [
  | inl here ↦
      let same : l ≡ r = some_inj.0 (rw here at e) in
      elim i [
        | inl f ↦ absurd (ne (ap (λ z. z.0) f ∙ ground (arith, here)))
        | inr j ↦ subst (λ m. IsIn (q, s) m) same j
      ]
  | inr other ↦ elim (Option-cases (free_session p l)) [
    | inl f ↦ absurd (none-ne-some r (rw (other, f) at e))
    | inr (u, f) ↦
        let same : (x, t) ∷ u ≡ r = some_inj.0 (rw (other, f) at e) in
        subst (λ m. IsIn (q, s) m) same
          (elim i [ inl g ↦ inl g | inr j ↦ inr (free_session-keeps p l u q s f ne j) ])
  ]
]

module _ {K T Table : Type 0} (clock : Clock T) (table : UdpTable K T Table) (maxsize : ℕ)
    (now : T) where
  -- What a detached close makes of the state
  pub close_detached-result :
      (node : Entry K T) (st st' : Sessions Table)
      → close_detached clock table maxsize now node st ≡ some st'
      → (l : List (ℕ × UdpSession)) × (free_session node.ptr st.sessions ≡ some l)
        × (st' ≡ record st { sessions = l })
  unfolding close_detached
  close_detached-result node st st' e = elim (Option-cases (free_session node.ptr st.sessions)) [
    | inl f ↦ absurd (none-ne-some st' (rw (close_detached, f) at e))
    | inr (l, f) ↦ (l, f, sym (some_inj.0 (rw (close_detached, f) at e)))
  ]
