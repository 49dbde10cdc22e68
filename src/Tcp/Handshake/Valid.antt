-- ===== src/Tcp/Handshake/Valid.antt =====
-- src/tcp_proxy.c: the invariant of the handshake, through the functions below
-- `tcp_handshake_retry`.
use tproxy2ss.Base.{
  ℕ, zero, suc, ◌+◌, ◌≤◌, ◌<◌, min, ◌≡◌, ◌⊎◌, inl, inr, refl, sym, ap, ◌∙◌, arith, Bool, true,
  false, Option, none, some, [], ◌∷◌, Bool-cases,
}
use mathlib.Core.Bool.{true≢false}
use tproxy2ss.Tcp.Relay.Defs.{is_empty}
use tproxy2ss.Tcp.Handshake.Defs.{
  Session, Result, waiting, expecting, relaying, ended, unfinished, is_queued, note_queued,
  attach_server,
}
use tproxy2ss.Tcp.Handshake.Servers.{untried, Distinct, Marked}

-- With a first payload, whole requests went to no server, or to the present one only.
abbrev pub IsOnce : Session → Type 0
IsOnce s =
    is_empty s.initial_payload ≡ false
    → (s.queued ≡ []) ⊎ ((s.queued ≡ s.server_idx ∷ []) × (is_queued s ≡ true))

-- With a first payload, no whole request was sent.
abbrev pub IsFresh : Session → Type 0
IsFresh s = is_empty s.initial_payload ≡ false → s.queued ≡ []

pub record IsValid (n : ℕ) (s : Session) : Type 0 where
  pub marked : Marked n s.tried_servers_mask s.chosen
  pub distinct : Distinct s.chosen
  pub count : s.retry_count + untried n s.tried_servers_mask < n
  pub sent_le : s.request_header_sent ≤ s.request_header_len
  pub once : IsOnce s

-- What a handler leaves; `bound` holds where the attempts came to an end.
abbrev pub Fine : ℕ → Type 0 → Result → Type 0
Fine n bound (waiting s) = IsValid n s
Fine n bound (expecting s) = IsValid n s × (s.queued ≡ [])
Fine n bound (relaying s) = IsValid n s
Fine n bound (ended reset s) = IsValid n s
Fine n bound (unfinished s) = IsValid n s × bound

pub Fine-map : (n : ℕ) {P Q : Type 0} → (P → Q) → (o : Result) → Fine n P o → Fine n Q o
Fine-map n f (waiting s) v = v
Fine-map n f (expecting s) v = v
Fine-map n f (relaying s) v = v
Fine-map n f (ended reset s) v = v
Fine-map n f (unfinished s) (v, p) = (v, f p)

module _ (n : ℕ) where
  pub note_queued-IsValid : (s : Session) → IsValid n s → IsFresh s → IsValid n (note_queued s)
  unfolding note_queued is_queued
  note_queued-IsValid s v fresh = elim (Bool-cases (is_queued s)) [
    | inl q ↦ simp q (record {
      marked = v.marked;
      distinct = v.distinct;
      count = v.count;
      sent_le = v.sent_le;
      once = λ e. inr (ap (λ z. s.server_idx ∷ z) (fresh e), q);
    })
    | inr q ↦ simp q v
  ]

  -- The bytes sent and the callback change.
  pub moved-IsValid :
      (s : Session) (sent : ℕ) (is_open writable : Bool)
      → IsValid n s
      → IsFresh s
      → sent ≤ s.request_header_len
      → IsValid n
          (record s { request_header_sent = sent; server_open = is_open; writable = writable })
  moved-IsValid s sent is_open writable v fresh l = record {
    marked = v.marked;
    distinct = v.distinct;
    count = v.count;
    sent_le = l;
    once = λ e. inl (fresh e);
  }

  pub attach_server-IsValid :
      (nsend : Option ℕ) (s : Session) → IsValid n s → IsFresh s → IsValid n (attach_server nsend s)
  unfolding attach_server
  attach_server-IsValid none s v fresh =
      moved-IsValid s s.request_header_sent true false v fresh v.sent_le
  attach_server-IsValid (some zero) s v fresh =
      moved-IsValid s s.request_header_sent true false v fresh v.sent_le
  attach_server-IsValid (some (suc k)) s v fresh =
      note_queued-IsValid _
        (moved-IsValid s (min (suc k) s.request_header_len) true false v fresh (omega arith)) fresh

  note_queued-mask : (s : Session) → (note_queued s).tried_servers_mask ≡ s.tried_servers_mask
  unfolding note_queued
  note_queued-mask s = elim (Bool-cases (is_queued s)) [ inl q ↦ rw q refl | inr q ↦ rw q refl ]

  pub attach_server-mask :
      (nsend : Option ℕ) (s : Session)
      → (attach_server nsend s).tried_servers_mask ≡ s.tried_servers_mask
  unfolding attach_server
  attach_server-mask none s = refl
  attach_server-mask (some zero) s = refl
  attach_server-mask (some (suc k)) s = note_queued-mask _

  pub writable-IsValid : (s : Session) → IsValid n s → IsValid n (record s { writable = true })
  unfolding is_queued
  writable-IsValid s v = record {
    marked = v.marked;
    distinct = v.distinct;
    count = v.count;
    sent_le = v.sent_le;
    once = v.once;
  }

  pub unsent-IsFresh : (s : Session) → IsValid n s → is_queued s ≡ false → IsFresh s
  unsent-IsFresh s v q e = elim (v.once e) [
    | inl f ↦ f
    | inr (f, t) ↦ absurd (true≢false (sym t ∙ q))
  ]

  pub unsent_lem :
      (s : Session) → s.request_header_sent < s.request_header_len → is_queued s ≡ false
  unfolding is_queued
  unsent_lem s l = ground (arith, l)
