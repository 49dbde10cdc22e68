-- ===== src/Tcp/Handshake/Tries.antt =====
-- src/tcp_proxy.c: the functions between the header and a retry keep the handshake's invariant,
-- whatever the retry behind them is, as long as it does.
use tproxy2ss.Base.{
  ℕ, ◌+◌, ◌≤◌, ◌<◌, ◌≡◌, inl, inr, ap, ◌∙◌, arith, Bool, true, Option, none, some, ltb, leb, ◌==◌,
  Bool-cases, Option-cases, ltb→le,
}
use tproxy2ss.Tcp.Handshake.Dial.{
  Queued, later, refused, accepted, Established, Connect, failed, in_progress, connected, Dial,
  connect_server,
}
use tproxy2ss.Tcp.Handshake.Defs.{
  Session, Result, Try, Tried, not_started, started, is_queued, note_queued, attach_server,
  send_request_header, on_server_connected, build_request_header, connect_with, connect_built,
  try_connect,
}
use tproxy2ss.Tcp.Handshake.Servers.{untried}
use tproxy2ss.Tcp.Handshake.Valid.{
  IsFresh, IsValid, Fine, note_queued-IsValid, moved-IsValid, attach_server-IsValid,
  attach_server-mask, writable-IsValid, unsent-IsFresh, unsent_lem,
}

module _ (n : ℕ) where
  module _ (bound : Type 0) (u : ℕ) (again : Bool → Session → Result)
      (again-Fine : (b : Bool) (s : Session)
        → IsValid n s
        → untried n s.tried_servers_mask ≡ u
        → Fine n bound (again b s)) where
    accepted-Fine :
        (k : ℕ) (s : Session)
        → IsValid n s
        → s.request_header_sent < s.request_header_len
        → s.request_header_sent + k ≤ s.request_header_len
        → IsValid n (note_queued (record s { request_header_sent = s.request_header_sent + k }))
    accepted-Fine k s v l m =
        let fresh = unsent-IsFresh n s v (unsent_lem n s l) in
        note_queued-IsValid n _
          (moved-IsValid n s (s.request_header_sent + k) s.server_open s.writable v fresh m) fresh

    pub sent-Fine :
        (answer : Queued) (s : Session)
        → IsValid n s
        → untried n s.tried_servers_mask ≡ u
        → Fine n bound (send_request_header again answer s)
    unfolding send_request_header
    sent-Fine answer s v e = elim (Bool-cases (ltb s.request_header_len s.request_header_sent)) [
      | inl over ↦ simp over v
      | inr under ↦ elim (Bool-cases (s.request_header_sent == s.request_header_len)) [
        | inl all ↦ simp (under, all) v
        | inr part ↦
            let l : s.request_header_sent < s.request_header_len =
              ground (arith, v.sent_le, part) in
            elim answer as (λ a. Fine n bound (send_request_header again a s)) [
              | later ↦ simp (under, part) v
              | refused b ↦ simp (under, part) (again-Fine b s v e)
              | accepted k ↦ elim (Bool-cases (k == 0)) [
                | inl none_sent ↦ simp (under, part, none_sent) (again-Fine true s v e)
                | inr some_sent ↦
                    elim (Bool-cases (ltb s.request_header_len (s.request_header_sent + k))) [
                      | inl over ↦ simp (under, part, some_sent, over) v
                      | inr within ↦
                          let w =
                            accepted-Fine k s v l
                              (ltb→le s.request_header_len (s.request_header_sent + k) within) in
                          elim (Bool-cases (s.request_header_sent + k == s.request_header_len)) [
                            | inl all ↦ simp (under, part, some_sent, within, all) w
                            | inr short ↦ simp (under, part, some_sent, within, short) w
                          ]
                    ]
              ]
            ]
      ]
    ]

    pub on_server_connected-Fine :
        (e : Established) (s : Session)
        → IsValid n s
        → untried n s.tried_servers_mask ≡ u
        → Fine n bound (on_server_connected again e s)
    unfolding on_server_connected
    on_server_connected-Fine e s v c = elim (Option-cases e.socket_error) [
      | inr (b, q) ↦ rw q (again-Fine b s v c)
      | inl q ↦ elim (Bool-cases (leb s.request_header_len s.request_header_sent)) [
        | inl all ↦ rw (q, all) v
        | inr part ↦ rw (q, part) (sent-Fine e.answer _ (writable-IsValid n s v) c)
      ]
    ]

    -- What a call of `tcp_handshake_try_connect` leaves
    abbrev pub TriedFine : Tried → Type 0
    TriedFine (not_started b s) = IsValid n s × (untried n s.tried_servers_mask ≡ u)
    TriedFine (started r) = Fine n bound r

    connect_with-Fine :
        (c : Connect) (s : Session)
        → IsValid n s
        → IsFresh s
        → untried n s.tried_servers_mask ≡ u
        → TriedFine (connect_with again c s)
    unfolding connect_with
    connect_with-Fine (failed b) s v fresh e = (v, e)
    connect_with-Fine (in_progress nsend) s v fresh e = attach_server-IsValid n nsend s v fresh
    connect_with-Fine (connected nsend est) s v fresh e =
        on_server_connected-Fine est (attach_server nsend s)
          (attach_server-IsValid n nsend s v fresh)
          (ap (untried n) (attach_server-mask n nsend s) ∙ e)

    built-IsValid :
        (s : Session) (k epoch : ℕ)
        → IsValid n s
        → IsFresh s
        → IsValid n (record s {
          selector_attempt_epoch = epoch;
          request_header_len = k;
          request_header_sent = 0;
        })
    built-IsValid s k epoch v fresh = record {
      marked = v.marked;
      distinct = v.distinct;
      count = v.count;
      sent_le = omega arith;
      once = λ e. inl (fresh e);
    }

    epoch-IsValid :
        (s : Session) (epoch : ℕ)
        → IsValid n s
        → IsValid n (record s { selector_attempt_epoch = epoch })
    unfolding is_queued
    epoch-IsValid s epoch v = record {
      marked = v.marked;
      distinct = v.distinct;
      count = v.count;
      sent_le = v.sent_le;
      once = v.once;
    }

    connect_built-Fine :
        (d : Dial) (s : Session) (header : Option ℕ)
        → IsValid n s
        → IsFresh s
        → untried n s.tried_servers_mask ≡ u
        → TriedFine (connect_built again d s (build_request_header header s))
    unfolding connect_built build_request_header
    connect_built-Fine d s none v fresh e = (v, e)
    connect_built-Fine d s (some k) v fresh e = elim (Bool-cases (ltb 65535 k)) [
      | inl long ↦ rw long (v, e)
      | inr short ↦ rw short (
          connect_with-Fine (connect_server d k) _
            (built-IsValid s k s.selector_attempt_epoch v fresh) fresh e)
    ]

    pub try_connect-Fine :
        {D : Type 0} (t : Try D) (s : Session)
        → IsValid n s
        → IsFresh s
        → untried n s.tried_servers_mask ≡ u
        → TriedFine (try_connect again t s)
    unfolding try_connect
    try_connect-Fine t s v fresh e =
        connect_built-Fine t.dial _ t.header (epoch-IsValid s _ v) fresh e
