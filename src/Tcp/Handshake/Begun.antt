-- ===== src/Tcp/Handshake/Begun.antt =====
-- src/tcp_proxy.c: the beginning of a session establishes the handshake's invariant.
use tproxy2ss.Base.{
  ℕ, suc, ◌+◌, ◌-◌, ◌^◌, ◌≤◌, ◌<◌, ◌≡◌, inl, inr, refl, sym, ap, ◌∙◌, arith, Bool, true, false,
  ◌&&◌, none, some, List, [], ◌∷◌, length, take, leb, if◌then◌else◌, Bool-cases, Option-cases,
}
use mathlib.Core.Path.{subst}
use tproxy2ss.Base.Bits.{zero-bit_and}
use tproxy2ss.Base.Bytes.{Bytes}
use tproxy2ss.Selector.Defs.{max_servers, tried, next_best_tcp}
use tproxy2ss.Tcp.Client.{plain_bufsiz}
use tproxy2ss.Tcp.Relay.Defs.{Received, nothing, error, end_of_stream, got, is_empty}
use tproxy2ss.Tcp.Handshake.Defs.{Session, Try, Attempt, take_server}
use tproxy2ss.Tcp.Handshake.Servers.{mark, untried, Distinct, Marked, untried_bound}
use tproxy2ss.Tcp.Handshake.Valid.{IsValid, Fine}
use tproxy2ss.Tcp.Handshake.Choice.{taken-Marked, untried-taken}
use tproxy2ss.Tcp.Handshake.Retry.{HasServers, next-unmarked, start-Fine}
use tproxy2ss.Tcp.Handshake.Begin.{
  Initial, payload_error, payload_read, read_initial_payload, Pick, Created, no_session, created,
  undecided, zeroed_session, start_after_initial_payload, create_next, session_create,
}

abbrev pub IsBegun : ℕ → Session → Type 0
IsBegun n s = IsValid n s × (s.queued ≡ [])

abbrev pub BegunInitial : ℕ → Initial → Type 0
BegunInitial n (payload_error s) = IsBegun n s
BegunInitial n (payload_read need_wait s) = IsBegun n s

pub payload-IsBegun :
    (n : ℕ) (s : Session) (payload : Bytes) (eof : Bool)
    → IsBegun n s
    → IsBegun n (record s { initial_payload = payload; client_eof = eof })
payload-IsBegun n s payload eof (v, q) = (
  record {
    marked = v.marked;
    distinct = v.distinct;
    count = v.count;
    sent_le = v.sent_le;
    once = λ e. inl q;
  },
  q,
)

pub read_initial_payload-BegunInitial :
    (n : ℕ) (l : List Received) (s : Session)
    → IsBegun n s
    → BegunInitial n (read_initial_payload l s)
unfolding read_initial_payload
read_initial_payload-BegunInitial n [] s v =
    elim (Bool-cases (leb plain_bufsiz (length s.initial_payload))) [
      | inl full ↦ simp full v
      | inr room ↦ simp room v
    ]
read_initial_payload-BegunInitial n (answer ∷ l) s v =
    elim (Bool-cases (leb plain_bufsiz (length s.initial_payload))) [
      | inl full ↦ simp full v
      | inr room ↦ elim answer as (λ a. BegunInitial n (read_initial_payload (a ∷ l) s)) [
        | nothing ↦ simp room v
        | error ↦ simp room v
        | end_of_stream ↦ simp room (payload-IsBegun n s s.initial_payload true v)
        | got bs ↦
            elim (Bool-cases (is_empty (take (plain_bufsiz - length s.initial_payload) bs))) [
              | inl e ↦ simp (room, e) (payload-IsBegun n s s.initial_payload true v)
              | inr e ↦
                  simp (room, e)
                    (read_initial_payload-BegunInitial n l _ (payload-IsBegun n s _ s.client_eof v))
            ]
      ]
    ]

-- A session in the making
record IsPicking (n : ℕ) (s : Session) : Type 0 where
  marked : Marked n s.tried_servers_mask s.chosen
  distinct : Distinct s.chosen
  none_retried : s.retry_count ≡ 0
  none_sent : s.request_header_sent ≡ 0
  none_queued : s.queued ≡ []

-- The condition on the list of rounds, where it came to an end
abbrev pub CreatedFine : ℕ → Type 0 → Created → Type 0
CreatedFine n bound no_session = Unit
CreatedFine n bound (created s) = IsBegun n s
CreatedFine n bound undecided = bound

CreatedFine-map :
    (n : ℕ) {P Q : Type 0} → (P → Q) → (o : Created) → CreatedFine n P o → CreatedFine n Q o
CreatedFine-map n f no_session v = v
CreatedFine-map n f (created s) v = v
CreatedFine-map n f undecided v = f v

-- Every selector that is asked has `n` servers.
abbrev pub PicksServers : {D : Type 0} → ℕ → List (Pick D) → Type 0
PicksServers n [] = Unit
PicksServers n (p ∷ l) = (p.view.server_count ≡ n) × PicksServers n l

module _ (n : ℕ) (small : n ≤ max_servers) where
  taken-IsPicking :
      (s : Session) (next : ℕ)
      → IsPicking n s
      → next < n
      → tried s.tried_servers_mask next ≡ false
      → IsPicking n (take_server next s)
  unfolding take_server
  taken-IsPicking s next v l t =
      let (marked, distinct) =
        taken-Marked n small s.tried_servers_mask next s.chosen l t v.marked v.distinct in
      record {
        marked = marked;
        distinct = distinct;
        none_retried = v.none_retried;
        none_sent = v.none_sent;
        none_queued = v.none_queued;
      }

  picked-IsBegun : (s : Session) → IsPicking n s → untried n s.tried_servers_mask < n → IsBegun n s
  picked-IsBegun s v l = (
    record {
      marked = v.marked;
      distinct = v.distinct;
      count = omega (arith, v.none_retried, l);
      sent_le = omega (arith, v.none_sent);
      once = λ e. inl v.none_queued;
    },
    v.none_queued,
  )

  take_server-mask :
      (s : Session) (next : ℕ)
      → (take_server next s).tried_servers_mask ≡ mark s.tried_servers_mask next
  unfolding take_server
  take_server-mask s next = refl

  zeroed-IsPicking : IsPicking n zeroed_session
  zeroed-IsPicking = record {
    marked = tt;
    distinct = tt;
    none_retried = refl;
    none_sent = refl;
    none_queued = refl;
  }

  none_tried : (i : ℕ) → tried 0 i ≡ false
  unfolding tried
  none_tried i = rw (zero-bit_and (2 ^ i)) refl

module _ {D : Type 0} (n : ℕ) (small : n ≤ max_servers) where
  pub start_after-Fine :
      (t : Try D) (l : List (Attempt D)) (s : Session)
      → HasServers n l
      → IsBegun n s
      → Fine n (length l ≤ untried n s.tried_servers_mask) (start_after_initial_payload t l s)
  unfolding start_after_initial_payload
  start_after-Fine t l s h (v, q) = elim (Bool-cases (is_empty s.initial_payload && s.client_eof)) [
    | inl e ↦ simp e v
    | inr e ↦ simp e (start-Fine n small t l s h v (λ z. q))
  ]

  create_next-none :
      (p : Pick D) (l : List (Pick D)) (s : Session)
      → next_best_tcp p.view s.tried_servers_mask ≡ none
      → create_next (p ∷ l) s ≡ no_session
  unfolding create_next
  create_next-none p l s e = rw (create_next, e) refl

  create_next-some :
      (p : Pick D) (l : List (Pick D)) (s : Session) (next : ℕ)
      → next_best_tcp p.view s.tried_servers_mask ≡ some next
      → create_next (p ∷ l) s
        ≡ (if p.ready then created (take_server next s) else create_next l (take_server next s))
  unfolding create_next
  create_next-some p l s next e = simp (create_next, e) refl

  create_next-CreatedFine :
      (l : List (Pick D)) (s : Session)
      → PicksServers n l
      → IsPicking n s
      → untried n s.tried_servers_mask < n
      → CreatedFine n (length l ≤ untried n s.tried_servers_mask) (create_next l s)
  unfolding create_next
  create_next-CreatedFine [] s h v c = omega arith
  create_next-CreatedFine (p ∷ l) s (k, h) v c =
      let bound = suc (length l) ≤ untried n s.tried_servers_mask in
      elim (Option-cases (next_best_tcp p.view s.tried_servers_mask)) [
        | inl e ↦ subst (CreatedFine n bound) (sym (create_next-none p l s e)) tt
        | inr (next, e) ↦
            let (lt, t) = next-unmarked n small p.view s.tried_servers_mask next k e in
            let w = taken-IsPicking n small s next v lt t in
            let less : untried n (take_server next s).tried_servers_mask + 1
                ≡ untried n s.tried_servers_mask =
              ap (λ z. untried n z + 1) (take_server-mask n small s next)
              ∙ untried-taken n small s.tried_servers_mask next lt t in
            subst (CreatedFine n bound) (sym (create_next-some p l s next e))
              (elim (Bool-cases p.ready) [
                | inl ready ↦
                    simp ready
                      (picked-IsBegun n small (take_server next s) w (omega (arith, less, c)))
                | inr failed ↦ simp failed (
                    CreatedFine-map n (λ b. omega (arith, b, less))
                      (create_next l (take_server next s))
                      (create_next-CreatedFine l (take_server next s) h w (omega (arith, less, c))))
              ])
      ]

  -- A session that is created has begun; the loop ends by its own tests when there are as many
  -- rounds as servers.
  pub session_create-CreatedFine :
      (memory : Bool) (p : Pick D) (l : List (Pick D))
      → p.view.best_idx < n
      → PicksServers n l
      → CreatedFine n (suc (length l) ≤ n) (session_create memory (p ∷ l))
  unfolding session_create
  session_create-CreatedFine false p l lt h = tt
  session_create-CreatedFine true p l lt h =
      let best = p.view.best_idx in
      let w =
        taken-IsPicking n small zeroed_session best (zeroed-IsPicking n small) lt
          (none_tried n small best) in
      let less : untried n (take_server best zeroed_session).tried_servers_mask + 1 ≡ untried n 0 =
        ap (λ z. untried n z + 1) (take_server-mask n small zeroed_session best)
        ∙ untried-taken n small 0 best lt (none_tried n small best) in
      let below : untried n (take_server best zeroed_session).tried_servers_mask < n =
        omega (arith, less, untried_bound n 0) in
      elim (Bool-cases p.ready) [
        | inl ready ↦ simp ready (picked-IsBegun n small (take_server best zeroed_session) w below)
        | inr failed ↦ simp failed (
            CreatedFine-map n (λ b. omega (arith, b, below))
              (create_next l (take_server best zeroed_session))
              (create_next-CreatedFine l (take_server best zeroed_session) h w below))
      ]
