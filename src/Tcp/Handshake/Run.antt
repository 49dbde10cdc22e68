-- ===== src/Tcp/Handshake/Run.antt =====
-- src/tcp_proxy.c: what a handshake guarantees, from the creation of its session on.
use tproxy2ss.Base.{
  Bool, ℕ, suc, ◌≤◌, ◌<◌, ◌≡◌, ◌≢◌, ◌⊎◌, arith, true, false, List, [], ◌∷◌, length,
}
use mathlib.Core.Path.{subst}
use tproxy2ss.Selector.Defs.{max_servers}
use tproxy2ss.Tcp.Relay.Defs.{Received, is_empty}
use tproxy2ss.Tcp.Handshake.Dial.{Established}
use tproxy2ss.Tcp.Handshake.Defs.{
  Session, Result, waiting, expecting, relaying, ended, unfinished, Try, Attempt, is_queued, retry,
  on_timeout, on_server_event,
}
use tproxy2ss.Tcp.Handshake.Servers.{untried, Distinct, Marked}
use tproxy2ss.Tcp.Handshake.Valid.{IsValid, Fine, Fine-map}
use tproxy2ss.Tcp.Handshake.Retry.{HasServers, retry-Fine, on_server_event-Fine}
use tproxy2ss.Tcp.Handshake.Begin.{
  Initial, payload_error, payload_read, read_initial_payload, Pick, created, undecided,
  start_after_initial_payload, after_read, after_wait, on_initial_payload_read,
  on_initial_payload_timeout, session_create,
}
use tproxy2ss.Tcp.Handshake.Begun.{
  IsBegun, BegunInitial, PicksServers, CreatedFine, read_initial_payload-BegunInitial,
  start_after-Fine, session_create-CreatedFine,
}

-- The attempts at the servers, of which every selector has `n`, and which are enough for a retry
abbrev pub Enough : {D : Type 0} → ℕ → List (Attempt D) → Type 0
Enough n l = HasServers n l × (n ≤ length l)

-- A session from its creation on, through the events of its handshake. What the sockets, the
-- selector and the library answer is free; the selectors have `n` servers.
pub data Runs (D : Type 0) (n : ℕ) : Result → Type 0 where
  creation :
      {s : Session} (memory : Bool) (p : Pick D) (picks : List (Pick D))
      → p.view.best_idx < n
      → PicksServers n picks
      → session_create memory (p ∷ picks) ≡ created s
      → Runs D n (expecting s)
  payload :
      {s : Session} (answers : List Received) (t : Try D) (l : List (Attempt D))
      → Runs D n (expecting s)
      → Enough n l
      → Runs D n (on_initial_payload_read answers t l s)
  payload_timeout :
      {s : Session} (answers : List Received) (t : Try D) (l : List (Attempt D))
      → Runs D n (expecting s)
      → Enough n l
      → Runs D n (on_initial_payload_timeout answers t l s)
  server :
      {s : Session} (e : Established) (l : List (Attempt D))
      → Runs D n (waiting s)
      → Enough n l
      → Runs D n (on_server_event e l s)
  timeout :
      {s : Session} (l : List (Attempt D))
      → Runs D n (waiting s)
      → Enough n l
      → Runs D n (on_timeout l s)

abbrev pub state_of : Result → Session
state_of (waiting s) = s
state_of (expecting s) = s
state_of (relaying s) = s
state_of (ended reset s) = s
state_of (unfinished s) = s

Fine-IsValid : (n : ℕ) (o : Result) → Fine n ⊥ o → IsValid n (state_of o)
Fine-IsValid n (waiting s) v = v
Fine-IsValid n (expecting s) v = v.0
Fine-IsValid n (relaying s) v = v
Fine-IsValid n (ended reset s) v = v
Fine-IsValid n (unfinished s) v = v.0

module _ {D : Type 0} (n : ℕ) (small : n ≤ max_servers) where
  -- Enough attempts do not come to an end.
  Enough-Fine :
      (l : List (Attempt D)) (s : Session) (o : Result)
      → Enough n l
      → IsValid n s
      → Fine n (length l ≤ untried n s.tried_servers_mask) o
      → Fine n ⊥ o
  Enough-Fine l s o (h, m) v = Fine-map n (λ k. absurd (omega (arith, k, m, v.count))) o

  started-Fine :
      (t : Try D) (l : List (Attempt D)) (s : Session)
      → Enough n l
      → IsBegun n s
      → Fine n ⊥ (start_after_initial_payload t l s)
  started-Fine t l s h v =
      Enough-Fine l s (start_after_initial_payload t l s) h v.0
        (start_after-Fine n small t l s h.0 v)

  read-Fine :
      (t : Try D) (l : List (Attempt D)) (i : Initial)
      → Enough n l
      → BegunInitial n i
      → Fine n ⊥ (after_read t l i)
  unfolding after_read
  read-Fine t l (payload_error s) h v = v.0
  read-Fine t l (payload_read true s) h v = v
  read-Fine t l (payload_read false s) h v = started-Fine t l s h v

  wait-Fine :
      (t : Try D) (l : List (Attempt D)) (i : Initial)
      → Enough n l
      → BegunInitial n i
      → Fine n ⊥ (after_wait t l i)
  unfolding after_wait
  wait-Fine t l (payload_error s) h v = v.0
  wait-Fine t l (payload_read need_wait s) h v = started-Fine t l s h v

  Runs-Fine : {o : Result} → Runs D n o → Fine n ⊥ o
  unfolding on_initial_payload_read on_initial_payload_timeout on_timeout
  Runs-Fine (creation {s} memory p picks lt h e) =
      subst (CreatedFine n _) e (session_create-CreatedFine n small memory p picks lt h)
  Runs-Fine (payload {s} answers t l run h) =
      read-Fine t l (read_initial_payload answers s) h
        (read_initial_payload-BegunInitial n answers s (Runs-Fine run))
  Runs-Fine (payload_timeout {s} answers t l run h) =
      wait-Fine t l (read_initial_payload answers s) h
        (read_initial_payload-BegunInitial n answers s (Runs-Fine run))
  Runs-Fine (server {s} e l run h) =
      let v = Runs-Fine run in
      Enough-Fine l s (on_server_event e l s) h v (on_server_event-Fine n small e l s h.0 v)
  Runs-Fine (timeout {s} l run h) =
      let v = Runs-Fine run in
      Enough-Fine l s (retry l true s) h v (retry-Fine n small l true s h.0 v)

  -- No request is replayed: with at most eight servers, of which all selectors that are asked
  -- have the same number, and whatever sockets and libraries answer, a session with a first
  -- payload has, at every moment of its handshake and after it, sent a whole request header to
  -- no server, or only once, to the server that it names then.
  pub Runs-replay :
      (o : Result)
      → Runs D n o
      → is_empty (state_of o).initial_payload ≡ false
      → ((state_of o).queued ≡ [])
        ⊎ (((state_of o).queued ≡ (state_of o).server_idx ∷ []) × (is_queued (state_of o) ≡ true))
  Runs-replay o run e = (Fine-IsValid n o (Runs-Fine run)).once e

  -- With at most eight servers, of which all selectors that are asked have the same number, a
  -- session never chooses a server twice in its handshake, and all that it chose are servers
  -- whose bits are in its mask.
  pub Runs-Distinct :
      (o : Result)
      → Runs D n o
      → Distinct (state_of o).chosen × Marked n (state_of o).tried_servers_mask (state_of o).chosen
  Runs-Distinct o run = let v = Fine-IsValid n o (Runs-Fine run) in (v.distinct, v.marked)

  -- Every handler of a handshake returns: with at most eight servers, of which all selectors
  -- that are asked have the same number, as many rounds of `tcp_handshake_retry` as there are
  -- servers are enough for each of them.
  pub Runs-finishes : (o : Result) (s : Session) → Runs D n o → o ≢ unfinished s
  Runs-finishes o s run e = (subst (Fine n ⊥) e (Runs-Fine run)).1

  -- With at most eight servers, of which all selectors that are asked have the same number, a
  -- session is retried less often than there are servers, and what was sent of the request
  -- header is within the header.
  pub Runs-retries :
      (o : Result)
      → Runs D n o
      → ((state_of o).retry_count < n)
        × ((state_of o).request_header_sent ≤ (state_of o).request_header_len)
  Runs-retries o run =
      let v = Fine-IsValid n o (Runs-Fine run) in (omega (arith, v.count), v.sent_le)

  -- The creation of a session returns: with at most eight servers, of which all selectors that
  -- are asked have the same number, and a best index that is a server's, one round more than
  -- there are servers is enough.
  pub session_create-finishes :
      (memory : Bool) (p : Pick D) (l : List (Pick D))
      → p.view.best_idx < n
      → PicksServers n l
      → n ≤ length l
      → session_create memory (p ∷ l) ≢ undecided
  session_create-finishes memory p l lt h m e =
      let bound : suc (length l) ≤ n =
        subst (CreatedFine n (suc (length l) ≤ n)) e
          (session_create-CreatedFine n small memory p l lt h) in
      omega (arith, bound, m)
