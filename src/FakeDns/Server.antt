-- ===== src/FakeDns/Server.antt =====
-- src/fakedns_server.c: a batch of DNS queries. Every message of the batch has a buffer of its own,
-- so a message is its sender's address with the bytes that stand in its buffer.
mod Tests
use tproxy2ss.Base.{
  ℕ, ◌+◌, ◌*◌, ◌≤◌, ◌<◌, ◌≡◌, ◌⊎◌, inl, inr, refl, sym, ap, arith, Bool, Option, none, some, List,
  [], ◌∷◌, length, ◌==◌, Bool-cases, Option-cases,
}
use mathlib.Core.Path.{subst}
use tproxy2ss.Base.Bytes.{Bytes}
use tproxy2ss.FakeDns.Defs.{FakeDns}
use tproxy2ss.FakeDns.Keeps.{lookup_domain-IsValid}
use tproxy2ss.FakeDns.Lookup.{lookup_domain}
use tproxy2ss.FakeDns.Ptr.{parse_ptr_name}
use tproxy2ss.FakeDns.Query.{Reply, reply_a, reply_ptr, reply_type, process_query}
use tproxy2ss.FakeDns.Query.Bounds.{process_query-within}
use tproxy2ss.FakeDns.Query.Echo.{Echoes, process_query-Echoes}
use tproxy2ss.FakeDns.Query.State.{process_query-IsValid}
use tproxy2ss.FakeDns.Reverse.{Mru}
use tproxy2ss.FakeDns.Valid.{IsValid}

-- `FAKEDNS_BATCH_SIZE`, `FAKEDNS_MAX_UDP_SIZE`
abbrev pub batch_size : ℕ
batch_size = 16

abbrev pub max_udp_size : ℕ
max_udp_size = 512

-- A message: the other side's address as a number, and the bytes
pub record Message : Type 0 where
  pub address : ℕ
  pub bytes : Bytes

-- A query that `recvmmsg` put into the batch, with the clock and the memory that are found while
-- it is processed.
pub record Arrival : Type 0 where
  pub message : Message
  pub now : ℕ
  pub memory : Bool

-- The pool and the cache after the loop, and the messages of `send_msgs`.
pub record Answered : Type 0 where
  pub pool : FakeDns
  pub mru : Mru
  pub send_msgs : List Message

-- `if (nresp > 0)`: the response goes to where the query came from, from the query's buffer.
unfoldable pub queue_response : Message → Option Bytes → Answered → Answered
queue_response query none rest = rest
queue_response query (some response) rest = record rest {
  send_msgs = record { address = query.address; bytes = response } ∷ rest.send_msgs;
}

module _ (hash : Bytes → ℕ) where
  -- The loop over the messages
  unfoldable pub answer_all : FakeDns → Mru → List Arrival → Answered
  answer_all p mru [] = record { pool = p; mru = mru; send_msgs = [] }
  answer_all p mru (a ∷ arrivals) =
      let r = process_query hash a.now a.memory p mru a.message.bytes max_udp_size in
      queue_response a.message r.response (answer_all r.pool r.mru arrivals)

  -- `fakedns_server_recv_cb`, given what `recvmmsg` brought; `none` is a negative result. The
  -- messages are what `sendmmsg` is given, which is called when there are any.
  unfoldable pub recv_cb : FakeDns → Mru → Option (List Arrival) → Answered
  recv_cb p mru none = record { pool = p; mru = mru; send_msgs = [] }
  recv_cb p mru (some arrivals) = answer_all p mru arrivals

-- A response to a query: to its sender, of 12 to 512 bytes, with the query's id and question.
pub record IsAnswer (query response : Message) : Type 0 where
  pub to : response.address ≡ query.address
  pub header : 12 ≤ length response.bytes
  pub fits : length response.bytes ≤ max_udp_size
  pub same_question : Echoes query.bytes response.bytes

-- The processing of one message of a batch
abbrev processed : (Bytes → ℕ) → FakeDns → Mru → Arrival → Reply
processed hash p mru a = process_query hash a.now a.memory p mru a.message.bytes max_udp_size

-- The responses to the queries of a batch, from a pool and a cache on: one for each query, in
-- their order, except for those that are processed without a response.
pub data Answers (hash : Bytes → ℕ) : FakeDns → Mru → List Arrival → List Message → Type 0 where
  done : {p : FakeDns} {mru : Mru} → Answers hash p mru [] []
  ignored :
      {p : FakeDns} {mru : Mru} (a : Arrival) {l : List Arrival} {s : List Message}
      → (processed hash p mru a).response ≡ none
      → Answers hash (processed hash p mru a).pool (processed hash p mru a).mru l s
      → Answers hash p mru (a ∷ l) s
  answered :
      {p : FakeDns} {mru : Mru} (a : Arrival) (m : Message) {l : List Arrival} {s : List Message}
      → IsAnswer a.message m
      → (processed hash p mru a).response ≡ some m.bytes
      → Answers hash (processed hash p mru a).pool (processed hash p mru a).mru l s
      → Answers hash p mru (a ∷ l) (m ∷ s)

processed-IsAnswer :
    (hash : Bytes → ℕ) (p : FakeDns) (mru : Mru) (a : Arrival) (b : Bytes)
    → (processed hash p mru a).response ≡ some b
    → IsAnswer a.message (record { address = a.message.address; bytes = b })
processed-IsAnswer hash p mru a b e =
    let (header, fits) =
      process_query-within hash a.now a.memory p mru a.message.bytes max_udp_size b e in
    record {
      to = refl;
      header = header;
      fits = fits;
      same_question =
          process_query-Echoes hash a.now a.memory p mru a.message.bytes max_udp_size b e;
    }

queue_response-Answers :
    (hash : Bytes → ℕ) (p : FakeDns) (mru : Mru) (a : Arrival) (l : List Arrival) (rest : Answered)
    (r : Option Bytes)
    → (processed hash p mru a).response ≡ r
    → Answers hash (processed hash p mru a).pool (processed hash p mru a).mru l rest.send_msgs
    → Answers hash p mru (a ∷ l) (queue_response a.message r rest).send_msgs
unfolding queue_response
queue_response-Answers hash p mru a l rest none e h = ignored a e h
queue_response-Answers hash p mru a l rest (some b) e h =
    answered a _ (processed-IsAnswer hash p mru a b e) e h

queue_response-pool :
    (q : Message) (r : Option Bytes) (rest : Answered) → (queue_response q r rest).pool ≡ rest.pool
unfolding queue_response
queue_response-pool q none rest = refl
queue_response-pool q (some b) rest = refl

answer_all-Answers :
    (hash : Bytes → ℕ) {j k q : ℕ} (l : List Arrival) (p : FakeDns) (mru : Mru)
    → IsValid j k q p
    → IsValid j k q (answer_all hash p mru l).pool
      × Answers hash p mru l (answer_all hash p mru l).send_msgs
unfolding answer_all
answer_all-Answers hash [] p mru v = (v, done)
answer_all-Answers hash {j} {k} {q} (a ∷ l) p mru v =
    let r = processed hash p mru a in
    let rest = answer_all hash r.pool r.mru l in
    let (valid, answers) =
      answer_all-Answers hash l r.pool r.mru
        (process_query-IsValid hash a.now a.memory p mru v a.message.bytes max_udp_size) in
    (
      subst (IsValid j k q) (sym (queue_response-pool a.message r.response rest)) valid,
      queue_response-Answers hash p mru a l rest r.response refl answers,
    )

-- A batch of queries to a well-formed pool leaves a well-formed pool. The messages that are sent
-- answer its queries, one for each and in their order, except for those that are processed without
-- a response: each goes to the query's sender, is from 12 to 512 bytes long, and has the id and
-- the question of the query.
pub recv_cb-Answers :
    (hash : Bytes → ℕ) {j k q : ℕ} (p : FakeDns) (mru : Mru) (l : List Arrival)
    → IsValid j k q p
    → let r = recv_cb hash p mru (some l) in IsValid j k q r.pool × Answers hash p mru l r.send_msgs
unfolding recv_cb
recv_cb-Answers hash p mru l v = answer_all-Answers hash l p mru v
