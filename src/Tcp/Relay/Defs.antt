-- ===== src/Tcp/Relay/Defs.antt =====
-- src/tcp_proxy.c: the relay's state and the functions that move bytes. A buffer with its offset
-- and length is the list of the bytes in use, beside the offset. What system calls answer is an
-- argument. `wire` is no field of the code: it records what passed over the sockets, and no
-- function reads it.
use tproxy2ss.Base.{
  ℕ, zero, suc, ◌+◌, min, Bool, true, false, not, none, some, List, [], ◌∷◌, ◌++◌, length, take,
  drop, ltb, leb, ◌==◌, if◌then◌else◌,
}
use tproxy2ss.Base.Bytes.{Bytes}
use tproxy2ss.Tcp.Client.{tag_len, length_chunk_len, Ss2022}

pub record Wire : Type 0 where
  pub from_client : Bytes
  pub to_server : Bytes
  pub from_server : Bytes
  pub to_client : Bytes

-- `tcp_session_t` in the relay, with the events that the two watchers wait for.
-- `client_to_server` are the bytes from `client_to_server_off` on, `input` those of
-- `server_to_client_in` from `server_to_client_in_head` on.
pub record Relay (C : Type 0) : Type 0 where
  pub client_eof : Bool
  pub server_eof : Bool
  pub client_shutdown_sent : Bool
  pub server_shutdown_sent : Bool
  pub response_header_done : Bool
  pub response_payload_len : ℕ
  pub response_header_len : ℕ
  pub client_to_server_off : ℕ
  pub client_to_server : Bytes
  pub head : ℕ
  pub input : Bytes
  pub need_len : Bool
  pub out_off : ℕ
  pub out_len : ℕ
  pub in_consume : ℕ
  pub ss_client : C
  pub reports : ℕ
  pub client_read : Bool
  pub client_write : Bool
  pub server_read : Bool
  pub server_write : Bool
  pub wire : Wire

-- What a call of `send` answers: EINTR, EAGAIN, another error, or a number of bytes.
pub data Sent : Type 0 where
  interrupted : Sent
  again : Sent
  broken : Sent
  wrote : ℕ → Sent

-- What the calls of `recv` answer, behind those with EINTR.
pub data Received : Type 0 where
  nothing : Received
  error : Received
  end_of_stream : Received
  got : Bytes → Received

-- A function that returns false has closed the session; the flag says whether by a reset.
pub data Outcome (C : Type 0) : Type 0 where
  live : Relay C → Outcome C
  closed : Bool → Relay C → Outcome C

unfoldable pub is_empty : Bytes → Bool
is_empty [] = true
is_empty (b ∷ bs) = false

-- `tcp_relay_drain`: whether it returns true, the offset and the bytes that are left, and those
-- that were sent. Where the list of answers ends, the socket has no more room.
pub record Drained : Type 0 where
  pub alive : Bool
  pub off : ℕ
  pub left : Bytes
  pub sent : Bytes

unfoldable pub drain : List Sent → ℕ → Bytes → Drained
drain answers off [] = record { alive = true; off = 0; left = []; sent = [] }
drain [] off (b ∷ bs) = record { alive = true; off = off; left = b ∷ bs; sent = [] }
drain (interrupted ∷ l) off (b ∷ bs) = drain l off (b ∷ bs)
drain (again ∷ l) off (b ∷ bs) = record { alive = true; off = off; left = b ∷ bs; sent = [] }
drain (broken ∷ l) off (b ∷ bs) = record { alive = false; off = off; left = b ∷ bs; sent = [] }
drain (wrote zero ∷ l) off (b ∷ bs) = record { alive = false; off = off; left = b ∷ bs; sent = [] }
drain (wrote (suc n) ∷ l) off (b ∷ bs) =
    let rest = drain l (off + min (suc n) (suc (length bs))) (drop n bs) in
    record rest { sent = b ∷ (take n bs ++ rest.sent) }

-- One round of the loop in `tcp_relay_process_server_data`: it returns true, closes the session,
-- or goes on.
pub data Round (C : Type 0) : Type 0 where
  waits : Relay C → Round C
  fails : Relay C → Round C
  goes : Relay C → Round C

module _ {C : Type 0} where
  -- `tcp_buf_consume` on the input
  unfoldable pub consume : ℕ → Relay C → Relay C
  consume n r =
      if leb (length r.input) n
      then record r { head = 0; input = [] }
      else record r { head = r.head + n; input = drop n r.input }

  -- What a length chunk that opens leaves
  unfoldable pub length_opened : Relay C → C → ℕ → Relay C
  length_opened r c n =
      record (consume length_chunk_len (record r { ss_client = c; response_payload_len = n })) {
        need_len = false;
      }

  module _ (api : Ss2022 C) where
    -- The part of the round from the payload chunk on; the payload is opened in place.
    unfoldable pub opened : Relay C → C → Bytes → Relay C
    opened r c plain =
        let need = r.response_payload_len + tag_len in
        let written = record r {
          ss_client = c;
          input = plain ++ drop (length plain) r.input;
          out_off = 0;
          out_len = length plain;
          need_len = true;
        } in
        if length plain == 0
        then record (consume need written) { in_consume = 0 }
        else record written { in_consume = need }

    unfoldable pub payload_part : Relay C → Round C
    payload_part r =
        let need = r.response_payload_len + tag_len in
        if ltb (length r.input) need
        then waits r
        else elim (api.open_payload r.ss_client (take need r.input)) [
          | none ↦ fails r
          | some (c, plain) ↦ goes (opened r c plain)
        ]

    -- The length chunk, when one is due
    unfoldable pub length_part : Relay C → Round C
    length_part r =
        if not r.need_len
        then payload_part r
        else if ltb (length r.input) length_chunk_len
        then waits r
        else elim (api.open_length r.ss_client (take length_chunk_len r.input)) [
          | none ↦ fails r
          | some (c, n) ↦ payload_part (length_opened r c n)
        ]

    -- What a response header that opens leaves; the success is reported to the selector.
    unfoldable pub header_opened : Relay C → C → ℕ → Relay C
    header_opened r c n =
        record (consume r.response_header_len
          (record r { ss_client = c; response_payload_len = n })) {
            response_header_done = true;
            reports = r.reports + 1;
            need_len = false;
          }

    unfoldable pub round : Relay C → Round C
    round r =
        if r.response_header_done
        then length_part r
        else if ltb (length r.input) r.response_header_len
        then waits r
        else elim (api.open_response_header r.ss_client (take r.response_header_len r.input)) [
          | none ↦ fails r
          | some (c, n) ↦ length_part (header_opened r c n)
        ]

    -- `tcp_relay_process_server_data`, on fuel: a round that goes on takes bytes off the input or
    -- leaves output.
    unfoldable pub process : ℕ → Relay C → Outcome C
    process zero r = live r
    process (suc fuel) r =
        if r.out_len == 0
        then elim (round r) [
          | waits r' ↦ live r'
          | fails r' ↦ closed true r'
          | goes r' ↦ process fuel r'
        ]
        else live r

    unfoldable pub process_server_data : Relay C → Outcome C
    process_server_data r = process (suc (length r.input)) r
