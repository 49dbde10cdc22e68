-- ===== src/Tcp/Relay/Sound.antt =====
-- src/tcp_proxy.c: the invariant of the relay, against a description of the two streams.
use tproxy2ss.Base.{
  ℕ, ◌+◌, ◌^◌, ◌≤◌, ◌<◌, ◌≡◌, inl, inr, refl, arith, Bool, true, some, [], ◌++◌, length, drop, leb,
  if◌then◌else◌, Bool-cases, length-drop, drop_all, leb→le, leb_false→lt,
}
use tproxy2ss.Base.Bytes.{Bytes}
use tproxy2ss.Tcp.Client.{tag_len, length_chunk_len, cipher_bufsiz, resp_in_bufsiz, Ss2022}
use tproxy2ss.Tcp.Relay.Defs.{Relay, consume}
use tproxy2ss.Tcp.Relay.Event.{pending_out}

-- What comes next in the stream from the server
pub data Phase : Type 0 where
  header : Phase
  chunk_length : Phase
  chunk : ℕ → Phase

-- The client state after a header of `h` bytes and chunks that were opened from `opened`, giving
-- `plain`, while `clear` was sealed into `sealed`.
pub data Trace {C : Type 0} (api : Ss2022 C) (h : ℕ) (start : C)
    : C → Phase → Bytes → Bytes → Bytes → Bytes → Type 0 where
  begins : Trace api h start start header [] [] [] []
  opens_header :
      {c c' : C} {n : ℕ} {opened plain clear sealed : Bytes} (b : Bytes)
      → Trace api h start c header opened plain clear sealed
      → length b ≡ h
      → api.open_response_header c b ≡ some (c', n)
      → Trace api h start c' (chunk n) (opened ++ b) plain clear sealed
  opens_length :
      {c c' : C} {n : ℕ} {opened plain clear sealed : Bytes} (b : Bytes)
      → Trace api h start c chunk_length opened plain clear sealed
      → length b ≡ length_chunk_len
      → api.open_length c b ≡ some (c', n)
      → Trace api h start c' (chunk n) (opened ++ b) plain clear sealed
  opens_chunk :
      {c c' : C} {n : ℕ} {opened plain clear sealed : Bytes} (b more : Bytes)
      → Trace api h start c (chunk n) opened plain clear sealed
      → length b ≡ n + tag_len
      → api.open_payload c b ≡ some (c', more)
      → Trace api h start c' chunk_length (opened ++ b) (plain ++ more) clear sealed
  seals :
      {c c' : C} {phase : Phase} {opened plain clear sealed : Bytes} (b more : Bytes)
      → Trace api h start c phase opened plain clear sealed
      → api.seal_payload c b ≡ some (c', more)
      → Trace api h start c' phase opened plain (clear ++ b) (sealed ++ more)

abbrev pub phase_of : {C : Type 0} → Relay C → Phase
phase_of r =
    if r.response_header_done
    then (if r.need_len then chunk_length else chunk r.response_payload_len)
    else header

-- The streams on the wire against the trace: what was opened and what still stands in the input
-- is what came from the server; what was sent and what is pending are the results.
abbrev pub Streams : {C : Type 0} → Ss2022 C → ℕ → C → Relay C → Type 0
Streams api h start r =
    (opened : Bytes) × Trace api h start r.ss_client (phase_of r) opened
      (r.wire.to_client ++ pending_out r) r.wire.from_client
      (r.wire.to_server ++ r.client_to_server)
    × (r.wire.from_server ≡ opened ++ drop r.in_consume r.input)

pub record IsSound {C : Type 0} (api : Ss2022 C) (h : ℕ) (start : C) (eof : Bool) (r : Relay C)
    : Type 0 where
  pub streams : Streams api h start r
  pub eof_is : r.server_eof ≡ eof
  pub at_eof : eof ≡ true → (r.input ≡ []) × (phase_of r ≡ chunk_length)
  pub header_len : r.response_header_len ≡ h
  pub header_fits : h ≤ resp_in_bufsiz
  pub header_pos : 0 < h
  pub payload_len : r.response_payload_len < 2 ^ 16
  pub out_in : r.out_off + r.out_len ≤ r.in_consume
  pub consume_in : r.in_consume ≤ length r.input
  pub idle : r.out_len ≡ 0 → r.in_consume ≡ 0
  pub fits : r.head + length r.input ≤ resp_in_bufsiz
  pub output_fits : r.client_to_server_off + length r.client_to_server ≤ cipher_bufsiz
  pub reported : r.reports ≡ (if r.response_header_done then 1 else 0)

-- With no output pending, there is room for input.
abbrev pub HasRoom : {C : Type 0} → Relay C → Type 0
HasRoom r = r.out_len ≡ 0 → length r.input < resp_in_bufsiz

-- Consumption drops bytes from the input, and the input ends no later in the buffer.
pub consume_lem :
    {C : Type 0} (n : ℕ) (r : Relay C)
    → (start : ℕ) × (consume n r ≡ record r { head = start; input = drop n r.input })
      × (start + length (drop n r.input) ≤ r.head + length r.input)
unfolding consume
consume_lem n r = elim (Bool-cases (leb (length r.input) n)) [
  | inl e ↦
      let none_left = drop_all n r.input (leb→le (length r.input) n e) in
      (0, rw (e, none_left) refl, rw none_left (omega arith))
  | inr e ↦ (
    r.head + n,
    rw e refl,
    omega (arith, length-drop n r.input, leb_false→lt (length r.input) n e),
  )
]
