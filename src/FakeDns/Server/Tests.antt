-- ===== src/FakeDns/Server/Tests.antt =====
-- The theorem on src/fakedns_server.c at a batch of two messages.
use tproxy2ss.Base.{◌*◌, ◌/◌, ◌+◌, ◌^◌, ◌≡◌, refl, arith, true, some, List, [], ◌∷◌, length}
use tproxy2ss.Base.Word.{htonl, raw32}
use tproxy2ss.Base.Bytes.{strcmp_eq, c_str, lower}
use tproxy2ss.FakeDns.Defs.{FakeDns, slot, slot_of, write_slot, ip_at}
use tproxy2ss.FakeDns.Init.{fresh_pool, fresh_pool-IsValid}
use tproxy2ss.FakeDns.Lookup.{
  entry_set_domain, is_expired, note_expired, scan, refresh, overwrite, warn_usage, insert,
  dispatch, lookup_domain,
}
use tproxy2ss.FakeDns.Name.{fold_case, walk}
use tproxy2ss.FakeDns.Query.{
  with_flags, response_head, answer_a, reply_a, reply_type, reply_question, process_query,
}
use tproxy2ss.FakeDns.Reverse.{mru_start}
use tproxy2ss.FakeDns.Server.{
  Arrival, queue_response, answer_all, recv_cb, Answers, recv_cb-Answers,
}
use tproxy2ss.FakeDns.Valid.{IsValid}

abbrev pool24 : FakeDns
pool24 = fresh_pool [] (198 * 2 ^ 24 + 18 * 2 ^ 16) 24

pool24-IsValid : IsValid 24 8 ((198 * 2 ^ 24 + 18 * 2 ^ 16) / 2 ^ 8) pool24
pool24-IsValid =
    fresh_pool-IsValid [] (198 * 2 ^ 24 + 18 * 2 ^ 16) 24 (omega arith) (omega arith) (omega arith)

-- A message too short for a header, and an A query for `a`.
abbrev batch : List Arrival
batch =
    record { message = record { address = 1; bytes = 0 ∷ 7 ∷ [] }; now = 1000; memory = true }
    ∷ record {
      message = record {
        address = 2;
        bytes = 0 ∷ 7 ∷ 1 ∷ 0 ∷ 0 ∷ 1 ∷ 0 ∷ 0 ∷ 0 ∷ 0 ∷ 0 ∷ 0 ∷ 1 ∷ b'A' ∷ 0 ∷ 0 ∷ 1 ∷ 0 ∷ 1 ∷ [];
      };
      now = 1000;
      memory = true;
    }
    ∷ []

program : Unit {0}
unfolding fresh_pool lookup_domain entry_set_domain is_expired note_expired scan refresh overwrite
    warn_usage insert dispatch slot_of slot write_slot ip_at htonl strcmp_eq c_str lower fold_case
    walk with_flags response_head answer_a reply_a reply_type reply_question process_query raw32
    queue_response answer_all recv_cb
program = tt

one_sent :
    (recv_cb length pool24 mru_start (some batch)).send_msgs
    ≡ record {
      address = 2;
      bytes =
          0 ∷ 7 ∷ 129 ∷ 128 ∷ 0 ∷ 1 ∷ 0 ∷ 1 ∷ 0 ∷ 0 ∷ 0 ∷ 0 ∷ 1 ∷ b'A' ∷ 0 ∷ 0 ∷ 1 ∷ 0 ∷ 1 ∷ 192
          ∷ 12 ∷ 0 ∷ 1 ∷ 0 ∷ 1 ∷ 0 ∷ 0 ∷ 14 ∷ 16 ∷ 0 ∷ 4 ∷ 198 ∷ 18 ∷ 0 ∷ 1 ∷ [];
    }
      ∷ []
unfolding program
one_sent = refl

recv_cb-Answers_example :
    IsValid 24 8
      ((198 * 2 ^ 24 + 18 * 2 ^ 16) / 2 ^ 8)
      (recv_cb length pool24 mru_start (some batch)).pool
    × Answers length pool24 mru_start batch (recv_cb length pool24 mru_start (some batch)).send_msgs
recv_cb-Answers_example = recv_cb-Answers length pool24 mru_start batch pool24-IsValid
