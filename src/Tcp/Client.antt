-- ===== src/Tcp/Client.antt =====
-- The TCP client of the Shadowsocks 2022 library, as src/tcp_proxy.c calls it: a submodule, so a
-- parameter. `C` is its state; a call that fails gives `none`. Lengths are `uint16_t`, and a call
-- writes no more bytes than the capacity it is given.
use tproxy2ss.Base.{ℕ, ◌+◌, ◌^◌, ◌<◌, ◌≤◌, ◌≡◌, Option, some, length}
use tproxy2ss.Base.Bytes.{Bytes}

-- `TCP_SS2022_TAG_LEN`, `SS2022_LENGTH_CHUNK_LEN`
abbrev pub tag_len : ℕ
tag_len = 16

abbrev pub length_chunk_len : ℕ
length_chunk_len = 18

-- `TCP_SS_PLAIN_BUFSIZ`, `TCP_SS_CIPHER_BUFSIZ`, `TCP_SS_RESP_IN_BUFSIZ`
abbrev pub plain_bufsiz : ℕ
plain_bufsiz = 16384

abbrev pub cipher_bufsiz : ℕ
cipher_bufsiz = 16418

abbrev pub resp_in_bufsiz : ℕ
resp_in_bufsiz = 65617

pub record Ss2022 (C : Type 0) : Type 0 where
  pub response_header_size : C → ℕ
  pub open_response_header : C → Bytes → Option (C × ℕ)
  pub open_length : C → Bytes → Option (C × ℕ)
  pub open_payload : C → Bytes → Option (C × Bytes)
  pub seal_payload : C → Bytes → Option (C × Bytes)
  pub header_length :
      (c : C) (b : Bytes) (c' : C) (n : ℕ) → open_response_header c b ≡ some (c', n) → n < 2 ^ 16
  pub chunk_length :
      (c : C) (b : Bytes) (c' : C) (n : ℕ) → open_length c b ≡ some (c', n) → n < 2 ^ 16
  pub payload_fits :
      (c : C) (b : Bytes) (c' : C) (plain : Bytes)
      → open_payload c b ≡ some (c', plain)
      → length plain + tag_len ≤ length b
  pub sealed_fits :
      (c : C) (b : Bytes) (c' : C) (sealed : Bytes)
      → seal_payload c b ≡ some (c', sealed)
      → length sealed ≤ cipher_bufsiz
