-- ===== src/Options/Grammar.antt =====
-- src/main.c: the documented form of a server group, `addr:port:method:psk` or
-- `[addr]:port:method:psk`, as a relation between texts and servers.
use tproxy2ss.Base.{ℕ, ◌+◌, ◌-◌, ◌*◌, ◌≡◌, true, false, some, none, [], ◌∷◌, ◌++◌, length, ◌==◌}
use tproxy2ss.Base.Bytes.{Bytes}
use tproxy2ss.Base.Number.{is_digit}
use tproxy2ss.Options.Numbers.{
  v6, Method, aes_128_gcm, aes_256_gcm, System, is_family, get_ipstr_family, build_socket_addr,
}
use tproxy2ss.Options.Server.{Server, method_128, method_256, fits_ipstr, salt_of}
use tproxy2ss.Options.Accepted.{InRange}

unfoldable pub Lacks : ℕ → Bytes → Type 0
Lacks c [] = Unit
Lacks c (b ∷ bs) = (b == c ≡ false) × Lacks c bs

unfoldable pub Digits : Bytes → Type 0
Digits [] = Unit
Digits (c ∷ cs) = (is_digit c ≡ true) × Digits cs

-- The number that digits write, behind those already read
unfoldable pub decimal : ℕ → Bytes → ℕ
decimal acc [] = acc
decimal acc (c ∷ cs) = decimal (10 * acc + (c - b'0')) cs

unfoldable pub Unbracketed : Bytes → Type 0
Unbracketed [] = Unit
Unbracketed (c ∷ cs) = c == b'[' ≡ false

abbrev pub method_name : Method → Bytes
method_name aes_128_gcm = method_128
method_name aes_256_gcm = method_256

-- A text that begins with a port number and a colon, and what follows them
pub data IsPort : Bytes → ℕ × Bytes → Type 0 where
  port :
      {n : ℕ} {rest : Bytes} (ds : Bytes)
      → Digits ds
      → decimal 0 ds ≡ n
      → InRange 65535 n
      → IsPort (ds ++ b':' ∷ rest) (n, rest)

module _ (sys : System) where
  -- A text that begins with an address and a colon, and what follows them
  pub data IsAddr : Bytes → Bytes × Bytes → Type 0 where
    plain :
        {rest : Bytes} (ip : Bytes)
        → Unbracketed ip
        → Lacks b':' ip
        → fits_ipstr ip ≡ true
        → is_family none (get_ipstr_family sys ip) ≡ true
        → IsAddr (ip ++ b':' ∷ rest) (ip, rest)
    bracketed :
        {rest : Bytes} (ip : Bytes)
        → Lacks b']' ip
        → fits_ipstr ip ≡ true
        → is_family (some v6) (get_ipstr_family sys ip) ≡ true
        → IsAddr (b'[' ∷ (ip ++ b']' ∷ b':' ∷ rest)) (ip, rest)

  abbrev pub server_of : Bytes → ℕ → Method → Bytes → Server
  server_of ip n method psk = record {
    ipstr = ip;
    portno = n;
    skaddr = build_socket_addr sys (get_ipstr_family sys ip) ip n;
    method = method;
    psk = psk;
    salt_len = salt_of method;
  }

  pub data IsSpec : Bytes → Server → Type 0 where
    spec :
        {str p psk : Bytes} (ip : Bytes) (n : ℕ) (method : Method)
        → IsAddr str (ip, p)
        → IsPort p (n, method_name method ++ psk)
        → InRange 127 (length psk)
        → sys.accepts method psk ≡ true
        → IsSpec str (server_of ip n method psk)
