-- ===== src/Options/Complete.antt =====
-- src/main.c: `parse_server` accepts every text of the documented form, so it accepts those exactly.
use tproxy2ss.Base.{
  ℕ, ◌+◌, ◌-◌, ◌*◌, ◌≡◌, refl, sym, ap, arith, true, not, ◌&&◌, some, none, [], ◌∷◌, ◌++◌, length,
  leb, ltb, ◌==◌, ◌↔◌,
}
use mathlib.Core.Path.{subst, ◌∙◌}
use tproxy2ss.Base.Bytes.{Bytes}
use tproxy2ss.Base.Number.{is_digit, read_digits, starts_digit, strtoul}
use tproxy2ss.Base.Partial.{Ensures, Ensures-some}
use tproxy2ss.Options.Numbers.{
  Method, aes_128_gcm, aes_256_gcm, System, is_family, get_ipstr_family,
}
use tproxy2ss.Options.Server.{
  psk_size, Server, split_at, strip, fits_ipstr, port_of, parse_port, parse_method, parse_bracketed,
  parse_plain, parse_addr, parse_psk, parse_server,
}
use tproxy2ss.Options.Accepted.{InRange}
use tproxy2ss.Options.Grammar.{
  Lacks, Digits, decimal, Unbracketed, method_name, IsPort, port, IsAddr, plain, bracketed, IsSpec,
  spec,
}
use tproxy2ss.Options.Sound.{saturated, strtoul-digits, parse_server-IsSpec}

split_at-append : (c : ℕ) (a b : Bytes) → Lacks c a → split_at c (a ++ c ∷ b) ≡ some (a, b)
unfolding split_at Lacks
split_at-append c [] b l = let e : c == c ≡ true = ground arith in simp e refl
split_at-append c (x ∷ a) b l = simp (l.0, split_at-append c a b l.1) refl

read_digits-append :
    (acc : ℕ) (ds rest : Bytes)
    → Digits ds
    → read_digits acc (ds ++ b':' ∷ rest) ≡ (decimal acc ds, b':' ∷ rest)
unfolding read_digits Digits decimal is_digit
read_digits-append acc [] rest d = refl
read_digits-append acc (c ∷ ds) rest d =
    simp (d.0, read_digits-append (10 * acc + (c - b'0')) ds rest d.1) refl

Digits-starts_digit :
    (ds rest : Bytes) → Digits ds → InRange 65535 (decimal 0 ds) → starts_digit (ds ++ rest) ≡ true
unfolding Digits decimal starts_digit
Digits-starts_digit [] rest d r = absurd (omega (arith, r))
Digits-starts_digit (c ∷ ds) rest d r = d.0

port_of-accepts :
    (n : ℕ) (rest : Bytes) → InRange 65535 n → port_of (saturated n, b':' ∷ rest) ≡ some (n, rest)
unfolding port_of
port_of-accepts n rest r =
    let e : saturated n ≡ n = ground (arith, r) in
    let f : not (n == 0) && leb n 65535 ≡ true = ground (arith, r) in simp (e, f) refl

parse_port_complete : (p : Bytes) (r : ℕ × Bytes) → IsPort p r → parse_port p ≡ some r
unfolding parse_port
parse_port_complete p r (port {n} {rest} ds d e i) =
    let s : starts_digit (ds ++ b':' ∷ rest) ≡ true =
      Digits-starts_digit ds (b':' ∷ rest) d (subst (InRange 65535) (sym e) i) in
    let q : strtoul (ds ++ b':' ∷ rest) ≡ (saturated (decimal 0 ds), b':' ∷ rest) =
      strtoul-digits (ds ++ b':' ∷ rest) s
      ∙ ap (λ t. (saturated t.0, t.1)) (read_digits-append 0 ds rest d) in
    rw (s, q, e) (port_of-accepts n rest i)

parse_method-name : (m : Method) (psk : Bytes) → parse_method (method_name m ++ psk) ≡ some (m, psk)
unfolding parse_method strip
parse_method-name aes_128_gcm psk = refl
parse_method-name aes_256_gcm psk = refl

module _ (sys : System) where
  parse_plain_complete :
      (ip rest : Bytes)
      → Lacks b':' ip
      → fits_ipstr ip ≡ true
      → is_family none (get_ipstr_family sys ip) ≡ true
      → parse_plain sys (ip ++ b':' ∷ rest) ≡ some (ip, rest)
  unfolding parse_plain
  parse_plain_complete ip rest l e f = simp (split_at-append b':' ip rest l, e, f) refl

  parse_addr_plain :
      (ip rest : Bytes)
      → Unbracketed ip
      → parse_addr sys (ip ++ b':' ∷ rest) ≡ parse_plain sys (ip ++ b':' ∷ rest)
  unfolding parse_addr Unbracketed
  parse_addr_plain [] rest u = refl
  parse_addr_plain (c ∷ ip) rest u = simp u refl

  parse_addr_complete : (p : Bytes) (r : Bytes × Bytes) → IsAddr sys p r → parse_addr sys p ≡ some r
  unfolding parse_addr Unbracketed parse_bracketed strip
  parse_addr_complete p r (plain {rest} ip u l e f) =
      parse_addr_plain ip rest u ∙ parse_plain_complete ip rest l e f
  parse_addr_complete p r (bracketed {rest} ip l e f) =
      simp (split_at-append b']' ip (b':' ∷ rest) l, e, f) refl

  parse_psk_complete :
      (method : Method) (psk : Bytes)
      → InRange 127 (length psk)
      → sys.accepts method psk ≡ true
      → parse_psk sys method psk ≡ some psk
  unfolding parse_psk
  parse_psk_complete method psk r k =
      let e : not (length psk == 0) && ltb (length psk) psk_size ≡ true = ground (arith, r) in
      simp (e, k) refl

  parse_server_complete :
      (str : Bytes) (s : Server) → IsSpec sys str s → parse_server sys str ≡ some s
  unfolding parse_server
  parse_server_complete str s (spec {p = p} {psk = psk} ip n method a b c k) =
      simp
        (
          parse_addr_complete str (ip, p) a,
          parse_port_complete p (n, method_name method ++ psk) b,
          parse_method-name method psk,
          parse_psk_complete method psk c k,
        )
        refl

  -- A server group is accepted exactly when it has the documented form, `addr:port:method:psk` or
  -- `[addr]:port:method:psk`, with an address, a port and a key that are valid, and the server that
  -- is added is the one that the text describes.
  pub parse_server_iff :
      (str : Bytes) (s : Server) → (parse_server sys str ≡ some s) ↔ IsSpec sys str s
  parse_server_iff str s = (
    λ e. Ensures-some (subst (Ensures (IsSpec sys str)) e (parse_server-IsSpec sys str)),
    parse_server_complete str s,
  )
