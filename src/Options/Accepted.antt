-- ===== src/Options/Accepted.antt =====
-- src/main.c: what holds of the numbers, addresses and servers that the option parser accepts.
use tproxy2ss.Base.{
  ℕ, ◌+◌, ◌≤◌, ◌<◌, ◌≡◌, refl, sym, arith, true, ◌&&◌, not, Option, none, some, List, [], ◌∷◌, ◌++◌,
  length, ltb, leb, ◌==◌, leb→le, length-append,
}
use mathlib.Core.Path.{subst}
use tproxy2ss.Base.Bytes.{Bytes}
use tproxy2ss.Base.Number.{starts_digit, strtoul}
use tproxy2ss.Base.Partial.{◌>>=◌, Ensures, fails, gives, Ensures-bind, Ensures-guard, Ensures-if}
use tproxy2ss.Selector.Defs.{max_servers}
use tproxy2ss.Options.Numbers.{
  Family, v6, Method, System, whole, in_range, validate_uint_range, validate_port_number, is_family,
  get_ipstr_family, validate_ip_address,
}
use tproxy2ss.Options.Server.{
  psk_size, Server, split_at, strip, fits_ipstr, port_of, parse_port, parse_method, salt_of,
  parse_bracketed, parse_plain, parse_addr, parse_psk, parse_server, parse_server_group_arg,
}

-- A number within the range of an option
abbrev pub InRange : ℕ → ℕ → Type 0
InRange max_val n = (0 < n) × (n ≤ max_val)

in_range-InRange : (max_val n : ℕ) → Ensures (InRange max_val) (in_range max_val n)
unfolding in_range
in_range-InRange max_val n =
    Ensures-guard (not (n == 0) && leb n max_val)
      (λ e. let f : InRange max_val n = ground (arith, e) in gives f)

Ensures-any :
    {A B : Type 0} {Q : B → Type 0} (o : Option A) {f : A → Option B}
    → ((a : A) → Ensures Q (f a))
    → Ensures Q (o >>= f)
Ensures-any none k = fails
Ensures-any (some a) k = k a

pub validate_uint_range-InRange :
    (s : Bytes) (max_val : ℕ) → Ensures (InRange max_val) (validate_uint_range s max_val)
unfolding validate_uint_range
validate_uint_range-InRange s max_val = Ensures-any (whole (strtoul s)) (in_range-InRange max_val)

pub validate_port_number-InRange : (s : Bytes) → Ensures (InRange 65535) (validate_port_number s)
unfolding validate_port_number
validate_port_number-InRange s = Ensures-any (whole (strtoul s)) (in_range-InRange 65535)

module _ (sys : System) where
  pub validate_ip_address-fits :
      (ip : Bytes) (max_len : ℕ) (f : Option Family)
      → Ensures (λ s. length s < max_len) (validate_ip_address sys ip max_len f)
  unfolding validate_ip_address
  validate_ip_address-fits ip max_len f = Ensures-guard (leb (length ip + 1) max_len) (λ e.
      let g : length ip < max_len = omega (arith, leb→le (length ip + 1) max_len e) in
      Ensures-guard (is_family f (get_ipstr_family sys ip)) (λ i. gives g))

  -- A server of the command line
  pub record IsServer (s : Server) : Type 0 where
    pub ipstr_fits : InRange 45 (length s.ipstr)
    pub port : InRange 65535 s.portno
    pub psk_fits : InRange 127 (length s.psk)
    pub key : sys.accepts s.method s.psk ≡ true
    pub salt : s.salt_len ≡ salt_of s.method

  unfoldable pub AreServers : List Server → Type 0
  AreServers [] = Unit
  AreServers (s ∷ l) = IsServer s × AreServers l

  AreServers-append :
      (l : List Server) (s : Server) → AreServers l → IsServer s → AreServers (l ++ s ∷ [])
  unfolding AreServers
  AreServers-append [] s v w = (w, tt)
  AreServers-append (x ∷ l) s v w = (v.0, AreServers-append l s v.1 w)

  unfoldable Fits : Bytes × Bytes → Type 0
  Fits r = InRange 45 (length r.0)

  fits_ipstr-InRange : (ip : Bytes) → fits_ipstr ip ≡ true → InRange 45 (length ip)
  unfolding fits_ipstr
  fits_ipstr-InRange ip e = ground (arith, e)

  parse_bracketed-Fits : (p : Bytes) → Ensures Fits (parse_bracketed sys p)
  unfolding parse_bracketed Fits
  parse_bracketed-Fits p = Ensures-any (split_at b']' p) (λ r.
      Ensures-any (strip (b':' ∷ []) r.1) (λ rest. Ensures-guard (fits_ipstr r.0) (λ e.
        Ensures-guard (is_family (some v6) (get_ipstr_family sys r.0))
          (λ f. gives (fits_ipstr-InRange r.0 e)))))

  parse_plain-Fits : (p : Bytes) → Ensures Fits (parse_plain sys p)
  unfolding parse_plain Fits
  parse_plain-Fits p = Ensures-any (split_at b':' p) (λ r. Ensures-guard (fits_ipstr r.0) (λ e.
      Ensures-guard (is_family none (get_ipstr_family sys r.0))
        (λ f. gives (fits_ipstr-InRange r.0 e))))

  parse_addr-Fits : (p : Bytes) → Ensures Fits (parse_addr sys p)
  unfolding parse_addr
  parse_addr-Fits [] = parse_plain-Fits []
  parse_addr-Fits (c ∷ p) =
      Ensures-if (c == b'[') (λ e. parse_bracketed-Fits p) (λ e. parse_plain-Fits (c ∷ p))

  port_of-InRange : (r : ℕ × Bytes) → Ensures (λ q. InRange 65535 q.0) (port_of r)
  unfolding port_of
  port_of-InRange (port, []) = fails
  port_of-InRange (port, c ∷ next) =
      Ensures-guard (c == b':' && (not (port == 0) && leb port 65535))
        (λ e. let f : InRange 65535 port = ground (arith, e) in gives f)

  parse_port-InRange : (p : Bytes) → Ensures (λ q. InRange 65535 q.0) (parse_port p)
  unfolding parse_port
  parse_port-InRange p = Ensures-guard (starts_digit p) (λ e. port_of-InRange (strtoul p))

  pub parse_psk-accepts :
      (method : Method) (p : Bytes)
      → Ensures
          (λ psk. (p ≡ psk) × InRange 127 (length psk) × (sys.accepts method psk ≡ true))
          (parse_psk sys method p)
  unfolding parse_psk
  parse_psk-accepts method p = Ensures-guard (not (length p == 0) && ltb (length p) psk_size) (λ e.
      let f : InRange 127 (length p) = ground (arith, e) in
      Ensures-guard (sys.accepts method p) (λ g. gives (refl, f, g)))

  pub parse_server-IsServer : (str : Bytes) → Ensures IsServer (parse_server sys str)
  unfolding parse_server Fits
  parse_server-IsServer str = Ensures-bind (parse_addr-Fits str) (λ a f.
      Ensures-bind (parse_port-InRange a.1) (λ b g. Ensures-any (parse_method b.1) (λ m.
        Ensures-bind (parse_psk-accepts m.0 m.1) (λ psk (i, j, k).
          gives (record { ipstr_fits = f; port = g; psk_fits = j; key = k; salt = refl })))))

  fits : (n : ℕ) → ltb n max_servers ≡ true → n + 1 ≤ max_servers
  fits n e = ground (arith, e)

  abbrev pub AreKept : List Server → Type 0
  AreKept l = (length l ≤ max_servers) × AreServers l

  pub parse_server_group_arg-AreKept :
      (l : List Server) (str : Bytes)
      → AreKept l
      → Ensures AreKept (parse_server_group_arg sys l str)
  unfolding parse_server_group_arg
  parse_server_group_arg-AreKept l str v = Ensures-guard (ltb (length l) max_servers) (λ e.
      Ensures-bind (parse_server-IsServer str) (λ s w. gives (
        subst (λ n. n ≤ max_servers) (sym (length-append l (s ∷ []))) (fits (length l) e),
        AreServers-append l s v.1 w,
      )))
