-- ===== src/Options/Usable.antt =====
-- src/main.c: what holds of the options when `parse_command_args` returns.
use tproxy2ss.Base.{
  ℕ, suc, ◌+◌, ◌-◌, ◌*◌, ◌^◌, ◌≤◌, ◌<◌, ◌≡◌, arith, true, false, ◌||◌, Option, none, some, List, [],
  ◌∷◌, length, take, ltb, ◌==◌, if◌then◌else◌, Bool-cases, inl, inr, ltb→le, length-take,
}
use mathlib.Core.Path.{subst}
use tproxy2ss.Base.Bytes.{Bytes}
use tproxy2ss.Base.Partial.{Ensures, fails, gives, Ensures-some, Ensures-bind}
use tproxy2ss.Lru.Defs.{Sizes, clamp16, udp_lrucache_set_maxsize}
use tproxy2ss.Options.Numbers.{ip4_str_len, ip6_str_len, v4, v6, System}
use tproxy2ss.Options.Accepted.{
  InRange, AreServers, validate_uint_range-InRange, validate_port_number-InRange,
  validate_ip_address-fits, AreKept, parse_server_group_arg-AreKept,
}
use tproxy2ss.Options.Parse.{
  Config, max_threads, udp_idle_timeout_default, default_config, Setting, Arg, setting, Parsed,
  exits, parsed, set_option, check_options, parse_options, parse_command_args,
}

abbrev Sized : Sizes → Type 0
Sized s = InRange 65535 s.fullcone × InRange 65535 s.symmetric × InRange 65535 s.tproxy

abbrev Listens : Config → Type 0
Listens c =
    (length c.bind_ipstr4 < ip4_str_len)
    × (length c.bind_ipstr6 < ip6_str_len)
    × InRange 65535 c.bind_portno

abbrev Limits : Config → Type 0
Limits c =
    (c.tcp_syncnt_max ≤ 255)
    × Sized c.cache_sizes
    × (60 ≤ c.udp_idletimeout_sec)
    × (c.udp_idletimeout_sec ≤ 65535)

abbrev Threads : Config → Type 0
Threads c = InRange 65 c.nthreads × InRange 65 c.udp_nthreads

abbrev Names : Config → Type 0
Names c =
    (length c.fakedns_ipstr < ip4_str_len)
    × InRange 65535 c.fakedns_portno
    × (length c.fakedns_cidr < 64)
    × (length c.fakedns_cache_path < 256)

module _ (sys : System) where
  abbrev pub IsKept : Config → Type 0
  IsKept c = AreKept sys c.servers × Listens c × Limits c × Threads c × Names c

  clamp : (n m : ℕ) → InRange 65535 n → n ≤ m → InRange 65535 (clamp16 m)
  unfolding clamp16
  clamp n m r p = elim (Bool-cases (ltb 65535 m)) [
    | inl e ↦ rw e (omega arith, omega arith)
    | inr e ↦ rw e (omega arith, ltb→le 65535 m e)
  ]

  set_maxsize-Sized : (n : ℕ) → InRange 65535 n → Sized (udp_lrucache_set_maxsize n)
  unfolding udp_lrucache_set_maxsize clamp16
  set_maxsize-Sized n r = (r, clamp n (n * 2) r (omega arith), clamp n (n * 4) r (omega arith))

  take-fits : (n : ℕ) (s : Bytes) → length (take n s) < suc n
  take-fits n s = omega (arith, length-take n s)

  timeout-lower :
      (n : ℕ) → 60 ≤ (if ltb n udp_idle_timeout_default then udp_idle_timeout_default else n)
  timeout-lower n = ground arith

  timeout-upper :
      (n : ℕ)
      → InRange 65535 n
      → (if ltb n udp_idle_timeout_default then udp_idle_timeout_default else n) ≤ 65535
  timeout-upper n r = ground arith

  set_option-IsKept : (o : Setting) (c : Config) → IsKept c → Ensures IsKept (set_option sys o c)
  unfolding set_option
  set_option-IsKept (Setting.server_group spec) c (s, l, m, t, n) =
      Ensures-bind (parse_server_group_arg-AreKept sys c.servers spec s)
        (λ x e. gives (e, l, m, t, n))
  set_option-IsKept (Setting.listen_addr4 ip) c (s, (l4, l6, p), m, t, n) =
      Ensures-bind (validate_ip_address-fits sys ip ip4_str_len (some v4))
        (λ x e. gives (s, (e, l6, p), m, t, n))
  set_option-IsKept (Setting.listen_addr6 ip) c (s, (l4, l6, p), m, t, n) =
      Ensures-bind (validate_ip_address-fits sys ip ip6_str_len (some v6))
        (λ x e. gives (s, (l4, e, p), m, t, n))
  set_option-IsKept (Setting.listen_port port) c (s, (l4, l6, p), m, t, n) =
      Ensures-bind (validate_port_number-InRange port) (λ x e. gives (s, (l4, l6, e), m, t, n))
  set_option-IsKept (Setting.tcp_syncnt val) c (s, l, (y, z, lo, hi), t, n) =
      Ensures-bind (validate_uint_range-InRange val 255)
        (λ x e. gives (s, l, (e.1, z, lo, hi), t, n))
  set_option-IsKept (Setting.cache_size val) c (s, l, (y, z, lo, hi), t, n) =
      Ensures-bind (validate_uint_range-InRange val 65535)
        (λ x e. gives (s, l, (y, set_maxsize-Sized x e, lo, hi), t, n))
  set_option-IsKept (Setting.udp_timeout val) c (s, l, (y, z, lo, hi), t, n) =
      Ensures-bind (validate_uint_range-InRange val 65535)
        (λ x e. gives (s, l, (y, z, timeout-lower x, timeout-upper x e), t, n))
  set_option-IsKept (Setting.thread_nums val) c (s, l, m, (j, k), n) =
      Ensures-bind (validate_uint_range-InRange val (max_threads + 1))
        (λ x e. gives (s, l, m, (e, k), n))
  set_option-IsKept (Setting.udp_thread_nums val) c (s, l, m, (j, k), n) =
      Ensures-bind (validate_uint_range-InRange val (max_threads + 1))
        (λ x e. gives (s, l, m, (j, e), n))
  set_option-IsKept (Setting.nofile val) c v =
      Ensures-bind (validate_uint_range-InRange val (2 ^ 64 - 1)) (λ x e. gives v)
  set_option-IsKept Setting.tcp_only c v = gives v
  set_option-IsKept Setting.udp_only c v = gives v
  set_option-IsKept Setting.ipv4_only c v = gives v
  set_option-IsKept Setting.ipv6_only c v = gives v
  set_option-IsKept Setting.enable_tfo_accept c v = gives v
  set_option-IsKept Setting.enable_tfo_connect c v = gives v
  set_option-IsKept Setting.enable_verbose c v = gives v
  set_option-IsKept Setting.enable_fakedns c v = gives v
  set_option-IsKept (Setting.fakedns_addr ip) c (s, l, m, t, (f, p, d, h)) =
      Ensures-bind (validate_ip_address-fits sys ip ip4_str_len (some v4))
        (λ x e. gives (s, l, m, t, (e, p, d, h)))
  set_option-IsKept (Setting.fakedns_port port) c (s, l, m, t, (f, p, d, h)) =
      Ensures-bind (validate_port_number-InRange port) (λ x e. gives (s, l, m, t, (f, e, d, h)))
  set_option-IsKept (Setting.fakedns_ip_range cidr) c (s, l, m, t, (f, p, d, h)) =
      gives (s, l, m, t, (f, p, take-fits 63 cidr, h))
  set_option-IsKept (Setting.fakedns_cache path) c (s, l, m, t, (f, p, d, h)) =
      gives (s, l, m, t, (f, p, d, take-fits 255 path))
  set_option-IsKept Setting.unknown c v = fails

  -- What the program may rely on once the options are read
  pub record IsUsable (c : Config) : Type 0 where
    kept : IsKept c
    protocol : c.tcp || c.udp ≡ true
    family : c.ipv4 || c.ipv6 ≡ true
    some_server : 0 < length c.servers
    udp_threads : c.udp_nthreads ≤ c.nthreads

  unfoldable Returns : (Config → Type 0) → Parsed → Type 0
  Returns P (exits n) = Unit
  Returns P (parsed c) = P c

  clamp_threads : (j k : ℕ) → InRange 65 j → InRange 65 k → InRange 65 (if ltb j k then j else k)
  clamp_threads j k r q = ground (arith, r, q)

  clamp_threads-le : (j k : ℕ) → (if ltb j k then j else k) ≤ j
  clamp_threads-le j k = ground arith

  nonempty : (n : ℕ) → n == 0 ≡ false → 0 < n
  nonempty n e = ground (arith, e)

  check_options-IsUsable : (c : Config) → IsKept c → Returns IsUsable (check_options sys c)
  unfolding check_options Returns
  check_options-IsUsable c (s, l, m, (j, k), n) = elim (Bool-cases (c.tcp || c.udp)) [
    | inr a ↦ simp a tt
    | inl a ↦ elim (Bool-cases (c.ipv4 || c.ipv6)) [
      | inr b ↦ simp (a, b) tt
      | inl b ↦ elim (Bool-cases (length c.servers == 0)) [
        | inl d ↦ simp (a, b, d) tt
        | inr d ↦
            simp (a, b, d)
              (record {
                kept = (s, l, m, (j, clamp_threads c.nthreads c.udp_nthreads j k), n);
                protocol = a;
                family = b;
                some_server = nonempty (length c.servers) d;
                udp_threads = clamp_threads-le c.nthreads c.udp_nthreads;
              })
      ]
    ]
  ]

  continue :
      (r : Option Config) (k : Config → Parsed)
      → Ensures IsKept r
      → ((d : Config) → IsKept d → Returns IsUsable (k d))
      → Returns IsUsable (elim r [ none ↦ exits 1 | some d ↦ k d ])
  unfolding Returns
  continue none k e next = tt
  continue (some d) k e next = next d (Ensures-some e)

  step :
      (o : Setting) (l : List Arg) (c : Config)
      → IsKept c
      → ((d : Config) → IsKept d → Returns IsUsable (parse_options sys l d))
      → Returns IsUsable (parse_options sys (setting o ∷ l) c)
  unfolding parse_options Returns
  step o l c v next =
      continue (set_option sys o c) (parse_options sys l) (set_option-IsKept o c v) next

  parse_options-IsUsable :
      (l : List Arg) (c : Config) → IsKept c → Returns IsUsable (parse_options sys l c)
  unfolding parse_options Returns
  parse_options-IsUsable [] c v = check_options-IsUsable c v
  parse_options-IsUsable (Arg.version ∷ l) c v = tt
  parse_options-IsUsable (Arg.help ∷ l) c v = tt
  parse_options-IsUsable (Arg.setting o ∷ l) c v = step o l c v (parse_options-IsUsable l)

  default_config-IsKept : IsKept default_config
  unfolding AreServers
  default_config-IsKept = (
    (omega arith, tt),
    (omega arith, omega arith, (omega arith, omega arith)),
    (
      omega arith,
      ((omega arith, omega arith), (omega arith, omega arith), (omega arith, omega arith)),
      omega arith,
      omega arith,
    ),
    ((omega arith, omega arith), (omega arith, omega arith)),
    (omega arith, (omega arith, omega arith), omega arith, omega arith),
  )

  returned : (P : Config → Type 0) (r : Parsed) (c : Config) → Returns P r → r ≡ parsed c → P c
  unfolding Returns
  returned P r c v e = subst (Returns P) e v

  -- When the command line is accepted, there are from one to eight servers, each with an address
  -- and a key that fit their buffers, a key that its method accepts and a port other than 0; TCP or
  -- UDP and IPv4 or IPv6 are enabled; every address and name fits its buffer; ports, cache sizes,
  -- timeouts and counts are within their ranges; and there are at most 65 threads, no more of them
  -- for UDP than there are.
  pub parse_command_args-IsUsable :
      (args : List Arg) (c : Config) → parse_command_args sys args ≡ parsed c → IsUsable c
  unfolding parse_command_args
  parse_command_args-IsUsable args c e =
      returned IsUsable (parse_command_args sys args) c
        (parse_options-IsUsable args default_config default_config-IsKept) e
