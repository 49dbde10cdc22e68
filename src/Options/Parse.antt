-- ===== src/Options/Parse.antt =====
-- src/main.c, `parse_command_args`, with the globals of src/ctx.c that it sets. `getopt_long` is the
-- C library's: the arguments are the options that it finds, in their order. A bit of `g_options` is
-- a field.
use tproxy2ss.Base.{
  ℕ, ◌+◌, ◌-◌, ◌^◌, Bool, true, false, ◌||◌, not, Option, none, some, List, [], ◌∷◌, length, take,
  ltb, ◌==◌, if◌then◌else◌,
}
use tproxy2ss.Base.Bytes.{Bytes}
use tproxy2ss.Base.Partial.{◌>>=◌}
use tproxy2ss.Lru.Defs.{Sizes, udp_lrucache_set_maxsize}
use tproxy2ss.Options.Numbers.{
  ip4_str_len, ip6_str_len, v4, v6, System, validate_uint_range, validate_port_number,
  validate_ip_address,
}
use tproxy2ss.Options.Server.{Server, parse_server_group_arg}

abbrev pub max_threads : ℕ
max_threads = 64

abbrev pub udp_idle_timeout_default : ℕ
udp_idle_timeout_default = 60

pub record Config : Type 0 where
  pub tcp : Bool
  pub udp : Bool
  pub ipv4 : Bool
  pub ipv6 : Bool
  pub tfo_accept : Bool
  pub tfo_connect : Bool
  pub fakedns : Bool
  pub verbose : Bool
  pub servers : List Server
  pub bind_ipstr4 : Bytes
  pub bind_ipstr6 : Bytes
  pub bind_portno : ℕ
  pub tcp_syncnt_max : ℕ
  pub cache_sizes : Sizes
  pub udp_idletimeout_sec : ℕ
  pub nthreads : ℕ
  pub udp_nthreads : ℕ
  pub nofile_limit : ℕ
  pub fakedns_ipstr : Bytes
  pub fakedns_portno : ℕ
  pub fakedns_cidr : Bytes
  pub fakedns_cache_path : Bytes

-- The initial values in src/ctx.c and src/udp_lrucache.c
abbrev pub default_config : Config
default_config = record {
  tcp = true;
  udp = true;
  ipv4 = true;
  ipv6 = true;
  tfo_accept = false;
  tfo_connect = false;
  fakedns = false;
  verbose = false;
  servers = [];
  bind_ipstr4 = b'1' ∷ b'2' ∷ b'7' ∷ b'.' ∷ b'0' ∷ b'.' ∷ b'0' ∷ b'.' ∷ b'1' ∷ [];
  bind_ipstr6 = b':' ∷ b':' ∷ b'1' ∷ [];
  bind_portno = 54321;
  tcp_syncnt_max = 0;
  cache_sizes = record { fullcone = 256; symmetric = 512; tproxy = 1024 };
  udp_idletimeout_sec = udp_idle_timeout_default;
  nthreads = 1;
  udp_nthreads = 1;
  nofile_limit = 0;
  fakedns_ipstr = b'1' ∷ b'2' ∷ b'7' ∷ b'.' ∷ b'0' ∷ b'.' ∷ b'0' ∷ b'.' ∷ b'1' ∷ [];
  fakedns_portno = 5353;
  fakedns_cidr =
      b'1' ∷ b'9' ∷ b'8' ∷ b'.' ∷ b'1' ∷ b'8' ∷ b'.' ∷ b'0' ∷ b'.' ∷ b'0' ∷ b'/' ∷ b'1' ∷ b'5' ∷ [];
  fakedns_cache_path = [];
}

-- The options but `-V` and `-h`; `unknown` is what `getopt_long` reports by ':' or '?'.
pub data Setting : Type 0 where
  server_group listen_addr4 listen_addr6 listen_port : Bytes → Setting
  tcp_syncnt cache_size udp_timeout thread_nums udp_thread_nums nofile : Bytes → Setting
  tcp_only udp_only ipv4_only ipv6_only enable_tfo_accept enable_tfo_connect enable_verbose :
      Setting
  enable_fakedns : Setting
  fakedns_addr fakedns_port fakedns_ip_range fakedns_cache : Bytes → Setting
  unknown : Setting

pub data Arg : Type 0 where
  version : Arg
  help : Arg
  setting : Setting → Arg

-- The process exits, or `parse_command_args` returns.
pub data Parsed : Type 0 where
  exits : ℕ → Parsed
  parsed : Config → Parsed

module _ (sys : System) where
  unfoldable pub set_option : Setting → Config → Option Config
  set_option (server_group spec) c = do
    servers ← parse_server_group_arg sys c.servers spec
    some (record c { servers = servers })
  set_option (listen_addr4 ip) c = do
    ip ← validate_ip_address sys ip ip4_str_len (some v4)
    some (record c { bind_ipstr4 = ip })
  set_option (listen_addr6 ip) c = do
    ip ← validate_ip_address sys ip ip6_str_len (some v6)
    some (record c { bind_ipstr6 = ip })
  set_option (listen_port port) c = do
    n ← validate_port_number port
    some (record c { bind_portno = n })
  set_option (tcp_syncnt val) c = do
    n ← validate_uint_range val 255
    some (record c { tcp_syncnt_max = n })
  set_option (cache_size val) c = do
    n ← validate_uint_range val 65535
    some (record c { cache_sizes = udp_lrucache_set_maxsize n })
  set_option (udp_timeout val) c = do
    n ← validate_uint_range val 65535
    some (record c {
      udp_idletimeout_sec = if ltb n udp_idle_timeout_default then udp_idle_timeout_default else n;
    })
  set_option (thread_nums val) c = do
    n ← validate_uint_range val (max_threads + 1)
    some (record c { nthreads = n })
  set_option (udp_thread_nums val) c = do
    n ← validate_uint_range val (max_threads + 1)
    some (record c { udp_nthreads = n })
  set_option (nofile val) c = do
    n ← validate_uint_range val (2 ^ 64 - 1)
    some (record c { nofile_limit = n })
  set_option tcp_only c = some (record c { udp = false })
  set_option udp_only c = some (record c { tcp = false })
  set_option ipv4_only c = some (record c { ipv6 = false })
  set_option ipv6_only c = some (record c { ipv4 = false })
  set_option enable_tfo_accept c = some (record c { tfo_accept = true })
  set_option enable_tfo_connect c = some (record c { tfo_connect = true })
  set_option enable_verbose c = some (record c { verbose = true })
  set_option enable_fakedns c = some (record c { fakedns = true })
  set_option (fakedns_addr ip) c = do
    ip ← validate_ip_address sys ip ip4_str_len (some v4)
    some (record c { fakedns_ipstr = ip })
  set_option (fakedns_port port) c = do
    n ← validate_port_number port
    some (record c { fakedns_portno = n })
  set_option (fakedns_ip_range cidr) c = some (record c { fakedns_cidr = take 63 cidr })
  set_option (fakedns_cache path) c = some (record c { fakedns_cache_path = take 255 path })
  set_option unknown c = none

  -- The tests behind the loop
  unfoldable pub check_options : Config → Parsed
  check_options c =
      if not (c.tcp || c.udp)
      then exits 1
      else if not (c.ipv4 || c.ipv6)
      then exits 1
      else if length c.servers == 0
      then exits 1
      else parsed (record c {
        udp_nthreads = if ltb c.nthreads c.udp_nthreads then c.nthreads else c.udp_nthreads;
      })

  unfoldable pub parse_options : List Arg → Config → Parsed
  parse_options [] c = check_options c
  parse_options (version ∷ l) c = exits 0
  parse_options (help ∷ l) c = exits 0
  parse_options (setting o ∷ l) c = elim (set_option o c) [
    | none ↦ exits 1
    | some c' ↦ parse_options l c'
  ]

  unfoldable pub parse_command_args : List Arg → Parsed
  parse_command_args args = parse_options args default_config
