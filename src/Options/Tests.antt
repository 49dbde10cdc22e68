-- ===== src/Options/Tests.antt =====
-- Runs of the command line on concrete arguments.
use tproxy2ss.Base.{
  ◌≡◌, refl, false, not, some, none, List, [], ◌∷◌, ◌++◌, length, ◌==◌, if◌then◌else◌, ◌↔◌,
}
use tproxy2ss.Base.Bytes.{Bytes}
use tproxy2ss.Base.Number.{
  is_digit, is_space, skip_space, read_digits, read_sign, starts_digit, strtoul,
}
use tproxy2ss.Lru.Defs.{clamp16, udp_lrucache_set_maxsize}
use tproxy2ss.Options.Numbers.{
  whole, in_range, validate_uint_range, is_family, get_ipstr_family, validate_ip_address,
  build_socket_addr, System, aes_128_gcm, aes_256_gcm,
}
use tproxy2ss.Options.Server.{
  Server, method_128, method_256, split_at, strip, fits_ipstr, port_of, parse_port, parse_method,
  salt_of, parse_bracketed, parse_plain, parse_addr, parse_psk, parse_server,
  parse_server_group_arg,
}
use tproxy2ss.Options.Parse.{
  Config, default_config, Setting, Arg, help, setting, parsed, exits, set_option, check_options,
  parse_options, parse_command_args,
}
use tproxy2ss.Options.Grammar.{IsSpec, server_of}
use tproxy2ss.Options.Usable.{IsUsable, parse_command_args-IsUsable}
use tproxy2ss.Options.Complete.{parse_server_iff}

-- Every text that begins with a digit is an IPv4 address, every other an IPv6 address.
abbrev tester : System
tester = record {
  inet_pton4 = λ s. if starts_digit s then some 16909060 else none;
  inet_pton6 = λ s. if starts_digit s then none else some (b':' ∷ []);
  accepts = λ m psk. not (length psk == 3);
}

abbrev address : Bytes
address = b'1' ∷ b'.' ∷ b'2' ∷ b'.' ∷ b'3' ∷ b'.' ∷ b'4' ∷ []

abbrev address6 : Bytes
address6 = b':' ∷ b':' ∷ b'2' ∷ []

abbrev key : Bytes
key = b'Q' ∷ b'Q' ∷ b'=' ∷ b'=' ∷ []

abbrev server_text : Bytes
server_text = address ++ b':' ∷ b'8' ∷ b'3' ∷ b'8' ∷ b'8' ∷ b':' ∷ (method_128 ++ key)

abbrev server6_text : Bytes
server6_text = b'[' ∷ (address6 ++ b']' ∷ b':' ∷ b'9' ∷ b':' ∷ (method_256 ++ key))

program : Unit {0}
unfolding is_digit is_space skip_space read_digits read_sign starts_digit strtoul whole in_range
    validate_uint_range is_family get_ipstr_family validate_ip_address build_socket_addr split_at
    strip fits_ipstr port_of parse_port parse_method salt_of parse_bracketed parse_plain parse_addr
    parse_psk parse_server parse_server_group_arg set_option check_options parse_options
    parse_command_args clamp16 udp_lrucache_set_maxsize
program = tt

abbrev server : Server
server = server_of tester address 8388 aes_128_gcm key

abbrev server6 : Server
server6 = server_of tester address6 9 aes_256_gcm key

parse_server_run : parse_server tester server_text ≡ some server
unfolding program
parse_server_run = refl

parse_server_run6 : parse_server tester server6_text ≡ some server6
unfolding program
parse_server_run6 = refl

-- An IPv6 address without brackets is refused.
parse_server_bare6 :
    parse_server tester (address6 ++ b':' ∷ b'9' ∷ b':' ∷ (method_256 ++ key)) ≡ none
unfolding program
parse_server_bare6 = refl

abbrev args : List Arg
args =
    setting (Setting.server_group server_text)
    ∷ setting (Setting.thread_nums (b'2' ∷ []))
    ∷ setting (Setting.udp_thread_nums (b'4' ∷ []))
    ∷ setting (Setting.udp_timeout (b'7' ∷ []))
    ∷ setting (Setting.cache_size (b'2' ∷ b'0' ∷ b'0' ∷ b'0' ∷ b'0' ∷ []))
    ∷ setting Setting.ipv4_only
    ∷ []

abbrev config : Config
config = record default_config {
  ipv6 = false;
  servers = server ∷ [];
  nthreads = 2;
  udp_nthreads = 2;
  udp_idletimeout_sec = 60;
  cache_sizes = record { fullcone = 20000; symmetric = 40000; tproxy = 65535 };
}

parse_run : parse_command_args tester args ≡ parsed config
unfolding program
parse_run = refl

parse_nothing : parse_command_args tester [] ≡ exits 1
unfolding program
parse_nothing = refl

parse_help : parse_command_args tester (setting Setting.tcp_only ∷ help ∷ []) ≡ exits 0
unfolding program
parse_help = refl

-- More worker threads than the program has room for
parse_threads :
    parse_command_args tester (setting (Setting.thread_nums (b'6' ∷ b'6' ∷ [])) ∷ args) ≡ exits 1
unfolding program
parse_threads = refl

parse_command_args-IsUsable_example : IsUsable tester config
parse_command_args-IsUsable_example = parse_command_args-IsUsable tester args config parse_run

parse_server_iff_example :
    (parse_server tester server6_text ≡ some server6) ↔ IsSpec tester server6_text server6
parse_server_iff_example = parse_server_iff tester server6_text server6
