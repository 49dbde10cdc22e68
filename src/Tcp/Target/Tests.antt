-- ===== src/Tcp/Target/Tests.antt =====
-- The theorem on the targets of src/tcp_proxy.c at a new pool that is asked for one domain.
use tproxy2ss.Base.{ℕ, ◌+◌, ◌*◌, ◌^◌, ◌≡◌, ◌≢◌, arith, refl, true, some, [], ◌∷◌, length}
use tproxy2ss.Base.Word.{htonl}
use tproxy2ss.Base.Bytes.{Bytes, c_str, strcmp_eq}
use tproxy2ss.FakeDns.Defs.{FakeDns, slot_of, slot, write_slot, ip_at, is_fakeip}
use tproxy2ss.FakeDns.Init.{fresh_pool, fresh_pool-IsValid}
use tproxy2ss.FakeDns.Lookup.{
  entry_set_domain, is_expired, note_expired, scan, refresh, overwrite, warn_usage, insert,
  dispatch, lookup_domain,
}
use tproxy2ss.FakeDns.Reverse.{mru_start}
use tproxy2ss.FakeDns.Coherent.{mru_start-Coherent}
use tproxy2ss.Tcp.Target.{inet, host_domain, ntohs, resolve_target, resolve_target-lookup_domain}

abbrev network : FakeDns
network = fresh_pool [] (198 * 2 ^ 24 + 18 * 2 ^ 16) 24

abbrev name : Bytes
name = b'a' ∷ b'.' ∷ b'b' ∷ []

abbrev asked : FakeDns × ℕ
asked = lookup_domain length 1000 true network name

given : asked.1 ≢ 0
unfolding fresh_pool lookup_domain entry_set_domain is_expired note_expired scan refresh overwrite
    warn_usage insert dispatch slot_of slot write_slot ip_at is_fakeip htonl strcmp_eq
given e = absurd (omega (arith, e))

name_len : length (c_str name) ≡ 3
unfolding c_str
name_len = refl

resolve_target-lookup_domain_example :
    (resolve_target 255 true true (some (inet asked.1 20480)) asked.0 mru_start).1
    ≡ some (record { host = host_domain (length (c_str name)) (c_str name); port = ntohs 20480 })
resolve_target-lookup_domain_example =
    resolve_target-lookup_domain
      (fresh_pool-IsValid [] (198 * 2 ^ 24 + 18 * 2 ^ 16) 24 (omega arith) (omega arith)
        (omega arith))
      length 1000 true name (omega arith) mru_start 255 20480 (mru_start-Coherent asked.0) given
      (omega (arith, name_len)) (omega (arith, name_len))
