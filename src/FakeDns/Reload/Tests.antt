-- ===== src/FakeDns/Reload/Tests.antt =====
-- The theorem on `fakedns_save` and `fakedns_load` at a pool of 256 addresses, 198.18.0.0/24, with
-- the length of a name for its hash.
use tproxy2ss.Base.{ℕ, ◌*◌, ◌/◌, ◌+◌, ◌^◌, ◌≡◌, refl, arith, true, [], ◌∷◌, map}
use tproxy2ss.Base.Word.{htonl}
use tproxy2ss.Base.Bytes.{Bytes, strcmp_eq, c_str, bytes_eq}
use tproxy2ss.FakeDns.Defs.{FakeDns, slot, slot_of, write_slot, ip_at}
use tproxy2ss.FakeDns.Lookup.{
  entry_set_domain, is_expired, note_expired, scan, refresh, overwrite, warn_usage, insert,
  dispatch, lookup_domain,
}
use tproxy2ss.FakeDns.Valid.{IsValid}
use tproxy2ss.FakeDns.Init.{fresh_pool, fresh_pool-IsValid}
use tproxy2ss.FakeDns.Keeps.{lookup_domain-IsValid}
use tproxy2ss.FakeDns.File.{is_saved, saved_count, saved_file, load}
use tproxy2ss.FakeDns.Reload.{load-saved_file}
use tproxy2ss.FakeDns.Reload.Item.{filled}
use tproxy2ss.FakeDns.Reload.Loop.{restored}

abbrev base : ℕ
base = 198 * 2 ^ 24 + 18 * 2 ^ 16

abbrev cidr : Bytes
cidr = b'1' ∷ b'9' ∷ b'8' ∷ b'/' ∷ b'2' ∷ b'4' ∷ []

abbrev empty : FakeDns
empty = fresh_pool cidr base 24

empty-IsValid : IsValid 24 8 (base / 2 ^ 8) empty
empty-IsValid = fresh_pool-IsValid cidr base 24 (omega arith) (omega arith) (omega arith)

abbrev name : Bytes
name = b'a' ∷ b'.' ∷ b'b' ∷ []

abbrev other_name : Bytes
other_name = b'c' ∷ b'.' ∷ b'd' ∷ []

abbrev hash : Bytes → ℕ
hash text = 3

-- Two domains with one hash: the second stands behind the first.
abbrev asked : FakeDns
asked = (lookup_domain hash 2000 true (lookup_domain hash 1000 true empty name).0 other_name).0

asked-IsValid : IsValid 24 8 (base / 2 ^ 8) asked
asked-IsValid =
    lookup_domain-IsValid (lookup_domain-IsValid empty-IsValid hash 1000 true name) hash 2000 true
      other_name

program : Unit {0}
unfolding fresh_pool lookup_domain entry_set_domain is_expired note_expired scan refresh overwrite
    warn_usage insert dispatch slot_of slot write_slot ip_at htonl strcmp_eq c_str bytes_eq is_saved
    saved_count restored
program = tt

load-saved_file_example :
    load true 90000 empty (saved_file asked 3000)
    ≡ filled empty (map (restored 3000 90000) asked.slots) (saved_count 3000 asked.slots)
unfolding program
load-saved_file_example =
    load-saved_file 3000 90000 asked empty asked-IsValid empty-IsValid.range
      (record { cells = refl; count = refl }) refl (omega arith)

two_saved : saved_count 3000 asked.slots ≡ 2
unfolding program
two_saved = refl

-- The file of a moment when the first entry has expired and the second has not.
abbrev reloaded_pool : FakeDns
reloaded_pool =
    filled empty (map (restored 87450 87500) asked.slots) (saved_count 87450 asked.slots)

-- Without a restart the second domain keeps its address; after one it gets another, since the
-- search for it stops at the slot that the first one left empty.
kept_address : (lookup_domain hash 87500 true asked other_name).1 ≡ 67113670
unfolding program
kept_address = refl

new_address : (lookup_domain hash 87500 true reloaded_pool other_name).1 ≡ 50336454
unfolding program
new_address = refl
