-- ===== src/FakeDns/Reload.antt =====
-- src/fakedns.c: `fakedns_load` of the file that `fakedns_save` wrote.
pub mod Item
pub mod Loop
mod Tests
use tproxy2ss.Base.{
  ℕ, zero, suc, ◌+◌, ◌-◌, ◌*◌, ◌^◌, ◌%◌, ◌/◌, ◌≤◌, ◌<◌, ◌≡◌, refl, sym, ap, ◌∙◌, arith, bit_and,
  Bool, true, false, not, ◌||◌, Option, none, some, List, [], ◌∷◌, ◌++◌, append_assoc, length,
  length-append, length-replicate, length-set, set, take, drop, replicate, take_append, drop_append,
  map, leb, ltb, ◌==◌, if◌then◌else◌, Bool-cases, inl, inr, get_elem?,
}
use mathlib.Core.Path.{subst}
use tproxy2ss.Base.Word.{u32, add32, sub32, htonl, htonl-lt, raw16, raw32}
use tproxy2ss.Base.Bytes.{Bytes, c_str, c_str-c_str, length-c_str-le, strcmp_eq, bytes_eq_self}
use tproxy2ss.FakeDns.Defs.{
  max_domain_len, entry_lifetime, Entry, FakeDns, slot_of, slot, write_slot, ip_at,
}
use tproxy2ss.FakeDns.Valid.{Range, IsValid, IsEntry, ip_at_lem, masked-net, host-lt}
use tproxy2ss.FakeDns.File.{
  magic, file_version, is_saved, saved_entry, saved_entries, saved_count, saved_file, read32,
  read16, read_bytes, restore, read_head, is_skipped, load_entries, load_body, load_header, load,
}
use tproxy2ss.FakeDns.Reload.Item.{filled, read32-raw32, read16-raw16, read_bytes-append}
use tproxy2ss.FakeDns.Reload.Loop.{
  restored, AreAt, AreAt-slots, Reloads, load_entries-saved_entries,
}

saved_count-le : (now : ℕ) (l : List (Option Entry)) → saved_count now l ≤ length l
unfolding saved_count
saved_count-le now [] = omega arith
saved_count-le now (c ∷ l) = ground (arith, saved_count-le now l)

-- The header of a file that was saved under the network in use.
load-header :
    (later : ℕ) (p f : FakeDns) (now : ℕ)
    → f.cidr_str ≡ p.cidr_str
    → length (c_str p.cidr_str) < 64
    → saved_count now p.slots < u32
    → load true later f (saved_file p now)
      ≡ load_entries true later (saved_count now p.slots) f (saved_entries now p.slots)
unfolding load saved_file load_header load_body strcmp_eq
load-header later p f now same short small =
    let cidr = c_str p.cidr_str in
    let entries = saved_entries now p.slots in
    let sized = raw16 (length cidr) ++ (cidr ++ entries) in
    let counted = raw32 (saved_count now p.slots) ++ sized in
    let word : length cidr < 2 ^ 16 = omega (arith, short) in
    let fits : leb 64 (length cidr) ≡ false = ground (arith, short) in
    rw
      (
        read32-raw32 magic (raw32 file_version ++ counted) (omega arith),
        load_header,
        read32-raw32 file_version counted (omega arith),
        read32-raw32 (saved_count now p.slots) sized small,
        load_body,
        read16-raw16 (length cidr) (cidr ++ entries) word,
        fits,
        read_bytes-append cidr entries,
        same,
        c_str-c_str p.cidr_str,
        bytes_eq_self cidr,
      )
      refl

-- A pool with no entry
pub record IsEmpty (p : FakeDns) : Type 0 where
  pub cells : p.slots ≡ replicate p.pool_size none
  pub count : p.pool_used ≡ 0

-- A valid pool is saved and the file is loaded into an empty pool of the same network, whose CIDR
-- text fits the loader's buffer, with memory for its entries. Then every slot is as it was: an
-- entry that had not expired has its address and its domain again, with a new lifetime, and
-- every other slot is empty; the count of used slots is the number of entries that were saved.
pub load-saved_file :
    (now later : ℕ) {j k q : ℕ} (p f : FakeDns)
    → IsValid j k q p
    → Range j k q f
    → IsEmpty f
    → f.cidr_str ≡ p.cidr_str
    → length (c_str p.cidr_str) < 64
    → load true later f (saved_file p now)
      ≡ filled f (map (restored now later) p.slots) (saved_count now p.slots)
unfolding slot ip_at Reloads
load-saved_file now later p f v r fresh same short =
    let from : (n : ℕ) → n ≡ 0 + n = λ n. omega arith in
    let net : f.net_host ≡ p.net_host = r.net ∙ sym v.range.net in
    let size : length p.slots ≡ f.pool_size = v.range.shape ∙ v.range.size ∙ sym r.size in
    let small : saved_count now p.slots < u32 =
      omega (arith, saved_count-le now p.slots, size, r.size, r.small) in
    let at : AreAt f.net_host 0 p.slots = AreAt-slots f.net_host 0 p.slots (λ n e s.
      let w = v.entries n e s in
      (
        w.address
            ∙ ap (λ a. htonl (add32 a n)) (sym net)
            ∙ ap (λ m. htonl (add32 f.net_host m)) (from n),
        w.fits,
      )) in
    let empty : f ≡ filled f (replicate (length p.slots) none) 0 =
      ap (λ s. filled f s f.pool_used) (fresh.cells ∙ ap (λ n. replicate n none) (sym size))
      ∙ ap (filled f (replicate (length p.slots) none)) fresh.count in
    load-header later p f now same short small
    ∙ ap (λ g. load_entries true later (saved_count now p.slots) g (saved_entries now p.slots))
        empty
    ∙ load_entries-saved_entries now later f r p.slots [] 0 (sym (from (length p.slots)) ∙ size)
        (omega arith) at
    ∙ ap (filled f (map (restored now later) p.slots)) (sym (from (saved_count now p.slots)))
