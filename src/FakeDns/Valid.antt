-- ===== src/FakeDns/Valid.antt =====
-- src/fakedns.c: the invariant of the pool, and the arithmetic of its address range.
use tproxy2ss.Base.{
  ℕ, zero, suc, ◌+◌, ◌-◌, ◌*◌, ◌/◌, ◌^◌, ◌≤◌, ◌<◌, ◌≡◌, refl, sym, ap, ◌∙◌, arith, bit_and, true,
  Option, none, some, List, [], ◌∷◌, length, set, length-set, if◌then◌else◌, ◌==◌,
}
use native.Mathlib.Nat.{mod-eq_of_lt, mod-lt}
use tproxy2ss.Base.Bits.{bit_and-low, bit_and-high}
use tproxy2ss.Base.Word.{u32, htonl, htonl-htonl}
use tproxy2ss.FakeDns.Defs.{
  max_domain_len, Entry, FakeDns, slot_of, slot, write_slot, ip_at, is_fakeip,
}

-- The network of `2^k` addresses with the base `q * 2^k`; `j` is the prefix length.
pub record Range (j k q : ℕ) (p : FakeDns) : Type 0 where
  pub word : 2 ^ j * 2 ^ k ≡ u32
  pub small : 2 ^ k ≤ 2 ^ 24
  pub base : q < 2 ^ j
  pub size : p.pool_size ≡ 2 ^ k
  pub mask : p.mask_host ≡ (2 ^ j - 1) * 2 ^ k
  pub net : p.net_host ≡ q * 2 ^ k
  pub shape : length p.slots ≡ p.pool_size

-- `g_pool_used` counts the slots that hold an entry.
unfoldable pub count_used : List (Option Entry) → ℕ
count_used [] = 0
count_used (none ∷ l) = count_used l
count_used (some e ∷ l) = suc (count_used l)

pub record IsEntry (p : FakeDns) (offset : ℕ) (e : Entry) : Type 0 where
  pub address : e.ip ≡ ip_at p offset
  pub fits : length e.domain < max_domain_len
  pub clock : e.expire < u32
  pub generation : e.version < u32

pub record IsValid (j k q : ℕ) (p : FakeDns) : Type 0 where
  pub range : Range j k q p
  pub entries : (i : ℕ) (e : Entry) → slot p i ≡ some e → IsEntry p i e
  pub used : p.pool_used ≡ count_used p.slots

block_end : (a q m b : ℕ) → a * b ≡ m → q < a → (i : ℕ) → i < b → q * b + i < m
block_end a q m b e h i hi = grind arith

block_div : (q b i : ℕ) → i < b → (q * b + i) / b ≡ q
block_div q b i h = grind arith

module _ {j k q : ℕ} {p : FakeDns} (r : Range j k q p) where
  pub size_pos : 0 < p.pool_size
  size_pos = grind arith

  -- The probe loop masks its offsets, so they are inside the array.
  pub masked-lt : (x : ℕ) → bit_and x (p.pool_size - 1) < p.pool_size
  masked-lt x = rw (r.size, bit_and-low k x) (mod-lt x (rw (r.size) at size_pos))

  pub host-lt : (i : ℕ) → i < p.pool_size → p.net_host + i < u32
  host-lt i h = rw r.net (block_end (2 ^ j) q u32 (2 ^ k) r.word r.base i (rw r.size at h))

  pub ip_at_lem : (i : ℕ) → i < p.pool_size → htonl (ip_at p i) ≡ p.net_host + i
  unfolding ip_at
  ip_at_lem i h = rw (mod-eq_of_lt (host-lt i h)) (htonl-htonl (p.net_host + i) (host-lt i h))

  -- Masking an address of the pool gives the network.
  pub masked-net : (i : ℕ) → i < p.pool_size → bit_and (p.net_host + i) p.mask_host ≡ p.net_host
  masked-net i h =
      rw (r.mask, bit_and-high j k (p.net_host + i) (rw r.word (host-lt i h)), r.net)
        (ap (λ (t : ℕ). t * 2 ^ k) (block_div q (2 ^ k) i (rw r.size at h)))

  pub ip_at-is_fakeip : (i : ℕ) → i < p.pool_size → is_fakeip p (ip_at p i) ≡ true
  unfolding is_fakeip
  ip_at-is_fakeip i h = ground (arith, size_pos, ip_at_lem i h, masked-net i h)

slot_of-lt : (l : List (Option Entry)) (i : ℕ) (e : Entry) → slot_of l i ≡ some e → i < length l
unfolding slot_of
slot_of-lt [] i e h = ground arith
slot_of-lt (o ∷ l) zero e h = omega arith
slot_of-lt (o ∷ l) (suc i) e h = omega (arith, slot_of-lt l i e h)

slot_of-set :
    (l : List (Option Entry)) (i j : ℕ) (e : Entry)
    → i < length l
    → slot_of (set l i (some e)) j ≡ (if j == i then some e else slot_of l j)
unfolding slot_of
slot_of-set [] i j e h = elim h [ ]
slot_of-set (o ∷ l) zero zero e h = refl
slot_of-set (o ∷ l) zero (suc j) e h = ground arith
slot_of-set (o ∷ l) (suc i) zero e h = ground arith
slot_of-set (o ∷ l) (suc i) (suc j) e h = ground (arith, slot_of-set l i j e)

count_used-set :
    (l : List (Option Entry)) (i : ℕ) (e : Entry)
    → i < length l
    → (slot_of l i ≡ none → count_used (set l i (some e)) ≡ suc (count_used l))
      × ((old : Entry) → slot_of l i ≡ some old → count_used (set l i (some e)) ≡ count_used l)
unfolding slot_of count_used
count_used-set [] i e h = elim h [ ]
count_used-set (none ∷ l) zero e h = (λ _. refl, λ old s. cc)
count_used-set (some x ∷ l) zero e h = (λ s. cc, λ old _. refl)
count_used-set (none ∷ l) (suc i) e h = count_used-set l i e (omega arith)
count_used-set (some x ∷ l) (suc i) e h =
    let (vacant, taken) = count_used-set l i e (omega arith) in
    (λ s. ap suc (vacant s), λ old s. ap suc (taken old s))

pub count_used-le : (l : List (Option Entry)) → count_used l ≤ length l
unfolding count_used
count_used-le [] = omega arith
count_used-le (none ∷ l) = omega (arith, count_used-le l)
count_used-le (some e ∷ l) = omega (arith, count_used-le l)

-- An empty slot leaves room in the count.
pub count_used-lt :
    (l : List (Option Entry)) (i : ℕ) → i < length l → slot_of l i ≡ none → count_used l < length l
unfolding count_used slot_of
count_used-lt [] i h s = elim h [ ]
count_used-lt (none ∷ l) i h s = omega (arith, count_used-le l)
count_used-lt (some e ∷ l) zero h s = cc
count_used-lt (some e ∷ l) (suc i) h s = omega (arith, count_used-lt l i (omega arith) s)

module _ {j k q : ℕ} {p : FakeDns} (r : Range j k q p) where
  pub slot-lt : (i : ℕ) (e : Entry) → slot p i ≡ some e → i < p.pool_size
  unfolding slot
  slot-lt i e s = rw (← r.shape) (slot_of-lt p.slots i e s)

  pub slot-write_slot :
      (i m : ℕ) (e : Entry)
      → i < p.pool_size
      → slot (write_slot p i e) m ≡ (if m == i then some e else slot p m)
  unfolding slot write_slot
  slot-write_slot i m e h = slot_of-set p.slots i m e (rw r.shape h)

  pub write_slot-Range : (i : ℕ) (e : Entry) → Range j k q (write_slot p i e)
  unfolding write_slot
  write_slot-Range i e = record {
    word = r.word;
    small = r.small;
    base = r.base;
    size = r.size;
    mask = r.mask;
    net = r.net;
    shape = length-set p.slots i (some e) ∙ r.shape;
  }

-- Writing an entry that fits keeps the invariant, with the count adjusted at an empty slot.
module _ {j k q : ℕ} {p : FakeDns} (v : IsValid j k q p) (i : ℕ) (e : Entry) (h : i < p.pool_size)
    (ok : IsEntry p i e) where
  written-entries : (m : ℕ) (x : Entry) → slot (write_slot p i e) m ≡ some x → IsEntry p m x
  written-entries m x s = ground (arith, slot-write_slot v.range i m e h, v.entries m x, ok)

  pub write_slot-taken : (old : Entry) → slot p i ≡ some old → IsValid j k q (write_slot p i e)
  unfolding slot write_slot ip_at
  write_slot-taken old s = record {
    range = write_slot-Range v.range i e;
    entries = λ m x t.
        let w = written-entries m x t in
        record { address = w.address; fits = w.fits; clock = w.clock; generation = w.generation };
    used = v.used ∙ sym ((count_used-set p.slots i e (rw v.range.shape h)).1 old s);
  }

  pub write_slot-vacant :
      slot p i ≡ none → IsValid j k q (record (write_slot p i e) { pool_used = p.pool_used + 1 })
  unfolding slot write_slot ip_at
  write_slot-vacant s = record {
    range =
        let r = write_slot-Range v.range i e in
        record {
          word = r.word;
          small = r.small;
          base = r.base;
          size = r.size;
          mask = r.mask;
          net = r.net;
          shape = r.shape;
        };
    entries = λ m x t.
        let w = written-entries m x t in
        record { address = w.address; fits = w.fits; clock = w.clock; generation = w.generation };
    used = omega (arith, v.used, (count_used-set p.slots i e (rw v.range.shape h)).0 s);
  }
