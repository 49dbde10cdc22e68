-- ===== src/FakeDns/File.antt =====
-- src/fakedns.c, `fakedns_save` and `fakedns_load`. The calls of the C library on the file are
-- taken by what they do: an argument says which of them succeed.
use tproxy2ss.Base.{
  ℕ, zero, suc, ◌+◌, ◌*◌, ◌^◌, bit_and, Bool, true, false, ◌&&◌, ◌||◌, not, Option, none, some,
  List, [], ◌∷◌, ◌++◌, length, take, drop, ltb, leb, ◌==◌, if◌then◌else◌,
}
use tproxy2ss.Base.Word.{add32, sub32, htonl, raw16, raw32}
use tproxy2ss.Base.Bytes.{Bytes, c_str, strcmp_eq}
use tproxy2ss.FakeDns.Defs.{max_domain_len, entry_lifetime, Entry, FakeDns, slot, write_slot}

-- `FAKEDNS_MAGIC`, `FAKEDNS_VERSION`
abbrev pub magic : ℕ
magic = 0x464e5344

abbrev pub file_version : ℕ
file_version = 3

-- An entry is written unless it has expired; the comparison is of the plain numbers.
unfoldable pub is_saved : ℕ → Option Entry → Bool
is_saved now none = false
is_saved now (some e) = not (leb e.expire now)

-- One entry in the file: the address, the length and the text of the domain.
unfoldable pub saved_entry : Entry → Bytes
saved_entry e = raw32 e.ip ++ (raw16 (length (c_str e.domain)) ++ c_str e.domain)

-- The loop over the pool: what is written, and `actual_count`.
unfoldable pub saved_entries : ℕ → List (Option Entry) → Bytes
saved_entries now [] = []
saved_entries now (none ∷ l) = saved_entries now l
saved_entries now (some e ∷ l) =
    let rest = saved_entries now l in if is_saved now (some e) then saved_entry e ++ rest else rest

unfoldable pub saved_count : ℕ → List (Option Entry) → ℕ
saved_count now [] = 0
saved_count now (c ∷ l) = let rest = saved_count now l in if is_saved now c then suc rest else rest

-- The file when every call succeeds; the count has been patched into the header.
unfoldable pub saved_file : FakeDns → ℕ → Bytes
saved_file p now =
    raw32 magic
    ++ (raw32 file_version
        ++ (raw32 (saved_count now p.slots)
            ++ (raw16 (length (c_str p.cidr_str))
                ++ (c_str p.cidr_str ++ saved_entries now p.slots))))

-- Which of the library's calls succeed.
pub record Calls : Type 0 where
  pub opened : Bool
  pub written : Bool
  pub patched : Bool
  pub synced : Bool
  pub renamed : Bool

-- `fakedns_save`: what stands at the path afterwards, given what stood there. The pool is written
-- to a temporary file, which takes the place of the old one only when every call succeeded.
unfoldable pub save : Calls → FakeDns → ℕ → Option Bytes → Option Bytes
save calls p now old =
    if p.pool_used == 0
    then old
    else if not calls.opened
    then old
    else if calls.written && calls.patched && calls.synced && calls.renamed
    then some (saved_file p now)
    else old

-- `fread(&x, 4, 1, fp)`, `fread(&x, 2, 1, fp)`, `fread(buffer, 1, n, fp)`: what was read, and the
-- rest of the file.
unfoldable pub read32 : Bytes → Option (ℕ × Bytes)
read32 (a ∷ b ∷ c ∷ d ∷ rest) = some (a + 2 ^ 8 * b + 2 ^ 16 * c + 2 ^ 24 * d, rest)
read32 _ = none

unfoldable pub read16 : Bytes → Option (ℕ × Bytes)
read16 (a ∷ b ∷ rest) = some (a + 2 ^ 8 * b, rest)
read16 _ = none

unfoldable pub read_bytes : ℕ → Bytes → Option (Bytes × Bytes)
read_bytes n file = if ltb (length file) n then none else some (take n file, drop n file)

-- What an entry of the file does to the pool.
unfoldable pub restore : Bool → ℕ → FakeDns → ℕ → ℕ → Bytes → FakeDns
restore memory now p offset ip domain = elim (slot p offset) [
  | none ↦
      if memory
      then record (write_slot p offset
          (record { ip = ip; expire = add32 now entry_lifetime; version = 1; domain = domain })) {
            pool_used = add32 p.pool_used 1;
          }
      else p
  | some e ↦ write_slot p offset (record e { expire = add32 now entry_lifetime; domain = domain })
]

-- `ip` and `dlen` at the head of an entry
unfoldable pub read_head : Bytes → Option (ℕ × ℕ × Bytes)
read_head file = elim (read32 file) [
  | none ↦ none
  | some (ip, rest) ↦ elim (read16 rest) [ none ↦ none | some (dlen, text) ↦ some (ip, dlen, text) ]
]

-- An entry is passed over when its address is outside the pool or its domain does not fit.
unfoldable pub is_skipped : FakeDns → ℕ → ℕ → Bool
is_skipped p ip dlen =
    not (bit_and (htonl ip) p.mask_host == p.net_host)
    || leb p.pool_size (sub32 (htonl ip) p.net_host)
    || leb max_domain_len dlen

module _ (memory : Bool) (now : ℕ) where
  -- The loop over the entries, with the rounds that are left. A short read ends it; `fseek` over a
  -- domain succeeds.
  unfoldable pub load_entries : ℕ → FakeDns → Bytes → FakeDns
  load_entries zero p file = p
  load_entries (suc rounds) p file = elim (read_head file) [
    | none ↦ p
    | some (ip, dlen, text) ↦ elim (is_skipped p ip dlen) [
      | true ↦ load_entries rounds p (drop dlen text)
      | false ↦ elim (read_bytes dlen text) [
        | none ↦ p
        | some (domain, rest) ↦
            load_entries rounds (restore memory now p (sub32 (htonl ip) p.net_host) ip domain) rest
      ]
    ]
  ]

  -- Behind the fixed header: the network must be the one in use.
  unfoldable pub load_body : FakeDns → ℕ → Bytes → FakeDns
  load_body p count file = elim (read16 file) [
    | none ↦ p
    | some (cidr_len, text) ↦ if leb 64 cidr_len then p else elim (read_bytes cidr_len text) [
      | none ↦ p
      | some (file_cidr, rest) ↦
          if not (strcmp_eq file_cidr p.cidr_str) then p else load_entries count p rest
    ]
  ]

  unfoldable pub load_header : FakeDns → Option (ℕ × Bytes) → FakeDns
  load_header p none = p
  load_header p (some (file_magic, file)) = elim (read32 file) [
    | none ↦ p
    | some (version, file') ↦ elim (read32 file') [
      | none ↦ p
      | some (count, rest) ↦
          if not (file_magic == magic)
          then p
          else if not (version == file_version)
          then p
          else load_body p count rest
    ]
  ]

  -- `fakedns_load` from a file that exists.
  unfoldable pub load : FakeDns → Bytes → FakeDns
  load p file = load_header p (read32 file)
