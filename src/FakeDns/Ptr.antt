-- ===== src/FakeDns/Ptr.antt =====
-- src/fakedns.c, `fakedns_parse_ptr_name`.
use tproxy2ss.Base.{
  ℕ, zero, suc, ◌+◌, ◌-◌, ◌*◌, ◌^◌, Bool, false, ◌||◌, not, Option, none, some, List, [], ◌∷◌, ◌++◌,
  map, length, take, drop, ltb, ◌==◌, if◌then◌else◌,
}
use tproxy2ss.Base.Word.{htonl}
use tproxy2ss.Base.Bytes.{Bytes, c_str, bytes_eq, lower}
use tproxy2ss.Base.Number.{strtoul}

-- ".in-addr.arpa"
abbrev pub ptr_suffix : Bytes
ptr_suffix =
    b'.' ∷ b'i' ∷ b'n' ∷ b'-' ∷ b'a' ∷ b'd' ∷ b'd' ∷ b'r' ∷ b'.' ∷ b'a' ∷ b'r' ∷ b'p' ∷ b'a' ∷ []

-- `strtok_r(s, ".")` until it returns NULL: the runs of bytes between dots. No token is empty,
-- for `strtok_r` skips delimiters that stand together.
abbrev pub push_token : Bytes → List Bytes → List Bytes
push_token [] ts = ts
push_token (c ∷ cs) ts = (c ∷ cs) ∷ ts

unfoldable pub tokens_from : Bytes → Bytes → List Bytes
tokens_from token [] = push_token token []
tokens_from token (c ∷ cs) =
    let more = tokens_from (if c == b'.' then [] else token ++ c ∷ []) cs in
    if c == b'.' then push_token token more else more

unfoldable pub tokens : Bytes → List Bytes
tokens s = tokens_from [] s

-- One round of the loop: a token as an octet.
abbrev pub leading_zero : Bytes → Bool
leading_zero [] = false
leading_zero (c ∷ []) = false
leading_zero (c ∷ d ∷ cs) = c == b'0'

abbrev pub octet_of : ℕ × Bytes → Option ℕ
octet_of (val, []) = if ltb 255 val then none else some val
octet_of (val, c ∷ cs) = none

unfoldable pub octet : Bytes → Option ℕ
octet tok = if leading_zero tok then none else octet_of (strtoul tok)

-- The loop: exactly so many tokens, each an octet.
unfoldable pub octets : ℕ → List Bytes → Option (List ℕ)
octets zero [] = some []
octets zero (t ∷ ts) = none
octets (suc n) [] = none
octets (suc n) (t ∷ ts) = elim (octet t) [
  | none ↦ none
  | some o ↦ elim (octets n ts) [ none ↦ none | some os ↦ some (o ∷ os) ]
]

-- `(octets[3] << 24) | (octets[2] << 16) | (octets[1] << 8) | octets[0]`, of bytes
unfoldable pub ip_of_octets : List ℕ → ℕ
ip_of_octets [] = 0
ip_of_octets (o ∷ os) = o + 2 ^ 8 * ip_of_octets os

-- The address in network order, or `none` where the function returns false.
unfoldable pub parse_ptr_name : Bytes → Option ℕ
parse_ptr_name name =
    let len = length name in
    if ltb len 20 || ltb 28 len
    then none
    else if not (bytes_eq (map lower (drop (len - 13) name)) ptr_suffix)
    then none
    else elim (octets 4 (tokens (c_str (take (len - 13) name)))) [
      | none ↦ none
      | some os ↦ some (htonl (ip_of_octets os))
    ]
