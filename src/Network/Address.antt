-- ===== src/Network/Address.antt =====
-- include/bc/network/address.hpp, on a little-endian machine. The logging of a bad name is left out.
pub mod Ipv4
pub mod Ipv6
pub mod DoubleColon
pub mod Compressed
pub mod Segments
pub mod Names
pub mod Trim
pub mod Reads
pub mod Accepts
pub mod RoundTrip
use mathlib.Core.List.{map}
use bc.Prelude.{
  ℕ, suc, zero, ◌+◌, ◌-◌, ◌*◌, ◌/◌, ◌%◌, ◌^◌, Bool, true, false, ◌&&◌, ◌||◌, ◌==◌, leb, ltb,
  if◌then◌else◌, List, [], ◌∷◌, ◌++◌, Option, none, some, Bytes, all_of, length, replicate, Result,
}
use bc.Network.Chars.{from_chars, split, join}
use bc.Utils.Error.{Errc}
use bc.Utils.Expected.{Expected, value, error, deref}

-- AF_INET and AF_INET6.
pub data Domain : Type 0 where
  ipv4 ipv6 : Domain

-- `htons` and `ntohs`; `htonl`.
abbrev pub swap16 : ℕ → ℕ
swap16 n = n % 256 * 256 + n / 256 % 256

abbrev pub swap32 : ℕ → ℕ
swap32 n = n % 256 * 16777216 + n / 256 % 256 * 65536 + n / 65536 % 256 * 256 + n / 16777216 % 256

abbrev pub is_ipv4_char : ℕ → Bool
is_ipv4_char c = leb b'0' c && leb c b'9' || c == b'.'

-- The loop over the segments: segment `i` is written to byte `3 - i` of `addr`.
unfoldable pub read_parts : ℕ → ℕ → List Bytes → Option ℕ
read_parts i addr [] = if i == 4 then some addr else none
read_parts i addr (segment ∷ segments) = if i == 4 then none else elim (from_chars 10 256 segment) [
  | none ↦ none
  | some part ↦ read_parts (i + 1) (addr + part * 256 ^ (3 - i)) segments
]

unfoldable pub parse_ipv4 : Bytes → Option ℕ
parse_ipv4 hostname =
    if all_of is_ipv4_char hostname then read_parts 0 0 (split b'.' hostname) else none

abbrev pub is_ipv6_char : ℕ → Bool
is_ipv6_char c =
    leb b'0' c && leb c b'9' || leb b'a' c && leb c b'f' || leb b'A' c && leb c b'F' || c == b':'

unfoldable pub starts_with_colons : Bytes → Bool
starts_with_colons (c ∷ d ∷ cs) = c == b':' && d == b':'
starts_with_colons _ = false

unfoldable pub ends_with_colons : Bytes → Bool
ends_with_colons (c ∷ d ∷ []) = c == b':' && d == b':'
ends_with_colons (c ∷ d ∷ e ∷ cs) = ends_with_colons (d ∷ e ∷ cs)
ends_with_colons _ = false

-- `substr(1)` and `substr(0, size() - 1)`.
unfoldable pub drop_first : Bytes → Bytes
drop_first [] = []
drop_first (c ∷ cs) = cs

unfoldable pub drop_last : Bytes → Bytes
drop_last [] = []
drop_last (c ∷ []) = []
drop_last (c ∷ d ∷ cs) = c ∷ drop_last (d ∷ cs)

unfoldable pub trim_colons : Bytes → Bytes
unfolding starts_with_colons ends_with_colons drop_first drop_last
trim_colons hostname =
    if starts_with_colons hostname
    then drop_first hostname
    else if ends_with_colons hostname
    then drop_last hostname
    else hostname

-- `from_chars` into a group, behind the test of the segment's size.
unfoldable pub read_group : Bytes → Option ℕ
read_group segment = if ltb 4 (length segment) then none else from_chars 16 65536 segment

-- What the first loop leaves: the groups that it has written, `has_tail`, and the other segments.
pub record Front : Type 0 where
  pub groups : List ℕ
  pub has_tail : Bool
  pub rest : List Bytes

abbrev pub is_empty : Bytes → Bool
is_empty [] = true
is_empty (c ∷ cs) = false

unfoldable pub read_front : List ℕ → List Bytes → Option Front
read_front groups [] = some (record { groups = groups; has_tail = false; rest = [] })
read_front groups (s ∷ ss) =
    if length groups == 8
    then some (record { groups = groups; has_tail = false; rest = s ∷ ss })
    else if is_empty s
    then some (record { groups = groups; has_tail = true; rest = ss })
    else elim (read_group s) [ none ↦ none | some g ↦ read_front (groups ++ g ∷ []) ss ]

-- The second loop, behind "::".
unfoldable pub read_tail : List ℕ → List Bytes → Option (List ℕ)
read_tail tail [] = some tail
read_tail tail (s ∷ ss) =
    if length tail == 8
    then some tail
    else if is_empty s
    then none
    else elim (read_group s) [ none ↦ none | some g ↦ read_tail (tail ++ g ∷ []) ss ]

-- The array `addr`, whose last groups are those of the tail.
unfoldable pub place_tail : List ℕ → List ℕ → Option (List ℕ)
place_tail groups tail =
    let visible_count = length groups + length tail in
    if leb 8 visible_count then none else some (groups ++ replicate (8 - visible_count) 0 ++ tail)

unfoldable pub fill_front : Front → Option (List ℕ)
fill_front front =
    if front.has_tail
    then (elim (read_tail [] front.rest) [ none ↦ none | some tail ↦ place_tail front.groups tail ])
    else some (front.groups ++ replicate (8 - length front.groups) 0)

unfoldable pub to_network : Option (List ℕ) → Option (List ℕ)
to_network none = none
to_network (some addr) = some (map swap16 addr)

unfoldable pub parse_ipv6 : Bytes → Option (List ℕ)
parse_ipv6 hostname =
    if all_of is_ipv6_char hostname
    then (elim (read_front [] (split b':' (trim_colons hostname))) [
      | none ↦ none
      | some front ↦ to_network (fill_front front)
    ])
    else none

-- `sockaddr_in` and `sockaddr_in6`, as far as they are set; numbers are in network order.
pub record SockaddrIn : Type 0 where
  pub sin_family : Domain
  pub sin_port : ℕ
  pub s_addr : ℕ

pub record SockaddrIn6 : Type 0 where
  pub sin6_family : Domain
  pub sin6_port : ℕ
  pub s6_addr16 : List ℕ

-- The class `address`: the variant `sockaddr_`.
pub data Address : Type 0 where
  in4 : SockaddrIn → Address
  in6 : SockaddrIn6 → Address

-- The second half of `from`.
unfoldable pub from_ipv6 : Bytes → ℕ → Expected Address Errc
from_ipv6 hostname port = elim (parse_ipv6 hostname) [
  | some groups ↦
      value (in6 (record { sin6_family = ipv6; sin6_port = swap16 port; s6_addr16 = groups }))
  | none ↦ error Errc.invalid_address
]

unfoldable pub from : Bytes → ℕ → Expected Address Errc
from hostname port = elim (parse_ipv4 hostname) [
  | some addr ↦
      value (in4 (record { sin_family = ipv4; sin_port = swap16 port; s_addr = swap32 addr }))
  | none ↦ from_ipv6 hostname port
]

-- `address(hostname, port)`, which dereferences the result of `from`.
unfoldable pub address : Bytes → ℕ → Result Address
address hostname port = deref (from hostname port)

unfoldable pub domain : Address → Domain
domain (in4 a) = ipv4
domain (in6 a) = ipv6

-- `sizeof`.
unfoldable pub socklen : Address → ℕ
socklen (in4 a) = 16
socklen (in6 a) = 28

-- How the third-party library fmt prints a number: `{}` and `{:x}`.
pub record Numerals : Type 0 where
  pub decimal : ℕ → Bytes
  pub hexadecimal : ℕ → Bytes

-- `numbers[i]` of an address in memory.
abbrev pub byte_of : ℕ → ℕ → ℕ
byte_of a i = a / 256 ^ i % 256

-- What `expr` prints, less the port.
unfoldable pub host_text : Numerals → Address → Bytes
host_text fmt (in4 a) = join b'.' (
    fmt.decimal (byte_of a.s_addr 0)
    ∷ fmt.decimal (byte_of a.s_addr 1)
    ∷ fmt.decimal (byte_of a.s_addr 2)
    ∷ fmt.decimal (byte_of a.s_addr 3)
    ∷ [])
host_text fmt (in6 a) = join b':' (map (λ n. fmt.hexadecimal (swap16 n)) a.s6_addr16)

unfoldable pub expr : Numerals → Address → Bytes
expr fmt (in4 a) = host_text fmt (in4 a) ++ b':' ∷ fmt.decimal (swap16 a.sin_port)
expr fmt (in6 a) = (b'[' ∷ host_text fmt (in6 a)) ++ b']' ∷ b':' ∷ fmt.decimal (swap16 a.sin6_port)
