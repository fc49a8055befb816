-- ===== src/Network/Tests.antt =====
-- The theorems about addresses at concrete names, over a printer of small numbers.
pub mod Sockets
pub mod Sessions
pub mod Echo
mod Scheduled
mod Clients
use mathlib.Core.List.{map}
use bc.Prelude.{
  ℕ, ◌+◌, ◌-◌, ◌*◌, ◌/◌, ◌%◌, ◌<◌, ◌≤◌, ◌≡◌, ◌↔◌, ltb, if◌then◌else◌, List, [], ◌∷◌, none, some,
  Bytes, codes, refl, arith, Bool-cases, inl, inr, length,
}
use bc.Utils.Expected.{value}
use bc.Network.Chars.{digit_in, from_chars, split, read_digits, split_from}
use bc.Network.Chars.Digits.{Digits, stop, more, IsNumeral}
use bc.Network.Address.{
  ipv4, ipv6, SockaddrIn, SockaddrIn6, in4, in6, Numerals, host_text, expr, from, from_ipv6,
  parse_ipv4, parse_ipv6, read_parts, read_front, read_tail, read_group, fill_front, place_tail,
  to_network, trim_colons, swap16,
}
use bc.Network.Address.Ipv4.{Dotted, parse_ipv4_iff}
use bc.Network.Address.Ipv6.{IsGroup}
use bc.Network.Address.Names.{Names}
use bc.Network.Address.Accepts.{parse_ipv6_iff}
use bc.Network.Address.RoundTrip.{Prints, from-host_text4, from-host_text6}

-- What the functions compute with, for the `unfolding` lines below.
running : Unit {0}
unfolding digit_in from_chars split split_from read_digits host_text expr from from_ipv6 parse_ipv4
    parse_ipv6 read_parts read_front read_tail read_group fill_front place_tail to_network
    trim_colons
running = tt

parsed : parse_ipv4 (codes "127.0.0.1") ≡ some 0x7f000001
unfolding running
parsed = refl

-- Names that are refused, and names with too few groups that are not.
refused :
    (parse_ipv4 (codes "1.2.3") ≡ none)
    × (parse_ipv4 (codes "1.2.3.256") ≡ none)
    × (parse_ipv6 (codes "::") ≡ none)
    × (parse_ipv6 (codes "12345::") ≡ none)
unfolding running
refused = (refl, refl, refl, refl)

shortened :
    (parse_ipv6 (codes "::1") ≡ some (0 ∷ 0 ∷ 0 ∷ 0 ∷ 0 ∷ 0 ∷ 0 ∷ 256 ∷ []))
    × (parse_ipv6 (codes "1::2") ≡ some (256 ∷ 0 ∷ 0 ∷ 0 ∷ 0 ∷ 0 ∷ 0 ∷ 512 ∷ []))
    × (parse_ipv6 (codes "") ≡ some (0 ∷ 0 ∷ 0 ∷ 0 ∷ 0 ∷ 0 ∷ 0 ∷ 0 ∷ []))
    × (parse_ipv6 (codes "1") ≡ some (256 ∷ 0 ∷ 0 ∷ 0 ∷ 0 ∷ 0 ∷ 0 ∷ 0 ∷ []))
    × (parse_ipv6 (codes "1:2") ≡ some (256 ∷ 512 ∷ 0 ∷ 0 ∷ 0 ∷ 0 ∷ 0 ∷ 0 ∷ []))
unfolding running
shortened = (refl, refl, refl, refl, refl)

-- Names that are read although they are no addresses: one colon at an end, and more behind eight
-- groups.
lenient :
    (parse_ipv6 (codes ":1") ≡ some (0 ∷ 0 ∷ 0 ∷ 0 ∷ 0 ∷ 0 ∷ 0 ∷ 256 ∷ []))
    × (parse_ipv6 (codes "1:") ≡ some (256 ∷ 0 ∷ 0 ∷ 0 ∷ 0 ∷ 0 ∷ 0 ∷ 0 ∷ []))
    × (parse_ipv6 (codes "1:2:3:4:5:6:7:8:12345::")
        ≡ some (256 ∷ 512 ∷ 768 ∷ 1024 ∷ 1280 ∷ 1536 ∷ 1792 ∷ 2048 ∷ []))
unfolding running
lenient = (refl, refl, refl)

parse_ipv4_iff_example :
    (parse_ipv4 (codes "127.0.0.1") ≡ some 0x7f000001) ↔ Dotted (codes "127.0.0.1") 0x7f000001
parse_ipv4_iff_example = parse_ipv4_iff (codes "127.0.0.1") 0x7f000001

-- The character of a digit.
char_of : ℕ → ℕ
char_of d = if ltb d 10 then b'0' + d else b'a' + d - 10

digit_in-char_of : (base d : ℕ) → d < base → base ≤ 16 → digit_in base (char_of d) ≡ some d
unfolding running char_of
digit_in-char_of base d h b = ground arith

-- The digits of a number below 1000 in base 10, and below 65536 in base 16.
abbrev decimal : ℕ → Bytes
decimal n =
    if ltb n 10
    then char_of n ∷ []
    else if ltb n 100
    then char_of (n / 10) ∷ char_of (n % 10) ∷ []
    else char_of (n / 100) ∷ char_of (n / 10 % 10) ∷ char_of (n % 10) ∷ []

abbrev hexadecimal : ℕ → Bytes
hexadecimal n =
    if ltb n 16
    then char_of n ∷ []
    else if ltb n 256
    then char_of (n / 16) ∷ char_of (n % 16) ∷ []
    else if ltb n 4096
    then char_of (n / 256) ∷ char_of (n / 16 % 16) ∷ char_of (n % 16) ∷ []
    else char_of (n / 4096) ∷ char_of (n / 256 % 16) ∷ char_of (n / 16 % 16) ∷ char_of (n % 16) ∷ []

-- The value of a list of digits.
abbrev value_of : ℕ → ℕ → List ℕ → ℕ
value_of base acc [] = acc
value_of base acc (d ∷ ds) = value_of base (acc * base + d) ds

abbrev Below : ℕ → List ℕ → Type 0
Below base [] = Unit
Below base (d ∷ ds) = (d < base) × Below base ds

abbrev chars : List ℕ → Bytes
chars [] = []
chars (d ∷ ds) = char_of d ∷ chars ds

Digits-chars :
    (base acc : ℕ) (ds : List ℕ)
    → base ≤ 16
    → Below base ds
    → Digits base acc (chars ds) (value_of base acc ds)
Digits-chars base acc [] b h = stop
Digits-chars base acc (d ∷ ds) b h =
    more (digit_in-char_of base d h.0 b) (Digits-chars base (acc * base + d) ds b h.1)

IsNumeral-chars :
    (base n d : ℕ) (ds : List ℕ)
    → base ≤ 16
    → Below base (d ∷ ds)
    → value_of base 0 (d ∷ ds) ≡ n
    → IsNumeral base (chars (d ∷ ds)) n
IsNumeral-chars base n d ds b h e = record {
  ne_nil = λ q. cc;
  digits = rw e at (Digits-chars base 0 (d ∷ ds) b h);
}

decimal_is : (n : ℕ) → n < 256 → IsNumeral 10 (decimal n) n
decimal_is n h = elim (Bool-cases (ltb n 10)) [
  | inl p ↦ rw p (IsNumeral-chars 10 n n [] (omega arith) (ground arith, tt) (omega arith))
  | inr p ↦ rw p (elim (Bool-cases (ltb n 100)) [
    | inl q ↦ rw q (
        IsNumeral-chars 10 n (n / 10) (n % 10 ∷ []) (omega arith) (ground arith, (omega arith, tt))
          (omega arith))
    | inr q ↦ rw q (
        IsNumeral-chars 10 n (n / 100) (n / 10 % 10 ∷ n % 10 ∷ []) (omega arith)
          (omega arith, (omega arith, (omega arith, tt))) (omega arith))
  ])
]

IsGroup-chars :
    (n d : ℕ) (ds : List ℕ)
    → Below 16 (d ∷ ds)
    → value_of 16 0 (d ∷ ds) ≡ n
    → length (chars (d ∷ ds)) ≤ 4
    → IsGroup (chars (d ∷ ds)) n
IsGroup-chars n d ds h e s = record {
  numeral = IsNumeral-chars 16 n d ds (omega arith) h e;
  short = s;
}

hexadecimal_is : (n : ℕ) → n < 65536 → IsGroup (hexadecimal n) n
hexadecimal_is n h = elim (Bool-cases (ltb n 16)) [
  | inl p ↦ rw p (IsGroup-chars n n [] (ground arith, tt) (omega arith) (omega arith))
  | inr p ↦ rw p (elim (Bool-cases (ltb n 256)) [
    | inl q ↦ rw q (
        IsGroup-chars n (n / 16) (n % 16 ∷ []) (ground arith, (omega arith, tt)) (omega arith)
          (omega arith))
    | inr q ↦ rw q (elim (Bool-cases (ltb n 4096)) [
      | inl r ↦ rw r (
          IsGroup-chars n (n / 256) (n / 16 % 16 ∷ n % 16 ∷ [])
            (ground arith, (omega arith, (omega arith, tt))) (omega arith) (omega arith))
      | inr r ↦ rw r (
          IsGroup-chars n (n / 4096) (n / 256 % 16 ∷ n / 16 % 16 ∷ n % 16 ∷ [])
            (omega arith, (omega arith, (omega arith, (omega arith, tt)))) (omega arith)
            (omega arith))
    ])
  ])
]

abbrev printer : Numerals
printer = record { decimal = decimal; hexadecimal = hexadecimal }

printer-Prints : Prints printer
printer-Prints = record { decimal_is = decimal_is; hexadecimal_is = hexadecimal_is }

abbrev loopback : SockaddrIn
loopback = record { sin_family = ipv4; sin_port = 0x3930; s_addr = 0x0100007f }

loopback_text : host_text printer (in4 loopback) ≡ codes "127.0.0.1"
unfolding running char_of
loopback_text = refl

from-host_text4_example : from (host_text printer (in4 loopback)) 12345 ≡ value (in4 loopback)
from-host_text4_example =
    from-host_text4 printer printer-Prints loopback 12345 refl (omega arith) refl

abbrev documentation : SockaddrIn6
documentation = record {
  sin6_family = ipv6;
  sin6_port = 0x5000;
  s6_addr16 = 0x0120 ∷ 0xb80d ∷ 0 ∷ 0 ∷ 0 ∷ 0 ∷ 0 ∷ 0x0100 ∷ [];
}

documentation_text : host_text printer (in6 documentation) ≡ codes "2001:db8:0:0:0:0:0:1"
unfolding running char_of
documentation_text = refl

from-host_text6_example :
    from (host_text printer (in6 documentation)) 80 ≡ value (in6 documentation)
from-host_text6_example =
    from-host_text6 printer printer-Prints documentation 80 refl refl (omega arith) refl

parse_ipv6_iff_example : (parse_ipv6 (codes ":1") ≡ some (0 ∷ 0 ∷ 0 ∷ 0 ∷ 0 ∷ 0 ∷ 0 ∷ 256 ∷ [])) ↔ (
    (groups : List ℕ) × (Names (codes ":1") groups
      × ((0 ∷ 0 ∷ 0 ∷ 0 ∷ 0 ∷ 0 ∷ 0 ∷ 256 ∷ []) ≡ map swap16 groups)))
parse_ipv6_iff_example = parse_ipv6_iff (codes ":1") (0 ∷ 0 ∷ 0 ∷ 0 ∷ 0 ∷ 0 ∷ 0 ∷ 256 ∷ [])
