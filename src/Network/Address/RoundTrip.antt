-- ===== src/Network/Address/RoundTrip.antt =====
-- `address::from` reads back what `expr` prints for the host.
use mathlib.Core.List.{map, append-nil}
use bc.Prelude.{
  ℕ, suc, ◌-◌, ◌^◌, ◌<◌, ◌≡◌, List, [], ◌∷◌, ◌++◌, none, some, Bytes, refl, ap, ◌∙◌, arith, All,
  replicate, length,
}
use bc.Utils.Expected.{value}
use bc.Network.Chars.{join}
use bc.Network.Chars.Digits.{IsNumeral}
use bc.Network.Address.{
  ipv4, ipv6, swap16, swap32, SockaddrIn, SockaddrIn6, in4, in6, Numerals, byte_of, host_text, from,
  from_ipv6, parse_ipv4, parse_ipv6, is_ipv4_char,
}
use bc.Network.Address.Ipv4.{Dotted, parse_ipv4_iff, all_of-append}
use bc.Network.Address.Ipv6.{IsGroup, Spells, parse_ipv6_groups}

-- What fmt documents of `{}` and `{:x}`.
pub record Prints (fmt : Numerals) : Type 0 where
  pub decimal_is : (n : ℕ) → n < 256 → IsNumeral 10 (fmt.decimal n) n
  pub hexadecimal_is : (n : ℕ) → n < 65536 → IsGroup (fmt.hexadecimal n) n

swap16-swap16 : (n : ℕ) → n < 65536 → swap16 (swap16 n) ≡ n
swap16-swap16 n h = omega arith

swap32-swap32 : (n : ℕ) → n < 4294967296 → swap32 (swap32 n) ≡ n
swap32-swap32 n h = omega arith

module _ (fmt : Numerals) (prints : Prints fmt) where
  open prints use {decimal_is, hexadecimal_is}

  host_text-Dotted : (a : SockaddrIn) → Dotted (host_text fmt (in4 a)) (swap32 a.s_addr)
  unfolding host_text
  host_text-Dotted a = record {
    s₁ = fmt.decimal (byte_of a.s_addr 0);
    s₂ = fmt.decimal (byte_of a.s_addr 1);
    s₃ = fmt.decimal (byte_of a.s_addr 2);
    s₄ = fmt.decimal (byte_of a.s_addr 3);
    v₁ = byte_of a.s_addr 0;
    v₂ = byte_of a.s_addr 1;
    v₃ = byte_of a.s_addr 2;
    v₄ = byte_of a.s_addr 3;
    n₁ = (decimal_is (byte_of a.s_addr 0) (omega arith), omega arith);
    n₂ = (decimal_is (byte_of a.s_addr 1) (omega arith), omega arith);
    n₃ = (decimal_is (byte_of a.s_addr 2) (omega arith), omega arith);
    n₄ = (decimal_is (byte_of a.s_addr 3) (omega arith), omega arith);
    text_is = refl;
    value_is = omega arith;
  }

  -- The printed host of an IPv4 address, of 32 bits, is read with its port as that address.
  pub from-host_text4 :
      (a : SockaddrIn) (port : ℕ)
      → a.sin_family ≡ ipv4
      → a.s_addr < 2 ^ 32
      → a.sin_port ≡ swap16 port
      → from (host_text fmt (in4 a)) port ≡ value (in4 a)
  unfolding from
  from-host_text4 a port f h p =
      rw ((parse_ipv4_iff (host_text fmt (in4 a)) (swap32 a.s_addr)).1 (host_text-Dotted a), from)
        (rw (swap32-swap32 a.s_addr h, ← p, ← f))

  abbrev hexadecimals : List ℕ → List Bytes
  hexadecimals = map (λ n. fmt.hexadecimal (swap16 n))

  hexadecimals-Spells :
      (gs : List ℕ) → All (λ g. g < 65536) gs → Spells (hexadecimals gs) (map swap16 gs)
  hexadecimals-Spells [] h = tt
  hexadecimals-Spells (g ∷ gs) h =
      (hexadecimal_is (swap16 g) (omega arith), hexadecimals-Spells gs h.1)

  -- A name with a colon is no IPv4 address.
  parse_ipv4-colon :
      (s : Bytes) (ss : List Bytes) (t : Bytes) → parse_ipv4 (join b':' (s ∷ t ∷ ss)) ≡ none
  unfolding parse_ipv4
  parse_ipv4-colon s ss t =
      let cut = all_of-append is_ipv4_char s (b':' ∷ join b':' (t ∷ ss)) in ground (arith, cut)

  swapped_back : (gs : List ℕ) → All (λ g. g < 65536) gs → map swap16 (map swap16 gs) ≡ gs
  swapped_back [] h = refl
  swapped_back (g ∷ gs) h = rw (swap16-swap16 g h.0, swapped_back gs h.1)

  length-map : (gs : List ℕ) → length (map swap16 gs) ≡ length gs
  length-map [] = refl
  length-map (g ∷ gs) = ap suc (length-map gs)

  spelled-parse_ipv6 :
      (g h : ℕ) (gs : List ℕ)
      → length (g ∷ h ∷ gs) ≡ 8
      → All (λ g. g < 65536) (g ∷ h ∷ gs)
      → parse_ipv6 (join b':' (hexadecimals (g ∷ h ∷ gs))) ≡ some (g ∷ h ∷ gs)
  spelled-parse_ipv6 g h gs len small =
      let all = map swap16 (g ∷ h ∷ gs) in
      let eight : length all ≡ 8 = length-map (g ∷ h ∷ gs) ∙ len in
      let filled : all ++ replicate (8 - length all) 0 ≡ all = rw eight (append-nil all) in
      parse_ipv6_groups _ (hexadecimals (h ∷ gs)) all (hexadecimals-Spells (g ∷ h ∷ gs) small)
        (omega arith)
      ∙ ap (λ (l : List ℕ). some (map swap16 l)) filled
      ∙ ap some (swapped_back (g ∷ h ∷ gs) small)

  spelled-from :
      (gs : List ℕ) (port : ℕ)
      → length gs ≡ 8
      → All (λ g. g < 65536) gs
      → from (join b':' (hexadecimals gs)) port
        ≡ value (in6 (record { sin6_family = ipv6; sin6_port = swap16 port; s6_addr16 = gs }))
  unfolding from from_ipv6
  spelled-from [] port len small = absurd (omega arith)
  spelled-from (g ∷ []) port len small = absurd (omega arith)
  spelled-from (g ∷ h ∷ gs) port len small =
      rw (parse_ipv4-colon _ _ _, from) (rw (spelled-parse_ipv6 g h gs len small, from_ipv6))

  -- The printed host of an IPv6 address is read as that address.
  pub from-host_text6 :
      (a : SockaddrIn6) (port : ℕ)
      → a.sin6_family ≡ ipv6
      → length a.s6_addr16 ≡ 8
      → All (λ g. g < 65536) a.s6_addr16
      → a.sin6_port ≡ swap16 port
      → from (host_text fmt (in6 a)) port ≡ value (in6 a)
  unfolding host_text
  from-host_text6 a port f len small p = spelled-from a.s6_addr16 port len small ∙ rw (← f, ← p)
