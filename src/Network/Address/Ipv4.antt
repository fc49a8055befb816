-- ===== src/Network/Address/Ipv4.antt =====
-- `parse_ipv4` decides the dotted notation.
use bc.Prelude.{
  ℕ, ◌+◌, ◌-◌, ◌*◌, ◌<◌, ◌≡◌, ◌≢◌, ◌↔◌, ◌^◌, Bool, true, false, ◌&&◌, ◌==◌, List, [], ◌∷◌, ◌++◌,
  some, Bytes, refl, sym, ap, ◌∙◌, arith, Bool-cases, Option-cases, inl, inr, all_of, All,
}
use bc.Network.Chars.{digit_in, from_chars, split, join, Lacks}
use bc.Network.Chars.Split.{split-join, join-split, split-Lacks}
use bc.Network.Chars.Digits.{
  Digits, stop, more, IsNumeral, AreDigits, from_chars-IsNumeral, from_chars-eq-some,
}
use bc.Network.Address.{is_ipv4_char, read_parts, parse_ipv4}

-- `h` is the dotted notation of `addr`: four numerals below 256, the first for the highest byte.
pub record Dotted (h : Bytes) (addr : ℕ) : Type 0 where
  pub s₁ : Bytes
  pub s₂ : Bytes
  pub s₃ : Bytes
  pub s₄ : Bytes
  pub v₁ : ℕ
  pub v₂ : ℕ
  pub v₃ : ℕ
  pub v₄ : ℕ
  pub n₁ : IsNumeral 10 s₁ v₁ × (v₁ < 256)
  pub n₂ : IsNumeral 10 s₂ v₂ × (v₂ < 256)
  pub n₃ : IsNumeral 10 s₃ v₃ × (v₃ < 256)
  pub n₄ : IsNumeral 10 s₄ v₄ × (v₄ < 256)
  pub text_is : h ≡ join b'.' (s₁ ∷ s₂ ∷ s₃ ∷ s₄ ∷ [])
  pub value_is : addr ≡ v₁ * 16777216 + v₂ * 65536 + v₃ * 256 + v₄

-- A decimal digit is a character of a name and no dot, and the other way round.
digit-is_ipv4_char :
    (c d : ℕ) → digit_in 10 c ≡ some d → (is_ipv4_char c ≡ true) × ((c == b'.') ≡ false)
unfolding digit_in
digit-is_ipv4_char c d e = ground arith

is_ipv4_char-digit :
    (c : ℕ) → is_ipv4_char c ≡ true → (c == b'.') ≡ false → digit_in 10 c ≡ some (c - b'0')
unfolding digit_in
is_ipv4_char-digit c h e = ground arith

Digits-chars :
    {acc v : ℕ} {s : Bytes} → Digits 10 acc s v → (all_of is_ipv4_char s ≡ true) × Lacks b'.' s
Digits-chars stop = (refl, tt)
Digits-chars (more {c = c} {d = d} e r) =
    let (p, q) = digit-is_ipv4_char c d e in let (ps, qs) = Digits-chars r in (rw (p, ps), (q, qs))

AreDigits-chars : (s : Bytes) → all_of is_ipv4_char s ≡ true → Lacks b'.' s → AreDigits 10 s
AreDigits-chars [] h l = tt
AreDigits-chars (c ∷ s) h l =
    ((c - b'0', is_ipv4_char-digit c (ground arith) l.0), AreDigits-chars s (ground arith) l.1)

pub all_of-append :
    (p : ℕ → Bool) (xs ys : Bytes) → all_of p (xs ++ ys) ≡ (all_of p xs && all_of p ys)
all_of-append p [] ys = refl
all_of-append p (x ∷ xs) ys = ground (arith, all_of-append p xs ys)

read_parts-cons :
    (i addr : ℕ) (s : Bytes) (ss : List Bytes) {v : ℕ}
    → (i == 4) ≡ false
    → from_chars 10 256 s ≡ some v
    → read_parts i addr (s ∷ ss) ≡ read_parts (i + 1) (addr + v * 256 ^ (3 - i)) ss
unfolding read_parts
read_parts-cons i addr s ss n e = rw n (rw (e, read_parts))

read_parts-inv :
    (i addr a : ℕ) (s : Bytes) (ss : List Bytes)
    → (i == 4) ≡ false
    → read_parts i addr (s ∷ ss) ≡ some a
    → (v : ℕ) × (from_chars 10 256 s ≡ some v)
      × (read_parts (i + 1) (addr + v * 256 ^ (3 - i)) ss ≡ some a)
unfolding read_parts
read_parts-inv i addr a s ss n h = elim (Option-cases (from_chars 10 256 s)) [
  | inl e ↦ absurd (ground arith)
  | inr (v, e) ↦ (v, e, sym (unfold read_parts in (read_parts-cons i addr s ss n e)) ∙ h)
]

numeral-fits : {s : Bytes} {v : ℕ} → IsNumeral 10 s v × (v < 256) → from_chars 10 256 s ≡ some v
numeral-fits {s} {v} (n, h) = from_chars-IsNumeral 10 256 n ∙ ground arith

numeral-chars :
    {s : Bytes} {v : ℕ} → IsNumeral 10 s v → (all_of is_ipv4_char s ≡ true) × Lacks b'.' s
numeral-chars n = Digits-chars n.digits

join-dot :
    (s : Bytes) (ss : List Bytes)
    → all_of is_ipv4_char s ≡ true
    → all_of is_ipv4_char (join b'.' ss) ≡ true
    → all_of is_ipv4_char (join b'.' (s ∷ ss)) ≡ true
join-dot s [] p q = p
join-dot s (t ∷ ss) p q = rw (all_of-append is_ipv4_char s (b'.' ∷ join b'.' (t ∷ ss)), p) q

append-ne-nil : (s t : Bytes) → s ≢ [] → s ++ t ≢ []
append-ne-nil [] t n e = n refl
append-ne-nil (c ∷ s) t n e = cc

Dotted-parse_ipv4 : {h : Bytes} {addr : ℕ} → Dotted h addr → parse_ipv4 h ≡ some addr
unfolding parse_ipv4
Dotted-parse_ipv4 {h} {addr} d =
    rw (d.text_is, chars, cut) (read ∙ ap some (omega (arith, d.value_is)))
  where
    open d use {s₁, s₂, s₃, s₄, v₁, v₂, v₃, v₄}

    segments : List Bytes
    segments = s₁ ∷ s₂ ∷ s₃ ∷ s₄ ∷ []

    chars : all_of is_ipv4_char (join b'.' segments) ≡ true
    chars = join-dot s₁ (s₂ ∷ s₃ ∷ s₄ ∷ []) (numeral-chars (d.n₁).0).0 (
        join-dot s₂ (s₃ ∷ s₄ ∷ []) (numeral-chars (d.n₂).0).0
          (join-dot s₃ (s₄ ∷ []) (numeral-chars (d.n₃).0).0 (numeral-chars (d.n₄).0).0))

    cut : split b'.' (join b'.' segments) ≡ segments
    cut =
        split-join b'.' s₁ (s₂ ∷ s₃ ∷ s₄ ∷ [])
          (
            (numeral-chars (d.n₁).0).1,
            (
              (numeral-chars (d.n₂).0).1,
              ((numeral-chars (d.n₃).0).1, ((numeral-chars (d.n₄).0).1, tt)),
            ),
          )
          (append-ne-nil s₁ (b'.' ∷ join b'.' (s₂ ∷ s₃ ∷ s₄ ∷ [])) ((d.n₁).0).ne_nil)

    read : read_parts 0 0 segments ≡ some (0 + v₁ * 16777216 + v₂ * 65536 + v₃ * 256 + v₄ * 1)
    read =
        read_parts-cons 0 0 s₁ (s₂ ∷ s₃ ∷ s₄ ∷ []) refl (numeral-fits d.n₁)
        ∙ read_parts-cons 1 (0 + v₁ * 16777216) s₂ (s₃ ∷ s₄ ∷ []) refl (numeral-fits d.n₂)
        ∙ read_parts-cons 2 (0 + v₁ * 16777216 + v₂ * 65536) s₃ (s₄ ∷ []) refl (numeral-fits d.n₃)
        ∙ read_parts-cons 3 (0 + v₁ * 16777216 + v₂ * 65536 + v₃ * 256) s₄ [] refl
            (numeral-fits d.n₄)
        ∙ unfold read_parts in refl

-- The segments of a name of such characters are numerals, where they are read.
join-chars :
    (s : Bytes) (ss : List Bytes)
    → all_of is_ipv4_char (join b'.' (s ∷ ss)) ≡ true
    → (all_of is_ipv4_char s ≡ true) × (all_of is_ipv4_char (join b'.' ss) ≡ true)
join-chars s [] h = (h, refl)
join-chars s (t ∷ ss) h =
    let both = sym (all_of-append is_ipv4_char s (b'.' ∷ join b'.' (t ∷ ss))) ∙ h in ground arith

segment-IsNumeral :
    (s : Bytes) (v : ℕ)
    → all_of is_ipv4_char s ≡ true
    → Lacks b'.' s
    → from_chars 10 256 s ≡ some v
    → IsNumeral 10 s v × (v < 256)
segment-IsNumeral s v h l e = from_chars-eq-some 10 256 s v (AreDigits-chars s h l) e

-- The segments that the loop reads from the start, with what they were read as.
data Four (a : ℕ) : List Bytes → Type 0 where
  four :
      (s₁ s₂ s₃ s₄ : Bytes) (v₁ v₂ v₃ v₄ : ℕ)
      → from_chars 10 256 s₁ ≡ some v₁
      → from_chars 10 256 s₂ ≡ some v₂
      → from_chars 10 256 s₃ ≡ some v₃
      → from_chars 10 256 s₄ ≡ some v₄
      → a ≡ v₁ * 16777216 + v₂ * 65536 + v₃ * 256 + v₄
      → Four a (s₁ ∷ s₂ ∷ s₃ ∷ s₄ ∷ [])

read_parts-nil : (i addr a : ℕ) → (i == 4) ≡ false → read_parts i addr [] ≢ some a
unfolding read_parts
read_parts-nil i addr a n e = ground arith

read_parts-past : (addr a : ℕ) (s : Bytes) (ss : List Bytes) → read_parts 4 addr (s ∷ ss) ≢ some a
unfolding read_parts
read_parts-past addr a s ss e = cc

read_parts-Four : (a : ℕ) (ss : List Bytes) → read_parts 0 0 ss ≡ some a → Four a ss
read_parts-Four a [] h = absurd (read_parts-nil 0 0 a refl h)
read_parts-Four a (s₁ ∷ []) h =
    let (v₁, _, h₁) = read_parts-inv 0 0 a s₁ [] refl h in absurd (read_parts-nil 1 _ a refl h₁)
read_parts-Four a (s₁ ∷ s₂ ∷ []) h =
    let (v₁, _, h₁) = read_parts-inv 0 0 a s₁ (s₂ ∷ []) refl h in
    let (v₂, _, h₂) = read_parts-inv 1 _ a s₂ [] refl h₁ in absurd (read_parts-nil 2 _ a refl h₂)
read_parts-Four a (s₁ ∷ s₂ ∷ s₃ ∷ []) h =
    let (v₁, _, h₁) = read_parts-inv 0 0 a s₁ (s₂ ∷ s₃ ∷ []) refl h in
    let (v₂, _, h₂) = read_parts-inv 1 _ a s₂ (s₃ ∷ []) refl h₁ in
    let (v₃, _, h₃) = read_parts-inv 2 _ a s₃ [] refl h₂ in absurd (read_parts-nil 3 _ a refl h₃)
read_parts-Four a (s₁ ∷ s₂ ∷ s₃ ∷ s₄ ∷ ss) h =
    let (v₁, e₁, h₁) = read_parts-inv 0 0 a s₁ (s₂ ∷ s₃ ∷ s₄ ∷ ss) refl h in
    let (v₂, e₂, h₂) = read_parts-inv 1 _ a s₂ (s₃ ∷ s₄ ∷ ss) refl h₁ in
    let (v₃, e₃, h₃) = read_parts-inv 2 _ a s₃ (s₄ ∷ ss) refl h₂ in
    let (v₄, e₄, h₄) = read_parts-inv 3 _ a s₄ ss refl h₃ in
    last s₁ s₂ s₃ s₄ v₁ v₂ v₃ v₄ ss e₁ e₂ e₃ e₄ h₄
  where
    last :
        (s₁ s₂ s₃ s₄ : Bytes) (v₁ v₂ v₃ v₄ : ℕ) (ss : List Bytes)
        → from_chars 10 256 s₁ ≡ some v₁
        → from_chars 10 256 s₂ ≡ some v₂
        → from_chars 10 256 s₃ ≡ some v₃
        → from_chars 10 256 s₄ ≡ some v₄
        → read_parts 4 (0 + v₁ * 16777216 + v₂ * 65536 + v₃ * 256 + v₄ * 1) ss ≡ some a
        → Four a (s₁ ∷ s₂ ∷ s₃ ∷ s₄ ∷ ss)
    last s₁ s₂ s₃ s₄ v₁ v₂ v₃ v₄ [] e₁ e₂ e₃ e₄ g =
        four s₁ s₂ s₃ s₄ v₁ v₂ v₃ v₄ e₁ e₂ e₃ e₄ (unfold read_parts in (ground arith))
    last s₁ s₂ s₃ s₄ v₁ v₂ v₃ v₄ (s₅ ∷ ss) e₁ e₂ e₃ e₄ g = absurd (read_parts-past _ a s₅ ss g)

Four-Dotted :
    {a : ℕ} {ss : List Bytes}
    → Four a ss
    → all_of is_ipv4_char (join b'.' ss) ≡ true
    → All (Lacks b'.') ss
    → Dotted (join b'.' ss) a
Four-Dotted (four s₁ s₂ s₃ s₄ v₁ v₂ v₃ v₄ e₁ e₂ e₃ e₄ q) h l =
    let (c₁, h₁) = join-chars s₁ (s₂ ∷ s₃ ∷ s₄ ∷ []) h in
    let (c₂, h₂) = join-chars s₂ (s₃ ∷ s₄ ∷ []) h₁ in
    let (c₃, c₄) = join-chars s₃ (s₄ ∷ []) h₂ in
    record {
      s₁ = s₁;
      s₂ = s₂;
      s₃ = s₃;
      s₄ = s₄;
      v₁ = v₁;
      v₂ = v₂;
      v₃ = v₃;
      v₄ = v₄;
      n₁ = segment-IsNumeral s₁ v₁ c₁ l.0 e₁;
      n₂ = segment-IsNumeral s₂ v₂ c₂ l.1.0 e₂;
      n₃ = segment-IsNumeral s₃ v₃ c₃ l.1.1.0 e₃;
      n₄ = segment-IsNumeral s₄ v₄ c₄ l.1.1.1.0 e₄;
      text_is = refl;
      value_is = q;
    }

parse_ipv4-Dotted : (h : Bytes) (a : ℕ) → parse_ipv4 h ≡ some a → Dotted h a
unfolding parse_ipv4
parse_ipv4-Dotted h a e = elim (Bool-cases (all_of is_ipv4_char h)) [
  | inr q ↦ absurd (ground arith)
  | inl q ↦
      let parts : read_parts 0 0 (split b'.' h) ≡ some a = ground arith in
      let whole = join-split b'.' h in
      rw whole at
        (Four-Dotted (read_parts-Four a (split b'.' h) parts) (rw whole q) (split-Lacks b'.' h))
]

-- A name is read as an address exactly if it is the address in the dotted notation.
pub parse_ipv4_iff : (h : Bytes) (a : ℕ) → (parse_ipv4 h ≡ some a) ↔ Dotted h a
parse_ipv4_iff h a = (parse_ipv4-Dotted h a, λ d. Dotted-parse_ipv4 d)
