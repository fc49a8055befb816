-- ===== src/Log/Worker/Buffers.antt =====
-- The map `buffers` of `drain_`: its texts, and the order of its keys.
use bc.Prelude.{
  ℕ, ◌<◌, ◌≡◌, true, false, ◌==◌, ltb, if◌then◌else◌, [], ◌∷◌, refl, ◌++◌, Bytes, arith, Bool-cases,
  inl, inr,
}
use bc.Log.Worker.{Buffers, contains, add_to, emplace}

-- The text of a logger.
abbrev pub text_at : ℕ → Buffers → Bytes
text_at l [] = []
text_at l ((k, t) ∷ bs) = if k == l then t else text_at l bs

text_at-add_to :
    (j l : ℕ) (s : Bytes) (bs : Buffers)
    → contains l bs ≡ true
    → text_at j (add_to l s bs) ≡ (if l == j then text_at j bs ++ s else text_at j bs)
unfolding add_to contains
text_at-add_to j l s [] h = cc
text_at-add_to j l s ((k, t) ∷ bs) h = ground (arith, text_at-add_to j l s bs)

text_at-new : (l : ℕ) (bs : Buffers) → contains l bs ≡ false → text_at l bs ≡ []
unfolding contains
text_at-new l [] h = refl
text_at-new l ((k, t) ∷ bs) h = ground (arith, text_at-new l bs)

text_at-emplace :
    (j l : ℕ) (s : Bytes) (bs : Buffers)
    → contains l bs ≡ false
    → text_at j (emplace l s bs) ≡ (if l == j then text_at j bs ++ s else text_at j bs)
unfolding emplace contains
text_at-emplace j l s [] h = ground arith
text_at-emplace j l s ((k, t) ∷ bs) h = ground (arith, text_at-emplace j l s bs, text_at-new l bs)

-- The keys rise, as those of a `std::map` do.
abbrev pub IsAbove : ℕ → Buffers → Type 0
IsAbove n [] = Unit
IsAbove n ((k, t) ∷ bs) = (n < k) × IsAbove n bs

abbrev pub IsAscending : Buffers → Type 0
IsAscending [] = Unit
IsAscending ((k, t) ∷ bs) = IsAbove k bs × IsAscending bs

add_to-IsAbove : (n l : ℕ) (s : Bytes) (bs : Buffers) → IsAbove n bs → IsAbove n (add_to l s bs)
unfolding add_to
add_to-IsAbove n l s [] h = tt
add_to-IsAbove n l s ((k, t) ∷ bs) h = ground (arith, add_to-IsAbove n l s bs)

add_to-IsAscending :
    (l : ℕ) (s : Bytes) (bs : Buffers) → IsAscending bs → IsAscending (add_to l s bs)
unfolding add_to
add_to-IsAscending l s [] h = tt
add_to-IsAscending l s ((k, t) ∷ bs) h = elim (Bool-cases (k == l)) [
  | inl e ↦ rw e h
  | inr e ↦ rw e (add_to-IsAbove k l s bs h.0, add_to-IsAscending l s bs h.1)
]

IsAbove-lt : (m n : ℕ) (bs : Buffers) → m < n → IsAbove n bs → IsAbove m bs
IsAbove-lt m n [] h a = tt
IsAbove-lt m n ((k, t) ∷ bs) h a = (omega arith, IsAbove-lt m n bs h a.1)

emplace-IsAbove :
    (n l : ℕ) (s : Bytes) (bs : Buffers) → n < l → IsAbove n bs → IsAbove n (emplace l s bs)
unfolding emplace
emplace-IsAbove n l s [] h a = (h, tt)
emplace-IsAbove n l s ((k, t) ∷ bs) h a = elim (Bool-cases (ltb l k)) [
  | inl e ↦ rw e (h, a)
  | inr e ↦ rw e (a.0, emplace-IsAbove n l s bs h a.1)
]

emplace-IsAscending :
    (l : ℕ) (s : Bytes) (bs : Buffers)
    → contains l bs ≡ false
    → IsAscending bs
    → IsAscending (emplace l s bs)
unfolding emplace contains
emplace-IsAscending l s [] n a = (tt, tt)
emplace-IsAscending l s ((k, t) ∷ bs) n a = elim (Bool-cases (ltb l k)) [
  | inl e ↦ let less : l < k = ground arith in rw e ((less, IsAbove-lt l k bs less a.0), a)
  | inr e ↦
      rw e
        (emplace-IsAbove k l s bs (ground arith) a.0, emplace-IsAscending l s bs (ground arith) a.1)
]

-- The state of `buffers` behind one more record.
abbrev pub add_line : ℕ → Bytes → Buffers → Buffers
add_line l s bs = if contains l bs then add_to l s bs else emplace l s bs

pub add_line-text_at :
    (j l : ℕ) (s : Bytes) (bs : Buffers)
    → text_at j (add_line l s bs) ≡ (if l == j then text_at j bs ++ s else text_at j bs)
add_line-text_at j l s bs = elim (Bool-cases (contains l bs)) [
  | inl e ↦ rw e (text_at-add_to j l s bs e)
  | inr e ↦ rw e (text_at-emplace j l s bs e)
]

pub add_line-IsAscending :
    (l : ℕ) (s : Bytes) (bs : Buffers) → IsAscending bs → IsAscending (add_line l s bs)
add_line-IsAscending l s bs h = elim (Bool-cases (contains l bs)) [
  | inl e ↦ rw e (add_to-IsAscending l s bs h)
  | inr e ↦ rw e (emplace-IsAscending l s bs e h)
]
