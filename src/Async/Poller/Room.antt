-- ===== src/Async/Poller/Room.antt =====
-- Room for a descriptor in the poller's vectors.
use native.Mathlib.Nat.{one-le-pow}
use bc.Prelude.{
  lt→ltb, true, false, ℕ, ◌^◌, ◌<◌, ◌≤◌, ◌≡◌, ◌≢◌, ◌↔◌, ◌⊎◌, inl, inr, refl, ◌∙◌, arith, ltb,
  if◌then◌else◌, length, get_elem?, err, out_of_bounds, Bool-cases, none, List, [], ◌∷◌, zero, suc,
}
use bc.Async.BitCeil.{bit_ceil, bit_ceil-ge, bit_ceil-pow, bit_ceil-IsPow, length-resize}
use bc.Async.Poller.{Epoll, Event, Poller, adjust_size, subscribe}

pub length-adjust_size :
    (p : Poller) (index : ℕ)
    → length (adjust_size p index).focus_
      ≡ (if ltb index (length p.focus_) then length p.focus_ else bit_ceil index)
unfolding adjust_size
length-adjust_size p index =
    ground (arith, bit_ceil-ge index, length-resize p.focus_ (bit_ceil index) 0)

-- The resize makes room for the index exactly if there is room already or the index is no power
-- of two.
pub adjust_size_room_iff :
    (p : Poller) (index : ℕ)
    → (index < length (adjust_size p index).focus_)
      ↔ ((index < length p.focus_) ⊎ ((k : ℕ) → index ≢ 2 ^ k))
adjust_size_room_iff p index = (there, back)
  where
    there :
        index < length (adjust_size p index).focus_
        → (index < length p.focus_) ⊎ ((k : ℕ) → index ≢ 2 ^ k)
    there h = elim (Bool-cases (ltb index (length p.focus_))) [
      | inl e ↦ inl (ground arith)
      | inr e ↦ inr (λ k i.
          let own : bit_ceil index ≡ index = rw i (bit_ceil-pow k) in
          ground (arith, length-adjust_size p index))
    ]

    back :
        (index < length p.focus_) ⊎ ((k : ℕ) → index ≢ 2 ^ k)
        → index < length (adjust_size p index).focus_
    back (inl h) = ground (arith, length-adjust_size p index)
    back (inr h) =
        let (j, e) = bit_ceil-IsPow index in
        let ne : index ≢ bit_ceil index = λ i. h j (i ∙ e) in
        ground (arith, length-adjust_size p index, bit_ceil-ge index)

pub get_elem?-past : (xs : List ℕ) (i : ℕ) → length xs ≤ i → get_elem? xs i ≡ none
get_elem?-past [] i h = refl
get_elem?-past (x ∷ xs) zero h = absurd (omega arith)
get_elem?-past (x ∷ xs) (suc i) h = get_elem?-past xs i (omega arith)

-- A subscription of a descriptor that is a power of two, where `focus_` is not longer than it, indexes past the end of `focus_`.
subscribe_past_end :
    (epoll : Epoll) (p : Poller) (kernel : epoll.Kernel) (k : ℕ) (e : Event)
    → length p.focus_ ≤ 2 ^ k
    → subscribe epoll (2 ^ k) e p kernel ≡ err out_of_bounds
unfolding subscribe
subscribe_past_end epoll p kernel k e h =
    let positive : ltb 0 (2 ^ k) ≡ true = lt→ltb 0 (2 ^ k) (one-le-pow k 2 (omega arith)) in
    let shut : ltb (2 ^ k) (length p.focus_) ≡ false = ground arith in
    let size : length (adjust_size p (2 ^ k)).focus_ ≡ 2 ^ k =
      length-adjust_size p (2 ^ k) ∙ rw shut (bit_ceil-pow k) in
    let past : get_elem? (adjust_size p (2 ^ k)).focus_ (2 ^ k) ≡ none =
      get_elem?-past (adjust_size p (2 ^ k)).focus_ (2 ^ k) (omega arith) in
    rw (positive, past)
