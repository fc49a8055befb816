-- ===== src/Prelude/Int.antt =====
-- Signed integers over the native numbers, under the library's names, as far as durations need them.
use Prim.Native.Nat.{ℕ, suc, ◌-◌, ◌/◌}
use bc.Prelude.Tests.{leb, ltb, if◌then◌else◌}

-- `negsuc n` is -(n + 1).
pub data ℤ : Type 0 where
  pos : ℕ → ℤ
  negsuc : ℕ → ℤ

-- a - b, as an integer.
abbrev pub sub_ℕ : ℕ → ℕ → ℤ
sub_ℕ a b = if leb b a then pos (a - b) else negsuc (b - a - 1)

-- The quotient by `d`, rounded towards zero.
abbrev pub quot : ℤ → ℕ → ℤ
quot (pos n) d = pos (n / d)
quot (negsuc n) d = if ltb (suc n) d then pos 0 else negsuc (suc n / d - 1)
