-- ===== src/Common/Int.antt =====
-- Signed integers, for the `i64` values that a request may make negative.
use Prim.Native.Nat.{ℕ, ◌-◌}
use mathlib.Core.Bool.{Bool, false, true}
use my_s.Common.Tests.{leb, nat_beq, if◌then◌else◌}

-- `negsuc n` is -(n + 1).
pub data ℤ : Type 0 where
  pos : ℕ → ℤ
  negsuc : ℕ → ℤ

-- a - b, as an integer.
abbrev pub sub_ℕ : ℕ → ℕ → ℤ
sub_ℕ a b = if leb b a then pos (a - b) else negsuc (b - a - 1)

-- `v <= 0`
abbrev pub non_positive : ℤ → Bool
non_positive (pos n) = nat_beq n 0
non_positive (negsuc n) = true

-- `v.max(0)`, as a natural number
abbrev pub to_nat : ℤ → ℕ
to_nat (pos n) = n
to_nat (negsuc n) = 0

abbrev pub beq_ℤ : ℤ → ℤ → Bool
beq_ℤ (pos m) (pos n) = nat_beq m n
beq_ℤ (negsuc m) (negsuc n) = nat_beq m n
beq_ℤ _ _ = false

abbrev pub leb_ℤ : ℤ → ℤ → Bool
leb_ℤ (pos m) (pos n) = leb m n
leb_ℤ (pos m) (negsuc n) = false
leb_ℤ (negsuc m) (pos n) = true
leb_ℤ (negsuc m) (negsuc n) = leb n m
