-- ===== src/Base/Int.antt =====
-- Go's signed integers, and their conversion to unsigned words.
use Prim.Native.Nat.{ℕ, ◌-◌, ◌%◌, ◌<◌}
use mathlib.Core.Bool.{Bool, true, false}
use native.Mathlib.Omega.{arith}
use coalago.Base.Tests.{leb, ◌==◌, if◌then◌else◌}

-- `negsuc n` is -(n + 1).
pub data ℤ : Type 0 where
  pos : ℕ → ℤ
  negsuc : ℕ → ℤ

-- a - b, as an integer.
abbrev pub sub_ℕ : ℕ → ℕ → ℤ
sub_ℕ a b = if leb b a then pos (a - b) else negsuc (b - a - 1)

-- The conversion to an unsigned word of modulus `m`, by two's complement.
abbrev pub to_word : ℕ → ℤ → ℕ
to_word m (pos n) = n % m
to_word m (negsuc n) = m - 1 - n % m

-- n ≤ a, for an integer `a`.
abbrev pub is_at_most : ℤ → ℕ → Bool
is_at_most (pos a) n = leb a n
is_at_most (negsuc a) n = true

-- a == b
abbrev pub int_eq : ℤ → ℤ → Bool
int_eq (pos a) (pos b) = a == b
int_eq (negsuc a) (negsuc b) = a == b
int_eq (pos a) (negsuc b) = false
int_eq (negsuc a) (pos b) = false

pub to_word-lt_2_32 : (a : ℤ) → to_word 0x1_0000_0000 a < 0x1_0000_0000
to_word-lt_2_32 (pos n) = omega arith
to_word-lt_2_32 (negsuc n) = omega arith
