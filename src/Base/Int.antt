-- ===== src/Base/Int.antt =====
-- Signed integers over the native numbers: what an `int`, `long` or `loff_t` of the source holds.
use Prim.Native.Nat.{ℕ, zero, suc, ◌+◌, ◌-◌, ◌%◌, ◌^◌}
use mathlib.Core.Bool.{Bool, true, false, not}
use dtboverlay.Base.Tests.{ltb, leb, ◌==◌, if◌then◌else◌}

-- `negsuc n` is -(n + 1).
pub data ℤ : Type 0 where
  pos : ℕ → ℤ
  negsuc : ℕ → ℤ

-- - n
abbrev pub neg : ℕ → ℤ
neg zero = pos 0
neg (suc n) = negsuc n

-- a < 0
abbrev pub is_negative : ℤ → Bool
is_negative (pos n) = false
is_negative (negsuc n) = true

-- The number of a value that is not negative.
abbrev pub magnitude : ℤ → ℕ
magnitude (pos n) = n
magnitude (negsuc n) = 0

-- - a
abbrev pub negate : ℤ → ℤ
negate (pos n) = neg n
negate (negsuc n) = pos (suc n)

-- a + 1 and a - 1
abbrev pub increment : ℤ → ℤ
increment (pos n) = pos (n + 1)
increment (negsuc n) = neg n

abbrev pub decrement : ℤ → ℤ
decrement (pos zero) = negsuc 0
decrement (pos (suc n)) = pos n
decrement (negsuc n) = negsuc (n + 1)

-- a + n
abbrev pub plus : ℤ → ℕ → ℤ
plus (pos a) n = pos (a + n)
plus (negsuc a) n = if ltb a n then pos (n - suc a) else negsuc (a - n)

-- a ≤ b
abbrev pub le_test : ℤ → ℤ → Bool
le_test (pos a) (pos b) = leb a b
le_test (pos a) (negsuc b) = false
le_test (negsuc a) (pos b) = true
le_test (negsuc a) (negsuc b) = leb b a

-- a < b
abbrev pub lt_test : ℤ → ℤ → Bool
lt_test a b = not (le_test b a)

-- a == b
abbrev pub eq_test : ℤ → ℤ → Bool
eq_test (pos a) (pos b) = a == b
eq_test (negsuc a) (negsuc b) = a == b
eq_test (pos a) (negsuc b) = false
eq_test (negsuc a) (pos b) = false

-- The conversions of C between `int` and `unsigned int`.
abbrev pub to_u32 : ℤ → ℕ
to_u32 (pos n) = n % 2 ^ 32
to_u32 (negsuc n) = 2 ^ 32 - 1 - n % 2 ^ 32

abbrev pub signed : ℕ → ℤ
signed m = if ltb m (2 ^ 31) then pos m else negsuc (2 ^ 32 - 1 - m)

abbrev pub to_int : ℕ → ℤ
to_int n = signed (n % 2 ^ 32)
