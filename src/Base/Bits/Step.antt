-- ===== src/Base/Bits/Step.antt =====
-- `bitwise` of the library goes through the binary digits of a number with that number as fuel. Any
-- fuel above it gives the same, so that the digits can be taken off one at a time.
use Prim.Native.Nat.{
  ℕ, zero, suc, ◌+◌, ◌-◌, ◌*◌, ◌/◌, ◌%◌, ◌≤◌, min, max, digits, bitwise, bit_or, bit_and,
  bit_or-bitwise, bit_and-bitwise,
}
use mathlib.Core.Path.{◌≡◌, refl, ap, ◌∙◌}
use native.Mathlib.Omega.{arith}

module _ (rest : ℕ → ℕ) (op : ℕ → ℕ → ℕ) where
  -- One more round of fuel is not used.
  spare_round : (fuel x y : ℕ) → x ≤ fuel → digits rest op (suc fuel) x y ≡ digits rest op fuel x y
  spare_round zero zero y h = refl
  spare_round (suc fuel) zero y h = refl
  spare_round zero (suc x) y h = absurd (omega arith)
  spare_round (suc fuel) (suc x) y h = rw (spare_round fuel (suc x / 2) (y / 2) (omega arith))

  spare_fuel :
      (extra fuel all x y : ℕ)
      → all ≡ extra + fuel
      → x ≤ fuel
      → digits rest op all x y ≡ digits rest op fuel x y
  spare_fuel zero fuel all x y e h =
      ap (λ (n : ℕ). digits rest op n x y) (let same : all ≡ fuel = omega arith in same)
  spare_fuel (suc extra) fuel zero x y e h = absurd (omega arith)
  spare_fuel (suc extra) fuel (suc all) x y e h =
      spare_round all x y (omega arith) ∙ spare_fuel extra fuel all x y (omega arith) h

  -- The lowest digit of a number that is not zero.
  lowest_digit :
      (x y : ℕ)
      → bitwise rest op (suc x) y ≡ bitwise rest op (suc x / 2) (y / 2) * 2 + op (suc x % 2) (y % 2)
  lowest_digit x y =
      let half = suc x / 2 in
      omega (arith, spare_fuel (x - half) half x half (y / 2) (omega arith) (omega arith))

pub or_digit : (x y : ℕ) → bit_or x y ≡ bit_or (x / 2) (y / 2) * 2 + max (x % 2) (y % 2)
or_digit zero y = simp bit_or-bitwise (omega arith)
or_digit (suc x) y = simp bit_or-bitwise (lowest_digit (λ d. d) max x y)

pub and_digit : (x y : ℕ) → bit_and x y ≡ bit_and (x / 2) (y / 2) * 2 + min (x % 2) (y % 2)
and_digit zero y = simp bit_and-bitwise (omega arith)
and_digit (suc x) y = simp bit_and-bitwise (lowest_digit (λ d. 0) min x y)

-- With 0 nothing is added and nothing is kept.
or_zero : (fuel x : ℕ) → x ≤ fuel → digits (λ d. d) max fuel x 0 ≡ x
or_zero fuel zero h = zero_left fuel
  where
    zero_left : (n : ℕ) → digits (λ d. d) max n 0 0 ≡ 0
    zero_left zero = refl
    zero_left (suc n) = refl
or_zero zero (suc x) h = absurd (omega arith)
or_zero (suc fuel) (suc x) h = omega (arith, or_zero fuel (suc x / 2) (omega arith))

and_zero : (fuel x : ℕ) → digits (λ d. 0) min fuel x 0 ≡ 0
and_zero zero x = refl
and_zero (suc fuel) zero = refl
and_zero (suc fuel) (suc x) = omega (arith, and_zero fuel (suc x / 2))

pub bit_or-zero : (x : ℕ) → bit_or x 0 ≡ x
bit_or-zero x = simp bit_or-bitwise (or_zero x x (omega arith))

pub bit_and-zero : (x : ℕ) → bit_and x 0 ≡ 0
bit_and-zero x = simp bit_and-bitwise (and_zero x x)
