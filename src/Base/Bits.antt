-- ===== src/Base/Bits.antt =====
-- `|` of a shifted number and one below the shift, and `&` with 7, as arithmetic.
mod Step
use Step.{or_digit, and_digit, bit_or-zero, bit_and-zero}
use Prim.Native.Nat.{ℕ, zero, suc, ◌+◌, ◌*◌, ◌/◌, ◌%◌, ◌^◌, ◌<◌, bit_or, bit_and}
use mathlib.Core.Path.{◌≡◌, ap, ◌∙◌}
use native.Mathlib.Nat.{pow-suc}
use native.Mathlib.Omega.{arith}

shift_once : (high width : ℕ) → high * 2 ^ suc width ≡ 2 * (high * 2 ^ width)
shift_once high width = omega (arith, ap (λ (w : ℕ). high * w) (pow-suc 2 width))

-- A number shifted above the bits of `low` is joined to `low` without a carry.
pub bit_or-shift :
    (width high low : ℕ) → low < 2 ^ width → bit_or (high * 2 ^ width) low ≡ high * 2 ^ width + low
bit_or-shift zero high low below = ground (arith, bit_or-zero high)
bit_or-shift (suc width) high low below =
    let half : low / 2 < 2 ^ width = ground (arith, pow-suc 2 width) in
    ground (
      arith,
      shift_once high width,
      or_digit (high * 2 ^ suc width) low,
      bit_or-shift width high (low / 2) half,
    )

-- Three digits are kept, and the rest is dropped.
pub bit_and_seven : (x : ℕ) → bit_and x 7 ≡ x % 8
bit_and_seven x =
    let half = x / 2 in
    let quarter = half / 2 in
    omega (arith, bit_and-zero (quarter / 2), and_digit quarter 1, and_digit half 3, and_digit x 7)
