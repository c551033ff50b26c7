-- ===== src/Base/Every.antt =====
-- Tests of all numbers below a bound.
use Prim.Native.Nat.{ℕ, zero, suc, ◌<◌}
use mathlib.Core.Path.{◌≡◌}
use mathlib.Core.Logic.{inl, inr}
use mathlib.Core.Bool.{Bool, true, ◌&&◌}
use native.Mathlib.Omega.{arith}
use dtboverlay.Base.Tests.{◌==◌, Bool-cases}

abbrev pub every : ℕ → (ℕ → Bool) → Bool
every zero p = true
every (suc n) p = p n && every n p

pub every_at : (n : ℕ) (p : ℕ → Bool) → every n p ≡ true → (i : ℕ) → i < n → p i ≡ true
every_at zero p h i low = absurd (omega arith)
every_at (suc n) p h i low = elim (Bool-cases (i == n)) [
  | inl y ↦ (let is : i ≡ n = ground arith in rw is (ground arith))
  | inr m ↦ every_at n p (ground arith) i (ground arith)
]
