-- ===== src/Fdt/Assume.antt =====
-- The assumptions of libfdt/fdt.c: which checks a build leaves out.
use dtboverlay.Base.{ℕ, bit_and, Bool, not, ◌==◌}

pub data Assumption : Type 0 where
  perfect valid_dtb valid_input latest no_rollback libfdt_order libfdt_flawless : Assumption

-- The value of `ASSUME_…`.
abbrev pub mask_of : Assumption → ℕ
mask_of perfect = 0xff
mask_of valid_dtb = 1
mask_of valid_input = 2
mask_of latest = 4
mask_of no_rollback = 8
mask_of libfdt_order = 16
mask_of libfdt_flawless = 32

-- FDT_ASSUME_MASK, which the Makefile leaves at its default. The functions take it as an argument,
-- since a build may define it.
abbrev pub fdt_assume_mask : ℕ
fdt_assume_mask = 0

-- `can_assume_(mask)` in a build with the assumptions `assumed`.
unfoldable pub can_assume_ : (assumed mask : ℕ) → Bool
can_assume_ assumed mask = not (bit_and assumed mask == 0)

unfoldable pub can_assume : ℕ → Assumption → Bool
unfolding can_assume_
can_assume assumed a = can_assume_ assumed (mask_of a)
