-- ===== src/Fdt/Addresses.antt =====
-- libfdt/fdt_addresses.c: the numbers of cells.
pub mod Range
pub mod OneCell
use dtboverlay.Base.{ℕ, List, none, some, not, if◌then◌else◌, ltb}
use dtboverlay.Base.Int.{ℤ, pos, eq_test, to_int}
use dtboverlay.Fdt.Constants.{failure, notfound, badncells}
use dtboverlay.Fdt.Read.{Read, value, ◌>>=◌, Tree, fail_with, read32, codes}
use dtboverlay.Fdt.Ro.Props.{fdt_getprop}

abbrev pub fdt_max_ncells : ℕ
fdt_max_ncells = 4

module _ (t : Tree) where
  unfoldable pub fdt_cells : ℤ → List ℕ → Read ℤ
  fdt_cells nodeoffset name = do
    (c, len) ← fdt_getprop t nodeoffset name
    elim c [
      | none ↦ value len
      | some p ↦ if not (eq_test len (pos 4)) then fail_with badncells else do
        val ← read32 t p
        if ltb fdt_max_ncells val then fail_with badncells else value (to_int val)
    ]

  unfoldable pub fdt_address_cells : ℤ → Read ℤ
  fdt_address_cells nodeoffset = do
    val ← fdt_cells nodeoffset (codes "#address-cells")
    if eq_test val (pos 0)
        then fail_with badncells
        else value (if eq_test val (failure notfound) then pos 2 else val)

  unfoldable pub fdt_size_cells : ℤ → Read ℤ
  fdt_size_cells nodeoffset = do
    val ← fdt_cells nodeoffset (codes "#size-cells")
    value (if eq_test val (failure notfound) then pos 1 else val)
