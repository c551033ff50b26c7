-- ===== src/Fdt/Addresses/Range.antt =====
-- Ranges of addresses, of libfdt/fdt_addresses.c.
use dtboverlay.Base.{
  ℕ, ◌+◌, ◌-◌, ◌%◌, ◌^◌, List, ◌++◌, Option, none, some, ◌&&◌, ◌||◌, if◌then◌else◌, ltb,
}
use dtboverlay.Base.Int.{ℤ, pos, is_negative, eq_test}
use dtboverlay.Fdt.Constants.{badvalue, badncells}
use dtboverlay.Fdt.Addresses.{fdt_address_cells, fdt_size_cells}
use dtboverlay.Fdt.Write.{Edit, ◌>>=◌, pure, reading, refuse}
use dtboverlay.Fdt.Rw.Change.{fdt_appendprop}
use dtboverlay.Fdt.Inline.{fdt32_st, fdt64_st}

-- `UINT32_MAX + 1 - addr`: the sum is one of two `unsigned int`, and the difference has 64 bits.
abbrev pub room_above : ℕ → ℕ
room_above addr = (2 ^ 64 + (2 ^ 32 - 1 + 1) % 2 ^ 32 - addr) % 2 ^ 64

-- The bytes of an address or a size in a number of cells that is 1 or 2; `none` for other numbers.
abbrev in_cells : ℤ → ℕ → Option (List ℕ)
in_cells cells v =
    if eq_test cells (pos 1)
    then some (fdt32_st (v % 2 ^ 32))
    else if eq_test cells (pos 2)
    then some (fdt64_st v)
    else none

-- `addr` and `size` are below 2 ^ 64.
unfoldable pub fdt_appendprop_addrrange :
    (parent nodeoffset : ℤ) → List ℕ → (addr size : ℕ) → Edit ℤ
fdt_appendprop_addrrange parent nodeoffset name addr size = do
  addr_cells ← reading (λ t. fdt_address_cells t parent)
  if is_negative addr_cells then pure addr_cells else do
    size_cells ← reading (λ t. fdt_size_cells t parent)
    if is_negative size_cells
        then pure size_cells
        else if eq_test addr_cells (pos 1) && (ltb (2 ^ 32 - 1) addr || ltb (room_above addr) size)
        then refuse badvalue
        else elim (in_cells addr_cells addr) [
          | none ↦ refuse badncells
          | some at ↦
              if eq_test size_cells (pos 1) && ltb (2 ^ 32 - 1) size
              then refuse badvalue
              else elim (in_cells size_cells size) [
                | none ↦ refuse badncells
                | some long ↦ fdt_appendprop nodeoffset name (at ++ long)
              ]
        ]
