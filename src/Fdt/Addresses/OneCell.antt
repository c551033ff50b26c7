-- ===== src/Fdt/Addresses/OneCell.antt =====
-- Which ranges `fdt_appendprop_addrrange` of libfdt/fdt_addresses.c takes below a node with one
-- address cell and one size cell.
use dtboverlay.Base.{
  ℕ, ◌-◌, ◌%◌, ◌^◌, ◌<◌, ◌≤◌, ◌≡◌, ◌⊎◌, inl, inr, refl, List, ◌++◌, Bool-cases, ◌||◌, arith, ltb,
}
use native.Mathlib.Decide.{dec_lt}
use dtboverlay.Base.Int.{ℤ, pos}
use dtboverlay.Fdt.Constants.{failure, badvalue}
use dtboverlay.Fdt.Read.{value, Tree}
use dtboverlay.Fdt.Inline.{fdt32_st}
use dtboverlay.Fdt.Rw.Change.{fdt_appendprop}
use dtboverlay.Fdt.Addresses.{fdt_address_cells, fdt_size_cells}
use dtboverlay.Fdt.Addresses.Range.{room_above, fdt_appendprop_addrrange}

module _ (t : Tree) (parent : ℤ) (addr_cells : fdt_address_cells t parent ≡ value (pos 1))
    (size_cells : fdt_size_cells t parent ≡ value (pos 1)) (nodeoffset : ℤ) (name : List ℕ) where
  -- Below a node for which `fdt_address_cells` and `fdt_size_cells` return 1, and for an address
  -- and a size below 2 ^ 64, `fdt_appendprop_addrrange` either refuses the range with BADVALUE and
  -- writes nothing, and then the address or the size is 2 ^ 32 or more, or the address is 0 and the
  -- size is not, or it appends both as cells, and then both are below 2 ^ 32, whatever their sum,
  -- and the address is not 0 or the size is 0.
  pub fdt_appendprop_addrrange-one_cell :
      (addr size : ℕ)
      → addr < 2 ^ 64
      → size < 2 ^ 64
      → (((2 ^ 32 ≤ addr) ⊎ ((addr ≡ 0) × (0 < size)) ⊎ (2 ^ 32 ≤ size))
          × (fdt_appendprop_addrrange parent nodeoffset name addr size t
              ≡ value (failure badvalue, t)))
        ⊎ (addr < 2 ^ 32)
          × (size < 2 ^ 32)
          × ((0 < addr) ⊎ (size ≡ 0))
          × (fdt_appendprop_addrrange parent nodeoffset name addr size t
              ≡ fdt_appendprop nodeoffset name (fdt32_st addr ++ fdt32_st size) t)
  unfolding fdt_appendprop_addrrange
  fdt_appendprop_addrrange-one_cell addr size ha hs =
      let bad = ltb (2 ^ 32 - 1) addr || ltb (room_above addr) size in
      elim (Bool-cases bad) [
        | inl over ↦ inl (ground arith, rw (addr_cells, size_cells, over) refl)
        | inr fits ↦
            let low : addr % 2 ^ 32 ≡ addr = ground arith in
            elim (Bool-cases (ltb (2 ^ 32 - 1) size)) [
              | inl big ↦
                  inl (inr (inr (ground arith)), rw (addr_cells, size_cells, fits, big) refl)
              | inr small ↦
                  let first : (0 < addr) ⊎ (size ≡ 0) = elim (dec_lt 0 addr) [
                    | yes above ↦ inl above
                    | no zero ↦ inr (let none : addr ≡ 0 = omega arith in ground arith)
                  ] in
                  let low' : size % 2 ^ 32 ≡ size = ground arith in
                  inr (
                    ground arith,
                    ground arith,
                    first,
                    rw (addr_cells, size_cells, fits, small, low, low') refl,
                  )
            ]
      ]
