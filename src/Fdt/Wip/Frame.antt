-- ===== src/Fdt/Wip/Frame.antt =====
-- No write of libfdt/fdt_wip.c changes the size or the place of the buffer.
use dtboverlay.Base.{ℕ, List}
use dtboverlay.Base.Int.{ℤ}
use dtboverlay.Fdt.Write.Keeps.{Keeps, HasShape, keeps_rules}
use dtboverlay.Fdt.Wip.{fdt_setprop_inplace_namelen_partial, fdt_setprop_inplace}

module _ {z : ℕ × ℕ × ℕ} where
  pub fdt_setprop_inplace_namelen_partial-Keeps :
      (nodeoffset : ℤ) (name : List ℕ) (idx : ℕ) (val : List ℕ)
      → Keeps (HasShape z) (fdt_setprop_inplace_namelen_partial nodeoffset name idx val)
  unfolding fdt_setprop_inplace_namelen_partial
  fdt_setprop_inplace_namelen_partial-Keeps nodeoffset name idx val = search keeps_rules

  pub fdt_setprop_inplace-Keeps :
      (nodeoffset : ℤ) (name val : List ℕ)
      → Keeps (HasShape z) (fdt_setprop_inplace nodeoffset name val)
  unfolding fdt_setprop_inplace
  fdt_setprop_inplace-Keeps nodeoffset name val =
      search (keeps_rules, fdt_setprop_inplace_namelen_partial-Keeps)
