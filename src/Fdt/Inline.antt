-- ===== src/Fdt/Inline.antt =====
-- The inline functions of libfdt/libfdt.h that store a number in a property, and the names that it
-- gives to other functions.
use dtboverlay.Base.{ℕ, ◌-◌, ◌/◌, ◌%◌, ◌^◌, List, [], ◌∷◌, ◌++◌, Option, Bool, if◌then◌else◌}
use dtboverlay.Base.Int.{ℤ, is_negative, to_u32}
use dtboverlay.Fdt.Read.{Read, value, ◌>>=◌, Tree, Found}
use dtboverlay.Fdt.Walk.{fdt_offset_ptr}
use dtboverlay.Fdt.Ro.Props.{fdt_get_property, fdt_getprop_namelen, fdt_getprop}
use dtboverlay.Fdt.Ro.Phandles.{fdt_find_max_phandle}
use dtboverlay.Fdt.Write.{Edit}
use dtboverlay.Fdt.Wip.{fdt_setprop_inplace}
use dtboverlay.Fdt.Sw.Build.{fdt_property}
use dtboverlay.Fdt.Rw.Change.{fdt_setprop, fdt_appendprop}

-- The bytes that `fdt32_st` and `fdt64_st` store, which are also those of `cpu_to_fdt32` and
-- `cpu_to_fdt64`.
abbrev pub fdt32_st : ℕ → List ℕ
fdt32_st v = v / 2 ^ 24 % 256 ∷ v / 2 ^ 16 % 256 ∷ v / 2 ^ 8 % 256 ∷ v % 256 ∷ []

abbrev pub fdt64_st : ℕ → List ℕ
fdt64_st v = fdt32_st (v / 2 ^ 32) ++ fdt32_st v

abbrev pub fdt_setprop_inplace_u32 : ℤ → List ℕ → ℕ → Edit ℤ
fdt_setprop_inplace_u32 nodeoffset name v = fdt_setprop_inplace nodeoffset name (fdt32_st v)

abbrev pub fdt_setprop_inplace_u64 : ℤ → List ℕ → ℕ → Edit ℤ
fdt_setprop_inplace_u64 nodeoffset name v = fdt_setprop_inplace nodeoffset name (fdt64_st v)

abbrev pub fdt_setprop_inplace_cell : ℤ → List ℕ → ℕ → Edit ℤ
fdt_setprop_inplace_cell nodeoffset name v = fdt_setprop_inplace_u32 nodeoffset name v

abbrev pub fdt_property_u32 : List ℕ → ℕ → Edit ℤ
fdt_property_u32 name v = fdt_property name (fdt32_st v)

abbrev pub fdt_property_u64 : List ℕ → ℕ → Edit ℤ
fdt_property_u64 name v = fdt_property name (fdt64_st v)

abbrev pub fdt_property_cell : List ℕ → ℕ → Edit ℤ
fdt_property_cell name v = fdt_property_u32 name v

abbrev pub fdt_setprop_u32 : ℤ → List ℕ → ℕ → Edit ℤ
fdt_setprop_u32 nodeoffset name v = fdt_setprop nodeoffset name (fdt32_st v)

abbrev pub fdt_setprop_u64 : ℤ → List ℕ → ℕ → Edit ℤ
fdt_setprop_u64 nodeoffset name v = fdt_setprop nodeoffset name (fdt64_st v)

abbrev pub fdt_setprop_cell : ℤ → List ℕ → ℕ → Edit ℤ
fdt_setprop_cell nodeoffset name v = fdt_setprop_u32 nodeoffset name v

abbrev pub fdt_appendprop_u32 : ℤ → List ℕ → ℕ → Edit ℤ
fdt_appendprop_u32 nodeoffset name v = fdt_appendprop nodeoffset name (fdt32_st v)

abbrev pub fdt_appendprop_u64 : ℤ → List ℕ → ℕ → Edit ℤ
fdt_appendprop_u64 nodeoffset name v = fdt_appendprop nodeoffset name (fdt64_st v)

abbrev pub fdt_appendprop_cell : ℤ → List ℕ → ℕ → Edit ℤ
fdt_appendprop_cell nodeoffset name v = fdt_appendprop_u32 nodeoffset name v

module _ (t : Tree) where
  abbrev pub fdt_offset_ptr_w : ℤ → ℤ → Read (Option ℕ)
  fdt_offset_ptr_w offset checklen = fdt_offset_ptr t offset (to_u32 checklen)

  abbrev pub fdt_get_property_w : ℤ → List ℕ → Read Found
  fdt_get_property_w nodeoffset name = fdt_get_property t nodeoffset name

  abbrev pub fdt_getprop_namelen_w : (lenp : Bool) → ℤ → List ℕ → Read Found
  fdt_getprop_namelen_w lenp nodeoffset name = fdt_getprop_namelen t lenp nodeoffset name

  abbrev pub fdt_getprop_w : ℤ → List ℕ → Read Found
  fdt_getprop_w nodeoffset name = fdt_getprop t nodeoffset name

  unfoldable pub fdt_get_max_phandle : Read ℕ
  fdt_get_max_phandle = do
    (err, phandle) ← fdt_find_max_phandle t
    value (if is_negative err then 2 ^ 32 - 1 else phandle)
