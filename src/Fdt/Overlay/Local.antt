-- ===== src/Fdt/Overlay/Local.antt =====
-- The phandles of an overlay and the references to them, of libfdt/fdt_overlay.c.
use dtboverlay.Base.{
  ℕ, zero, suc, ◌+◌, ◌-◌, ◌/◌, ◌%◌, ◌^◌, List, Option, none, some, true, not, ◌&&◌, ◌==◌,
  if◌then◌else◌, ltb,
}
use dtboverlay.Base.Int.{ℤ, pos, is_negative, magnitude, eq_test, to_int}
use dtboverlay.Fdt.Constants.{failure, notfound, nospace, badphandle, badoverlay, nophandles}
use dtboverlay.Fdt.Read
use dtboverlay.Fdt.Read.{Tree, Found, string_at, read32, codes}
use dtboverlay.Fdt.Ro.Names.{fdt_get_name, fdt_subnode_offset}
use dtboverlay.Fdt.Ro.Props.{fdt_getprop, fdt_getprop_by_offset}
use dtboverlay.Fdt.Ro.Paths.{fdt_path_offset}
use dtboverlay.Fdt.Write.{Edit, plus32, to_size, ◌>>=◌, pure, reading}
use dtboverlay.Fdt.Wip.{fdt_setprop_inplace_namelen_partial}
use dtboverlay.Fdt.Inline.{fdt32_st, fdt_setprop_inplace_u32}
use dtboverlay.Fdt.Overlay.Both.{
  non_null, leave, refuse, checked, and_then, fdt_for_each_subnode, fdt_for_each_property_offset,
}

-- The blob of a statement over one.
abbrev itself : Tree → Tree
itself t = t

unfoldable pub overlay_phandle_add_offset : ℤ → List ℕ → ℕ → Edit ℤ
overlay_phandle_add_offset node name delta = do
  (val, len) ← reading (λ t. fdt_getprop t node name)
  elim val [
    | none ↦ pure len
    | some p ↦ if not (eq_test len (pos 4)) then pure (failure badphandle) else do
      adj_val ← reading (λ t. read32 t p)
      let sum = plus32 adj_val delta
      if ltb sum adj_val
          then pure (failure nophandles)
          else if sum == 2 ^ 32 - 1
          then pure (failure nophandles)
          else fdt_setprop_inplace_u32 node name sum
  ]

-- `ret && ret != -FDT_ERR_NOTFOUND` ends the function.
abbrev unless_found_error : Edit ℤ → Edit ℤ → Edit ℤ
unless_found_error m k = do
  ret ← m
  if not (eq_test ret (pos 0)) && not (eq_test ret (failure notfound)) then pure ret else k

unfoldable pub overlay_adjust_node_phandles : ℕ → ℤ → ℕ → Edit ℤ
overlay_adjust_node_phandles zero node delta = λ t. Read.spent
overlay_adjust_node_phandles (suc n) node delta =
    let child_phandles : ℤ → Edit (Option ℤ) =
      λ child. checked (overlay_adjust_node_phandles n child delta) in
    unless_found_error (overlay_phandle_add_offset node (codes "phandle") delta) (
      unless_found_error (overlay_phandle_add_offset node (codes "linux,phandle") delta)
        (and_then (fdt_for_each_subnode itself child_phandles node) (pure (pos 0))))

unfoldable pub overlay_adjust_local_phandles : ℕ → Edit ℤ
overlay_adjust_local_phandles delta = do
  n ← reading (λ t. Read.value t.fuel)
  overlay_adjust_node_phandles n (pos 0) delta

-- A round of the loop over the places of a property: the phandle at `poffset` in it.
unfoldable pub adjust_reference : ℤ → (name tree_val poffset delta : ℕ) → Edit (Option ℤ)
adjust_reference tree_node name tree_val poffset delta = do
  adj_val ← reading (λ t. read32 t (tree_val + poffset))
  s ← reading (λ t. string_at t name)
  ret ← fdt_setprop_inplace_namelen_partial tree_node s poffset (fdt32_st (plus32 adj_val delta))
  if eq_test ret (failure nospace) then refuse badoverlay else checked (pure ret)

-- That loop, for a number of places.
unfoldable pub each_reference : ℕ → ℤ → (name tree_val fixup_val delta : ℕ) → Edit (Option ℤ)
each_reference zero tree_node name tree_val fixup_val delta = pure none
each_reference (suc n) tree_node name tree_val fixup_val delta =
    let rest = each_reference n tree_node name tree_val (fixup_val + 4) delta in
    do
      poffset ← reading (λ t. read32 t fixup_val)
      left ← adjust_reference tree_node name tree_val poffset delta
      elim left [ some r ↦ leave r | none ↦ rest ]

-- `fixup_len / sizeof(uint32_t)` as the loop counts it: an `int`, and no round if it is negative.
abbrev places : ℤ → ℕ
places len = let n = to_int (to_size len / 4) in if is_negative n then 0 else magnitude n

-- What that round does with the places of a property and its name.
unfoldable pub adjust_places :
    ℤ → (delta fixups : ℕ) → (fixup_len : ℤ) → (name : ℕ) → Edit (Option ℤ)
adjust_places tree_node delta fixups fixup_len name = do
  s ← reading (λ t. string_at t name)
  (tree_val, tree_len) ← reading (λ t. fdt_getprop t tree_node s)
  elim tree_val [
    | none ↦ if eq_test tree_len (failure notfound) then refuse badoverlay else leave tree_len
    | some val ↦ each_reference (places fixup_len) tree_node name val fixups delta
  ]

-- A round of the loop over the properties of the node of fixups.
unfoldable pub adjust_property : ℤ → ℕ → ℤ → Edit (Option ℤ)
adjust_property tree_node delta fixup_prop = do
  (fixup_val, fixup_len, namep) ← reading (λ t. fdt_getprop_by_offset t true true fixup_prop)
  elim fixup_val [
    | none ↦ leave fixup_len
    | some fixups ↦
        if not (to_size fixup_len % 4 == 0)
        then refuse badoverlay
        else non_null namep (adjust_places tree_node delta fixups fixup_len)
  ]

-- A round of the loop over the children: the child of the same name in the tree, and `deeper` on both.
unfoldable pub adjust_child : (ℤ → ℤ → Edit ℤ) → ℤ → ℤ → Edit (Option ℤ)
adjust_child deeper tree_node fixup_child = do
  (namep, _) ← reading (λ t. fdt_get_name t fixup_child)
  non_null namep (λ name. do
    s ← reading (λ t. string_at t name)
    tree_child ← reading (λ t. fdt_subnode_offset t tree_node s)
    if eq_test tree_child (failure notfound)
        then refuse badoverlay
        else if is_negative tree_child
        then leave tree_child
        else checked (deeper tree_child fixup_child))

unfoldable pub overlay_update_local_node_references : ℕ → ℤ → ℤ → ℕ → Edit ℤ
overlay_update_local_node_references zero tree_node fixup_node delta = λ t. Read.spent
overlay_update_local_node_references (suc n) tree_node fixup_node delta =
    let deeper : ℤ → ℤ → Edit ℤ = λ tree_child fixup_child.
      overlay_update_local_node_references n tree_child fixup_child delta in
    and_then (fdt_for_each_property_offset itself (adjust_property tree_node delta) fixup_node) (
      and_then (fdt_for_each_subnode itself (adjust_child deeper tree_node) fixup_node)
        (pure (pos 0)))

unfoldable pub overlay_update_local_references : ℕ → Edit ℤ
overlay_update_local_references delta = do
  fixups ← reading (λ t. fdt_path_offset t (codes "/__local_fixups__"))
  if is_negative fixups
      then pure (if eq_test fixups (failure notfound) then pos 0 else fixups)
      else do
        n ← reading (λ t. Read.value t.fuel)
        overlay_update_local_node_references n (pos 0) fixups delta
