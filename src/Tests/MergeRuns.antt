-- ===== src/Tests/MergeRuns.antt =====
-- An overlay that is merged into a base, and the results on libfdt/fdt_overlay.c and the functions
-- that it calls, each at one blob.
use dtboverlay.Base.{ℕ, ◌≡◌, refl, List, [], ◌∷◌, Option, some, none}
use dtboverlay.Base.Int.{ℤ, pos}
use dtboverlay.Memory.{load8}
use dtboverlay.Fdt.Assume.{can_assume}
use dtboverlay.Fdt.Header.{magic, fdt_get_header, fdt32_ld}
use dtboverlay.Fdt.Encode.{put32, put_header}
use dtboverlay.Fdt.Read.{
  Tree, Found, value, codes, header, is_old, fdt_offset_ptr_, until_nul, find_byte, same_bytes,
  bytes_at, memcmp_equal, string_at,
}
use dtboverlay.Fdt.Read
use dtboverlay.Fdt.Walk.{
  fdt_offset_ptr, skip_name, skip_begin, skip_prop, skip_tag, fdt_next_tag, check_tag_offset,
  node_loop, fdt_next_node, node_after, fdt_first_subnode, subnode_loop, fdt_next_subnode,
  find_string, fdt_find_string_, fdt_move,
}
use dtboverlay.Fdt.Ro.Names.{
  string_room, terminated, fdt_get_string, fdt_string_eq_, fdt_get_name, fdt_nodename_eq_, has_byte,
  find_subnode, fdt_subnode_offset_namelen, fdt_subnode_offset,
}
use dtboverlay.Fdt.Ro.Props.{
  nextprop_loop, nextprop_, fdt_first_property_offset, fdt_next_property_offset,
  fdt_get_property_by_offset_, find_property, fdt_get_property_namelen_, fdt_get_property_namelen,
  fdt_get_property, realigned, fdt_getprop_namelen, fdt_getprop_by_offset, fdt_getprop,
  cell_property, fdt_get_phandle,
}
use dtboverlay.Fdt.Ro.Paths.{
  component, from_slash, skip_slashes, follow, path_offset, fdt_path_offset_namelen,
  fdt_path_offset,
}
use dtboverlay.Fdt.Ro.Phandles.{
  max_phandle_loop, fdt_find_max_phandle, find_phandle, fdt_node_offset_by_phandle,
}
use dtboverlay.Fdt.Ro.Depth.{
  strip_name, write_bytes, unwind, path_loop, fdt_get_path, supernode_loop,
  fdt_supernode_atdepth_offset, fdt_node_depth, fdt_parent_offset,
}
use dtboverlay.Fdt.Write.{Step, ◌>>=◌, pure, store_bytes}
use dtboverlay.Fdt.Wip.{fdt_setprop_inplace_namelen_partial, fdt_setprop_inplace}
use dtboverlay.Fdt.Rw.Splice.{
  fdt_blocks_misordered_, fdt_rw_probe_, fdt_data_size_, fdt_splice_, fdt_splice_struct_,
  fdt_splice_string_, fdt_find_add_string_,
}
use dtboverlay.Fdt.Rw.Change.{
  fdt_resize_property_, fdt_add_property_, fdt_setprop_placeholder, fdt_setprop, fdt_appendprop,
  skip_properties, insert_node, fdt_add_subnode_namelen, fdt_add_subnode,
}
use dtboverlay.Fdt.Overlay.Both.{
  Blobs, look_fdt, look_fdto, non_null, each_offset, fdt_for_each_subnode,
  fdt_for_each_property_offset,
}
use dtboverlay.Fdt.Overlay.Parse.{
  parse_place, parse_fixup, overlay_get_target_phandle, path_len_loop, get_path_len, symbol_below,
  parse_symbol,
}
use dtboverlay.Fdt.Overlay.Local.{
  overlay_phandle_add_offset, overlay_adjust_node_phandles, overlay_adjust_local_phandles,
  adjust_reference, each_reference, adjust_places, adjust_property, adjust_child,
  overlay_update_local_node_references, overlay_update_local_references,
}
use dtboverlay.Fdt.Overlay.Fixups.{
  overlay_fixup_one_phandle, fixup_loop, overlay_fixup_phandle, overlay_fixup_phandles,
}
use dtboverlay.Fdt.Overlay.Merge.{
  overlay_get_target, apply_property, apply_subnode, overlay_apply_node, merge_fragment,
  overlay_merge,
}
use dtboverlay.Fdt.Overlay.Symbols.{
  write_target, target_len, target_again, add_symbol, add_parsed, update_symbol,
  overlay_symbol_update,
}
use dtboverlay.Fdt.Overlay.Apply.{apply_steps, apply_probed, fdt_overlay_apply}
use dtboverlay.Tests.OverlayTrees.{both_trees, decimal}

abbrev script : Step Blobs (List ℤ × List (List ℕ))
script = do
  ret ← fdt_overlay_apply decimal
  sub ← look_fdt (λ t. fdt_path_offset t (codes "/t/sub"))
  (php, a) ← look_fdt (λ t. fdt_getprop t sub (codes "phandle"))
  (ref, b) ← look_fdt (λ t. fdt_getprop t sub (codes "ref"))
  symbols ← look_fdt (λ t. fdt_path_offset t (codes "/__symbols__"))
  (s, c) ← look_fdt (λ t. fdt_getprop t symbols (codes "s"))
  m ← look_fdto (λ t. header t magic)
  non_null php (λ p. non_null ref (λ q. non_null s (λ r. do
    phandle ← look_fdt (λ t. bytes_at t p 4)
    reference ← look_fdt (λ t. bytes_at t q 4)
    symbol ← look_fdt (λ t. string_at t r)
    pure (ret ∷ sub ∷ a ∷ b ∷ symbols ∷ c ∷ pos m ∷ [], phandle ∷ reference ∷ symbol ∷ []))))

abbrev answer : {A : Type 0} → Read.Read (A × Blobs) → Option A
answer (Read.value r) = some r.0
answer Read.outside = none
answer Read.spent = none

-- The node of the overlay is in the base with its phandle and the reference to it moved by 5, and with
-- its symbol.
merged_into_base :
    answer (script both_trees)
    ≡ some (
      pos 0 ∷ pos 48 ∷ pos 4 ∷ pos 4 ∷ pos 96 ∷ pos 7 ∷ pos 4294967295 ∷ [],
      (0 ∷ 0 ∷ 0 ∷ 6 ∷ []) ∷ (0 ∷ 0 ∷ 0 ∷ 6 ∷ []) ∷ codes "/t/sub" ∷ [],
    )
unfolding load8 can_assume fdt_get_header fdt32_ld put32 put_header is_old fdt_offset_ptr_ until_nul
    find_byte same_bytes bytes_at memcmp_equal fdt_offset_ptr skip_name skip_begin skip_prop
    skip_tag fdt_next_tag check_tag_offset node_loop fdt_next_node node_after fdt_first_subnode
    subnode_loop fdt_next_subnode find_string fdt_find_string_ fdt_move string_room terminated
    fdt_get_string fdt_string_eq_ fdt_get_name fdt_nodename_eq_ has_byte find_subnode
    fdt_subnode_offset_namelen fdt_subnode_offset nextprop_loop nextprop_ fdt_first_property_offset
    fdt_next_property_offset fdt_get_property_by_offset_ find_property fdt_get_property_namelen_
    fdt_get_property_namelen fdt_get_property realigned fdt_getprop_namelen fdt_getprop_by_offset
    fdt_getprop cell_property fdt_get_phandle component from_slash skip_slashes follow path_offset
    fdt_path_offset_namelen fdt_path_offset max_phandle_loop fdt_find_max_phandle find_phandle
    fdt_node_offset_by_phandle strip_name write_bytes unwind path_loop fdt_get_path supernode_loop
    fdt_supernode_atdepth_offset fdt_node_depth fdt_parent_offset store_bytes
    fdt_setprop_inplace_namelen_partial fdt_setprop_inplace fdt_blocks_misordered_ fdt_rw_probe_
    fdt_data_size_ fdt_splice_ fdt_splice_struct_ fdt_splice_string_ fdt_find_add_string_
    fdt_resize_property_ fdt_add_property_ fdt_setprop_placeholder fdt_setprop fdt_appendprop
    skip_properties insert_node fdt_add_subnode_namelen fdt_add_subnode non_null each_offset
    fdt_for_each_subnode fdt_for_each_property_offset parse_place parse_fixup
    overlay_get_target_phandle path_len_loop get_path_len symbol_below parse_symbol
    overlay_phandle_add_offset overlay_adjust_node_phandles overlay_adjust_local_phandles
    adjust_reference each_reference adjust_places adjust_property adjust_child
    overlay_update_local_node_references overlay_update_local_references overlay_fixup_one_phandle
    fixup_loop overlay_fixup_phandle overlay_fixup_phandles overlay_get_target apply_property
    apply_subnode overlay_apply_node merge_fragment overlay_merge write_target target_len
    target_again add_symbol add_parsed update_symbol overlay_symbol_update apply_steps apply_probed
    fdt_overlay_apply
merged_into_base = refl
