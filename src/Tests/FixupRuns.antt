-- ===== src/Tests/FixupRuns.antt =====
-- The results on libfdt/fdt_overlay.c over both blobs and on what it parses, each at one input.
use dtboverlay.Base.{◌≡◌, ◌⊎◌, refl, [], ◌∷◌, ◌++◌, some, arith, length}
use dtboverlay.Base.Int.{ℤ, pos}
use dtboverlay.Memory.{load8}
use dtboverlay.Fdt.Assume.{can_assume}
use dtboverlay.Fdt.Header.{fdt_get_header, fdt32_ld}
use dtboverlay.Fdt.Encode.{put32, put_header}
use dtboverlay.Fdt.Read.{
  Tree, Found, value, codes, header, is_old, fdt_offset_ptr_, until_nul, find_byte, same_bytes,
  bytes_at, memcmp_equal, string_at,
}
use dtboverlay.Fdt.Read
use dtboverlay.Fdt.Walk.{
  fdt_offset_ptr, skip_name, skip_begin, skip_prop, skip_tag, fdt_next_tag, check_tag_offset,
  node_loop, fdt_next_node, node_after, fdt_first_subnode, subnode_loop, fdt_next_subnode,
  find_string, fdt_find_string_, fdt_move,
}
use dtboverlay.Fdt.Ro.Names.{
  string_room, terminated, fdt_get_string, fdt_string_eq_, fdt_get_name, fdt_nodename_eq_, has_byte,
  find_subnode, fdt_subnode_offset_namelen, fdt_subnode_offset,
}
use dtboverlay.Fdt.Ro.Props.{
  nextprop_loop, nextprop_, fdt_first_property_offset, fdt_next_property_offset,
  fdt_get_property_by_offset_, find_property, fdt_get_property_namelen_, fdt_get_property_namelen,
  fdt_get_property, realigned, fdt_getprop_namelen, fdt_getprop_by_offset, fdt_getprop,
  cell_property, fdt_get_phandle,
}
use dtboverlay.Fdt.Ro.Paths.{
  component, from_slash, skip_slashes, follow, path_offset, fdt_path_offset_namelen,
  fdt_path_offset,
}
use dtboverlay.Fdt.Ro.Phandles.{
  max_phandle_loop, fdt_find_max_phandle, find_phandle, fdt_node_offset_by_phandle,
}
use dtboverlay.Fdt.Ro.Depth.{
  strip_name, write_bytes, unwind, path_loop, fdt_get_path, supernode_loop,
  fdt_supernode_atdepth_offset, fdt_node_depth, fdt_parent_offset,
}
use dtboverlay.Fdt.Write.{store_bytes}
use dtboverlay.Fdt.Wip.{fdt_setprop_inplace_namelen_partial, fdt_setprop_inplace}
use dtboverlay.Fdt.Rw.Splice.{
  fdt_blocks_misordered_, fdt_rw_probe_, fdt_data_size_, fdt_splice_, fdt_splice_struct_,
  fdt_splice_string_, fdt_find_add_string_,
}
use dtboverlay.Fdt.Rw.Change.{
  fdt_resize_property_, fdt_add_property_, fdt_setprop_placeholder, fdt_setprop, fdt_appendprop,
  skip_properties, insert_node, fdt_add_subnode_namelen, fdt_add_subnode,
}
use dtboverlay.Fdt.Overlay.Both.{
  Blobs, non_null, each_offset, fdt_for_each_subnode, fdt_for_each_property_offset,
}
use dtboverlay.Fdt.Overlay.Parse.{
  parse_place, parse_fixup, overlay_get_target_phandle, path_len_loop, get_path_len, symbol_below,
  parse_symbol,
}
use dtboverlay.Fdt.Overlay.Local.{
  overlay_phandle_add_offset, overlay_adjust_node_phandles, overlay_adjust_local_phandles,
  adjust_reference, each_reference, adjust_places, adjust_property, adjust_child,
  overlay_update_local_node_references, overlay_update_local_references,
}
use dtboverlay.Fdt.Overlay.Fixups.{
  overlay_fixup_one_phandle, fixup_loop, overlay_fixup_phandle, overlay_fixup_phandles,
}
use dtboverlay.Fdt.Overlay.Merge.{
  overlay_get_target, apply_property, apply_subnode, overlay_apply_node, merge_fragment,
  overlay_merge,
}
use dtboverlay.Fdt.Overlay.Symbols.{
  write_target, target_len, target_again, add_symbol, add_parsed, update_symbol,
  overlay_symbol_update,
}
use dtboverlay.Fdt.Overlay.Apply.{apply_steps, apply_probed, fdt_overlay_apply}
use dtboverlay.Tests.OverlayTrees.{
  base_tree, overlay_tree, bare_tree, both_trees, fixed_trees, decimal, none_is-All,
}
use dtboverlay.Fdt.Overlay.Parse.{merged}
use dtboverlay.Fdt.Overlay.Steps.{steps_write_one_blob}
use dtboverlay.Fdt.Overlay.Erase.{IsErased, IsPlaced, fdt_overlay_apply_erases}
use dtboverlay.Fdt.Overlay.Entries.{entry_text, parse_fixup-entry}
use dtboverlay.Fdt.Overlay.SymbolText.{symbol_text, parse_symbol-merged}

parse_fixup-entry_example :
    parse_fixup decimal (bare_tree (entry_text (codes "/f") (codes "target") (codes "12") [])) 0 12
    ≡ value (some (record { path = 0; path_len = 2; name = 3; name_len = 6; poffset = pos 12 }))
parse_fixup-entry_example =
    parse_fixup-entry decimal (bare_tree (entry_text (codes "/f") (codes "target") (codes "12") []))
      0 (codes "/f") (codes "target") (codes "12") [] refl (none_is-All b':' (codes "/f") refl)
      (none_is-All b':' (codes "target") refl) (omega arith) (none_is-All 0 (codes "12") refl)
      (omega arith) (omega arith) refl

parse_symbol-merged_example :
    parse_symbol
      (bare_tree (symbol_text (codes "f") (codes "__overlay__/sub") ++ 0 ∷ []))
      0
      (pos 19)
    ≡ value (merged (codes "f") (codes "sub"))
parse_symbol-merged_example =
    parse_symbol-merged (bare_tree (symbol_text (codes "f") (codes "__overlay__/sub") ++ 0 ∷ [])) 0
      (codes "f") (codes "__overlay__/sub") [] refl (omega arith)
      (none_is-All b'/' (codes "f") refl) (none_is-All 0 (codes "f") refl)
      (none_is-All 0 (codes "__overlay__/sub") refl) (codes "sub") refl

-- The blobs after the steps, for a run that returns.
abbrev blobs_after : Read.Read (ℤ × Blobs) → Blobs
blobs_after (Read.value r) = r.1
blobs_after Read.outside = both_trees
blobs_after Read.spent = both_trees

runs_return :
    (apply_steps decimal both_trees ≡ value (pos 0, blobs_after (apply_steps decimal both_trees)))
    × (overlay_fixup_phandles decimal both_trees
        ≡ value (pos 0, blobs_after (overlay_fixup_phandles decimal both_trees)))
    × (overlay_merge fixed_trees ≡ value (pos 0, blobs_after (overlay_merge fixed_trees)))
    × (overlay_symbol_update fixed_trees
        ≡ value (pos 0, blobs_after (overlay_symbol_update fixed_trees)))
unfolding load8 can_assume fdt_get_header fdt32_ld put32 put_header is_old fdt_offset_ptr_ until_nul
    find_byte same_bytes bytes_at memcmp_equal fdt_offset_ptr skip_name skip_begin skip_prop
    skip_tag fdt_next_tag check_tag_offset node_loop fdt_next_node node_after fdt_first_subnode
    subnode_loop fdt_next_subnode find_string fdt_find_string_ fdt_move string_room terminated
    fdt_get_string fdt_string_eq_ fdt_get_name fdt_nodename_eq_ has_byte find_subnode
    fdt_subnode_offset_namelen fdt_subnode_offset nextprop_loop nextprop_ fdt_first_property_offset
    fdt_next_property_offset fdt_get_property_by_offset_ find_property fdt_get_property_namelen_
    fdt_get_property_namelen fdt_get_property realigned fdt_getprop_namelen fdt_getprop_by_offset
    fdt_getprop cell_property fdt_get_phandle component from_slash skip_slashes follow path_offset
    fdt_path_offset_namelen fdt_path_offset max_phandle_loop fdt_find_max_phandle find_phandle
    fdt_node_offset_by_phandle strip_name write_bytes unwind path_loop fdt_get_path supernode_loop
    fdt_supernode_atdepth_offset fdt_node_depth fdt_parent_offset store_bytes
    fdt_setprop_inplace_namelen_partial fdt_setprop_inplace fdt_blocks_misordered_ fdt_rw_probe_
    fdt_data_size_ fdt_splice_ fdt_splice_struct_ fdt_splice_string_ fdt_find_add_string_
    fdt_resize_property_ fdt_add_property_ fdt_setprop_placeholder fdt_setprop fdt_appendprop
    skip_properties insert_node fdt_add_subnode_namelen fdt_add_subnode non_null each_offset
    fdt_for_each_subnode fdt_for_each_property_offset parse_place parse_fixup
    overlay_get_target_phandle path_len_loop get_path_len symbol_below parse_symbol
    overlay_phandle_add_offset overlay_adjust_node_phandles overlay_adjust_local_phandles
    adjust_reference each_reference adjust_places adjust_property adjust_child
    overlay_update_local_node_references overlay_update_local_references overlay_fixup_one_phandle
    fixup_loop overlay_fixup_phandle overlay_fixup_phandles overlay_get_target apply_property
    apply_subnode overlay_apply_node merge_fragment overlay_merge write_target target_len
    target_again add_symbol add_parsed update_symbol overlay_symbol_update apply_steps apply_probed
    fdt_overlay_apply
runs_return = (refl, refl, refl, refl)

base_size : length base_tree.blob.bytes ≡ 348
unfolding put32 put_header
base_size = refl

base_tree-IsPlaced : IsPlaced base_tree
base_tree-IsPlaced = record { probe = refl; aligned = omega arith; long = omega (arith, base_size) }

overlay_length : length overlay_tree.blob.bytes ≡ 391
unfolding put32 put_header
overlay_length = refl

overlay_tree-IsPlaced : IsPlaced overlay_tree
overlay_tree-IsPlaced = record {
  probe = refl;
  aligned = omega arith;
  long = omega (arith, overlay_length);
}

fdt_overlay_apply_erases_example :
    (b : Blobs) × (fdt_overlay_apply decimal both_trees ≡ value (pos 0, b))
    × IsErased b.fdto
    × (((pos 0 ≡ pos 0) × (b.fdt ≡ (blobs_after (apply_steps decimal both_trees)).fdt))
        ⊎ ((¬ (pos 0 ≡ pos 0)) × IsErased b.fdt))
fdt_overlay_apply_erases_example =
    fdt_overlay_apply_erases decimal base_tree-IsPlaced overlay_tree-IsPlaced runs_return.0

steps_write_one_blob_example :
    ((blobs_after (overlay_fixup_phandles decimal both_trees)).fdt ≡ base_tree)
    × ((blobs_after (overlay_merge fixed_trees)).fdto ≡ fixed_trees.fdto)
    × ((blobs_after (overlay_symbol_update fixed_trees)).fdto ≡ fixed_trees.fdto)
steps_write_one_blob_example =
    steps_write_one_blob decimal both_trees fixed_trees fixed_trees
      (blobs_after (overlay_fixup_phandles decimal both_trees))
      (blobs_after (overlay_merge fixed_trees)) (blobs_after (overlay_symbol_update fixed_trees))
      (pos 0) (pos 0) (pos 0) runs_return.1 runs_return.2 runs_return.3
