-- ===== src/Tests/EditRuns.antt =====
-- The results on what libfdt writes in a blob and reads in an overlay, each at one blob.
use dtboverlay.Base.{ℕ, ◌+◌, ◌-◌, ◌^◌, ◌<◌, ◌≤◌, ◌≡◌, ◌⊎◌, refl, List, [], ◌∷◌, ◌++◌, arith, length}
use dtboverlay.Base.Int.{pos}
use dtboverlay.Memory.{IsBytes, load8}
use dtboverlay.Fdt.Constants.{failure, badvalue, nophandles}
use dtboverlay.Fdt.Assume.{can_assume}
use dtboverlay.Fdt.Header.{totalsize, off_dt_strings, size_dt_strings, fdt_get_header, fdt32_ld}
use dtboverlay.Fdt.Word.{word}
use dtboverlay.Fdt.Layout.{field, HasHeader}
use dtboverlay.Fdt.Encode.{put32, put_header}
use dtboverlay.Fdt.Inline.{fdt32_st}
use dtboverlay.Fdt.Read.{
  Tree, value, codes, is_old, fdt_offset_ptr_, until_nul, find_byte, same_bytes, bytes_at,
  memcmp_equal, string_at,
}
use dtboverlay.Fdt.Walk.{
  fdt_offset_ptr, skip_name, skip_begin, skip_prop, skip_tag, fdt_next_tag, check_tag_offset,
  node_loop, fdt_next_node, node_after, fdt_first_subnode, subnode_loop, fdt_next_subnode,
  find_string, fdt_find_string_, fdt_move,
}
use dtboverlay.Fdt.Ro.Names.{
  string_room, terminated, fdt_get_string, fdt_string_eq_, fdt_get_name, fdt_nodename_eq_, has_byte,
  find_subnode, fdt_subnode_offset_namelen, fdt_subnode_offset,
}
use dtboverlay.Fdt.Ro.Props.{
  nextprop_loop, nextprop_, fdt_first_property_offset, fdt_next_property_offset,
  fdt_get_property_by_offset_, find_property, fdt_get_property_namelen_, fdt_get_property_namelen,
  fdt_get_property, realigned, fdt_getprop_namelen, fdt_getprop_by_offset, fdt_getprop,
  cell_property, fdt_get_phandle,
}
use dtboverlay.Fdt.Ro.Paths.{
  component, from_slash, skip_slashes, follow, path_offset, fdt_path_offset_namelen,
  fdt_path_offset,
}
use dtboverlay.Fdt.Ro.Phandles.{
  max_phandle_loop, fdt_find_max_phandle, find_phandle, fdt_node_offset_by_phandle,
}
use dtboverlay.Fdt.Ro.Depth.{
  strip_name, write_bytes, unwind, path_loop, fdt_get_path, supernode_loop,
  fdt_supernode_atdepth_offset, fdt_node_depth, fdt_parent_offset,
}
use dtboverlay.Fdt.Write.{store_bytes, plus32}
use dtboverlay.Fdt.Wip.{fdt_setprop_inplace_namelen_partial, fdt_setprop_inplace}
use dtboverlay.Fdt.Rw.Splice.{
  fdt_blocks_misordered_, fdt_rw_probe_, fdt_data_size_, fdt_splice_, fdt_splice_struct_,
  fdt_splice_string_, fdt_find_add_string_,
}
use dtboverlay.Fdt.Rw.Change.{
  fdt_resize_property_, fdt_add_property_, fdt_setprop_placeholder, fdt_setprop, fdt_appendprop,
  skip_properties, insert_node, fdt_add_subnode_namelen, fdt_add_subnode,
}
use dtboverlay.Fdt.Overlay.Both.{
  non_null, each_offset, fdt_for_each_subnode, fdt_for_each_property_offset,
}
use dtboverlay.Fdt.Overlay.Parse.{
  parse_place, parse_fixup, overlay_get_target_phandle, path_len_loop, get_path_len, symbol_below,
  parse_symbol,
}
use dtboverlay.Fdt.Overlay.Local.{
  overlay_phandle_add_offset, overlay_adjust_node_phandles, overlay_adjust_local_phandles,
  adjust_reference, each_reference, adjust_places, adjust_property, adjust_child,
  overlay_update_local_node_references, overlay_update_local_references,
}
use dtboverlay.Fdt.Overlay.Fixups.{
  overlay_fixup_one_phandle, fixup_loop, overlay_fixup_phandle, overlay_fixup_phandles,
}
use dtboverlay.Fdt.Overlay.Merge.{
  overlay_get_target, apply_property, apply_subnode, overlay_apply_node, merge_fragment,
  overlay_merge,
}
use dtboverlay.Fdt.Overlay.Symbols.{
  write_target, target_len, target_again, add_symbol, add_parsed, update_symbol,
  overlay_symbol_update,
}
use dtboverlay.Fdt.Overlay.Apply.{apply_steps, apply_probed, fdt_overlay_apply}
use dtboverlay.Tests.Trees.{all_bytes-IsBytes}
use dtboverlay.Tests.OverlayTrees.{base_tree, one_cell_tree}
use dtboverlay.Fdt.Wip.Inplace.{
  IsReplaced, HasValue, PartialResult, fdt_setprop_inplace_namelen_partial_lem,
}
use dtboverlay.Fdt.Rw.Moves.{SpliceResult, fdt_splice_-SpliceResult}
use dtboverlay.Fdt.Addresses.{fdt_cells, fdt_address_cells, fdt_size_cells}
use dtboverlay.Fdt.Addresses.Range.{fdt_appendprop_addrrange}
use dtboverlay.Fdt.Addresses.OneCell.{fdt_appendprop_addrrange-one_cell}
use dtboverlay.Fdt.Overlay.Offsets.{overlay_phandle_add_offset_lem}
use dtboverlay.Fdt.Overlay.References.{ReferenceResult, adjust_reference_lem}

base_tree-IsBytes : IsBytes base_tree.blob.bytes
unfolding put32 put_header
base_tree-IsBytes = all_bytes-IsBytes base_tree.blob.bytes refl

base_tree-HasValue : HasValue base_tree (pos 8) (codes "phandle") 84 4
unfolding load8 can_assume fdt_get_header fdt32_ld put32 put_header is_old fdt_offset_ptr_ until_nul
    find_byte same_bytes bytes_at memcmp_equal fdt_offset_ptr skip_name skip_begin skip_prop
    skip_tag fdt_next_tag check_tag_offset node_loop fdt_next_node node_after fdt_first_subnode
    subnode_loop fdt_next_subnode find_string fdt_find_string_ fdt_move string_room terminated
    fdt_get_string fdt_string_eq_ fdt_get_name fdt_nodename_eq_ has_byte find_subnode
    fdt_subnode_offset_namelen fdt_subnode_offset nextprop_loop nextprop_ fdt_first_property_offset
    fdt_next_property_offset fdt_get_property_by_offset_ find_property fdt_get_property_namelen_
    fdt_get_property_namelen fdt_get_property realigned fdt_getprop_namelen fdt_getprop_by_offset
    fdt_getprop cell_property fdt_get_phandle component from_slash skip_slashes follow path_offset
    fdt_path_offset_namelen fdt_path_offset max_phandle_loop fdt_find_max_phandle find_phandle
    fdt_node_offset_by_phandle strip_name write_bytes unwind path_loop fdt_get_path supernode_loop
    fdt_supernode_atdepth_offset fdt_node_depth fdt_parent_offset store_bytes
    fdt_setprop_inplace_namelen_partial fdt_setprop_inplace fdt_blocks_misordered_ fdt_rw_probe_
    fdt_data_size_ fdt_splice_ fdt_splice_struct_ fdt_splice_string_ fdt_find_add_string_
    fdt_resize_property_ fdt_add_property_ fdt_setprop_placeholder fdt_setprop fdt_appendprop
    skip_properties insert_node fdt_add_subnode_namelen fdt_add_subnode non_null each_offset
    fdt_for_each_subnode fdt_for_each_property_offset parse_place parse_fixup
    overlay_get_target_phandle path_len_loop get_path_len symbol_below parse_symbol
    overlay_phandle_add_offset overlay_adjust_node_phandles overlay_adjust_local_phandles
    adjust_reference each_reference adjust_places adjust_property adjust_child
    overlay_update_local_node_references overlay_update_local_references overlay_fixup_one_phandle
    fixup_loop overlay_fixup_phandle overlay_fixup_phandles overlay_get_target apply_property
    apply_subnode overlay_apply_node merge_fragment overlay_merge write_target target_len
    target_again add_symbol add_parsed update_symbol overlay_symbol_update apply_steps apply_probed
    fdt_overlay_apply
base_tree-HasValue = record { found = refl; fits = omega arith; small = omega arith }

base_phandle : word base_tree.blob.bytes 84 ≡ 5
unfolding word put32 put_header
base_phandle = refl

abbrev new_value : List ℕ
new_value = 1 ∷ 2 ∷ 3 ∷ 4 ∷ []

base_length : length base_tree.blob.bytes ≡ 348
unfolding put32 put_header
base_length = refl

-- 2 ^ 32 - 2 bytes behind the start of the value.
fdt_setprop_inplace_namelen_partial_lem_example :
    PartialResult base_tree-HasValue (2 ^ 32 - 2) new_value
fdt_setprop_inplace_namelen_partial_lem_example =
    fdt_setprop_inplace_namelen_partial_lem base_tree-HasValue (2 ^ 32 - 2) new_value (omega arith)
      (omega arith) (omega (arith, base_length))

overlay_phandle_add_offset_lem_example :
    ((word base_tree.blob.bytes 84 + 7 < 2 ^ 32 - 1)
      × (t' : Tree) × (overlay_phandle_add_offset (pos 8) (codes "phandle") 7 base_tree
          ≡ value (pos 0, t'))
      × (word t'.blob.bytes 84 ≡ word base_tree.blob.bytes 84 + 7)
      × IsReplaced base_tree 84 (fdt32_st (word base_tree.blob.bytes 84 + 7)) t')
    ⊎ (2 ^ 32 - 1 ≤ word base_tree.blob.bytes 84 + 7)
      × (overlay_phandle_add_offset (pos 8) (codes "phandle") 7 base_tree
          ≡ value (failure nophandles, base_tree))
overlay_phandle_add_offset_lem_example =
    overlay_phandle_add_offset_lem base_tree-IsBytes base_tree-HasValue 7 (omega arith)

phandle_name : string_at base_tree 140 ≡ value (codes "phandle")
unfolding until_nul put32 put_header
phandle_name = refl

adjust_reference_lem_example : ReferenceResult base_tree (pos 8) 84 4 140 0 7
adjust_reference_lem_example =
    adjust_reference_lem base_tree-IsBytes base_tree-HasValue phandle_name 0 7 (omega arith)
      (omega (arith, base_length))

base_tree-HasHeader : HasHeader base_tree.blob
unfolding put32 put_header
base_tree-HasHeader = record { are_bytes = base_tree-IsBytes; long_enough = omega arith }

base_total : field base_tree.blob.bytes totalsize ≡ 348
unfolding field word put32 put_header
base_total = refl

base_end :
    plus32 (field base_tree.blob.bytes off_dt_strings) (field base_tree.blob.bytes size_dt_strings)
    ≡ 148
unfolding field word put32 put_header
base_end = refl

-- 8 bytes more after the value.
fdt_splice_-SpliceResult_example : SpliceResult base_tree 88 0 8
fdt_splice_-SpliceResult_example =
    fdt_splice_-SpliceResult base_tree 88 0 8 base_tree-HasHeader
      (omega (arith, base_total, base_length)) (omega (arith, base_end, base_length))
      (omega (arith, base_end)) (omega arith) (omega arith) (omega arith)

one_cell_address : fdt_address_cells one_cell_tree (pos 0) ≡ value (pos 1)
unfolding load8 can_assume fdt_get_header fdt32_ld put32 put_header is_old fdt_offset_ptr_ until_nul
    find_byte same_bytes bytes_at memcmp_equal fdt_offset_ptr skip_name skip_begin skip_prop
    skip_tag fdt_next_tag check_tag_offset node_loop fdt_next_node node_after fdt_first_subnode
    subnode_loop fdt_next_subnode find_string fdt_find_string_ fdt_move string_room terminated
    fdt_get_string fdt_string_eq_ fdt_get_name fdt_nodename_eq_ has_byte find_subnode
    fdt_subnode_offset_namelen fdt_subnode_offset nextprop_loop nextprop_ fdt_first_property_offset
    fdt_next_property_offset fdt_get_property_by_offset_ find_property fdt_get_property_namelen_
    fdt_get_property_namelen fdt_get_property realigned fdt_getprop_namelen fdt_getprop_by_offset
    fdt_getprop cell_property fdt_get_phandle component from_slash skip_slashes follow path_offset
    fdt_path_offset_namelen fdt_path_offset max_phandle_loop fdt_find_max_phandle find_phandle
    fdt_node_offset_by_phandle strip_name write_bytes unwind path_loop fdt_get_path supernode_loop
    fdt_supernode_atdepth_offset fdt_node_depth fdt_parent_offset store_bytes
    fdt_setprop_inplace_namelen_partial fdt_setprop_inplace fdt_blocks_misordered_ fdt_rw_probe_
    fdt_data_size_ fdt_splice_ fdt_splice_struct_ fdt_splice_string_ fdt_find_add_string_
    fdt_resize_property_ fdt_add_property_ fdt_setprop_placeholder fdt_setprop fdt_appendprop
    skip_properties insert_node fdt_add_subnode_namelen fdt_add_subnode non_null each_offset
    fdt_for_each_subnode fdt_for_each_property_offset parse_place parse_fixup
    overlay_get_target_phandle path_len_loop get_path_len symbol_below parse_symbol
    overlay_phandle_add_offset overlay_adjust_node_phandles overlay_adjust_local_phandles
    adjust_reference each_reference adjust_places adjust_property adjust_child
    overlay_update_local_node_references overlay_update_local_references overlay_fixup_one_phandle
    fixup_loop overlay_fixup_phandle overlay_fixup_phandles overlay_get_target apply_property
    apply_subnode overlay_apply_node merge_fragment overlay_merge write_target target_len
    target_again add_symbol add_parsed update_symbol overlay_symbol_update apply_steps apply_probed
    fdt_overlay_apply fdt_cells fdt_address_cells
one_cell_address = refl

one_cell_size : fdt_size_cells one_cell_tree (pos 0) ≡ value (pos 1)
unfolding load8 can_assume fdt_get_header fdt32_ld put32 put_header is_old fdt_offset_ptr_ until_nul
    find_byte same_bytes bytes_at memcmp_equal fdt_offset_ptr skip_name skip_begin skip_prop
    skip_tag fdt_next_tag check_tag_offset node_loop fdt_next_node node_after fdt_first_subnode
    subnode_loop fdt_next_subnode find_string fdt_find_string_ fdt_move string_room terminated
    fdt_get_string fdt_string_eq_ fdt_get_name fdt_nodename_eq_ has_byte find_subnode
    fdt_subnode_offset_namelen fdt_subnode_offset nextprop_loop nextprop_ fdt_first_property_offset
    fdt_next_property_offset fdt_get_property_by_offset_ find_property fdt_get_property_namelen_
    fdt_get_property_namelen fdt_get_property realigned fdt_getprop_namelen fdt_getprop_by_offset
    fdt_getprop cell_property fdt_get_phandle component from_slash skip_slashes follow path_offset
    fdt_path_offset_namelen fdt_path_offset max_phandle_loop fdt_find_max_phandle find_phandle
    fdt_node_offset_by_phandle strip_name write_bytes unwind path_loop fdt_get_path supernode_loop
    fdt_supernode_atdepth_offset fdt_node_depth fdt_parent_offset store_bytes
    fdt_setprop_inplace_namelen_partial fdt_setprop_inplace fdt_blocks_misordered_ fdt_rw_probe_
    fdt_data_size_ fdt_splice_ fdt_splice_struct_ fdt_splice_string_ fdt_find_add_string_
    fdt_resize_property_ fdt_add_property_ fdt_setprop_placeholder fdt_setprop fdt_appendprop
    skip_properties insert_node fdt_add_subnode_namelen fdt_add_subnode non_null each_offset
    fdt_for_each_subnode fdt_for_each_property_offset parse_place parse_fixup
    overlay_get_target_phandle path_len_loop get_path_len symbol_below parse_symbol
    overlay_phandle_add_offset overlay_adjust_node_phandles overlay_adjust_local_phandles
    adjust_reference each_reference adjust_places adjust_property adjust_child
    overlay_update_local_node_references overlay_update_local_references overlay_fixup_one_phandle
    fixup_loop overlay_fixup_phandle overlay_fixup_phandles overlay_get_target apply_property
    apply_subnode overlay_apply_node merge_fragment overlay_merge write_target target_len
    target_again add_symbol add_parsed update_symbol overlay_symbol_update apply_steps apply_probed
    fdt_overlay_apply fdt_cells fdt_size_cells
one_cell_size = refl

abbrev no_addr : ℕ
no_addr = 0

abbrev sixteen : ℕ
sixteen = 16

-- A range of 16 bytes from the address 0.
fdt_appendprop_addrrange-one_cell_example :
    (((2 ^ 32 ≤ no_addr) ⊎ ((no_addr ≡ 0) × (0 < sixteen)) ⊎ (2 ^ 32 ≤ sixteen))
      × (fdt_appendprop_addrrange (pos 0) (pos 0) (codes "reg") no_addr sixteen one_cell_tree
          ≡ value (failure badvalue, one_cell_tree)))
    ⊎ (no_addr < 2 ^ 32)
      × (sixteen < 2 ^ 32)
      × ((0 < no_addr) ⊎ (sixteen ≡ 0))
      × (fdt_appendprop_addrrange (pos 0) (pos 0) (codes "reg") no_addr sixteen one_cell_tree
          ≡ fdt_appendprop
              (pos 0)
              (codes "reg")
              (fdt32_st no_addr ++ fdt32_st sixteen)
              one_cell_tree)
fdt_appendprop_addrrange-one_cell_example =
    fdt_appendprop_addrrange-one_cell one_cell_tree (pos 0) one_cell_address one_cell_size (pos 0)
      (codes "reg") no_addr sixteen (omega arith) (omega arith)
