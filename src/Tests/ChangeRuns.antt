-- ===== src/Tests/ChangeRuns.antt =====
-- A blob that is opened into a larger buffer, changed and packed.
use dtboverlay.Base.{◌≡◌, refl, List, [], ◌∷◌, ◌++◌, some, replicate}
use dtboverlay.Base.Int.{ℤ, pos}
use dtboverlay.Memory.{load8}
use dtboverlay.Fdt.Assume.{can_assume}
use dtboverlay.Fdt.Header.{fdt_get_header, fdt32_ld}
use dtboverlay.Fdt.Encode.{put32, put_header}
use dtboverlay.Fdt.Read.{
  Tree, codes, Found, is_old, fdt_offset_ptr_, until_nul, find_byte, same_bytes, bytes_at,
  memcmp_equal, read64,
}
use dtboverlay.Fdt.Walk.{
  fdt_offset_ptr, skip_name, skip_begin, skip_prop, skip_tag, fdt_next_tag, check_tag_offset,
  node_loop, fdt_next_node, find_string, fdt_find_string_, fdt_move,
}
use dtboverlay.Fdt.Ro.Names.{
  string_room, terminated, fdt_get_string, fdt_string_eq_, fdt_get_name, fdt_nodename_eq_, has_byte,
  find_subnode, fdt_subnode_offset_namelen,
}
use dtboverlay.Fdt.Ro.Props.{
  nextprop_loop, nextprop_, fdt_first_property_offset, fdt_next_property_offset,
  fdt_get_property_by_offset_, find_property, fdt_get_property_namelen_, fdt_get_property_namelen,
  fdt_get_property, realigned, fdt_getprop_namelen, fdt_getprop,
}
use dtboverlay.Fdt.Ro.Reserve.{fdt_mem_rsv_, fdt_mem_rsv, count_mem_rsv, fdt_num_mem_rsv}
use dtboverlay.Fdt.Ro.Paths.{
  component, from_slash, skip_slashes, follow, path_offset, fdt_path_offset_namelen,
  fdt_path_offset,
}
use dtboverlay.Fdt.Write.{Edit, ◌>>=◌, pure, reading, store_bytes}
use dtboverlay.Fdt.Wip.Ends.{end_loop, fdt_node_end_offset_}
use dtboverlay.Fdt.Rw.Splice.{
  fdt_blocks_misordered_, fdt_rw_probe_, fdt_data_size_, fdt_splice_, fdt_splice_mem_rsv_,
  fdt_splice_struct_, fdt_splice_string_, fdt_find_add_string_,
}
use dtboverlay.Fdt.Rw.Change.{
  fdt_add_mem_rsv, fdt_resize_property_, fdt_add_property_, fdt_set_name, fdt_setprop_placeholder,
  fdt_setprop, fdt_appendprop, fdt_delprop, skip_properties, insert_node, fdt_add_subnode_namelen,
  fdt_add_subnode, fdt_del_node,
}
use dtboverlay.Fdt.Rw.Open.{fdt_packblocks_, fdt_pack, measured, open_ordered, fdt_open_into}
use dtboverlay.Fdt.Sw.Space.{
  fdt_create, fdt_create_with_flags, fdt_sw_probe_, fdt_sw_probe_memrsv_, fdt_sw_probe_struct_,
  fdt_grab_space_,
}
use dtboverlay.Fdt.Sw.Build.{
  fdt_add_reservemap_entry, fdt_finish_reservemap, fdt_begin_node, fdt_end_node,
}
use dtboverlay.Fdt.Sw.Finish.{finish_loop, fdt_finish}
use dtboverlay.Fdt.EmptyTree.{fdt_create_empty_tree}
use dtboverlay.Tests.Trees.{two_node_tree}
use dtboverlay.Tests.WriteRuns.{answer}

abbrev roomy : Tree
roomy = record {
  assumed = 0;
  blob = record { addr = 4096; bytes = two_node_tree.blob.bytes ++ replicate 200 9 };
  ro_probe = pos 300;
  fuel = 200;
}

abbrev script : Edit (List ℤ × Found)
script = do
  opened ← fdt_open_into 0 0 (pos 300)
  set ← fdt_setprop (pos 0) (codes "new") (1 ∷ 2 ∷ 3 ∷ [])
  a ← reading (λ t. fdt_path_offset t (codes "/a"))
  kid ← fdt_add_subnode a (codes "kid")
  longer ← fdt_appendprop (pos 0) (codes "new") (4 ∷ 5 ∷ [])
  moved ← reading (λ t. fdt_path_offset t (codes "/a/kid"))
  renamed ← fdt_set_name moved (codes "longer")
  reserved ← fdt_add_mem_rsv 1 2
  found ← reading (λ t. fdt_path_offset t (codes "/a/longer"))
  deleted ← fdt_del_node found
  dropped ← fdt_delprop (pos 0) (codes "phandle")
  new ← reading (λ t. fdt_getprop t (pos 0) (codes "new"))
  packed ← fdt_pack
  pure (
    opened ∷ set ∷ a ∷ kid ∷ longer ∷ moved ∷ renamed ∷ reserved ∷ found ∷ deleted ∷ dropped
        ∷ packed ∷ [],
    new,
  )

changed_and_packed :
    answer (script roomy)
    ≡ some (
      pos 0
          ∷ pos 0
          ∷ pos 40
          ∷ pos 64
          ∷ pos 0
          ∷ pos 68
          ∷ pos 0
          ∷ pos 0
          ∷ pos 68
          ∷ pos 0
          ∷ pos 0
          ∷ pos 0
          ∷ [],
      (some 92, pos 5),
    )
unfolding load8 can_assume fdt_get_header fdt32_ld put32 put_header is_old fdt_offset_ptr_ until_nul
    find_byte same_bytes bytes_at memcmp_equal read64 fdt_offset_ptr skip_name skip_begin skip_prop
    skip_tag fdt_next_tag check_tag_offset node_loop fdt_next_node find_string fdt_find_string_
    fdt_move string_room terminated fdt_get_string fdt_string_eq_ fdt_get_name fdt_nodename_eq_
    has_byte find_subnode fdt_subnode_offset_namelen nextprop_loop nextprop_
    fdt_first_property_offset fdt_next_property_offset fdt_get_property_by_offset_ find_property
    fdt_get_property_namelen_ fdt_get_property_namelen fdt_get_property realigned
    fdt_getprop_namelen fdt_getprop fdt_mem_rsv_ fdt_mem_rsv count_mem_rsv fdt_num_mem_rsv component
    from_slash skip_slashes follow path_offset fdt_path_offset_namelen fdt_path_offset store_bytes
    end_loop fdt_node_end_offset_ fdt_blocks_misordered_ fdt_rw_probe_ fdt_data_size_ fdt_splice_
    fdt_splice_mem_rsv_ fdt_splice_struct_ fdt_splice_string_ fdt_find_add_string_ fdt_add_mem_rsv
    fdt_resize_property_ fdt_add_property_ fdt_set_name fdt_setprop_placeholder fdt_setprop
    fdt_appendprop fdt_delprop skip_properties insert_node fdt_add_subnode_namelen fdt_add_subnode
    fdt_del_node fdt_packblocks_ fdt_pack measured open_ordered fdt_open_into
changed_and_packed = refl

abbrev blank_buffer : Tree
blank_buffer = record {
  assumed = 0;
  blob = record { addr = 4096; bytes = replicate 120 9 };
  ro_probe = pos 120;
  fuel = 40;
}

-- An empty tree is a root that the path `/` leads to.
empty_tree :
    answer (
      (do
        made ← fdt_create_empty_tree (pos 120)
        root ← reading (λ t. fdt_path_offset t (codes "/"))
        pure (made ∷ root ∷ []))
        blank_buffer)
    ≡ some (pos 0 ∷ pos 0 ∷ [])
unfolding load8 can_assume fdt_get_header fdt32_ld put32 fdt_offset_ptr_ fdt_offset_ptr skip_name
    skip_begin skip_prop skip_tag fdt_next_tag is_old read64 bytes_at fdt_move fdt_mem_rsv_
    fdt_mem_rsv count_mem_rsv fdt_num_mem_rsv component from_slash skip_slashes follow path_offset
    fdt_path_offset_namelen fdt_path_offset store_bytes fdt_blocks_misordered_ measured open_ordered
    fdt_open_into fdt_sw_probe_ fdt_sw_probe_memrsv_ fdt_sw_probe_struct_ fdt_grab_space_ fdt_create
    fdt_create_with_flags fdt_add_reservemap_entry fdt_finish_reservemap fdt_begin_node fdt_end_node
    finish_loop fdt_finish fdt_create_empty_tree
empty_tree = refl
