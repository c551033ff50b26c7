-- ===== src/Fdt/Rw/Frame.antt =====
-- No change of libfdt/fdt_rw.c that an overlay makes changes the size or the place of the buffer.
use dtboverlay.Base.{ℕ, zero, suc, List}
use dtboverlay.Base.Int.{ℤ}
use dtboverlay.Fdt.Write.Keeps.{Keeps, HasShape, keeps_rules}
use dtboverlay.Fdt.Rw.Splice.{
  fdt_blocks_misordered_, fdt_rw_probe_, fdt_data_size_, fdt_splice_, fdt_splice_mem_rsv_,
  fdt_splice_struct_, fdt_del_last_string_, fdt_splice_string_, fdt_find_add_string_,
}
use dtboverlay.Fdt.Rw.Change.{
  fdt_resize_property_, fdt_add_property_, fdt_setprop_placeholder, fdt_setprop, skip_properties,
  insert_node, fdt_add_subnode_namelen, fdt_add_subnode,
}

module _ {z : ℕ × ℕ × ℕ} where
  pub fdt_rw_probe_-Keeps : Keeps (HasShape z) fdt_rw_probe_
  unfolding fdt_rw_probe_ fdt_blocks_misordered_
  fdt_rw_probe_-Keeps = search keeps_rules depth 40

  pub fdt_splice_-Keeps :
      (p : ℕ) (oldlen newlen : ℤ) → Keeps (HasShape z) (fdt_splice_ p oldlen newlen)
  unfolding fdt_splice_ fdt_data_size_
  fdt_splice_-Keeps p oldlen newlen = search keeps_rules depth 40

  pub fdt_splice_mem_rsv_-Keeps :
      (p : ℕ) (oldn newn : ℤ) → Keeps (HasShape z) (fdt_splice_mem_rsv_ p oldn newn)
  unfolding fdt_splice_mem_rsv_
  fdt_splice_mem_rsv_-Keeps p oldn newn = search (keeps_rules, fdt_splice_-Keeps) depth 40

  pub fdt_splice_struct_-Keeps :
      (p : ℕ) (oldlen newlen : ℤ) → Keeps (HasShape z) (fdt_splice_struct_ p oldlen newlen)
  unfolding fdt_splice_struct_
  fdt_splice_struct_-Keeps p oldlen newlen = search (keeps_rules, fdt_splice_-Keeps) depth 40

  pub fdt_del_last_string_-Keeps : (s : List ℕ) → Keeps (HasShape z) (fdt_del_last_string_ s)
  unfolding fdt_del_last_string_
  fdt_del_last_string_-Keeps s = search keeps_rules depth 40

  pub fdt_splice_string_-Keeps : (newlen : ℤ) → Keeps (HasShape z) (fdt_splice_string_ newlen)
  unfolding fdt_splice_string_
  fdt_splice_string_-Keeps newlen = search (keeps_rules, fdt_splice_-Keeps) depth 40

  pub fdt_find_add_string_-Keeps : (s : List ℕ) → Keeps (HasShape z) (fdt_find_add_string_ s)
  unfolding fdt_find_add_string_
  fdt_find_add_string_-Keeps s = search (keeps_rules, fdt_splice_string_-Keeps) depth 40

  pub fdt_resize_property_-Keeps :
      (nodeoffset : ℤ) (name : List ℕ) (len : ℤ)
      → Keeps (HasShape z) (fdt_resize_property_ nodeoffset name len)
  unfolding fdt_resize_property_
  fdt_resize_property_-Keeps nodeoffset name len =
      search (keeps_rules, fdt_splice_struct_-Keeps) depth 40

  pub fdt_add_property_-Keeps :
      (nodeoffset : ℤ) (name : List ℕ) (len : ℤ)
      → Keeps (HasShape z) (fdt_add_property_ nodeoffset name len)
  unfolding fdt_add_property_
  fdt_add_property_-Keeps nodeoffset name len =
      search
        (
          keeps_rules, fdt_splice_struct_-Keeps, fdt_find_add_string_-Keeps,
          fdt_del_last_string_-Keeps,
        )
        depth 40

  pub fdt_setprop_placeholder-Keeps :
      (nodeoffset : ℤ) (name : List ℕ) (len : ℤ)
      → Keeps (HasShape z) (fdt_setprop_placeholder nodeoffset name len)
  unfolding fdt_setprop_placeholder
  fdt_setprop_placeholder-Keeps nodeoffset name len =
      search (keeps_rules, fdt_rw_probe_-Keeps, fdt_resize_property_-Keeps, fdt_add_property_-Keeps)
        depth 40

  pub fdt_setprop-Keeps :
      (nodeoffset : ℤ) (name val : List ℕ) → Keeps (HasShape z) (fdt_setprop nodeoffset name val)
  unfolding fdt_setprop
  fdt_setprop-Keeps nodeoffset name val =
      search (keeps_rules, fdt_setprop_placeholder-Keeps) depth 40

  pub skip_properties-Keeps : (n : ℕ) (offset : ℤ) → Keeps (HasShape z) (skip_properties n offset)
  unfolding skip_properties
  skip_properties-Keeps zero offset = search keeps_rules depth 40
  skip_properties-Keeps (suc n) offset = search (keeps_rules, skip_properties-Keeps n) depth 40

  pub insert_node-Keeps :
      (offset : ℤ) (name : List ℕ) → Keeps (HasShape z) (insert_node offset name)
  unfolding insert_node
  insert_node-Keeps offset name = search (keeps_rules, fdt_splice_struct_-Keeps) depth 40

  pub fdt_add_subnode_namelen-Keeps :
      (parentoffset : ℤ) (name : List ℕ)
      → Keeps (HasShape z) (fdt_add_subnode_namelen parentoffset name)
  unfolding fdt_add_subnode_namelen
  fdt_add_subnode_namelen-Keeps parentoffset name =
      search (keeps_rules, fdt_rw_probe_-Keeps, skip_properties-Keeps, insert_node-Keeps) depth 40

  pub fdt_add_subnode-Keeps :
      (parentoffset : ℤ) (name : List ℕ) → Keeps (HasShape z) (fdt_add_subnode parentoffset name)
  unfolding fdt_add_subnode
  fdt_add_subnode-Keeps parentoffset name =
      search (keeps_rules, fdt_add_subnode_namelen-Keeps) depth 40
