-- ===== src/Tests/WriteRuns.antt =====
-- The results on the functions that write a blob, each at one of the blobs, and a blob that is written
-- and read.
use dtboverlay.Base.{
  ℕ, ◌+◌, ◌^◌, ◌<◌, ◌≡◌, inl, refl, List, [], ◌∷◌, Option, some, none, replicate, arith,
}
use dtboverlay.Base.Int.{ℤ, pos, negsuc}
use dtboverlay.Memory.{byte, load8}
use dtboverlay.Fdt.Assume.{can_assume}
use dtboverlay.Fdt.Header.{
  Field, totalsize, off_dt_struct, off_dt_strings, off_mem_rsvmap, version, last_comp_version,
  boot_cpuid_phys, size_dt_strings, size_dt_struct, magic, fdt_get_header, fdt32_ld,
}
use dtboverlay.Fdt.Layout.{field, HasHeader}
use dtboverlay.Fdt.Word.{word}
use dtboverlay.Fdt.Encode.{put32, put_header, put_header-HasHeader, blob}
use dtboverlay.Fdt.Read
use dtboverlay.Fdt.Read.{
  Tree, codes, Found, is_old, fdt_offset_ptr_, until_nul, find_byte, same_bytes, bytes_at,
  memcmp_equal,
}
use dtboverlay.Fdt.Tags.{tag_begin_node}
use dtboverlay.Fdt.Walk.{
  fdt_offset_ptr, skip_name, skip_begin, skip_prop, skip_tag, fdt_next_tag, check_tag_offset,
  find_string, fdt_find_string_,
}
use dtboverlay.Fdt.Ro.Names.{fdt_sw_magic, string_room, terminated, fdt_get_string, fdt_string_eq_}
use dtboverlay.Fdt.Ro.Props.{
  nextprop_loop, nextprop_, fdt_first_property_offset, fdt_next_property_offset,
  fdt_get_property_by_offset_, find_property, fdt_get_property_namelen_, realigned,
  fdt_getprop_namelen, fdt_getprop,
}
use dtboverlay.Fdt.Write.{Edit, ◌>>=◌, pure, reading, store_bytes}
use dtboverlay.Fdt.Wip.{fdt_setprop_inplace_namelen_partial, fdt_setprop_inplace}
use dtboverlay.Fdt.Sw.Space.{
  fdt_create, fdt_create_with_flags, fdt_sw_probe_, fdt_sw_probe_memrsv_, fdt_sw_probe_struct_,
  fdt_grab_space_,
}
use dtboverlay.Fdt.Sw.Build.{
  fdt_add_reservemap_entry, fdt_finish_reservemap, fdt_begin_node, fdt_end_node, fdt_add_string_,
  fdt_find_add_string_, fdt_property_placeholder, fdt_property,
}
use dtboverlay.Fdt.Sw.Finish.{finish_loop, fdt_finish}
use dtboverlay.Fdt.Sw.Room.{IsWriting, top}
use dtboverlay.Fdt.Sw.Nodes.{Adds, fdt_begin_node-Adds}
use dtboverlay.Fdt.Sw.States.{Refuses, struct_functions-Refuses}
use dtboverlay.Tests.Blobs.{zeros-IsBytes}
use dtboverlay.Tests.Trees.{two_node_tree, two_node_tree-IsLoaded}

-- The header in the `struct` state, with no node yet.
abbrev writing_fields : Field → ℕ
writing_fields magic = fdt_sw_magic
writing_fields totalsize = 160
writing_fields off_dt_struct = 64
writing_fields off_dt_strings = 160
writing_fields off_mem_rsvmap = 48
writing_fields version = 17
writing_fields last_comp_version = 0
writing_fields boot_cpuid_phys = 0
writing_fields size_dt_strings = 0
writing_fields size_dt_struct = 0

writing_fields-fit : (f : Field) → writing_fields f < 2 ^ 32
writing_fields-fit magic = omega arith
writing_fields-fit totalsize = omega arith
writing_fields-fit off_dt_struct = omega arith
writing_fields-fit off_dt_strings = omega arith
writing_fields-fit off_mem_rsvmap = omega arith
writing_fields-fit version = omega arith
writing_fields-fit last_comp_version = omega arith
writing_fields-fit boot_cpuid_phys = omega arith
writing_fields-fit size_dt_strings = omega arith
writing_fields-fit size_dt_struct = omega arith

abbrev writing_tree : Tree
writing_tree = record {
  assumed = 0;
  blob = blob 4096 writing_fields (replicate 120 0);
  ro_probe = pos 160;
  fuel = 60;
}

writing_tree-HasHeader : HasHeader writing_tree.blob
writing_tree-HasHeader =
    put_header-HasHeader 4096 writing_fields (replicate 120 0) writing_fields-fit
      (zeros-IsBytes 120)

writing_tree-IsWriting : IsWriting writing_tree
unfolding field word put_header put32
writing_tree-IsWriting = record {
  no_mask = refl;
  has = writing_tree-HasHeader;
  unfinished = refl;
  in_struct = refl;
  after_header = omega arith;
  apart = omega arith;
  whole = omega arith;
  small = omega arith;
}

fdt_begin_node-Adds_example :
    Adds writing_tree 8
      (λ t'.
        (word t'.blob.bytes (top writing_tree) ≡ tag_begin_node)
        × ((i : ℕ)
            → i < 3
            → byte t'.blob.bytes (top writing_tree + 4 + i) ≡ byte (97 ∷ 98 ∷ 0 ∷ []) i))
      (fdt_begin_node (97 ∷ 98 ∷ []) writing_tree)
fdt_begin_node-Adds_example =
    fdt_begin_node-Adds writing_tree-IsWriting (97 ∷ 98 ∷ []) (omega arith, (omega arith, tt))
      (omega arith)

two_nodes_finished : field two_node_tree.blob.bytes magic ≡ 0xd00dfeed
unfolding field word put_header put32
two_nodes_finished = refl

struct_functions-Refuses_example :
    Refuses two_node_tree (fdt_begin_node (97 ∷ []))
    × Refuses two_node_tree fdt_end_node
    × Refuses two_node_tree (fdt_property (97 ∷ []) (1 ∷ []))
    × Refuses two_node_tree fdt_finish
struct_functions-Refuses_example =
    struct_functions-Refuses two_node_tree refl two_node_tree-IsLoaded.has (inl two_nodes_finished)
      (97 ∷ []) (1 ∷ [])

-- A root with the property `x` and the node `ab` with another `x`, which is changed after it was written.
abbrev fresh : Tree
fresh = record {
  assumed = 0;
  blob = record { addr = 4096; bytes = replicate 160 9 };
  ro_probe = pos 160;
  fuel = 60;
}

abbrev script : Edit (List ℤ × (Found × Found))
script = do
  created ← fdt_create (pos 160)
  reserved ← fdt_finish_reservemap
  root ← fdt_begin_node []
  x ← fdt_property (codes "x") (1 ∷ 2 ∷ 3 ∷ [])
  node ← fdt_begin_node (codes "ab")
  y ← fdt_property (codes "x") (4 ∷ [])
  node_end ← fdt_end_node
  root_end ← fdt_end_node
  finished ← fdt_finish
  changed ← fdt_setprop_inplace (pos 24) (codes "x") (5 ∷ [])
  late ← fdt_end_node
  at_root ← reading (λ t. fdt_getprop t (pos 0) (codes "x"))
  at_node ← reading (λ t. fdt_getprop t (pos 24) (codes "x"))
  pure (
    created ∷ reserved ∷ root ∷ x ∷ node ∷ y ∷ node_end ∷ root_end ∷ finished ∷ changed ∷ late ∷ [],
    (at_root, at_node),
  )

abbrev pub answer : {A : Type 0} → Read.Read (A × Tree) → Option A
answer (Read.value r) = some r.0
answer Read.outside = none
answer Read.spent = none

written_and_read :
    answer (script fresh)
    ≡ some (
      pos 0 ∷ pos 0 ∷ pos 0 ∷ pos 0 ∷ pos 0 ∷ pos 0 ∷ pos 0 ∷ pos 0 ∷ pos 0 ∷ pos 0 ∷ negsuc 6 ∷ [],
      ((some 84, pos 3), (some 108, pos 1)),
    )
unfolding load8 can_assume fdt_get_header fdt32_ld put32 is_old fdt_offset_ptr_ until_nul find_byte
    same_bytes bytes_at memcmp_equal fdt_offset_ptr skip_name skip_begin skip_prop skip_tag
    fdt_next_tag check_tag_offset string_room terminated fdt_get_string fdt_string_eq_ nextprop_loop
    nextprop_ fdt_first_property_offset fdt_next_property_offset fdt_get_property_by_offset_
    find_property fdt_get_property_namelen_ realigned fdt_getprop_namelen fdt_getprop find_string
    fdt_find_string_ store_bytes fdt_setprop_inplace_namelen_partial fdt_setprop_inplace fdt_create
    fdt_create_with_flags fdt_sw_probe_ fdt_sw_probe_memrsv_ fdt_sw_probe_struct_ fdt_grab_space_
    fdt_add_reservemap_entry fdt_finish_reservemap fdt_begin_node fdt_end_node fdt_add_string_
    fdt_find_add_string_ fdt_property_placeholder fdt_property finish_loop fdt_finish
written_and_read = refl
