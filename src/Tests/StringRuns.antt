-- ===== src/Tests/StringRuns.antt =====
-- The results on the strings of a blob, each at one of the blobs.
use dtboverlay.Base.{ℕ, ◌-◌, ◌^◌, ◌≡◌, refl, List, [], ◌∷◌, ◌++◌, true, some, drop, arith}
use dtboverlay.Base.Int.{pos, negsuc}
use dtboverlay.Memory.{load8}
use dtboverlay.Fdt.Assume.{can_assume}
use dtboverlay.Fdt.Header.{fdt_get_header, fdt32_ld}
use dtboverlay.Fdt.Encode.{put32, put_header}
use dtboverlay.Fdt.Read.{
  value, outside, spent, codes, string_at, is_old, fdt_offset_ptr_, until_nul, find_byte,
  same_bytes, bytes_at, memcmp_equal,
}
use dtboverlay.Fdt.Walk.{
  fdt_offset_ptr, skip_name, skip_begin, skip_prop, skip_tag, fdt_next_tag, check_tag_offset,
  node_loop, fdt_next_node,
}
use dtboverlay.Fdt.Ro.Names.{
  string_room, terminated, fdt_get_string, fdt_string_eq_, fdt_get_name, fdt_nodename_eq_,
  find_subnode, fdt_subnode_offset_namelen,
}
use dtboverlay.Fdt.Ro.Props.{
  nextprop_loop, nextprop_, fdt_first_property_offset, fdt_next_property_offset,
  fdt_get_property_by_offset_, find_property, fdt_get_property_namelen_, realigned,
  fdt_getprop_namelen, fdt_getprop,
}
use dtboverlay.Fdt.Ro.Lists.{
  starts_with, contains_loop, fdt_stringlist_contains, fdt_stringlist_get,
}
use dtboverlay.Fdt.Ro.Strings.{fdt_stringlist_contains-packed, packed}
use dtboverlay.Fdt.Ro.Counts.{HoldsStrings, fdt_stringlist_get-packed}
use dtboverlay.Fdt.Ro.Text.{HasText, fdt_get_string-HasText}
use dtboverlay.Fdt.Ro.Paths.{component, from_slash, skip_slashes, follow, path_offset}
use dtboverlay.Fdt.Ro.Aliases.{IsOwnAlias, path_offset-spent}
use dtboverlay.Fdt.Ro.Depth.{strip_name, write_bytes, unwind, path_loop, fdt_get_path}
use dtboverlay.Fdt.Strerror.{fdt_strerror}
use dtboverlay.Fdt.Addresses.{fdt_cells, fdt_address_cells}
use dtboverlay.Tests.Trees.{two_node_tree, alias_tree, cells_tree, two_node_tree-IsLoaded}

fdt_get_string-HasText_example :
    HasText two_node_tree-IsLoaded 2 (fdt_get_string two_node_tree true (pos 2))
fdt_get_string-HasText_example = fdt_get_string-HasText two_node_tree-IsLoaded 2 (omega arith)

-- `a` and `bc`
abbrev two_strings : List (List ℕ)
two_strings = (97 ∷ []) ∷ (98 ∷ 99 ∷ []) ∷ []

fdt_stringlist_contains-packed_example :
    fdt_stringlist_contains (packed two_strings ++ 255 ∷ []) 5 (98 ∷ 99 ∷ []) ≡ value true
unfolding same_bytes
fdt_stringlist_contains-packed_example =
    fdt_stringlist_contains-packed two_strings (98 ∷ 99 ∷ []) 255 []
      ((omega arith, tt), ((omega arith, (omega arith, tt)), tt)) (omega arith, (omega arith, tt))
      (omega arith)

-- The comparison reads a byte after the list, here the byte after the object.
reads_after_the_list : fdt_stringlist_contains (97 ∷ 98 ∷ 0 ∷ []) 3 (97 ∷ 98 ∷ 99 ∷ []) ≡ outside
unfolding fdt_stringlist_contains contains_loop starts_with
reads_after_the_list = refl

abbrev after_strings : List ℕ
after_strings = drop 81 alias_tree.blob.bytes

two_strings-HoldsStrings :
    HoldsStrings alias_tree (pos 0) (codes "compatible") 76 two_strings after_strings
unfolding load8 can_assume fdt_get_header fdt32_ld put32 put_header is_old fdt_offset_ptr_ until_nul
    find_byte same_bytes bytes_at memcmp_equal fdt_offset_ptr skip_name skip_begin skip_prop
    skip_tag fdt_next_tag check_tag_offset string_room terminated fdt_get_string fdt_string_eq_
    nextprop_loop nextprop_ fdt_first_property_offset fdt_next_property_offset
    fdt_get_property_by_offset_ find_property fdt_get_property_namelen_ realigned
    fdt_getprop_namelen fdt_getprop
two_strings-HoldsStrings = record {
  found = refl;
  content = refl;
  texts = ((omega arith, tt), ((omega arith, (omega arith, tt)), tt));
}

fdt_stringlist_get-packed_example :
    (q : ℕ) × (fdt_stringlist_get alias_tree (pos 0) (codes "compatible") (pos 1)
      ≡ value (some q, pos 2))
    × (string_at alias_tree q ≡ value (98 ∷ 99 ∷ []))
fdt_stringlist_get-packed_example =
    fdt_stringlist_get-packed two_strings-HoldsStrings 1 (98 ∷ 99 ∷ []) refl

own-IsOwnAlias : IsOwnAlias alias_tree (codes "x") 28 108 (pos 0)
unfolding load8 can_assume fdt_get_header fdt32_ld put32 put_header is_old fdt_offset_ptr_ until_nul
    find_byte same_bytes bytes_at memcmp_equal fdt_offset_ptr skip_name skip_begin skip_prop
    skip_tag fdt_next_tag check_tag_offset string_room terminated fdt_get_string fdt_string_eq_
    nextprop_loop nextprop_ fdt_first_property_offset fdt_next_property_offset
    fdt_get_property_by_offset_ find_property fdt_get_property_namelen_ realigned
    fdt_getprop_namelen node_loop fdt_next_node fdt_get_name fdt_nodename_eq_ find_subnode
    fdt_subnode_offset_namelen component from_slash skip_slashes follow
own-IsOwnAlias = record {
  probed_well = refl;
  relative = refl;
  whole = refl;
  at = refl;
  found = refl;
  same = refl;
}

path_offset-spent_example : path_offset alias_tree 1000000 (codes "x") 0 ≡ spent
path_offset-spent_example = path_offset-spent own-IsOwnAlias 1000000

-- An offset behind the tree: the walk leaves the root, and the loop over the last name reads `buf[-1]`.
reads_before_the_buffer : fdt_get_path two_node_tree (pos 100) (1 ∷ 1 ∷ 1 ∷ 1 ∷ []) ≡ outside
unfolding load8 can_assume fdt_get_header fdt32_ld put32 put_header is_old fdt_offset_ptr_ until_nul
    fdt_offset_ptr skip_name skip_begin skip_prop skip_tag fdt_next_tag check_tag_offset node_loop
    fdt_next_node fdt_get_name strip_name write_bytes unwind path_loop fdt_get_path
reads_before_the_buffer = refl

-- The least `int` has no negative, which `fdt_strerror` takes as an index.
no_text_for_the_least : fdt_strerror (negsuc (2 ^ 31 - 1)) ≡ outside
unfolding fdt_strerror
no_text_for_the_least = refl

-- Four address cells are accepted.
four_cells : fdt_address_cells cells_tree (pos 0) ≡ value (pos 4)
unfolding load8 can_assume fdt_get_header fdt32_ld put32 put_header is_old fdt_offset_ptr_ until_nul
    find_byte same_bytes bytes_at memcmp_equal fdt_offset_ptr skip_name skip_begin skip_prop
    skip_tag fdt_next_tag check_tag_offset string_room terminated fdt_get_string fdt_string_eq_
    nextprop_loop nextprop_ fdt_first_property_offset fdt_next_property_offset
    fdt_get_property_by_offset_ find_property fdt_get_property_namelen_ realigned
    fdt_getprop_namelen fdt_getprop fdt_cells fdt_address_cells
four_cells = refl
