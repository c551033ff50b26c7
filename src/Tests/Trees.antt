-- ===== src/Tests/Trees.antt =====
-- Blobs with a few nodes, to run the functions of libfdt on.
use dtboverlay.Base.{
  ℕ, ◌+◌, ◌*◌, ◌<◌, ◌^◌, ◌≡◌, refl, List, [], ◌∷◌, ◌++◌, Bool, true, ◌&&◌, Bool-cases, inl, inr,
  replicate, length, ltb, arith,
}
use dtboverlay.Base.Int.{pos}
use dtboverlay.Memory.{IsBytes, load8}
use dtboverlay.Fdt.Assume.{can_assume}
use dtboverlay.Fdt.Header.{
  Field, totalsize, off_dt_struct, off_dt_strings, off_mem_rsvmap, version, last_comp_version,
  boot_cpuid_phys, size_dt_strings, size_dt_struct, magic, fdt_get_header, fdt32_ld,
}
use dtboverlay.Fdt.Constants.{fdt_magic}
use dtboverlay.Fdt.Check.{
  fdt_check_header, check_version, fdt_header_size, check_size, fdt_header_size_, check_off_,
  check_struct, check_block_, check_strings,
}
use dtboverlay.Fdt.Layout.{HasHeader, field}
use dtboverlay.Fdt.Word.{word}
use dtboverlay.Fdt.Encode.{put32, put_header, put_header-HasHeader, blob}
use dtboverlay.Fdt.Read.{Tree, codes}
use dtboverlay.Fdt.Tags.{tag_begin_node, tag_prop, tag_end_node, tag_end}
use dtboverlay.Fdt.Walk.Pointers.{IsLoaded}

abbrev pub words : List ℕ → List ℕ → List ℕ
words [] rest = rest
words (w ∷ ws) rest = put32 w (words ws rest)

-- The header, for a structure block and a strings block of these sizes.
abbrev pub tree_fields : ℕ → ℕ → Field → ℕ
tree_fields structs strings magic = fdt_magic
tree_fields structs strings totalsize = 56 + structs + strings
tree_fields structs strings off_dt_struct = 56
tree_fields structs strings off_dt_strings = 56 + structs
tree_fields structs strings off_mem_rsvmap = 40
tree_fields structs strings version = 17
tree_fields structs strings last_comp_version = 16
tree_fields structs strings boot_cpuid_phys = 0
tree_fields structs strings size_dt_strings = strings
tree_fields structs strings size_dt_struct = structs

abbrev pub tree_rest : List ℕ → List ℕ → List ℕ
tree_rest structure strings = replicate 16 0 ++ words structure strings

-- No reservations, the words of the structure block, and the strings block.
abbrev pub tree_of : List ℕ → List ℕ → Tree
tree_of structure strings = record {
  assumed = 0;
  blob =
      blob 4096 (tree_fields (4 * length structure) (length strings)) (tree_rest structure strings);
  ro_probe = pos (56 + 4 * length structure + length strings);
  fuel = 120;
}

-- The root, with the phandle 7, and its child `a`, with the phandle 9.
abbrev two_nodes : List ℕ
two_nodes =
    tag_begin_node ∷ 0 ∷ tag_prop ∷ 4 ∷ 0 ∷ 7 ∷ tag_begin_node ∷ 0x61000000 ∷ tag_prop ∷ 4 ∷ 0 ∷ 9
    ∷ tag_end_node ∷ tag_end_node ∷ tag_end ∷ []

abbrev phandle_name : List ℕ
phandle_name = codes "phandle" ++ 0 ∷ []

abbrev pub two_node_tree : Tree
two_node_tree = tree_of two_nodes phandle_name

-- A root with a property of the length 2 ^ 32 - 12, at 8.
abbrev endless : List ℕ
endless = tag_begin_node ∷ 0 ∷ tag_prop ∷ 0xfffffff4 ∷ 0 ∷ tag_end_node ∷ tag_end ∷ []

abbrev pub endless_tree : Tree
endless_tree = tree_of endless (0 ∷ [])

-- A root with the strings `a` and `bc` in `compatible`, and the node `/aliases`, at 28, in which `x` is
-- an alias of `x`.
abbrev pub alias_tree : Tree
alias_tree =
    tree_of
      (tag_begin_node ∷ 0 ∷ tag_prop ∷ 5 ∷ 0 ∷ 0x61006263 ∷ 0 ∷ tag_begin_node ∷ 0x616c6961
        ∷ 0x73657300 ∷ tag_prop ∷ 2 ∷ 11 ∷ 0x78000000 ∷ tag_end_node ∷ tag_end_node ∷ tag_end ∷ [])
      (codes "compatible" ++ 0 ∷ codes "x" ++ 0 ∷ [])

-- A root with four address cells.
abbrev pub cells_tree : Tree
cells_tree =
    tree_of (tag_begin_node ∷ 0 ∷ tag_prop ∷ 4 ∷ 0 ∷ 4 ∷ tag_end_node ∷ tag_end ∷ [])
      (codes "#address-cells" ++ 0 ∷ [])

-- A test of the bytes.
abbrev pub all_bytes : List ℕ → Bool
all_bytes [] = true
all_bytes (c ∷ cs) = ltb c 256 && all_bytes cs

pub all_bytes-IsBytes : (xs : List ℕ) → all_bytes xs ≡ true → IsBytes xs
all_bytes-IsBytes [] h = tt
all_bytes-IsBytes (c ∷ cs) h = elim (Bool-cases (ltb c 256)) [
  | inl y ↦ (ground arith, all_bytes-IsBytes cs (ground arith))
  | inr n ↦ absurd (ground arith)
]

tree_fields-fit :
    (structs strings : ℕ)
    → structs < 1000
    → strings < 1000
    → (f : Field) → tree_fields structs strings f < 2 ^ 32
tree_fields-fit a b ha hb magic = omega arith
tree_fields-fit a b ha hb totalsize = omega arith
tree_fields-fit a b ha hb off_dt_struct = omega arith
tree_fields-fit a b ha hb off_dt_strings = omega arith
tree_fields-fit a b ha hb off_mem_rsvmap = omega arith
tree_fields-fit a b ha hb version = omega arith
tree_fields-fit a b ha hb last_comp_version = omega arith
tree_fields-fit a b ha hb boot_cpuid_phys = omega arith
tree_fields-fit a b ha hb size_dt_strings = omega arith
tree_fields-fit a b ha hb size_dt_struct = omega arith

tree_of-HasHeader :
    (structure strings : List ℕ)
    → 4 * length structure < 1000
    → length strings < 1000
    → all_bytes (tree_rest structure strings) ≡ true
    → HasHeader (tree_of structure strings).blob
tree_of-HasHeader structure strings ha hb bytes =
    put_header-HasHeader 4096 (tree_fields (4 * length structure) (length strings))
      (tree_rest structure strings) (tree_fields-fit (4 * length structure) (length strings) ha hb)
      (all_bytes-IsBytes (tree_rest structure strings) bytes)

pub two_node_tree-IsLoaded : IsLoaded two_node_tree
unfolding fdt_check_header put_header put32 fdt_get_header fdt32_ld load8 can_assume check_version
    fdt_header_size check_size fdt_header_size_ check_off_ check_struct check_block_ check_strings
    field word
two_node_tree-IsLoaded = record {
  no_mask = refl;
  has = tree_of-HasHeader two_nodes phandle_name (omega arith) (omega arith) refl;
  checked = refl;
  whole = omega arith;
  current = omega arith;
  probe = refl;
}

pub endless_tree-IsLoaded : IsLoaded endless_tree
unfolding fdt_check_header put_header put32 fdt_get_header fdt32_ld load8 can_assume check_version
    fdt_header_size check_size fdt_header_size_ check_off_ check_struct check_block_ check_strings
    field word
endless_tree-IsLoaded = record {
  no_mask = refl;
  has = tree_of-HasHeader endless (0 ∷ []) (omega arith) (omega arith) refl;
  checked = refl;
  whole = omega arith;
  current = omega arith;
  probe = refl;
}
