-- ===== src/Tests/OverlayTrees.antt =====
-- A base and an overlay, to run libfdt/fdt_overlay.c on.
use dtboverlay.Base.{
  ℕ, ◌+◌, ◌-◌, ◌*◌, ◌%◌, List, [], ◌∷◌, ◌++◌, ◌&&◌, replicate, length, leb, ◌≡◌, ◌≢◌, Bool, true,
  not, ◌==◌, Bool-cases, inl, inr, All, arith, if◌then◌else◌,
}
use dtboverlay.Base.Int.{pos}
use dtboverlay.Fdt.Header.{Field, totalsize}
use dtboverlay.Fdt.Encode.{put32, blob}
use dtboverlay.Fdt.Read.{Tree, codes}
use dtboverlay.Fdt.Tags.{tag_begin_node, tag_prop, tag_end_node, tag_end}
use dtboverlay.Fdt.Overlay.Both.{Blobs}
use dtboverlay.Tests.Trees.{tree_fields}

-- The bytes up to the next multiple of 4.
abbrev padded : List ℕ → List ℕ
padded xs = xs ++ replicate ((4 - length xs % 4) % 4) 0

abbrev text : List ℕ → List ℕ
text s = s ++ 0 ∷ []

abbrev node : List ℕ → List ℕ → List ℕ
node name inner = put32 tag_begin_node (padded (text name) ++ inner ++ put32 tag_end_node [])

-- A property, with the offset of its name.
abbrev prop : ℕ → List ℕ → List ℕ
prop nameoff val = put32 tag_prop (put32 (length val) (put32 nameoff (padded val)))

abbrev cell : ℕ → List ℕ
cell v = put32 v []

-- The fields with a total size that leaves `spare` bytes free.
abbrev spare_fields : ℕ → ℕ → ℕ → Field → ℕ
spare_fields spare structs strings totalsize = 56 + structs + strings + spare
spare_fields spare structs strings f = tree_fields structs strings f

abbrev spare_tree : ℕ → List ℕ → List ℕ → Tree
spare_tree spare nodes strings =
    let structure = nodes ++ put32 tag_end [] in
    record {
      assumed = 0;
      blob =
          blob 4096 (spare_fields spare (length structure) (length strings))
            (replicate 16 0 ++ structure ++ strings ++ replicate spare 0);
      ro_probe = pos (56 + length structure + length strings + spare);
      fuel = 400;
    }

-- The node `/t` with the phandle 5, whose label is `lbl`.
abbrev pub base_tree : Tree
base_tree =
    spare_tree 200
      (node [] (
        node (codes "t") (prop 4 (cell 5))
        ++ node (codes "__symbols__") (prop 0 (text (codes "/t")))))
      (text (codes "lbl") ++ text (codes "phandle"))

-- A fragment `f` with a target that is fixed up to the node with the label `lbl`, with a property `x` and
-- a node `sub` that refers to itself and whose label is `s`.
abbrev overlay_for : ℕ → Tree
overlay_for target =
    spare_tree 0
      (node [] (
        node (codes "f") (
          prop 0 (cell target)
          ++ node (codes "__overlay__")
              (prop 7 (1 ∷ []) ++ node (codes "sub") (prop 9 (cell 1) ++ prop 17 (cell 1))))
        ++ node (codes "__symbols__") (prop 21 (text (codes "/f/__overlay__/sub")))
        ++ node (codes "__fixups__") (prop 23 (text (codes "/f:target:0")))
        ++ node (codes "__local_fixups__") (
            node (codes "f") (node (codes "__overlay__") (node (codes "sub") (prop 17 (cell 0)))))))
      (text (codes "target")
        ++ text (codes "x")
        ++ text (codes "phandle")
        ++ text (codes "ref")
        ++ text (codes "s")
        ++ text (codes "lbl"))

abbrev pub overlay_tree : Tree
overlay_tree = overlay_for 0xffffffff

-- A root with one address cell and one size cell.
abbrev pub one_cell_tree : Tree
one_cell_tree =
    spare_tree 0 (node [] (prop 0 (cell 1) ++ prop 15 (cell 1)))
      (text (codes "#address-cells") ++ text (codes "#size-cells"))

-- A blob of any bytes.
abbrev pub bare_tree : List ℕ → Tree
bare_tree bytes = record {
  assumed = 0;
  blob = record { addr = 4096; bytes = bytes };
  ro_probe = pos 40;
  fuel = 40;
}

abbrev pub both_trees : Blobs
both_trees = record { fdt = base_tree; fdto = overlay_tree }

-- The same after the fixups.
abbrev pub fixed_trees : Blobs
fixed_trees = record { fdt = base_tree; fdto = overlay_for 5 }

-- `strtoul` on decimal digits: the value, and how many there are.
abbrev digits_from : List ℕ → ℕ → ℕ → ℕ × ℕ
digits_from [] number used = (number, used)
digits_from (c ∷ cs) number used =
    let rest = digits_from cs (number * 10 + (c - 48)) (used + 1) in
    if leb 48 c && leb c 57 then rest else (number, used)

abbrev pub decimal : List ℕ → ℕ × ℕ
decimal s = digits_from s 0 0

-- No byte is `d`.
abbrev pub none_is : ℕ → List ℕ → Bool
none_is d [] = true
none_is d (c ∷ cs) = not (c == d) && none_is d cs

pub none_is-All : (d : ℕ) (s : List ℕ) → none_is d s ≡ true → All (λ (c : ℕ). c ≢ d) s
none_is-All d [] h = tt
none_is-All d (c ∷ cs) h = elim (Bool-cases (c == d)) [
  | inl y ↦ absurd (ground arith)
  | inr n ↦ (ground arith, none_is-All d cs (ground arith))
]
