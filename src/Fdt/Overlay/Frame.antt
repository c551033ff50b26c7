-- ===== src/Fdt/Overlay/Frame.antt =====
-- What the statements over an overlay alone, of libfdt/fdt_overlay.c, do not change: the size and the
-- place of its buffer.
use dtboverlay.Base.{ℕ, zero, suc, List, Option, none, some}
use dtboverlay.Base.Int.{ℤ}
use dtboverlay.Fdt.Read.{Read, Tree}
use dtboverlay.Fdt.Write.{Step, Edit}
use dtboverlay.Fdt.Write.Keeps.{Keeps, Holds, HasShape, keeps_rules}
use dtboverlay.Fdt.Wip.Frame.{fdt_setprop_inplace_namelen_partial-Keeps, fdt_setprop_inplace-Keeps}
use dtboverlay.Fdt.Overlay.Both.{
  non_null, each_offset, fdt_for_each_subnode, fdt_for_each_property_offset,
}
use dtboverlay.Fdt.Overlay.Local.{
  overlay_phandle_add_offset, overlay_adjust_node_phandles, overlay_adjust_local_phandles,
  adjust_reference, each_reference, adjust_places, adjust_property, adjust_child,
  overlay_update_local_node_references, overlay_update_local_references,
}

module _ {S : Type 0} {P : S → Type 0} where
  pub non_null-Keeps :
      {A B : Type 0} (o : Option A) (k : A → Step S B)
      → ((a : A) → Keeps P (k a))
      → Keeps P (non_null o k)
  unfolding non_null
  non_null-Keeps none k h = record { at = λ s hs. tt }
  non_null-Keeps (some a) k h = record { at = λ s hs. (h a).at s hs }

  each_offset-Keeps :
      (view : S → Tree) (next : Tree → ℤ → Read ℤ) (n : ℕ) (body : ℤ → Step S (Option ℤ))
      (offset : ℤ)
      → ((o : ℤ) → Keeps P (body o))
      → Keeps P (each_offset view next n body offset)
  unfolding each_offset
  each_offset-Keeps view next zero body offset h = search keeps_rules
  each_offset-Keeps view next (suc n) body offset h =
      search (keeps_rules, each_offset-Keeps view next n body) depth 20

  pub for_each_subnode-Keeps :
      (view : S → Tree) (body : ℤ → Step S (Option ℤ)) (parent : ℤ)
      → ((o : ℤ) → Keeps P (body o))
      → Keeps P (fdt_for_each_subnode view body parent)
  unfolding fdt_for_each_subnode
  for_each_subnode-Keeps view body parent h = search (keeps_rules, each_offset-Keeps) depth 20

  pub for_each_property_offset-Keeps :
      (view : S → Tree) (body : ℤ → Step S (Option ℤ)) (node : ℤ)
      → ((o : ℤ) → Keeps P (body o))
      → Keeps P (fdt_for_each_property_offset view body node)
  unfolding fdt_for_each_property_offset
  for_each_property_offset-Keeps view body node h = search (keeps_rules, each_offset-Keeps) depth 20

pub ruleset loop_rules = (
  keeps_rules, non_null-Keeps, for_each_subnode-Keeps, for_each_property_offset-Keeps,
  fdt_setprop_inplace_namelen_partial-Keeps, fdt_setprop_inplace-Keeps,
)

-- The statements over the overlay alone.
module _ {z : ℕ × ℕ × ℕ} where
  overlay_phandle_add_offset-Keeps :
      (node : ℤ) (name : List ℕ) (delta : ℕ)
      → Keeps (HasShape z) (overlay_phandle_add_offset node name delta)
  unfolding overlay_phandle_add_offset
  overlay_phandle_add_offset-Keeps node name delta = search loop_rules depth 40

  overlay_adjust_node_phandles-Keeps :
      (n : ℕ) (node : ℤ) (delta : ℕ)
      → Keeps (HasShape z) (overlay_adjust_node_phandles n node delta)
  unfolding overlay_adjust_node_phandles
  overlay_adjust_node_phandles-Keeps zero node delta = search loop_rules
  overlay_adjust_node_phandles-Keeps (suc n) node delta =
      search (loop_rules, overlay_phandle_add_offset-Keeps, overlay_adjust_node_phandles-Keeps n)
        depth 40

  pub overlay_adjust_local_phandles-Keeps :
      (delta : ℕ) → Keeps (HasShape z) (overlay_adjust_local_phandles delta)
  unfolding overlay_adjust_local_phandles
  overlay_adjust_local_phandles-Keeps delta =
      search (loop_rules, overlay_adjust_node_phandles-Keeps) depth 40

  adjust_reference-Keeps :
      (tree_node : ℤ) (name tree_val poffset delta : ℕ)
      → Keeps (HasShape z) (adjust_reference tree_node name tree_val poffset delta)
  unfolding adjust_reference
  adjust_reference-Keeps tree_node name tree_val poffset delta = search loop_rules depth 40

  each_reference-Keeps :
      (n : ℕ) (tree_node : ℤ) (name tree_val fixup_val delta : ℕ)
      → Keeps (HasShape z) (each_reference n tree_node name tree_val fixup_val delta)
  unfolding each_reference
  each_reference-Keeps zero tree_node name tree_val fixup_val delta = search loop_rules
  each_reference-Keeps (suc n) tree_node name tree_val fixup_val delta =
      search (loop_rules, adjust_reference-Keeps, each_reference-Keeps n) depth 40

  adjust_places-Keeps :
      (tree_node : ℤ) (delta fixups : ℕ) (fixup_len : ℤ) (name : ℕ)
      → Keeps (HasShape z) (adjust_places tree_node delta fixups fixup_len name)
  unfolding adjust_places
  adjust_places-Keeps tree_node delta fixups fixup_len name =
      search (loop_rules, each_reference-Keeps) depth 40

  adjust_property-Keeps :
      (tree_node : ℤ) (delta : ℕ) (fixup_prop : ℤ)
      → Keeps (HasShape z) (adjust_property tree_node delta fixup_prop)
  unfolding adjust_property
  adjust_property-Keeps tree_node delta fixup_prop =
      search (loop_rules, adjust_places-Keeps) depth 40

  adjust_child-Keeps :
      (deeper : ℤ → ℤ → Edit ℤ) (tree_node fixup_child : ℤ)
      → ((a b : ℤ) → Keeps (HasShape z) (deeper a b))
      → Keeps (HasShape z) (adjust_child deeper tree_node fixup_child)
  unfolding adjust_child
  adjust_child-Keeps deeper tree_node fixup_child h = search loop_rules depth 40

  overlay_update_local_node_references-Keeps :
      (n : ℕ) (tree_node fixup_node : ℤ) (delta : ℕ)
      → Keeps (HasShape z) (overlay_update_local_node_references n tree_node fixup_node delta)
  unfolding overlay_update_local_node_references
  overlay_update_local_node_references-Keeps zero tree_node fixup_node delta = search loop_rules
  overlay_update_local_node_references-Keeps (suc n) tree_node fixup_node delta =
      search
        (
          loop_rules,
          adjust_property-Keeps,
          adjust_child-Keeps,
          overlay_update_local_node_references-Keeps n,
        )
        depth 40

  pub overlay_update_local_references-Keeps :
      (delta : ℕ) → Keeps (HasShape z) (overlay_update_local_references delta)
  unfolding overlay_update_local_references
  overlay_update_local_references-Keeps delta =
      search (loop_rules, overlay_update_local_node_references-Keeps) depth 40
