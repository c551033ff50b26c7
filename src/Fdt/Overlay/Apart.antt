-- ===== src/Fdt/Overlay/Apart.antt =====
-- What the fixups of an overlay, its merge and the update of the symbols, of libfdt/fdt_overlay.c, keep:
-- whatever every change of the one blob that they write keeps.
use dtboverlay.Base.{ℕ, zero, suc, List, Option, none, some}
use dtboverlay.Base.Int.{ℤ}
use dtboverlay.Fdt.Write.{Step, Edit}
use dtboverlay.Fdt.Write.Keeps.{Keeps, HasShape}
use dtboverlay.Fdt.Rw.Frame.{
  fdt_setprop_placeholder-Keeps, fdt_setprop-Keeps, fdt_add_subnode-Keeps,
}
use dtboverlay.Fdt.Overlay.Both.{Blobs, on_fdt, on_fdto}
use dtboverlay.Fdt.Overlay.Frame.{loop_rules}
use dtboverlay.Fdt.Overlay.Parse.{Fixup, Symbol, malformed, elsewhere, merged}
use dtboverlay.Fdt.Overlay.Fixups.{
  overlay_fixup_one_phandle, fixup_loop, overlay_fixup_phandle, overlay_fixup_phandles,
}
use dtboverlay.Fdt.Overlay.Merge.{
  overlay_get_target, apply_property, apply_subnode, overlay_apply_node, merge_fragment,
  overlay_merge,
}
use dtboverlay.Fdt.Overlay.Symbols.{
  write_target, target_len, target_again, add_symbol, add_parsed, update_symbol,
  overlay_symbol_update,
}

module _ {P : Blobs → Type 0}
    (over : (A : Type 0) (m : Edit A)
      → ((z : ℕ × ℕ × ℕ) → Keeps (HasShape z) m)
      → Keeps P (on_fdto m)) where
  overlay_fixup_one_phandle-Keeps :
      (symbols_off : ℤ) (fixup : Fixup) (label : ℕ)
      → Keeps P (overlay_fixup_one_phandle symbols_off fixup label)
  unfolding overlay_fixup_one_phandle
  overlay_fixup_one_phandle-Keeps symbols_off fixup label = search loop_rules depth 60

  module _ (strtoul : List ℕ → ℕ × ℕ) where
    fixup_loop-Keeps :
        (n : ℕ) (symbols_off : ℤ) (label val : ℕ) (len : ℤ)
        → Keeps P (fixup_loop strtoul n symbols_off label val len)
    unfolding fixup_loop
    fixup_loop-Keeps zero symbols_off label val len = search loop_rules
    fixup_loop-Keeps (suc n) symbols_off label val len =
        search (loop_rules, overlay_fixup_one_phandle-Keeps, fixup_loop-Keeps n) depth 60

    overlay_fixup_phandle-Keeps :
        (symbols_off property : ℤ) → Keeps P (overlay_fixup_phandle strtoul symbols_off property)
    unfolding overlay_fixup_phandle
    overlay_fixup_phandle-Keeps symbols_off property =
        search (loop_rules, fixup_loop-Keeps) depth 60

    pub overlay_fixup_phandles-Keeps : Keeps P (overlay_fixup_phandles strtoul)
    unfolding overlay_fixup_phandles
    overlay_fixup_phandles-Keeps = search (loop_rules, overlay_fixup_phandle-Keeps) depth 60

module _ {P : Blobs → Type 0}
    (base : (A : Type 0) (m : Edit A)
      → ((z : ℕ × ℕ × ℕ) → Keeps (HasShape z) m)
      → Keeps P (on_fdt m)) where
  overlay_get_target-Keeps : (fragment : ℤ) → Keeps P (overlay_get_target fragment)
  unfolding overlay_get_target
  overlay_get_target-Keeps fragment = search loop_rules depth 60

  apply_property-Keeps : (target property : ℤ) → Keeps P (apply_property target property)
  unfolding apply_property
  apply_property-Keeps target property = search (loop_rules, fdt_setprop-Keeps) depth 60

  apply_subnode-Keeps :
      (deeper : ℤ → ℤ → Step Blobs ℤ) (target subnode : ℤ)
      → ((a b : ℤ) → Keeps P (deeper a b))
      → Keeps P (apply_subnode deeper target subnode)
  unfolding apply_subnode
  apply_subnode-Keeps deeper target subnode h = search (loop_rules, fdt_add_subnode-Keeps) depth 60

  overlay_apply_node-Keeps : (n : ℕ) (target node : ℤ) → Keeps P (overlay_apply_node n target node)
  unfolding overlay_apply_node
  overlay_apply_node-Keeps zero target node = search loop_rules
  overlay_apply_node-Keeps (suc n) target node =
      search (loop_rules, apply_property-Keeps, apply_subnode-Keeps, overlay_apply_node-Keeps n)
        depth 60

  merge_fragment-Keeps : (fragment : ℤ) → Keeps P (merge_fragment fragment)
  unfolding merge_fragment
  merge_fragment-Keeps fragment =
      search (loop_rules, overlay_get_target-Keeps, overlay_apply_node-Keeps) depth 60

  pub overlay_merge-Keeps : Keeps P overlay_merge
  unfolding overlay_merge
  overlay_merge-Keeps = search (loop_rules, merge_fragment-Keeps) depth 60

  write_target-Keeps :
      (target : ℤ) (target_path : Option ℕ) (buf : ℕ) (len : ℤ)
      → Keeps P (write_target target target_path buf len)
  unfolding write_target
  write_target-Keeps target none buf len = search loop_rules depth 60
  write_target-Keeps target (some q) buf len = search loop_rules depth 60

  target_len-Keeps : (target : ℤ) (target_path : Option ℕ) → Keeps P (target_len target target_path)
  unfolding target_len
  target_len-Keeps target none = search loop_rules
  target_len-Keeps target (some q) = search loop_rules

  target_again-Keeps :
      (fragment target : ℤ) (target_path : Option ℕ)
      → Keeps P (target_again fragment target target_path)
  unfolding target_again
  target_again-Keeps fragment target none = search (loop_rules, overlay_get_target-Keeps)
  target_again-Keeps fragment target (some q) = search loop_rules

  add_symbol-Keeps :
      (root_sym : ℤ) (namep : Option ℕ) (frag_name rel_path : List ℕ)
      → Keeps P (add_symbol root_sym namep frag_name rel_path)
  unfolding add_symbol
  add_symbol-Keeps root_sym namep frag_name rel_path =
      search
        (
          loop_rules, overlay_get_target-Keeps, target_len-Keeps, target_again-Keeps,
          write_target-Keeps, fdt_setprop_placeholder-Keeps,
        )
        depth 60

  add_parsed-Keeps :
      (root_sym : ℤ) (namep : Option ℕ) (symbol : Symbol)
      → Keeps P (add_parsed root_sym namep symbol)
  unfolding add_parsed
  add_parsed-Keeps root_sym namep malformed = search loop_rules
  add_parsed-Keeps root_sym namep elsewhere = search loop_rules
  add_parsed-Keeps root_sym namep (merged frag_name rel_path) =
      search (loop_rules, add_symbol-Keeps)

  update_symbol-Keeps : (root_sym prop : ℤ) → Keeps P (update_symbol root_sym prop)
  unfolding update_symbol
  update_symbol-Keeps root_sym prop = search (loop_rules, add_parsed-Keeps) depth 60

  pub overlay_symbol_update-Keeps : Keeps P overlay_symbol_update
  unfolding overlay_symbol_update
  overlay_symbol_update-Keeps =
      search (loop_rules, update_symbol-Keeps, fdt_add_subnode-Keeps) depth 60
