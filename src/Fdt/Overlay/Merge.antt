-- ===== src/Fdt/Overlay/Merge.antt =====
-- The targets of an overlay, and the nodes that are merged into them, of libfdt/fdt_overlay.c.
use dtboverlay.Base.{ℕ, zero, suc, ◌-◌, ◌^◌, Option, none, some, true, ◌==◌, if◌then◌else◌}
use dtboverlay.Base.Int.{ℤ, pos, is_negative, magnitude, eq_test}
use dtboverlay.Fdt.Constants.{failure, notfound, exists, internal, badphandle, badoverlay}
use dtboverlay.Fdt.Read.{Tree, Read, string_at, bytes_at, codes}
use dtboverlay.Fdt.Ro.Names.{fdt_get_name, fdt_subnode_offset}
use dtboverlay.Fdt.Ro.Props.{fdt_getprop, fdt_getprop_by_offset}
use dtboverlay.Fdt.Ro.Paths.{fdt_path_offset}
use dtboverlay.Fdt.Ro.Phandles.{fdt_node_offset_by_phandle}
use dtboverlay.Fdt.Rw.Change.{fdt_setprop, fdt_add_subnode}
use dtboverlay.Fdt.Overlay.Parse.{overlay_get_target_phandle}
use dtboverlay.Fdt.Write.{Step, ◌>>=◌, pure}
use dtboverlay.Fdt.Overlay.Both.{
  Blobs, non_null, leave, refuse, checked, and_then, on_fdt, look_fdt, look_fdto,
  fdt_for_each_subnode, fdt_for_each_property_offset,
}

abbrev pub overlay_of : Blobs → Tree
overlay_of b = b.fdto

-- The result, and `*pathp`, a pointer into the overlay, which is set if the result is not negative.
unfoldable pub overlay_get_target : ℤ → Step Blobs (ℤ × Option ℕ)
overlay_get_target fragment = do
  phandle ← look_fdto (λ t. overlay_get_target_phandle t fragment)
  if phandle == 2 ^ 32 - 1
      then pure (failure badphandle, none)
      else if phandle == 0
      then (do
        (path, path_len) ← look_fdto (λ t. fdt_getprop t fragment (codes "target-path"))
        ret ← elim path [
          | none ↦ pure path_len
          | some p ↦ do s ← look_fdto (λ t. string_at t p); look_fdt (λ t. fdt_path_offset t s)
        ]
        pure (
            if is_negative ret
            then (if eq_test path_len (failure notfound) then failure badoverlay else ret, none)
            else (ret, path)))
      else (do ret ← look_fdt (λ t. fdt_node_offset_by_phandle t phandle); pure (ret, none))

-- A round of the loop over the properties. The value is read before the place for it is made.
unfoldable pub apply_property : ℤ → ℤ → Step Blobs (Option ℤ)
apply_property target property = do
  (prop, prop_len, namep) ← look_fdto (λ t. fdt_getprop_by_offset t true true property)
  if eq_test prop_len (failure notfound)
      then refuse internal
      else if is_negative prop_len
      then leave prop_len
      else non_null namep (λ name. non_null prop (λ p. do
        s ← look_fdto (λ t. string_at t name)
        val ← look_fdto (λ t. bytes_at t p (magnitude prop_len))
        checked (on_fdt (fdt_setprop target s val))))

-- A round of the loop over the children, and `deeper` on the child of the same name in the base.
unfoldable pub apply_subnode : (ℤ → ℤ → Step Blobs ℤ) → ℤ → ℤ → Step Blobs (Option ℤ)
apply_subnode deeper target subnode = do
  (namep, _) ← look_fdto (λ t. fdt_get_name t subnode)
  non_null namep (λ name. do
    s ← look_fdto (λ t. string_at t name)
    added ← on_fdt (fdt_add_subnode target s)
    nnode ←
        if eq_test added (failure exists)
        then (do
          there ← look_fdt (λ t. fdt_subnode_offset t target s)
          pure (if eq_test there (failure notfound) then failure internal else there))
        else pure added
    if is_negative nnode then leave nnode else checked (deeper nnode subnode))

unfoldable pub overlay_apply_node : ℕ → ℤ → ℤ → Step Blobs ℤ
overlay_apply_node zero target node = λ b. Read.spent
overlay_apply_node (suc n) target node =
    let deeper : ℤ → ℤ → Step Blobs ℤ = λ nnode subnode. overlay_apply_node n nnode subnode in
    and_then (fdt_for_each_property_offset overlay_of (apply_property target) node)
      (and_then (fdt_for_each_subnode overlay_of (apply_subnode deeper target) node) (pure (pos 0)))

-- A round of the loop over the fragments.
unfoldable pub merge_fragment : ℤ → Step Blobs (Option ℤ)
merge_fragment fragment = do
  overlay ← look_fdto (λ t. fdt_subnode_offset t fragment (codes "__overlay__"))
  if eq_test overlay (failure notfound)
      then pure none
      else if is_negative overlay
      then leave overlay
      else do
        (target, _) ← overlay_get_target fragment
        if is_negative target then leave target else do
          n ← look_fdto (λ t. Read.value t.fuel)
          checked (overlay_apply_node n target overlay)

unfoldable pub overlay_merge : Step Blobs ℤ
overlay_merge = and_then (fdt_for_each_subnode overlay_of merge_fragment (pos 0)) (pure (pos 0))
