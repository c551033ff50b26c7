-- ===== src/Fdt/Overlay/Steps.antt =====
-- What the steps of `fdt_overlay_apply` of libfdt/fdt_overlay.c do not change.
use dtboverlay.Base.{ℕ, ◌≡◌, refl, List}
use dtboverlay.Base.Int.{ℤ}
use dtboverlay.Fdt.Read.{Read, value, outside, spent, Tree}
use dtboverlay.Fdt.Write.{Edit}
use dtboverlay.Fdt.Write.Keeps.{Keeps, Holds, Keeps-value, HasShape}
use dtboverlay.Fdt.Overlay.Both.{Blobs, place, on_fdt, on_fdto}
use dtboverlay.Fdt.Overlay.Frame.{
  loop_rules, overlay_adjust_local_phandles-Keeps, overlay_update_local_references-Keeps,
}
use dtboverlay.Fdt.Overlay.Apart.{
  overlay_fixup_phandles-Keeps, overlay_merge-Keeps, overlay_symbol_update-Keeps,
}
use dtboverlay.Fdt.Overlay.Fixups.{overlay_fixup_phandles}
use dtboverlay.Fdt.Overlay.Merge.{overlay_merge}
use dtboverlay.Fdt.Overlay.Symbols.{overlay_symbol_update}
use dtboverlay.Fdt.Overlay.Apply.{apply_steps}

-- The shapes of both blobs.
abbrev pub HaveShapes : ℕ × ℕ × ℕ → ℕ × ℕ × ℕ → Blobs → Type 0
HaveShapes z z' b = HasShape z b.fdt × HasShape z' b.fdto

Holds-place :
    {A S T : Type 0} (P : S → Type 0) (Q : T → Type 0) (put : S → T) (r : Read (A × S))
    → ((s : S) → P s → Q (put s))
    → Holds P r
    → Holds Q (place r put)
Holds-place P Q put (value r) kept h = kept r.1 h
Holds-place P Q put outside kept h = tt
Holds-place P Q put spent kept h = tt

module _ {z z' : ℕ × ℕ × ℕ} where
  on_fdt-Keeps :
      {A : Type 0} (m : Edit A) → Keeps (HasShape z) m → Keeps (HaveShapes z z') (on_fdt m)
  on_fdt-Keeps m h = record {
    at = λ b hb.
        Holds-place (HasShape z) (HaveShapes z z') (λ t. record b { fdt = t }) (m b.fdt)
          (λ t ht. (ht, hb.1)) (h.at b.fdt hb.0);
  }

  on_fdto-Keeps :
      {A : Type 0} (m : Edit A) → Keeps (HasShape z') m → Keeps (HaveShapes z z') (on_fdto m)
  on_fdto-Keeps m h = record {
    at = λ b hb.
        Holds-place (HasShape z') (HaveShapes z z') (λ t. record b { fdto = t }) (m b.fdto)
          (λ t ht. (hb.0, ht)) (h.at b.fdto hb.1);
  }

module _ {z z' : ℕ × ℕ × ℕ} where
  shaped_base :
      (A : Type 0) (m : Edit A)
      → ((z : ℕ × ℕ × ℕ) → Keeps (HasShape z) m)
      → Keeps (HaveShapes z z') (on_fdt m)
  shaped_base A m h = on_fdt-Keeps m (h z)

  shaped_over :
      (A : Type 0) (m : Edit A)
      → ((z : ℕ × ℕ × ℕ) → Keeps (HasShape z) m)
      → Keeps (HaveShapes z z') (on_fdto m)
  shaped_over A m h = on_fdto-Keeps m (h z')

  fixups-HaveShapes :
      (strtoul : List ℕ → ℕ × ℕ) → Keeps (HaveShapes z z') (overlay_fixup_phandles strtoul)
  fixups-HaveShapes strtoul = overlay_fixup_phandles-Keeps shaped_over strtoul

  merge-HaveShapes : Keeps (HaveShapes z z') overlay_merge
  merge-HaveShapes = overlay_merge-Keeps shaped_base

  symbols-HaveShapes : Keeps (HaveShapes z z') overlay_symbol_update
  symbols-HaveShapes = overlay_symbol_update-Keeps shaped_base

  pub apply_steps-Keeps : (strtoul : List ℕ → ℕ × ℕ) → Keeps (HaveShapes z z') (apply_steps strtoul)
  unfolding apply_steps
  apply_steps-Keeps strtoul =
      search
        (
          loop_rules, on_fdto-Keeps, overlay_adjust_local_phandles-Keeps,
          overlay_update_local_references-Keeps, fixups-HaveShapes, merge-HaveShapes,
          symbols-HaveShapes,
        )
        depth 60

abbrev HasBase : Tree → Blobs → Type 0
HasBase t b = b.fdt ≡ t

abbrev HasOverlay : Tree → Blobs → Type 0
HasOverlay t b = b.fdto ≡ t

-- Whatever comes back is put in a place that `Q` does not depend on.
Holds-put :
    {A S T : Type 0} (Q : T → Type 0) (put : S → T) (r : Read (A × S))
    → ((s : S) → Q (put s))
    → Holds Q (place r put)
Holds-put Q put (value r) kept = kept r.1
Holds-put Q put outside kept = tt
Holds-put Q put spent kept = tt

module _ (t : Tree) (A : Type 0) (m : Edit A) (h : (z : ℕ × ℕ × ℕ) → Keeps (HasShape z) m) where
  kept_base : Keeps (HasBase t) (on_fdto m)
  kept_base = record {
    at = λ b hb. Holds-put (HasBase t) (λ u. record b { fdto = u }) (m b.fdto) (λ u. hb);
  }

  kept_overlay : Keeps (HasOverlay t) (on_fdt m)
  kept_overlay = record {
    at = λ b hb. Holds-put (HasOverlay t) (λ u. record b { fdt = u }) (m b.fdt) (λ u. hb);
  }

-- From whichever blobs they start, whatever they return: a run of `overlay_fixup_phandles` that
-- returns leaves the base as it is, and a run of `overlay_merge` or of `overlay_symbol_update` that
-- returns leaves the overlay as it is.
pub steps_write_one_blob :
    (strtoul : List ℕ → ℕ × ℕ) (b0 b1 b2 c0 c1 c2 : Blobs) (r0 r1 r2 : ℤ)
    → overlay_fixup_phandles strtoul b0 ≡ value (r0, c0)
    → overlay_merge b1 ≡ value (r1, c1)
    → overlay_symbol_update b2 ≡ value (r2, c2)
    → (c0.fdt ≡ b0.fdt) × (c1.fdto ≡ b1.fdto) × (c2.fdto ≡ b2.fdto)
steps_write_one_blob strtoul b0 b1 b2 c0 c1 c2 r0 r1 r2 fixups merge symbols = (
  Keeps-value (overlay_fixup_phandles-Keeps (kept_base b0.fdt) strtoul) fixups refl,
  Keeps-value (overlay_merge-Keeps (kept_overlay b1.fdto)) merge refl,
  Keeps-value (overlay_symbol_update-Keeps (kept_overlay b2.fdto)) symbols refl,
)
