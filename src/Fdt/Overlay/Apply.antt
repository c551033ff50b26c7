-- ===== src/Fdt/Overlay/Apply.antt =====
-- `fdt_overlay_apply` of libfdt/fdt_overlay.c.
use dtboverlay.Base.{ℕ, ◌-◌, ◌^◌, List, if◌then◌else◌}
use dtboverlay.Base.Int.{ℤ, pos, is_negative, eq_test}
use dtboverlay.Fdt.Header.{magic}
use dtboverlay.Fdt.Ro.Phandles.{fdt_find_max_phandle}
use dtboverlay.Fdt.Write.{set_header, Step, ◌>>=◌, ◌>>◌, pure}
use dtboverlay.Fdt.Overlay.Both.{Blobs, when_zero, on_fdt, on_fdto, look_fdt}
use dtboverlay.Fdt.Overlay.Local.{overlay_adjust_local_phandles, overlay_update_local_references}
use dtboverlay.Fdt.Overlay.Fixups.{overlay_fixup_phandles}
use dtboverlay.Fdt.Overlay.Merge.{overlay_merge}
use dtboverlay.Fdt.Overlay.Symbols.{overlay_symbol_update}

-- `strtoul` of the C library, as in Parse.antt.
module _ (strtoul : List ℕ → ℕ × ℕ) where
  -- The calls whose error goes to `err`.
  unfoldable pub apply_steps : Step Blobs ℤ
  apply_steps = do
    (ret, delta) ← look_fdt fdt_find_max_phandle
    when_zero (pure ret) (
        when_zero (on_fdto (overlay_adjust_local_phandles delta)) (
          when_zero (on_fdto (overlay_update_local_references delta)) (
            when_zero (overlay_fixup_phandles strtoul)
              (when_zero overlay_merge overlay_symbol_update))))

  -- What follows the probes: the magic of the overlay is erased, and after an error the base's too.
  unfoldable pub apply_probed : Step Blobs ℤ
  apply_probed = do
    ret ← apply_steps
    on_fdto (set_header magic (2 ^ 32 - 1))
    if eq_test ret (pos 0)
        then pure (pos 0)
        else do on_fdt (set_header magic (2 ^ 32 - 1)); pure ret

  unfoldable pub fdt_overlay_apply : Step Blobs ℤ
  fdt_overlay_apply b =
      if is_negative b.fdt.ro_probe
      then pure b.fdt.ro_probe b
      else if is_negative b.fdto.ro_probe
      then pure b.fdto.ro_probe b
      else apply_probed b
