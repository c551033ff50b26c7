-- ===== src/Fdt/Overlay/Fixups.antt =====
-- The references of an overlay to the base, of libfdt/fdt_overlay.c.
use dtboverlay.Base.{
  ℕ, zero, suc, ◌+◌, ◌%◌, ◌^◌, List, none, some, true, not, ◌&&◌, ◌==◌, if◌then◌else◌,
}
use dtboverlay.Base.Int.{ℤ, pos, is_negative, eq_test, lt_test, to_int, to_u32}
use dtboverlay.Fdt.Constants.{failure, notfound, internal, badoverlay}
use dtboverlay.Fdt.Read
use dtboverlay.Fdt.Read.{Tree, string_at, bytes_at, memchr, read8, codes}
use dtboverlay.Fdt.Ro.Props.{fdt_getprop, fdt_getprop_by_offset, fdt_get_phandle}
use dtboverlay.Fdt.Ro.Paths.{fdt_path_offset, fdt_path_offset_namelen}
use dtboverlay.Fdt.Write.{minus32, plus32, to_size, Step, ◌>>=◌, pure}
use dtboverlay.Fdt.Wip.{fdt_setprop_inplace_namelen_partial}
use dtboverlay.Fdt.Inline.{fdt32_st}
use dtboverlay.Fdt.Overlay.Parse.{Fixup, parse_fixup}
use dtboverlay.Fdt.Overlay.Both.{
  Blobs, non_null, checked, and_then, on_fdto, look_fdt, look_fdto, fdt_for_each_property_offset,
}

unfoldable pub overlay_fixup_one_phandle : ℤ → Fixup → (label : ℕ) → Step Blobs ℤ
overlay_fixup_one_phandle symbols_off fixup label =
    if is_negative symbols_off then pure symbols_off else do
      symbol ← look_fdto (λ t. string_at t label)
      (symbol_path, prop_len) ← look_fdt (λ t. fdt_getprop t symbols_off symbol)
      elim symbol_path [
        | none ↦ pure prop_len
        | some p ↦ do
          target ← look_fdt (λ t. string_at t p)
          symbol_off ← look_fdt (λ t. fdt_path_offset t target)
          if is_negative symbol_off then pure symbol_off else do
            phandle ← look_fdt (λ t. fdt_get_phandle t symbol_off)
            if phandle == 0 then pure (failure notfound) else do
              path ← look_fdto (λ t. bytes_at t fixup.path fixup.path_len)
              after ← look_fdto (λ t. read8 t (fixup.path + fixup.path_len))
              fixup_off ← look_fdto (λ t. fdt_path_offset_namelen t path after)
              if eq_test fixup_off (failure notfound)
                  then pure (failure badoverlay)
                  else if is_negative fixup_off
                  then pure fixup_off
                  else do
                    name ← look_fdto (λ t. bytes_at t fixup.name fixup.name_len)
                    on_fdto (
                        fdt_setprop_inplace_namelen_partial fixup_off name (to_u32 fixup.poffset)
                          (fdt32_st phandle))
      ]

-- `strtoul` of the C library, as in Parse.antt.
module _ (strtoul : List ℕ → ℕ × ℕ) where
  -- The loop over the entries of a property. Each round takes at least a byte off it.
  unfoldable pub fixup_loop : ℕ → ℤ → (label val : ℕ) → (len : ℤ) → Step Blobs ℤ
  fixup_loop zero symbols_off label val len = λ b. Read.spent
  fixup_loop (suc n) symbols_off label val len =
      let rest = fixup_loop n symbols_off label in
      do
        fixup_end ← look_fdto (λ t. memchr t val 0 (to_size len))
        elim fixup_end [
          | none ↦ pure (failure badoverlay)
          | some k ↦ do
            let fixup_len = k % 2 ^ 32
            let len' = to_int (minus32 (to_u32 len) (plus32 fixup_len 1))
            entry ← look_fdto (λ t. parse_fixup strtoul t val fixup_len)
            elim entry [
              | none ↦ pure (failure badoverlay)
              | some fixup ↦ do
                ret ← overlay_fixup_one_phandle symbols_off fixup label
                if not (eq_test ret (pos 0))
                    then pure ret
                    else if lt_test (pos 0) len'
                    then rest (val + plus32 fixup_len 1) len'
                    else pure (pos 0)
            ]
        ]

  unfoldable pub overlay_fixup_phandle : ℤ → ℤ → Step Blobs ℤ
  overlay_fixup_phandle symbols_off property = do
    (val, len, labelp) ← look_fdto (λ t. fdt_getprop_by_offset t true true property)
    elim val [
      | none ↦ pure (if eq_test len (failure notfound) then failure internal else len)
      | some p ↦
          non_null labelp (λ label. do
            n ← look_fdto (λ t. Read.value t.fuel)
            fixup_loop n symbols_off label p len)
    ]

  unfoldable pub overlay_fixup_phandles : Step Blobs ℤ
  overlay_fixup_phandles = do
    fixups_off ← look_fdto (λ t. fdt_path_offset t (codes "/__fixups__"))
    if eq_test fixups_off (failure notfound)
        then pure (pos 0)
        else if is_negative fixups_off
        then pure fixups_off
        else do
          symbols_off ← look_fdt (λ t. fdt_path_offset t (codes "/__symbols__"))
          if is_negative symbols_off && not (eq_test symbols_off (failure notfound))
              then pure symbols_off
              else and_then
                  (fdt_for_each_property_offset (λ (b : Blobs). b.fdto)
                    (λ property. checked (overlay_fixup_phandle symbols_off property)) fixups_off)
                  (pure (pos 0))
