-- ===== src/Fdt/Ro/Phandles.antt =====
-- Phandles, of libfdt/fdt_ro.c.
use dtboverlay.Base.{ℕ, zero, suc, ◌+◌, ◌-◌, ◌^◌, ◌||◌, ◌==◌, if◌then◌else◌, ltb}
use dtboverlay.Base.Int.{ℤ, pos, negsuc, is_negative, eq_test}
use dtboverlay.Fdt.Constants.{failure, notfound, nophandles, badphandle}
use dtboverlay.Fdt.Read.{Read, value, spent, ◌>>=◌, Tree, fail_with}
use dtboverlay.Fdt.Walk.{probed, node_after}
use dtboverlay.Fdt.Ro.Props.{fdt_get_phandle}

abbrev pub fdt_max_phandle : ℕ
fdt_max_phandle = 0xfffffffe

module _ (t : Tree) where
  -- The loop of `fdt_find_max_phandle`: the result, and the greatest phandle so far.
  unfoldable pub max_phandle_loop : ℕ → ℤ → ℕ → Read (ℤ × ℕ)
  max_phandle_loop zero offset max = spent
  max_phandle_loop (suc n) offset max =
      let rest = max_phandle_loop n in
      do
        after ← node_after t offset
        if is_negative after
            then value (if eq_test after (failure notfound) then pos 0 else after, max)
            else do v ← fdt_get_phandle t after; rest after (if ltb max v then v else max)

  -- The result, and `*phandle`, which is set if the result is 0.
  unfoldable pub fdt_find_max_phandle : Read (ℤ × ℕ)
  fdt_find_max_phandle = max_phandle_loop t.fuel (negsuc 0) 0

  unfoldable pub fdt_generate_phandle : Read (ℤ × ℕ)
  fdt_generate_phandle = do
    (err, max) ← fdt_find_max_phandle
    value (
        if is_negative err
        then (err, 0)
        else if max == fdt_max_phandle
        then (failure nophandles, 0)
        else (pos 0, max + 1))

  -- The loop of `fdt_node_offset_by_phandle`.
  unfoldable pub find_phandle : ℕ → ℕ → ℤ → Read ℤ
  find_phandle zero phandle offset = spent
  find_phandle (suc n) phandle offset =
      let rest = find_phandle n phandle in
      if is_negative offset then value offset else do
        v ← fdt_get_phandle t offset
        if v == phandle then value offset else do after ← node_after t offset; rest after

  unfoldable pub fdt_node_offset_by_phandle : ℕ → Read ℤ
  fdt_node_offset_by_phandle phandle =
      if phandle == 0 || phandle == 2 ^ 32 - 1
      then fail_with badphandle
      else probed t (do first ← node_after t (negsuc 0); find_phandle t.fuel phandle first)
