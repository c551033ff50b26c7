-- ===== src/Fdt/Wip/Ends.antt =====
-- The end of a node, of libfdt/fdt_wip.c.
use dtboverlay.Base.{ℕ, zero, suc, true, ◌||◌, if◌then◌else◌}
use dtboverlay.Base.Int.{ℤ, pos, is_negative}
use dtboverlay.Fdt.Read.{Read, value, spent, ◌>>=◌, Tree}
use dtboverlay.Fdt.Walk.{fdt_next_node}

module _ (t : Tree) where
  -- The loop of `fdt_node_end_offset_`.
  unfoldable pub end_loop : ℕ → ℤ → ℤ → Read ℤ
  end_loop zero offset depth = spent
  end_loop (suc n) offset depth =
      let rest = end_loop n in
      if is_negative offset || is_negative depth
      then value offset
      else do (after, depth') ← fdt_next_node t true offset depth; rest after depth'

  unfoldable pub fdt_node_end_offset_ : ℤ → Read ℤ
  fdt_node_end_offset_ offset = end_loop t.fuel offset (pos 0)
