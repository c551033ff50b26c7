-- ===== src/Fdt/EmptyTree.antt =====
-- libfdt/fdt_empty_tree.c: a blob with an empty root.
use dtboverlay.Base.{[], if◌then◌else◌}
use dtboverlay.Base.Int.{ℤ, pos, eq_test}
use dtboverlay.Fdt.Write.{Edit, ◌>>=◌, pure}
use dtboverlay.Fdt.Sw.Space.{fdt_create}
use dtboverlay.Fdt.Sw.Build.{fdt_finish_reservemap, fdt_begin_node, fdt_end_node}
use dtboverlay.Fdt.Sw.Finish.{fdt_finish}
use dtboverlay.Fdt.Rw.Open.{fdt_open_into}

-- `if (err) return err;`
abbrev then_if_fine : Edit ℤ → Edit ℤ → Edit ℤ
then_if_fine m k = do err ← m; if eq_test err (pos 0) then k else pure err

unfoldable pub fdt_create_empty_tree : ℤ → Edit ℤ
fdt_create_empty_tree bufsize = then_if_fine (fdt_create bufsize) (
    then_if_fine fdt_finish_reservemap (
      then_if_fine (fdt_begin_node [])
        (then_if_fine fdt_end_node (then_if_fine fdt_finish (fdt_open_into 0 0 bufsize)))))
