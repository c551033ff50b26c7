-- ===== src/DtbOverlay/Insmod.antt =====
-- insmod and rmmod in a kernel that works, on a system without a device tree.
use dtboverlay.Base.{ℕ, suc, ◌≡◌, refl, List, [], ◌∷◌, some, Bool, ap, sym, ◌∙◌}
use dtboverlay.Base.Int.{ℤ, pos}
use dtboverlay.Base.Control.{next}
use dtboverlay.Trace.{ptr, num, call, printk}
use dtboverlay.Memory.{Buffer}
use dtboverlay.Fdt.Assume.{fdt_assume_mask}
use dtboverlay.Fdt.Layout.{HasHeader}
use dtboverlay.Kernel.{Kernel, Shared, Ptr, null}
use dtboverlay.Kernel.Laws.{IsWorking, SameTree}
use dtboverlay.DtbOverlay.World.{World, sys-next}
use dtboverlay.DtbOverlay.Create.{HasRoot, debug-HasRoot}
use dtboverlay.DtbOverlay.Module.{of_overlay_init, of_overlay_exit}
use dtboverlay.DtbOverlay.Reads.{IsReadable, buffer, init_reads, read_lines}
use dtboverlay.DtbOverlay.Apply.{check_returns, apply_anyway}

-- A root was made, then the blob was applied to it with the result `ret` and the changeset `id`.
pub record IsApplied (K : Kernel) (in_use : K.S → Ptr → Bool) (w after : World K.S) (b : Buffer)
    (size : ℕ) (lookup ktype attach : Ptr) (ret : ℤ) : Type 0 where
  pub start : World K.S
  pub same_start : SameTree w.shared start.shared
  pub ready : World K.S
  pub root : Ptr
  pub symchild : Ptr
  pub has_root : HasRoot in_use start ready lookup ktype attach root symchild
  pub result : Shared K.S
  pub applied :
      K.of_overlay_fdt_apply b size w.ovcsid ready.shared ≡ some ((ret, after.ovcsid), result)
  pub lines :
      after.trace
      ≡ call "filp_close" []
        ∷ call "of_overlay_fdt_apply" (ptr b.addr ∷ num (pos size) ∷ num w.ovcsid ∷ [])
        ∷ ready.trace

module _ {K : Kernel} {lookup ktype attach : Ptr} (works : IsWorking K lookup ktype attach)
    {size : ℕ} {bytes : List ℕ} {addr : Ptr} (w : World K.S)
    (readable : IsReadable K w.dtbpath size bytes addr) (has : HasHeader (buffer size bytes addr))
    (no_root : w.shared.of_root ≡ null) (fuel : ℕ) where
  open readable use {dtbfile, apply_law, close_law, remove_law}

  -- In a kernel that works and has no root, if the file of the module parameter can be read and its
  -- buffer holds a whole header, `of_overlay_init` runs to its end and implements this: `debug`
  -- makes a root, `of_overlay_fdt_apply` is called with the buffer, its size and the static
  -- `ovcsid` on the tree with that root, its result is returned, the id that it gives is kept in
  -- `ovcsid`, and the file is closed last.
  pub init-IsApplied :
      (ret : ℤ) × (after : World K.S) × (of_overlay_init K fdt_assume_mask (suc fuel) w
        ≡ next (some ret) after)
      × IsApplied K works.in_use w after (buffer size bytes addr) size lookup ktype attach ret
  init-IsApplied =
      let b : Buffer = buffer size bytes addr in
      let (at, s4, same, reads) = init_reads (suc fuel) w readable in
      let w4 : World K.S = record w {
        shared = s4;
        trace = read_lines (suc fuel) w readable at w.trace;
      } in
      let (err, t, checked, printed) = check_returns w4.trace has in
      let w5 : World K.S = record w4 { trace = printk "TEST Err %d\n" (num err ∷ []) ∷ t } in
      let (root, symchild, w6, debugged, made) =
        debug-HasRoot K fuel w5 works (same.root_is ∙ no_root) in
      let (q, s7, e7, _) = apply_law b w6.ovcsid w6.shared in
      let w7 : World K.S = record w6 {
        ovcsid = q.1;
        shared = s7;
        trace =
            call "of_overlay_fdt_apply" (ptr addr ∷ num (pos size) ∷ num w6.ovcsid ∷ []) ∷ w6.trace;
      } in
      let (_, s8, e8, _) = close_law s7 in
      (
        q.0,
        record w7 { shared = s8; trace = call "filp_close" [] ∷ w7.trace },
        reads
            ∙ rw (
              apply_anyway K fdt_assume_mask (suc fuel) b size w4 checked printed debugged e7,
              sys-next "filp_close" [] (K.filp_close dtbfile) w7 e8,
            ),
        record {
          start = w5;
          same_start = same;
          ready = w6;
          root = root;
          symchild = symchild;
          has_root = made;
          result = s7;
          applied =
              ap (λ (id : ℤ). K.of_overlay_fdt_apply b size id w6.shared) (sym made.same_id) ∙ e7;
          lines =
              ap
                (λ (id : ℤ).
                  call "filp_close" []
                  ∷ call "of_overlay_fdt_apply" (ptr addr ∷ num (pos size) ∷ num id ∷ [])
                  ∷ w6.trace)
                made.same_id;
        },
      )

  -- In a kernel that works and has no root, if the file of the module parameter can be read and its
  -- buffer holds a whole header, `of_overlay_init` runs to its end with the blob applied, and
  -- `of_overlay_exit` then does too; its one call is `of_overlay_remove` with the `ovcsid` that the
  -- run left behind, which is the id that `of_overlay_fdt_apply` gave.
  pub exit_removes :
      (ret : ℤ) × (after last : World K.S) × (of_overlay_init K fdt_assume_mask (suc fuel) w
        ≡ next (some ret) after)
      × IsApplied K works.in_use w after (buffer size bytes addr) size lookup ktype attach ret
      × (of_overlay_exit K fdt_assume_mask (suc fuel) after ≡ next tt last)
      × (last.trace ≡ call "of_overlay_remove" (num after.ovcsid ∷ []) ∷ after.trace)
  unfolding of_overlay_exit
  exit_removes =
      let (ret, after, ran, applied) = init-IsApplied in
      let (q, s, e, _) = remove_law after.ovcsid after.shared in
      (
        ret,
        after,
        record after {
          ovcsid = q.1;
          shared = s;
          trace = call "of_overlay_remove" (num after.ovcsid ∷ []) ∷ after.trace;
        },
        ran,
        applied,
        rw (
            sys-next "of_overlay_remove" (num after.ovcsid ∷ []) (K.of_overlay_remove after.ovcsid)
              after e),
        refl,
      )
