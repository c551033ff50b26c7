-- ===== src/DtbOverlay/Rooted.antt =====
-- insmod on a system that has a device tree.
use dtboverlay.Base.{ℕ, ◌≡◌, ◌≢◌, List, [], ◌∷◌, some, ◌∙◌, sym}
use dtboverlay.Base.Int.{ℤ, pos}
use dtboverlay.Base.Control.{next}
use dtboverlay.Trace.{ptr, num, call, printk}
use dtboverlay.Memory.{Buffer}
use dtboverlay.Fdt.Assume.{fdt_assume_mask}
use dtboverlay.Fdt.Layout.{HasHeader}
use dtboverlay.Kernel.{Kernel, Shared, Ptr, null}
use dtboverlay.Kernel.Laws.{SameTree}
use dtboverlay.DtbOverlay.World.{World, sys-next}
use dtboverlay.DtbOverlay.Create.{debug_has_root}
use dtboverlay.DtbOverlay.Module.{of_overlay_init}
use dtboverlay.DtbOverlay.Apply.{check_returns, apply_anyway}
use dtboverlay.DtbOverlay.Reads.{IsReadable, buffer, init_reads, read_lines}

module _ {K : Kernel} {size : ℕ} {bytes : List ℕ} {addr : Ptr} (w : World K.S)
    (readable : IsReadable K w.dtbpath size bytes addr) (has : HasHeader (buffer size bytes addr))
    (rooted : w.shared.of_root ≢ null) (fuel : ℕ) where
  open readable use {dtbfile, apply_law, close_law}

  -- On a system that has a root, if the file of the module parameter can be read and its buffer
  -- holds a whole header, `of_overlay_init` runs to its end, on any fuel: `of_overlay_fdt_apply` is
  -- called with the buffer, its size and `ovcsid` on the device tree as it was, its result is
  -- returned, the id that it gives is kept in `ovcsid`, and the file is closed after it.
  pub init_rooted :
      (ret : ℤ) × (after : World K.S) × (before result : Shared K.S) × (of_overlay_init K
          fdt_assume_mask fuel w
        ≡ next (some ret) after)
      × SameTree w.shared before
      × (K.of_overlay_fdt_apply (buffer size bytes addr) size w.ovcsid before
          ≡ some ((ret, after.ovcsid), result))
      × (K.filp_close dtbfile result ≡ some (tt, after.shared))
  init_rooted =
      let b : Buffer = buffer size bytes addr in
      let (at, s4, same, reads) = init_reads fuel w readable in
      let w4 : World K.S = record w {
        shared = s4;
        trace = read_lines fuel w readable at w.trace;
      } in
      let (err, t, checked, printed) = check_returns w4.trace has in
      let w5 : World K.S = record w4 { trace = printk "TEST Err %d\n" (num err ∷ []) ∷ t } in
      let there : s4.of_root ≢ null = λ e. rooted (sym same.root_is ∙ e) in
      let w6 : World K.S = record w5 {
        trace = printk "DEBUG of_root %llx" (ptr s4.of_root ∷ []) ∷ w5.trace;
      } in
      let (q, s7, e7, _) = apply_law b w.ovcsid s4 in
      let w7 : World K.S = record w6 {
        ovcsid = q.1;
        shared = s7;
        trace =
            call "of_overlay_fdt_apply" (ptr addr ∷ num (pos size) ∷ num w.ovcsid ∷ []) ∷ w6.trace;
      } in
      let (_, s8, e8, _) = close_law s7 in
      (
        q.0,
        record w7 { shared = s8; trace = call "filp_close" [] ∷ w7.trace },
        s4,
        s7,
        reads
            ∙ rw (
              apply_anyway K fdt_assume_mask fuel b size w4 checked printed
                  (debug_has_root K fuel w5 there) e7,
              sys-next "filp_close" [] (K.filp_close dtbfile) w7 e8,
            ),
        same,
        e7,
        e8,
      )
