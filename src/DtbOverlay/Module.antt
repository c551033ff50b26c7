-- ===== src/DtbOverlay/Module.antt =====
-- `of_overlay_init` and `of_overlay_exit` of dtboverlay.c, which insmod and rmmod run.
use dtboverlay.Base.{
  ℕ, ◌-◌, List, [], ◌∷◌, ◌++◌, Option, none, some, ◌==◌, if◌then◌else◌, length, replicate,
}
use dtboverlay.Base.Int.{ℤ, pos, neg}
use dtboverlay.Base.Control.{Stmt, pure, finish, ◌>>=◌, ◌>>◌}
use dtboverlay.Trace.{ptr, str, num}
use dtboverlay.Memory.{Buffer}
use dtboverlay.Fdt.Check.{fdt_check_header}
use dtboverlay.Kernel.{Kernel, null, file, err_ptr}
use dtboverlay.DtbOverlay.World.{World, print, sys, get, modify, from_trace}
use dtboverlay.DtbOverlay.Debug.{debug}

-- The `ret` of `of_overlay_init`; `none` is a variable that was never assigned.
abbrev pub Ret : Type 0
Ret = Option ℤ

-- A zeroed buffer of `size` bytes after `bytes` were read into it.
abbrev pub loaded : ℕ → List ℕ → List ℕ
loaded size bytes = bytes ++ replicate (size - length bytes) 0

-- `assumed` is FDT_ASSUME_MASK, `fuel` bounds the properties of the node `/__symbols__`.
module _ (K : Kernel) (assumed fuel : ℕ) where
  abbrev pub Body : Type 0 → Type 0
  Body A = Stmt (World K.S) Ret A

  abbrev call_debug : Body (Unit {0})
  call_debug w = finish (debug K fuel w)

  -- From the header check to `of_overlay_fdt_apply`.
  unfoldable pub apply : Buffer → ℕ → Body Ret
  apply dtb_begin size = do
    err ← from_trace (fdt_check_header assumed dtb_begin)
    print "TEST Err %d\n" (num err ∷ [])
    call_debug
    id ← get (λ w. w.ovcsid)
    (ret, id') ←
        sys "of_overlay_fdt_apply" (ptr dtb_begin.addr ∷ num (pos size) ∷ num id ∷ [])
          (K.of_overlay_fdt_apply dtb_begin size id)
    modify (λ w. record w { ovcsid = id' })
    pure (some ret)

  -- From `i_size_read` to the label `cleanup_file`.
  unfoldable pub apply_file : K.File → Body Ret
  apply_file dtbfile = do
    size ← sys "i_size_read" [] (K.i_size_read dtbfile)
    print "DTB size %llx\n" (num (pos size) ∷ [])
    addr ← sys "kzalloc" (num (pos size) ∷ []) (K.kzalloc size)
    if addr == null
        then (do print "kmalloc error for size %llx" (num (pos size) ∷ []); pure none)
        else do
          print "DEBUG %llx" (ptr addr ∷ [])
          (bytes, at) ←
              sys "kernel_read" (ptr addr ∷ num (pos size) ∷ []) (K.kernel_read dtbfile size)
          print "DEBUG %llx, %llx" (ptr addr ∷ num (pos at) ∷ [])
          apply (record { addr = addr; bytes = loaded size bytes }) size

  unfoldable pub of_overlay_init : Body Ret
  of_overlay_init = do
    print "%s\n" (str "of_overlay_init" ∷ [])
    path ← get (λ w. w.dtbpath)
    opened ← sys "filp_open" [] (K.filp_open path)
    elim opened [
      | err_ptr errno ↦ do print "DTB Open Error" []; pure (some (neg errno))
      | file dtbfile ↦ do
        ret ← apply_file dtbfile
        sys "filp_close" [] (K.filp_close dtbfile)
        pure ret
    ]

  unfoldable pub of_overlay_exit : Body (Unit {0})
  of_overlay_exit = do
    id ← get (λ w. w.ovcsid)
    (_, id') ← sys "of_overlay_remove" (num id ∷ []) (K.of_overlay_remove id)
    modify (λ w. record w { ovcsid = id' })
