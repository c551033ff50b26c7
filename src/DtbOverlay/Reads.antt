-- ===== src/DtbOverlay/Reads.antt =====
-- The file of the module parameter is read into memory.
use dtboverlay.Base.{ℕ, String, ◌≡◌, ◌≢◌, List, [], ◌∷◌, Option, some, arith, false, ◌==◌, ap, ◌∙◌}
use dtboverlay.Base.Int.{ℤ, pos}
use dtboverlay.Base.Control.{Stmt, pure, and_then, ◌>>◌}
use dtboverlay.DtbOverlay.Symbols.{SameTree-trans}
use dtboverlay.Trace.{Trace, ptr, str, num, call, printk}
use dtboverlay.Memory.{Buffer}
use dtboverlay.Fdt.Assume.{fdt_assume_mask}
use dtboverlay.Kernel.{Kernel, Shared, Ptr, null, Opened, file}
use dtboverlay.Kernel.Laws.{Gives, SameTree}
use dtboverlay.DtbOverlay.World.{World, sys, sys-next}
use dtboverlay.DtbOverlay.Module.{Ret, loaded, apply, apply_file, of_overlay_init}
use dtboverlay.DtbOverlay.Errors.{opened_lines}

-- The file of the module parameter can be read into memory at `addr`, which leaves the device tree
-- alone, and a blob can be applied and removed.
pub record IsReadable (K : Kernel) (path : Option String) (size : ℕ) (bytes : List ℕ) (addr : Ptr)
    : Type 0 where
  pub dtbfile : K.File
  pub addr-ne-null : addr ≢ null
  pub open_law :
      (s : Shared K.S) → Gives (λ o s'. (o ≡ file dtbfile) × SameTree s s') (K.filp_open path s)
  pub size_law :
      (s : Shared K.S) → Gives (λ n s'. (n ≡ size) × SameTree s s') (K.i_size_read dtbfile s)
  pub kzalloc_law : (s : Shared K.S) → Gives (λ a s'. (a ≡ addr) × SameTree s s') (K.kzalloc size s)
  pub read_law :
      (s : Shared K.S)
      → Gives (λ r s'. (r.0 ≡ bytes) × SameTree s s') (K.kernel_read dtbfile size s)
  pub apply_law :
      (b : Buffer) (id : ℤ) (s : Shared K.S)
      → Gives (λ _ _. Unit {0}) (K.of_overlay_fdt_apply b size id s)
  pub close_law : (s : Shared K.S) → Gives (λ _ _. Unit {0}) (K.filp_close dtbfile s)
  pub remove_law : (id : ℤ) (s : Shared K.S) → Gives (λ _ _. Unit {0}) (K.of_overlay_remove id s)

abbrev pub buffer : ℕ → List ℕ → Ptr → Buffer
buffer size bytes addr = record { addr = addr; bytes = loaded size bytes }

module _ {K : Kernel} {size : ℕ} {bytes : List ℕ} {addr : Ptr} (fuel : ℕ) (w : World K.S)
    (readable : IsReadable K w.dtbpath size bytes addr) where
  open readable use {dtbfile, addr-ne-null, open_law, size_law, kzalloc_law, read_law}

  -- What is printed and called until the file is in memory, which ends at the position `at`.
  abbrev pub read_lines : ℕ → Trace → Trace
  read_lines at t =
      printk "DEBUG %llx, %llx" (ptr addr ∷ num (pos at) ∷ [])
      ∷ call "kernel_read" (ptr addr ∷ num (pos size) ∷ [])
      ∷ printk "DEBUG %llx" (ptr addr ∷ [])
      ∷ call "kzalloc" (num (pos size) ∷ [])
      ∷ printk "DTB size %llx\n" (num (pos size) ∷ [])
      ∷ call "i_size_read" []
      ∷ opened_lines t

  abbrev pub close : Ret → Stmt (World K.S) Ret Ret
  close ret = do sys "filp_close" [] (K.filp_close dtbfile); pure ret

  -- The file is read into the buffer, and then applied and closed.
  pub init_reads :
      (at : ℕ) × (s : Shared K.S) × SameTree w.shared s
      × (of_overlay_init K fdt_assume_mask fuel w
          ≡ and_then
              (apply K fdt_assume_mask fuel
                (buffer size bytes addr)
                size
                (record w { shared = s; trace = read_lines at w.trace }))
              close)
  unfolding of_overlay_init apply_file
  init_reads =
      let (o, s1, e1, p1) = open_law w.shared in
      let opened : K.filp_open w.dtbpath w.shared ≡ some (file dtbfile, s1) =
        e1
        ∙ ap {B = Option (Opened K.File × Shared K.S)} (λ (x : Opened K.File). some (x, s1)) p1.0 in
      let (n, s2, e2, p2) = size_law s1 in
      let sized : K.i_size_read dtbfile s1 ≡ some (size, s2) =
        e2 ∙ ap {B = Option (ℕ × Shared K.S)} (λ (x : ℕ). some (x, s2)) p2.0 in
      let (a, s3, e3, p3) = kzalloc_law s2 in
      let allocated : K.kzalloc size s2 ≡ some (addr, s3) =
        e3 ∙ ap {B = Option (Ptr × Shared K.S)} (λ (x : Ptr). some (x, s3)) p3.0 in
      let (r, s4, e4, p4) = read_law s3 in
      let filled : K.kernel_read dtbfile size s3 ≡ some ((bytes, r.1), s4) =
        e4
        ∙ ap {B = Option ((List ℕ × ℕ) × Shared K.S)} (λ (x : List ℕ). some ((x, r.1), s4)) p4.0 in
      let w0 : World K.S = record w {
        trace = printk "%s\n" (str "of_overlay_init" ∷ []) ∷ w.trace;
      } in
      let w1 : World K.S = record w { shared = s1; trace = opened_lines w.trace } in
      let w2 : World K.S = record w {
        shared = s2;
        trace = printk "DTB size %llx\n" (num (pos size) ∷ []) ∷ call "i_size_read" [] ∷ w1.trace;
      } in
      let w3 : World K.S = record w {
        shared = s3;
        trace =
            printk "DEBUG %llx" (ptr addr ∷ []) ∷ call "kzalloc" (num (pos size) ∷ []) ∷ w2.trace;
      } in
      let ne : (addr == null) ≡ false = ground arith in
      (
        r.1,
        s4,
        SameTree-trans w.shared s3 s4
            (SameTree-trans w.shared s2 s3 (SameTree-trans w.shared s1 s2 p1.1 p2.1) p3.1) p4.1,
        rw (
          sys-next "filp_open" [] (K.filp_open w.dtbpath) w0 opened,
          sys-next "i_size_read" [] (K.i_size_read dtbfile) w1 sized,
          sys-next "kzalloc" (num (pos size) ∷ []) (K.kzalloc size) w2 allocated,
          ne,
          sys-next "kernel_read" (ptr addr ∷ num (pos size) ∷ []) (K.kernel_read dtbfile size) w3
              filled,
        ),
      )
