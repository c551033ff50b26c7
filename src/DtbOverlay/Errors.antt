-- ===== src/DtbOverlay/Errors.antt =====
-- The error paths of `of_overlay_init`.
use dtboverlay.Base.{
  ℕ, ◌≡◌, [], ◌∷◌, Option, none, some, ap, sym, ◌∙◌, ◌↔◌, arith, ◌==◌, Bool-cases, inl, inr, refl,
}
use dtboverlay.Base.Int.{ℤ, pos}
use dtboverlay.Base.Control.{
  Run, next, exit, fault, finish, outcome, final, Goes, and_then-next, and_then-Goes, finish-Goes,
  Goes-outcome, Goes-final,
}
use dtboverlay.DtbOverlay.Debug.{debug}
use dtboverlay.Trace.{Trace, ptr, str, num, call, printk}
use dtboverlay.Kernel.{Kernel, Shared, Ptr, null, file}
use dtboverlay.DtbOverlay.World.{
  World, sys, from_trace, sys-next, sys-next_inv, sys-Goes, from_trace-Goes,
}
use dtboverlay.Memory.{Buffer}
use dtboverlay.Fdt.Check.{fdt_check_header}
use dtboverlay.DtbOverlay.Module.{Ret, loaded, apply, apply_file, of_overlay_init}

abbrev pub opened_lines : Trace → Trace
opened_lines t = call "filp_open" [] ∷ printk "%s\n" (str "of_overlay_init" ∷ []) ∷ t

-- The value that a run goes on with.
abbrev returned : {S R A : Type 0} → Run S R A → A → A
returned (next a s) other = a
returned (exit r s) other = other
returned fault other = other

module _ (K : Kernel) (assumed fuel : ℕ) (w : World K.S) where
  -- No path of the code between the two labels returns early.
  apply-Goes : (b : Buffer) (size : ℕ) (w1 : World K.S) → Goes (apply K assumed fuel b size w1)
  unfolding apply
  apply-Goes b size w1 =
      and_then-Goes _ _ (from_trace-Goes (fdt_check_header assumed b) w1) (λ err w2.
        and_then-Goes _ _
          (finish-Goes
            (debug K fuel (record w2 { trace = printk "TEST Err %d\n" (num err ∷ []) ∷ w2.trace })))
          (λ _ w4.
            and_then-Goes _ _
              (sys-Goes "of_overlay_fdt_apply" (ptr b.addr ∷ num (pos size) ∷ num w4.ovcsid ∷ [])
                (K.of_overlay_fdt_apply b size w4.ovcsid) w4)
              (λ q w5. inl (_, _, refl))))

  apply_file-Goes : (f : K.File) (w1 : World K.S) → Goes (apply_file K assumed fuel f w1)
  unfolding apply_file
  apply_file-Goes f w1 =
      and_then-Goes _ _ (sys-Goes "i_size_read" [] (K.i_size_read f) w1) (λ size w2.
        and_then-Goes _ _
          (sys-Goes "kzalloc" (num (pos size) ∷ []) (K.kzalloc size)
            (record w2 { trace = printk "DTB size %llx\n" (num (pos size) ∷ []) ∷ w2.trace }))
          (λ addr w3. elim (Bool-cases (addr == null)) [
            | inl z ↦ rw z (inl (_, _, refl))
            | inr nz ↦ rw nz (
                and_then-Goes _ _
                  (sys-Goes "kernel_read" (ptr addr ∷ num (pos size) ∷ []) (K.kernel_read f size)
                    (record w3 { trace = printk "DEBUG %llx" (ptr addr ∷ []) ∷ w3.trace }))
                  (λ q w4. apply-Goes _ size _))
          ]))

  init-Goes :
      {dtbfile : K.File} {s : Shared K.S}
      → K.filp_open w.dtbpath w.shared ≡ some (file dtbfile, s)
      → Goes (of_overlay_init K assumed fuel w)
  unfolding of_overlay_init
  init-Goes {dtbfile} {s} e =
      let w0 : World K.S = record w {
        trace = printk "%s\n" (str "of_overlay_init" ∷ []) ∷ w.trace;
      } in
      rw (sys-next "filp_open" [] (K.filp_open w.dtbpath) w0 e) (
        and_then-Goes _ _ (apply_file-Goes dtbfile _) (λ ret w1.
          and_then-Goes _ _ (sys-Goes "filp_close" [] (K.filp_close dtbfile) w1)
            (λ _ w2. inl (_, _, refl))))

  next_closes :
      {dtbfile : K.File} {s : Shared K.S} {ret : Ret} {w' : World K.S}
      → K.filp_open w.dtbpath w.shared ≡ some (file dtbfile, s)
      → of_overlay_init K assumed fuel w ≡ next ret w'
      → (w1 : World K.S) × (apply_file K assumed fuel dtbfile
            (record w { shared = s; trace = opened_lines w.trace })
          ≡ next ret w1)
        × (K.filp_close dtbfile w1.shared ≡ some (tt, w'.shared))
        × (w'.trace ≡ call "filp_close" [] ∷ w1.trace)
  unfolding of_overlay_init
  next_closes {dtbfile} {s} {ret} {w'} e h =
      let w0 : World K.S = record w {
        trace = printk "%s\n" (str "of_overlay_init" ∷ []) ∷ w.trace;
      } in
      let later = rw (sys-next "filp_open" [] (K.filp_open w.dtbpath) w0 e) at h in
      let (r, w1, ran, rest) =
        and_then-next
          (apply_file K assumed fuel dtbfile
            (record w { shared = s; trace = opened_lines w.trace }))
          _ later in
      let close = sys {S = K.S} {R = Ret} "filp_close" [] (K.filp_close dtbfile) in
      let (_, w2, closed, done) = and_then-next (close w1) _ rest in
      let (s', got, after) = sys-next_inv "filp_close" [] (K.filp_close dtbfile) w1 closed in
      let same : record w1 { shared = s'; trace = call "filp_close" [] ∷ w1.trace } ≡ w' =
        cc (after, done) in
      (
        w1,
        cc (ran, done),
        got ∙ ap {B = Option (Unit {0} × Shared K.S)} (λ (v : World K.S). some (tt, v.shared)) same,
        ap (λ (v : World K.S). v.trace) (sym same),
      )

  -- If `filp_open` gives a file and `of_overlay_init` returns, early or at its end, the file is
  -- closed, after all else that is called, and what is returned is the result of the code between
  -- the two.
  pub init_closes :
      {dtbfile : K.File} {s : Shared K.S} {ret : Ret} {w' : World K.S}
      → K.filp_open w.dtbpath w.shared ≡ some (file dtbfile, s)
      → outcome (of_overlay_init K assumed fuel w) ≡ some ret
      → final (of_overlay_init K assumed fuel w) ≡ some w'
      → (w1 : World K.S) × (apply_file K assumed fuel dtbfile
            (record w { shared = s; trace = opened_lines w.trace })
          ≡ next ret w1)
        × (K.filp_close dtbfile w1.shared ≡ some (tt, w'.shared))
        × (w'.trace ≡ call "filp_close" [] ∷ w1.trace)
  init_closes e out fin = next_closes e (Goes-final (init-Goes e) out fin)

  -- The blob is applied with some result, if that returns at all.
  apply-some :
      (b : Buffer) (size : ℕ) (w1 : World K.S) {ret : Ret} {w' : World K.S}
      → apply K assumed fuel b size w1 ≡ next ret w'
      → (r : ℤ) × (ret ≡ some r)
  unfolding apply
  apply-some b size w1 {ret} h =
      let (err, w2, _, h) =
        and_then-next (from_trace {S = K.S} {R = Ret} (fdt_check_header assumed b) w1) _ h in
      let w3 : World K.S = record w2 { trace = printk "TEST Err %d\n" (num err ∷ []) ∷ w2.trace } in
      let (_, w4, _, h) = and_then-next (finish {Q = Ret} (debug K fuel w3)) _ h in
      let (q, _, _, h) =
        and_then-next
          (sys {S = K.S} {R = Ret} "of_overlay_fdt_apply"
            (ptr b.addr ∷ num (pos size) ∷ num w4.ovcsid ∷ [])
            (K.of_overlay_fdt_apply b size w4.ovcsid) w4)
          _ h in
      (q.0, ap (λ (r : Run (World K.S) Ret Ret). returned r ret) (sym h))

  -- If `filp_open` gives a file, `i_size_read` a size and `kzalloc` a pointer, and
  -- `of_overlay_init` returns, early or at its end, it returns a `ret` that was never assigned
  -- exactly if the pointer is null.
  pub init_unassigned_iff :
      {dtbfile : K.File} {size : ℕ} {a : Ptr} {s1 s2 s3 : Shared K.S} {ret : Ret}
      → K.filp_open w.dtbpath w.shared ≡ some (file dtbfile, s1)
      → K.i_size_read dtbfile s1 ≡ some (size, s2)
      → K.kzalloc size s2 ≡ some (a, s3)
      → outcome (of_overlay_init K assumed fuel w) ≡ some ret
      → (ret ≡ none) ↔ (a ≡ null)
  unfolding apply_file
  init_unassigned_iff {dtbfile} {size} {a} {s1} {s2} {s3} {ret} e1 e2 e3 out =
      let (w', h) = Goes-outcome (init-Goes e1) out in
      let (_, ran, _, _) = next_closes e1 h in
      let w1 : World K.S = record w { shared = s1; trace = opened_lines w.trace } in
      let w2 : World K.S = record w1 {
        shared = s2;
        trace = printk "DTB size %llx\n" (num (pos size) ∷ []) ∷ call "i_size_read" [] ∷ w1.trace;
      } in
      let later =
        rw
          (
            sys-next "i_size_read" [] (K.i_size_read dtbfile) w1 e2,
            sys-next "kzalloc" (num (pos size) ∷ []) (K.kzalloc size) w2 e3,
          )
          at ran in
      elim (Bool-cases (a == null)) [
        | inl z ↦ (let later = rw z at later in ((λ _. ground arith), λ _. cc later))
        | inr nz ↦
            let later = rw nz at later in
            let w3 : World K.S = record w2 {
              shared = s3;
              trace =
                  printk "DEBUG %llx" (ptr a ∷ [])
                  ∷ call "kzalloc" (num (pos size) ∷ [])
                  ∷ w2.trace;
            } in
            let (q, w4, _, applied) =
              and_then-next
                (sys {S = K.S} {R = Ret} "kernel_read" (ptr a ∷ num (pos size) ∷ [])
                  (K.kernel_read dtbfile size) w3)
                _ later in
            let w5 : World K.S = record w4 {
              trace = printk "DEBUG %llx, %llx" (ptr a ∷ num (pos q.1) ∷ []) ∷ w4.trace;
            } in
            let (r, e) =
              apply-some (record { addr = a; bytes = loaded size q.0 }) size w5 applied in
            ((λ n. cc (n, e)), λ n. absurd (ground arith))
      ]
