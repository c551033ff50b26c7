-- ===== src/DtbOverlay/Apply.antt =====
-- What happens between the header check and `of_overlay_fdt_apply`.
use dtboverlay.Base.{ℕ, ◌≡◌, refl, [], ◌∷◌, some}
use dtboverlay.Base.Int.{ℤ, pos}
use dtboverlay.Base.Control.{Run, next, exit, fault, outcome, final}
use dtboverlay.Trace.{Trace, ptr, num, call, printk}
use dtboverlay.Memory.{Buffer}
use dtboverlay.Fdt.Assume.{fdt_assume_mask}
use dtboverlay.Fdt.Check.{fdt_check_header}
use dtboverlay.Fdt.Layout.{HasHeader}
use dtboverlay.Fdt.Verdict.{
  Verdict, misaligned, not_dtb, bad_version, bad_size, bad_struct, bad_strings, accepted,
  fdt_check_header_lem,
}
use dtboverlay.Kernel.{Kernel, Shared}
use dtboverlay.DtbOverlay.World.{World, sys-next, traced}
use dtboverlay.DtbOverlay.Debug.{debug}
use dtboverlay.DtbOverlay.Module.{Ret, apply}

-- With a whole header the check returns a result and a trace.
pub check_returns :
    {b : Buffer} (t : Trace)
    → HasHeader b
    → (err : ℤ) × (t' : Trace) × (outcome (fdt_check_header fdt_assume_mask b t) ≡ some err)
      × (final (fdt_check_header fdt_assume_mask b t) ≡ some t')
check_returns t has = settle (fdt_check_header_lem has t)
  where
    settle :
        {b : Buffer} {r : Run Trace ℤ ℤ}
        → Verdict b t r
        → (err : ℤ) × (t' : Trace) × (outcome r ≡ some err) × (final r ≡ some t')
    settle (misaligned _ e) = rw e (_, _, refl, refl)
    settle (not_dtb _ _ e) = rw e (_, _, refl, refl)
    settle (bad_version _ _ e) = rw e (_, _, refl, refl)
    settle (bad_size _ _ e) = rw e (_, _, refl, refl)
    settle (bad_struct _ _ e) = rw e (_, _, refl, refl)
    settle (bad_strings _ _ e) = rw e (_, _, refl, refl)
    settle (accepted _ _ e) = rw e (_, _, refl, refl)

module _ {S R : Type 0} (f : Trace → World S) {err : ℤ} {t : Trace} where
  traced-next :
      (r : Run Trace ℤ ℤ)
      → outcome r ≡ some err
      → final r ≡ some t
      → traced {S = S} {R = R} r f ≡ next err (f t)
  traced-next (next a u) o e = cc (o, e)
  traced-next (exit a u) o e = cc (o, e)
  traced-next fault o e = cc

module _ (K : Kernel) (assumed fuel : ℕ) (b : Buffer) (size : ℕ) (w : World K.S) where
  -- Whatever result `fdt_check_header` has, if `debug` then runs to its end and
  -- `of_overlay_fdt_apply` returns, `apply` returns the result of the latter, keeps its id in
  -- `ovcsid`, and has no other effect but to print the result of the check.
  pub apply_anyway :
      {err ret id : ℤ} {t : Trace} {s : Shared K.S} {w2 : World K.S}
      → outcome (fdt_check_header assumed b w.trace) ≡ some err
      → final (fdt_check_header assumed b w.trace) ≡ some t
      → debug K fuel (record w { trace = printk "TEST Err %d\n" (num err ∷ []) ∷ t }) ≡ next tt w2
      → K.of_overlay_fdt_apply b size w2.ovcsid w2.shared ≡ some ((ret, id), s)
      → apply K assumed fuel b size w
        ≡ next (some ret) (record w2 {
          ovcsid = id;
          shared = s;
          trace =
              call "of_overlay_fdt_apply" (ptr b.addr ∷ num (pos size) ∷ num w2.ovcsid ∷ [])
              ∷ w2.trace;
        })
  unfolding apply
  apply_anyway {w2} checked printed debugged applied = rw (
    traced-next {S = K.S} {R = Ret} (λ u. record w { trace = u })
        (fdt_check_header assumed b w.trace) checked printed,
    debugged,
    sys-next "of_overlay_fdt_apply" (ptr b.addr ∷ num (pos size) ∷ num w2.ovcsid ∷ [])
        (K.of_overlay_fdt_apply b size w2.ovcsid) w2 applied,
  )
