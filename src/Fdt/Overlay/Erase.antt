-- ===== src/Fdt/Overlay/Erase.antt =====
-- The magics after `fdt_overlay_apply` of libfdt/fdt_overlay.c.
use dtboverlay.Base.{
  ℕ, ◌-◌, ◌%◌, ◌^◌, ◌≤◌, ◌≡◌, ◌⊎◌, inl, inr, refl, ap, List, [], ◌∷◌, true, false, Bool-cases,
  arith, length, leb,
}
use dtboverlay.Base.Int.{ℤ, pos, negsuc, is_negative, eq_test}
use dtboverlay.Base.Bits.{bit_and_seven}
use dtboverlay.Base.Control.{next, exit}
use dtboverlay.Trace.{Trace}
use dtboverlay.Memory.{load8-next}
use dtboverlay.Fdt.Constants.{failure, badmagic}
use dtboverlay.Fdt.Header.{magic, fdt32_ld, fdt_get_header}
use dtboverlay.Fdt.Check.{fdt_check_header}
use dtboverlay.Fdt.Verdict.{after_0}
use dtboverlay.Fdt.Encode.{put32}
use dtboverlay.Fdt.Read.{value, Tree}
use dtboverlay.Fdt.Write.{overwrite, with_bytes, store_bytes, set_header}
use dtboverlay.Fdt.Write.Bytes.{length-overwrite, byte-written}
use dtboverlay.Fdt.Write.Keeps.{Keeps-value, shape}
use dtboverlay.Fdt.Overlay.Both.{Blobs}
use dtboverlay.Fdt.Overlay.Apply.{apply_steps, apply_probed, fdt_overlay_apply}
use dtboverlay.Fdt.Overlay.Steps.{HaveShapes, apply_steps-Keeps}

abbrev no_magic : List ℕ
no_magic = 255 ∷ 255 ∷ 255 ∷ 255 ∷ []

-- The blob with four bytes of ones at its start.
abbrev pub erased : Tree → Tree
erased t = with_bytes t (overwrite 0 no_magic t.blob.bytes)

-- `fdt_check_header` finds no magic in the blob.
abbrev pub IsErased : Tree → Type 0
IsErased t =
    (tr : Trace) → fdt_check_header t.assumed t.blob tr ≡ exit (failure badmagic) (after_0 tr)

module _ (t : Tree) (long : 4 ≤ length t.blob.bytes) where
  set_magic-erased : set_header magic (2 ^ 32 - 1) t ≡ value (tt, erased t)
  unfolding store_bytes put32
  set_magic-erased = let room : leb 4 (length t.blob.bytes) ≡ true = ground arith in rw room refl

  magic-erased :
      {S R : Type 0} (s : S)
      → fdt_get_header {S = S} {R = R} (erased t).blob magic s ≡ next (2 ^ 32 - 1) s
  unfolding fdt_get_header fdt32_ld
  magic-erased s =
      let ys = t.blob.bytes in
      let len : length (overwrite 0 no_magic ys) ≡ length ys = length-overwrite 0 no_magic ys in
      rw
        (
          load8-next (erased t).blob 0 s (omega (arith, len)),
          load8-next (erased t).blob 1 s (omega (arith, len)),
          load8-next (erased t).blob 2 s (omega (arith, len)),
          load8-next (erased t).blob 3 s (omega (arith, len)),
          byte-written 0 no_magic ys 0 long (omega arith),
          byte-written 0 no_magic ys 1 long (omega arith),
          byte-written 0 no_magic ys 2 long (omega arith),
          byte-written 0 no_magic ys 3 long (omega arith),
        )
        refl

  erased-IsErased : t.blob.addr % 8 ≡ 0 → IsErased (erased t)
  unfolding fdt_check_header
  erased-IsErased aligned tr = rw (bit_and_seven t.blob.addr, aligned, magic-erased) refl

eq_test_zero : (r : ℤ) → eq_test r (pos 0) ≡ true → r ≡ pos 0
eq_test_zero (pos n) h = let e : n ≡ 0 = ground arith in rw e refl
eq_test_zero (negsuc n) h = absurd (ground arith)

-- A blob at an address that `fdt_check_header` accepts, which is not too short for a magic.
pub record IsPlaced (t : Tree) : Type 0 where
  pub probe : is_negative t.ro_probe ≡ false
  pub aligned : t.blob.addr % 8 ≡ 0
  pub long : 4 ≤ length t.blob.bytes

module _ (strtoul : List ℕ → ℕ × ℕ) {b : Blobs} (base : IsPlaced b.fdt)
    (over : IsPlaced b.fdto) where
  -- If `fdt_ro_probe_` refuses neither blob, both lie at addresses that are multiples of 8 and have
  -- four bytes or more, and the steps of `fdt_overlay_apply` return a result, whatever they wrote,
  -- then `fdt_overlay_apply` returns the same result, `fdt_check_header` finds no magic in the
  -- overlay after it, and the base is left as the steps made it if the result is 0, while otherwise
  -- `fdt_check_header` finds no magic in it either.
  pub fdt_overlay_apply_erases :
      {r : ℤ} {b' : Blobs}
      → apply_steps strtoul b ≡ value (r, b')
      → (b'' : Blobs) × (fdt_overlay_apply strtoul b ≡ value (r, b''))
        × IsErased b''.fdto
        × (((r ≡ pos 0) × (b''.fdt ≡ b'.fdt)) ⊎ ((¬ (r ≡ pos 0)) × IsErased b''.fdt))
  unfolding fdt_overlay_apply apply_probed
  fdt_overlay_apply_erases {r} {b'} steps =
      let same : HaveShapes (shape b.fdt) (shape b.fdto) b' =
        Keeps-value (apply_steps-Keeps strtoul) steps (refl, refl) in
      let fits : 4 ≤ length b'.fdt.blob.bytes =
        omega (arith, base.long, ap (λ (z : ℕ × ℕ × ℕ). z.2) same.0) in
      let fits' : 4 ≤ length b'.fdto.blob.bytes =
        omega (arith, over.long, ap (λ (z : ℕ × ℕ × ℕ). z.2) same.1) in
      let at : b'.fdt.blob.addr % 8 ≡ 0 =
        omega (arith, base.aligned, ap (λ (z : ℕ × ℕ × ℕ). z.1) same.0) in
      let at' : b'.fdto.blob.addr % 8 ≡ 0 =
        omega (arith, over.aligned, ap (λ (z : ℕ × ℕ × ℕ). z.1) same.1) in
      rw (base.probe, over.probe, steps, set_magic-erased b'.fdto fits')
        (elim (Bool-cases (eq_test r (pos 0))) [
          | inl zero ↦
              let none : r ≡ pos 0 = eq_test_zero r zero in
              rw (zero, none) (_, refl, erased-IsErased b'.fdto fits' at', inl (refl, refl))
          | inr failed ↦
              let other : ¬ (r ≡ pos 0) = λ e. (let bad = rw e at failed in cc bad) in
              rw (failed, set_magic-erased b'.fdt fits)
                (
                  _,
                  refl,
                  erased-IsErased b'.fdto fits' at',
                  inr (other, erased-IsErased b'.fdt fits at),
                )
        ])
