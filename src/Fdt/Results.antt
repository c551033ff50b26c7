-- ===== src/Fdt/Results.antt =====
-- The results of `fdt_check_header` on any buffer, with any FDT_ASSUME_MASK.
use dtboverlay.Base.{
  ℕ, ◌≡◌, refl, ◌⊎◌, inl, inr, Bool, true, false, Option, none, some, ◌==◌, not, bit_and,
}
use dtboverlay.Base.Int.{ℤ, pos}
use dtboverlay.Base.Control.{Run, Stmt, next, exit, fault, and_then, when, exit_if, outcome}
use dtboverlay.Trace.{Trace}
use dtboverlay.Memory.{Buffer}
use dtboverlay.Fdt.Constants
use dtboverlay.Fdt.Constants.{FdtErr, alignment, badmagic, badversion, truncated, failure}
use dtboverlay.Fdt.Assume.{can_assume, latest, valid_dtb}
use dtboverlay.Fdt.Header.{magic}
use dtboverlay.Fdt.Check.{fdt_check_header, check_version, check_size}
use dtboverlay.Fdt.Gates.{
  Gate, fdt_get_header-cases, check_version-Gate, check_size-Gate, check_struct-Gate,
  check_strings-Gate, header_size-cases,
}

-- The errors of the header check.
pub data Refusal : FdtErr → Type 0 where
  not_aligned : Refusal alignment
  no_magic : Refusal badmagic
  no_version : Refusal badversion
  too_short : Refusal truncated

-- A fault, 0, or one of these errors.
abbrev pub IsResult : Option ℤ → Type 0
IsResult o = (o ≡ none) ⊎ (o ≡ some (pos 0)) ⊎ ((e : FdtErr) × Refusal e × (o ≡ some (failure e)))

-- A run that goes on, faults, or returns one of these errors.
abbrev Within : {A : Type 0} → Run Trace ℤ A → Type 0
Within {A} r =
    ((a : A) × (s : Trace) × (r ≡ next a s))
    ⊎ (r ≡ fault)
    ⊎ ((e : FdtErr) × (s : Trace) × (r ≡ exit (failure e) s) × Refusal e)

module _ {A : Type 0} (m : Run Trace ℤ A) where
  and_then-Within :
      {B : Type 0} (k : A → Stmt Trace ℤ B)
      → Within m
      → ((a : A) (s : Trace) → Within (k a s))
      → Within (and_then m k)
  and_then-Within k (inl (a, s, e)) later = rw e (later a s)
  and_then-Within k (inr (inl e)) later = rw e (inr (inl refl))
  and_then-Within k (inr (inr (x, s, e, why))) later = rw e (inr (inr (x, s, refl, why)))

  and_then-IsResult :
      (k : A → Stmt Trace ℤ ℤ)
      → Within m
      → ((a : A) (s : Trace) → IsResult (outcome (k a s)))
      → IsResult (outcome (and_then m k))
  and_then-IsResult k (inl (a, s, e)) later = rw e (later a s)
  and_then-IsResult k (inr (inl e)) later = rw e (inl refl)
  and_then-IsResult k (inr (inr (x, s, e, why))) later = rw e (inr (inr (x, why, refl)))

exit_if-Within : {e : FdtErr} (c : Bool) (s : Trace) → Refusal e → Within (exit_if c (failure e) s)
exit_if-Within true s why = inr (inr (_, s, refl, why))
exit_if-Within false s why = inl (tt, s, refl)

when-Within :
    (c : Bool) (m : Stmt Trace ℤ (Unit {0})) (s : Trace) → Within (m s) → Within (when c m s)
when-Within true m s h = h
when-Within false m s h = inl (tt, s, refl)

Gate-Within :
    {e : FdtErr} {s : Trace} {r : Run Trace ℤ (Unit {0})} → Refusal e → Gate e s r → Within r
Gate-Within why (inl e) = inl (_, _, e)
Gate-Within why (inr (inl e)) = inr (inr (_, _, e, why))
Gate-Within why (inr (inr e)) = inr (inl e)

-- A read that is part of a sequence.
read-Within :
    {A : Type 0} {r : Run Trace ℤ A} {s : Trace}
    → ((v : A) × (r ≡ next v s)) ⊎ (r ≡ fault)
    → Within r
read-Within (inl (v, e)) = inl (v, _, e)
read-Within (inr e) = inr (inl e)

module _ (assumed : ℕ) (b : Buffer) (t : Trace) where
  -- For any buffer, whole or not, and any FDT_ASSUME_MASK, `fdt_check_header` reads outside the
  -- buffer, or returns 0 or one of the errors ALIGNMENT, BADMAGIC, BADVERSION and TRUNCATED, and
  -- nothing else.
  pub fdt_check_header-IsResult : IsResult (outcome (fdt_check_header assumed b t))
  unfolding fdt_check_header
  fdt_check_header-IsResult =
      and_then-IsResult _ _ (exit_if-Within (not (bit_and b.addr 7 == 0)) t not_aligned) (λ _ s0.
        and_then-IsResult _ _ (read-Within (fdt_get_header-cases b magic _)) (λ m s1.
          and_then-IsResult _ _ (exit_if-Within (not (m == Constants.fdt_magic)) s1 no_magic)
            (λ _ s2.
              and_then-IsResult _ _
                (when-Within (not (can_assume assumed latest)) (check_version assumed b) _
                  (Gate-Within no_version (check_version-Gate assumed b _)))
                (λ _ s3.
                  and_then-IsResult _ _ (read-Within (header_size-cases assumed b _)) (λ hs s4.
                    and_then-IsResult _ _
                      (when-Within (not (can_assume assumed valid_dtb)) (check_size assumed b hs) _
                        (Gate-Within too_short (check_size-Gate assumed b _ hs)))
                      (λ _ s5.
                        and_then-IsResult _ _
                          (when-Within (not (can_assume assumed valid_dtb)) _ _ (
                            and_then-Within _ _
                              (Gate-Within too_short (check_struct-Gate assumed b _ hs))
                              (λ _ s6. Gate-Within too_short (check_strings-Gate assumed b _ hs))))
                          (λ _ s7. inr (inl refl))))))))
