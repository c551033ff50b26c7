-- ===== src/Fdt/Gates.antt =====
-- Each group of checks in `fdt_check_header` on any buffer, with any FDT_ASSUME_MASK.
use dtboverlay.Base.{ℕ, ◌≡◌, ◌⊎◌, inl, inr, arith, Bool-cases}
use dtboverlay.Base.Int.{ℤ}
use dtboverlay.Base.Control.{Run, next, exit, fault}
use dtboverlay.Trace.{Trace}
use dtboverlay.Memory.{Buffer}
use dtboverlay.Fdt.Assume.{can_assume, latest}
use dtboverlay.Fdt.Constants.{FdtErr, badversion, truncated, failure, fdt_v17_size}
use dtboverlay.Fdt.Header.{
  Field, totalsize, off_dt_strings, off_mem_rsvmap, off_dt_struct, size_dt_struct, version,
  last_comp_version, size_dt_strings, offset_of, fdt_get_header,
}
use dtboverlay.Fdt.Word.{fdt32_ld-cases}
use dtboverlay.Fdt.Check.{
  fdt_header_size, fdt_header_size_, check_version, check_size, check_struct, check_strings,
}

module _ (b : Buffer) where
  pub fdt_get_header-cases :
      {S R : Type 0} (f : Field) (s : S)
      → ((v : ℕ) × (fdt_get_header {S = S} {R = R} b f s ≡ next v s))
        ⊎ (fdt_get_header {S = S} {R = R} b f s ≡ fault)
  unfolding fdt_get_header
  fdt_get_header-cases f s = fdt32_ld-cases b (offset_of f) s

-- A group of checks goes on, returns the error, or faults, and prints nothing.
abbrev pub Gate : FdtErr → Trace → Run Trace ℤ (Unit {0}) → Type 0
Gate e s r = (r ≡ next tt s) ⊎ (r ≡ exit (failure e) s) ⊎ (r ≡ fault)

module _ (assumed : ℕ) (b : Buffer) (s : Trace) where
  cases :
      (f : Field)
      → ((v : ℕ) × (fdt_get_header {S = Trace} {R = ℤ} b f s ≡ next v s))
        ⊎ (fdt_get_header {S = Trace} {R = ℤ} b f s ≡ fault)
  cases f = fdt_get_header-cases b f s

  pub check_version-Gate : Gate badversion s (check_version assumed b s)
  unfolding check_version
  check_version-Gate = ground (arith, cases version, cases last_comp_version)

  pub check_size-Gate : (hs : ℕ) → Gate truncated s (check_size assumed b hs s)
  unfolding check_size
  check_size-Gate hs = ground (arith, cases totalsize, cases off_mem_rsvmap)

  pub check_struct-Gate : (hs : ℕ) → Gate truncated s (check_struct assumed b hs s)
  unfolding check_struct
  check_struct-Gate hs =
      ground (arith, cases version, cases totalsize, cases off_dt_struct, cases size_dt_struct)

  pub check_strings-Gate : (hs : ℕ) → Gate truncated s (check_strings assumed b hs s)
  unfolding check_strings
  check_strings-Gate hs =
      ground (arith, cases totalsize, cases off_dt_strings, cases size_dt_strings)

  -- The size is known or read, or the read faults.
  pub header_size-cases :
      ((hs : ℕ) × (fdt_header_size assumed b {R = ℤ} s ≡ next hs s))
      ⊎ (fdt_header_size assumed b {R = ℤ} s ≡ fault)
  unfolding fdt_header_size
  header_size-cases = elim (Bool-cases (can_assume assumed latest)) [
    | inl l ↦ inl (fdt_v17_size, rw (l, fdt_header_size))
    | inr l ↦ elim (cases version) [
      | inl (v, e) ↦ inl (fdt_header_size_ v, rw (l, fdt_header_size) (rw e))
      | inr e ↦ inr (rw (l, fdt_header_size) (rw e))
    ]
  ]
