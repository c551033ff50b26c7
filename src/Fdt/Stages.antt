-- ===== src/Fdt/Stages.antt =====
-- The groups of checks in `fdt_check_header`, each beside its part of the layout.
use dtboverlay.Base.{ℕ, ◌+◌, ◌%◌, ◌^◌, ◌≤◌, ◌<◌, ◌≡◌, ◌⊎◌, ◌↔◌, Bool, true, not, ◌&&◌, arith, ltb}
use dtboverlay.Base.Int.{ℤ}
use dtboverlay.Base.Control.{Run, next, exit}
use dtboverlay.Trace.{Trace}
use dtboverlay.Memory.{Buffer}
use dtboverlay.Fdt.Constants.{FdtErr, badversion, truncated, failure}
use dtboverlay.Fdt.Assume.{can_assume, latest}
use dtboverlay.Fdt.Header.{
  Field, totalsize, off_dt_struct, off_dt_strings, off_mem_rsvmap, version, last_comp_version,
  size_dt_strings, size_dt_struct, magic, offset_of, fdt_get_header,
}
use dtboverlay.Fdt.Word.{word-lt, fdt32_ld-next}
use dtboverlay.Fdt.Check.{
  check_off_, check_block_, check_version, check_size, check_struct, check_strings,
}
use dtboverlay.Fdt.Layout.{field, HasHeader, IsBlock, IsVersion, IsSize, struct_size}

-- A group of checks goes on if `P` holds, and else returns an error; it changes nothing.
abbrev pub Decides : Type 0 → FdtErr → Trace → Run Trace ℤ (Unit {0}) → Type 0
Decides P e t r = P × (r ≡ next tt t) ⊎ ((¬ P) × (r ≡ exit (failure e) t))

offset_bounds : (f : Field) → offset_of f + 4 ≤ 40
offset_bounds magic = omega arith
offset_bounds _ = omega arith

-- `check_off_` decides a block of no bytes.
pub check_off_iff :
    (hdr total off : ℕ) → (check_off_ hdr total off ≡ true) ↔ IsBlock hdr total off 0
unfolding check_off_
check_off_iff hdr total off = ground arith

-- For a total size, a start and a size that are u32, `check_block_` with its sum that wraps at 32
-- bits returns true exactly if the start is not in the header and the sum without wrap-around is at
-- most the total size.
pub check-IsBlock_iff :
    (hdr total base size : ℕ)
    → total < 2 ^ 32
    → base < 2 ^ 32
    → size < 2 ^ 32
    → (check_block_ hdr total base size ≡ true) ↔ IsBlock hdr total base size
unfolding check_block_ check_off_
check-IsBlock_iff hdr total base size ht hb hs = ground arith

module _ {b : Buffer} (has : HasHeader b) where
  -- The members are read from the header, with no change of state.
  pub fdt_get_header-next :
      {S R : Type 0} (f : Field) (s : S)
      → fdt_get_header {S = S} {R = R} b f s ≡ next (field b.bytes f) s
  unfolding fdt_get_header field
  fdt_get_header-next f s =
      fdt32_ld-next b (offset_of f) s has.are_bytes
        (omega (arith, offset_bounds f, has.long_enough))

  pub field-lt : (f : Field) → field b.bytes f < 2 ^ 32
  unfolding field
  field-lt f = word-lt b.bytes (offset_of f) has.are_bytes

-- The state that the reads start from is fixed: the checks do not print.
module _ {b : Buffer} (has : HasHeader b) (assumed : ℕ) (t : Trace) where
  read : (f : Field) → fdt_get_header {S = Trace} {R = ℤ} b f t ≡ next (field b.bytes f) t
  read f = fdt_get_header-next has f t

  IsBlock-iff :
      (hs : ℕ) (base size : Field)
      → (check_block_ hs (field b.bytes totalsize) (field b.bytes base) (field b.bytes size) ≡ true)
        ↔ IsBlock hs (field b.bytes totalsize) (field b.bytes base) (field b.bytes size)
  IsBlock-iff hs base size =
      check-IsBlock_iff hs _ _ _ (field-lt has totalsize) (field-lt has base) (field-lt has size)

  pub check_version_lem :
      Decides (IsVersion (field b.bytes)) badversion t (check_version assumed b t)
  unfolding check_version
  check_version_lem = ground (arith, read version, read last_comp_version)

  module _ (hs : ℕ) (fits : hs < 2 ^ 32) where
    small : hs % 2 ^ 32 ≡ hs
    small = omega arith

    pub check_size_lem : Decides (IsSize hs (field b.bytes)) truncated t (check_size assumed b hs t)
    unfolding check_size check_off_
    check_size_lem = ground (arith, read totalsize, read off_mem_rsvmap)

    pub check_struct_lem :
        (old : Bool)
        → old ≡ (not (can_assume assumed latest) && ltb (field b.bytes version) 17)
        → Decides
            (IsBlock hs
              (field b.bytes totalsize)
              (field b.bytes off_dt_struct)
              (struct_size old (field b.bytes)))
            truncated
            t
            (check_struct assumed b hs t)
    unfolding check_struct check_off_
    check_struct_lem old e = rw (e) (
        ground (
          arith,
          read version,
          read totalsize,
          read off_dt_struct,
          read size_dt_struct,
          IsBlock-iff (hs % 2 ^ 32) off_dt_struct size_dt_struct,
        ))

    pub check_strings_lem :
        Decides
          (IsBlock hs
            (field b.bytes totalsize)
            (field b.bytes off_dt_strings)
            (field b.bytes size_dt_strings))
          truncated
          t
          (check_strings assumed b hs t)
    unfolding check_strings
    check_strings_lem = ground (
      arith,
      read totalsize,
      read off_dt_strings,
      read size_dt_strings,
      IsBlock-iff (hs % 2 ^ 32) off_dt_strings size_dt_strings,
    )
