-- ===== src/Fdt/Accept.antt =====
-- Which headers `fdt_check_header` accepts, and what its results say.
use dtboverlay.Base.{ℕ, ◌+◌, ◌≤◌, ◌<◌, ◌≡◌, ◌↔◌, refl, some, arith, length}
use dtboverlay.Base.Int.{ℤ, pos}
use dtboverlay.Base.Control.{Run, next, outcome}
use dtboverlay.Trace.{Trace}
use dtboverlay.Memory.{Buffer, byte, load8, load8-next}
use dtboverlay.Fdt.Assume.{fdt_assume_mask}
use dtboverlay.Fdt.Header.{
  totalsize, off_dt_struct, off_dt_strings, version, size_dt_strings, size_dt_struct,
}
use dtboverlay.Fdt.Check.{fdt_check_header}
use dtboverlay.Fdt.Layout.{field, HasHeader}
use dtboverlay.Fdt.Verdict.{
  IsStructured, Strings, Verdict, misaligned, not_dtb, bad_version, bad_size, bad_struct,
  bad_strings, accepted, fdt_check_header_lem,
}

-- A header that passes every check, member by member.
abbrev pub IsAccepted : Buffer → Type 0
IsAccepted b = IsStructured b × Strings b

module _ {b : Buffer} (t : Trace) where
  accepts : {r : Run Trace ℤ ℤ} → Verdict b t r → (outcome r ≡ some (pos 0)) ↔ IsAccepted b
  accepts (misaligned h e) = rw e ((λ z. cc), λ (s, _). absurd (h s.sized.current.dtb.aligned))
  accepts (not_dtb a h e) = rw e ((λ z. cc), λ (s, _). absurd (h s.sized.current.dtb.magic_number))
  accepts (bad_version d h e) = rw e ((λ z. cc), λ (s, _). absurd (h s.sized.current.versions))
  accepts (bad_size d h e) = rw e ((λ z. cc), λ (s, _). absurd (h s.sized.size))
  accepts (bad_struct d h e) = rw e ((λ z. cc), λ (s, _). absurd (h s.struct))
  accepts (bad_strings d h e) = rw e ((λ z. cc), λ (_, s). absurd (h s))
  accepts (accepted d h e) = rw e ((λ _. (d, h)), λ _. refl)

  -- For a buffer that holds the 40 bytes of a whole header, and in a build with no assumption,
  -- `fdt_check_header` returns 0 exactly if the address is a multiple of 8 and the header has the
  -- magic number, the versions, a total size and three blocks that lie between the header and that
  -- size.
  pub fdt_check_header-zero_iff :
      HasHeader b → (outcome (fdt_check_header fdt_assume_mask b t) ≡ some (pos 0)) ↔ IsAccepted b
  fdt_check_header-zero_iff has = accepts (fdt_check_header_lem has t)

module _ {b : Buffer} (has : HasHeader b) (t : Trace)
    (zero : outcome (fdt_check_header fdt_assume_mask b t) ≡ some (pos 0))
    (whole : field b.bytes totalsize ≤ length b.bytes) where
  ok : IsAccepted b
  ok = (fdt_check_header-zero_iff t has).0 zero

  -- If a buffer holds a whole header and as many bytes as its total size, and `fdt_check_header`
  -- returns 0 for it in a build with no assumption, then every byte of the strings block can be
  -- read.
  pub strings_in_bounds :
      {S R : Type 0} (i : ℕ) (s : S)
      → i < field b.bytes size_dt_strings
      → load8 {S = S} {R = R} b (field b.bytes off_dt_strings + i) s
        ≡ next (byte b.bytes (field b.bytes off_dt_strings + i)) s
  strings_in_bounds i s h =
      load8-next b (field b.bytes off_dt_strings + i) s (omega (arith, ok.1.before_end))

  -- If a buffer holds a whole header, whose version is 17 or later, and as many bytes as its total
  -- size, and `fdt_check_header` returns 0 for it in a build with no assumption, then every byte of
  -- the structure block can be read.
  pub struct_in_bounds :
      {S R : Type 0} (i : ℕ) (s : S)
      → 17 ≤ field b.bytes version
      → i < field b.bytes size_dt_struct
      → load8 {S = S} {R = R} b (field b.bytes off_dt_struct + i) s
        ≡ next (byte b.bytes (field b.bytes off_dt_struct + i)) s
  struct_in_bounds i s v h =
      load8-next b (field b.bytes off_dt_struct + i) s (ground (arith, ok.0.struct.before_end))
