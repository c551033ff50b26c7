-- ===== src/Fdt/Verdict.antt =====
-- What `fdt_check_header` returns and prints in the build of the Makefile, where no assumption is
-- enabled.
use dtboverlay.Base.{
  String, Bool-cases, ℕ, ◌%◌, ◌^◌, ◌<◌, ◌≡◌, ◌≢◌, refl, inl, inr, Bool, false, not, ◌&&◌, bit_and,
  [], ◌∷◌, arith, ltb, ◌==◌,
}
use dtboverlay.Base.Int.{ℤ, pos}
use dtboverlay.Base.Bits.{bit_and_seven}
use dtboverlay.Base.Control.{Run, next, exit}
use dtboverlay.Trace.{printk, Trace}
use dtboverlay.Memory.{Buffer}
use dtboverlay.Fdt.Constants
use dtboverlay.Fdt.Constants.{FdtErr, alignment, badmagic, badversion, truncated, failure}
use dtboverlay.Fdt.Assume.{Assumption, perfect, can_assume, fdt_assume_mask, latest, valid_dtb}
use dtboverlay.Fdt.Header.{
  magic, totalsize, off_dt_struct, off_dt_strings, version, size_dt_strings,
}
use dtboverlay.Fdt.Check.{fdt_header_size_, fdt_header_size, fdt_check_header}
use dtboverlay.Fdt.Layout.{field, HasHeader, IsBlock, IsVersion, IsSize, struct_size}
use dtboverlay.Fdt.Stages.{
  fdt_get_header-next, check_version_lem, check_size_lem, check_struct_lem, check_strings_lem,
}

-- The trace after the lines "DEBUG 0" to "DEBUG n".
abbrev pub debug : String → Trace → Trace
debug line t = printk line [] ∷ t

abbrev pub after_0 : Trace → Trace
after_0 t = debug "DEBUG 0" t

abbrev pub after_1 : Trace → Trace
after_1 t = debug "DEBUG 1" (after_0 t)

abbrev pub after_3 : Trace → Trace
after_3 t = debug "DEBUG 3" (debug "DEBUG 2" (after_1 t))

abbrev pub after_4 : Trace → Trace
after_4 t = debug "DEBUG 4" (after_3 t)

abbrev pub after_5 : Trace → Trace
after_5 t = debug "DEBUG 5" (after_4 t)

pub header_size-lt : (v : ℕ) → fdt_header_size_ v < 2 ^ 32
unfolding fdt_header_size_
header_size-lt v = ground arith

module _ (b : Buffer) where
  abbrev pub old : Bool
  old = ltb (field b.bytes version) 17

  abbrev pub hdrsize : ℕ
  hdrsize = fdt_header_size_ (field b.bytes version)

  pub record IsDtb : Type 0 where
    pub aligned : b.addr % 8 ≡ 0
    pub magic_number : field b.bytes magic ≡ Constants.fdt_magic

  pub record IsCurrent : Type 0 where
    pub dtb : IsDtb
    pub versions : IsVersion (field b.bytes)

  pub record IsSized : Type 0 where
    pub current : IsCurrent
    pub size : IsSize hdrsize (field b.bytes)

  abbrev pub Struct : Type 0
  Struct =
      IsBlock hdrsize (field b.bytes totalsize) (field b.bytes off_dt_struct)
        (struct_size old (field b.bytes))

  abbrev pub Strings : Type 0
  Strings =
      IsBlock hdrsize (field b.bytes totalsize) (field b.bytes off_dt_strings)
        (field b.bytes size_dt_strings)

  pub record IsStructured : Type 0 where
    pub sized : IsSized
    pub struct : Struct

  -- The first check that fails gives the result.
  pub data Verdict (t : Trace) (r : Run Trace ℤ ℤ) : Type 0 where
    misaligned : b.addr % 8 ≢ 0 → r ≡ exit (failure alignment) t → Verdict t r
    not_dtb :
        b.addr % 8 ≡ 0
        → field b.bytes magic ≢ Constants.fdt_magic
        → r ≡ exit (failure badmagic) (after_0 t)
        → Verdict t r
    bad_version :
        IsDtb
        → ¬ IsVersion (field b.bytes)
        → r ≡ exit (failure badversion) (after_1 t)
        → Verdict t r
    bad_size :
        IsCurrent
        → ¬ IsSize hdrsize (field b.bytes)
        → r ≡ exit (failure truncated) (after_3 t)
        → Verdict t r
    bad_struct : IsSized → ¬ Struct → r ≡ exit (failure truncated) (after_4 t) → Verdict t r
    bad_strings : IsStructured → ¬ Strings → r ≡ exit (failure truncated) (after_5 t) → Verdict t r
    accepted : IsStructured → Strings → r ≡ next (pos 0) (after_5 t) → Verdict t r

pub no_assumption : (a : Assumption) → can_assume fdt_assume_mask a ≡ false
unfolding can_assume
no_assumption perfect = refl
no_assumption _ = refl

module _ {b : Buffer} (has : HasHeader b) (t : Trace) where
  hdrsize-next : (s : Trace) → fdt_header_size fdt_assume_mask b {R = ℤ} s ≡ next (hdrsize b) s
  unfolding fdt_header_size
  hdrsize-next s =
      rw (no_assumption latest, fdt_header_size)
        (rw (fdt_get_header-next has {S = Trace} {R = ℤ} version s))

  small : hdrsize b < 2 ^ 32
  small = header_size-lt (field b.bytes version)

  is_old : old b ≡ (not (can_assume fdt_assume_mask latest) && old b)
  is_old = rw (no_assumption latest)

  -- For a buffer that holds the 40 bytes of a whole header, and in a build with no assumption,
  -- `fdt_check_header` returns the error of the first requirement that its header misses, with the
  -- lines of trace up to there: ALIGNMENT, BADMAGIC, BADVERSION for the two version numbers, and
  -- TRUNCATED for the total size and the reservation block, for the structure block and for the
  -- strings block, all stated on numbers with no wrap-around; it returns 0, with every line, if
  -- none is missed.
  pub fdt_check_header_lem : Verdict b t (fdt_check_header fdt_assume_mask b t)
  unfolding fdt_check_header
  fdt_check_header_lem = elim (Bool-cases (bit_and b.addr 7 == 0)) [
    | inr bad ↦ misaligned (ground (arith, bit_and_seven b.addr)) (rw bad)
    | inl good ↦
        rw (good, fdt_get_header-next has {S = Trace} {R = ℤ} magic (after_0 t))
          (let aligned : b.addr % 8 ≡ 0 = ground (arith, bit_and_seven b.addr) in
            elim (Bool-cases (field b.bytes magic == Constants.fdt_magic)) [
              | inr bad ↦ not_dtb aligned (ground arith) (rw bad)
              | inl good ↦
                  rw (good, no_assumption latest, no_assumption valid_dtb)
                    (let dtb : IsDtb b = record {
                      aligned = aligned;
                      magic_number = ground arith;
                    } in
                      elim (check_version_lem has fdt_assume_mask (after_1 t)) [
                        | inr (bad, e) ↦ bad_version dtb bad (rw e)
                        | inl (good, e) ↦
                            rw (e, hdrsize-next (debug "DEBUG 2" (after_1 t)))
                              (let current : IsCurrent b = record { dtb = dtb; versions = good } in
                                elim (check_size_lem has fdt_assume_mask (after_3 t) (hdrsize b)
                                  small) [
                                    | inr (bad, e) ↦ bad_size current bad (rw e)
                                    | inl (good, e) ↦ rw e (
                                        let sized : IsSized b = record {
                                          current = current;
                                          size = good;
                                        } in
                                        elim (check_struct_lem has fdt_assume_mask (after_4 t)
                                          (hdrsize b) small (old b) is_old) [
                                            | inr (bad, e) ↦ bad_struct sized bad (rw e)
                                            | inl (good, e) ↦ rw e (
                                                let whole : IsStructured b = record {
                                                  sized = sized;
                                                  struct = good;
                                                } in
                                                elim (check_strings_lem has fdt_assume_mask
                                                  (after_5 t) (hdrsize b) small) [
                                                    | inr (bad, e) ↦ bad_strings whole bad (rw e)
                                                    | inl (good, e) ↦ accepted whole good (rw e)
                                                  ])
                                          ])
                                  ])
                      ])
            ])
  ]
