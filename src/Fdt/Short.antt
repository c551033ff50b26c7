-- ===== src/Fdt/Short.antt =====
-- `fdt_check_header` on buffers without a whole header; it is not told how many bytes it may read.
use dtboverlay.Base.{
  ℕ, [], ◌+◌, ◌≤◌, ◌<◌, ◌%◌, ◌≡◌, ◌≢◌, inl, inr, some, arith, length, bit_and, true, Bool-cases,
  ◌==◌,
}
use native.Mathlib.Decide.{dec_lt}
use dtboverlay.Base.Int.{ℤ, pos}
use dtboverlay.Base.Bits.{bit_and_seven}
use dtboverlay.Base.Control.{Stmt, pure, ◌>>=◌, ◌>>◌, next, fault, outcome}
use dtboverlay.Trace.{Trace, printk, emit}
use dtboverlay.Memory.{Buffer, IsBytes}
use dtboverlay.Fdt.Assume.{fdt_assume_mask, latest, valid_dtb}
use dtboverlay.Fdt.Constants.{FdtErr, badversion, truncated, failure}
use dtboverlay.Fdt.Constants
use dtboverlay.Fdt.Header.{
  Field, magic, totalsize, off_dt_strings, version, size_dt_strings, offset_of, fdt_get_header,
}
use dtboverlay.Fdt.Word.{fdt32_ld-next, fdt32_ld-fault}
use dtboverlay.Fdt.Check.{
  fdt_check_header, fdt_header_size, check_version, check_size, check_struct, check_strings,
}
use dtboverlay.Fdt.Layout.{field}
use dtboverlay.Fdt.Gates.{
  fdt_get_header-cases, check_version-Gate, check_size-Gate, check_struct-Gate, header_size-cases,
}
use dtboverlay.Fdt.Verdict.{after_0, after_1, debug, no_assumption}

module _ (b : Buffer) where
  fdt_get_header-fault :
      {S R : Type 0} (f : Field) (s : S)
      → length b.bytes < offset_of f + 4
      → fdt_get_header {S = S} {R = R} b f s ≡ fault
  unfolding fdt_get_header
  fdt_get_header-fault f s short = fdt32_ld-fault b (offset_of f) s short

  strings_short :
      (hs : ℕ) (s : Trace) → length b.bytes < 36 → check_strings fdt_assume_mask b hs s ≡ fault
  unfolding check_strings
  strings_short hs s h = ground (
    arith,
    fdt_get_header-cases b {S = Trace} {R = ℤ} totalsize s,
    fdt_get_header-cases b {S = Trace} {R = ℤ} off_dt_strings s,
    fdt_get_header-fault {S = Trace} {R = ℤ} size_dt_strings s h,
  )

-- The rest of `fdt_check_header`, from the checks of the blocks and from those of the version on.
abbrev block_checks : Buffer → ℕ → Stmt Trace ℤ ℤ
block_checks b hs = do
  check_size fdt_assume_mask b hs
  emit (printk "DEBUG 4" [])
  (do
    check_struct fdt_assume_mask b hs
    emit (printk "DEBUG 5" [])
    check_strings fdt_assume_mask b hs)
  pure (pos 0)

abbrev later_checks : Buffer → Stmt Trace ℤ ℤ
later_checks b = do
  check_version fdt_assume_mask b
  emit (printk "DEBUG 2" [])
  hs ← fdt_header_size fdt_assume_mask b
  emit (printk "DEBUG 3" [])
  block_checks b hs

module _ (b : Buffer) (t : Trace) (short : length b.bytes < 36) where
  short_blocks : (hs : ℕ) (s : Trace) → outcome (block_checks b hs s) ≢ some (pos 0)
  short_blocks hs s = elim (check_size-Gate fdt_assume_mask b s hs) [
    | inl e ↦ rw e (elim (check_struct-Gate fdt_assume_mask b (debug "DEBUG 4" s) hs) [
      | inl e ↦ rw (e, strings_short b hs (debug "DEBUG 5" (debug "DEBUG 4" s)) short) (λ z. cc)
      | inr (inl e) ↦ rw e (λ z. cc)
      | inr (inr e) ↦ rw e (λ z. cc)
    ])
    | inr (inl e) ↦ rw e (λ z. cc)
    | inr (inr e) ↦ rw e (λ z. cc)
  ]

  short_later : (s : Trace) → outcome (later_checks b s) ≢ some (pos 0)
  short_later s = elim (check_version-Gate fdt_assume_mask b s) [
    | inl e ↦ rw e (elim (header_size-cases fdt_assume_mask b (debug "DEBUG 2" s)) [
      | inl (hs, e) ↦ rw e (short_blocks hs (debug "DEBUG 3" (debug "DEBUG 2" s)))
      | inr e ↦ rw e (λ z. cc)
    ])
    | inr (inl e) ↦ rw e (λ z. cc)
    | inr (inr e) ↦ rw e (λ z. cc)
  ]

  -- In a build with no assumption, whatever its elements are, a buffer shorter than 36 bytes is
  -- never accepted: `fdt_check_header` does not return 0.
  pub short_refused : outcome (fdt_check_header fdt_assume_mask b t) ≢ some (pos 0)
  unfolding fdt_check_header
  short_refused = elim (Bool-cases (bit_and b.addr 7 == 0)) [
    | inr bad ↦ rw bad (λ z. cc)
    | inl good ↦ rw good (elim (fdt_get_header-cases b {S = Trace} {R = ℤ} magic (after_0 t)) [
      | inr e ↦ rw e (λ z. cc)
      | inl (m, e) ↦ rw e (elim (Bool-cases (m == Constants.fdt_magic)) [
        | inr bad ↦ rw bad (λ z. cc)
        | inl good ↦
            rw (good, no_assumption latest, no_assumption valid_dtb) (short_later (after_1 t))
      ])
    ])
  ]

magic_read :
    (b : Buffer) (t : Trace)
    → IsBytes b.bytes
    → 4 ≤ length b.bytes
    → fdt_get_header {S = Trace} {R = ℤ} b magic (after_0 t)
      ≡ next (field b.bytes magic) (after_0 t)
unfolding fdt_get_header field
magic_read b t bytes whole = fdt32_ld-next b 0 (after_0 t) bytes whole

-- In a build with no assumption, `fdt_check_header` reads outside a buffer of bytes that is
-- aligned, is shorter than 24 bytes, and has the magic number if it has 4 bytes.
pub short_faults :
    (b : Buffer) (t : Trace)
    → IsBytes b.bytes
    → b.addr % 8 ≡ 0
    → length b.bytes < 24
    → (4 ≤ length b.bytes → field b.bytes magic ≡ Constants.fdt_magic)
    → fdt_check_header fdt_assume_mask b t ≡ fault
unfolding fdt_check_header check_version
short_faults b t bytes aligned short dtb =
    let good : (bit_and b.addr 7 == 0) ≡ true = ground (arith, bit_and_seven b.addr) in
    rw good (elim (dec_lt (length b.bytes) 4) [
      | yes tiny ↦ rw (fdt_get_header-fault b {S = Trace} {R = ℤ} magic (after_0 t) tiny)
      | no long ↦
          let whole : 4 ≤ length b.bytes = omega arith in
          let same : (field b.bytes magic == Constants.fdt_magic) ≡ true =
            ground (arith, dtb whole) in
          rw (
            magic_read b t bytes whole,
            same,
            no_assumption latest,
            fdt_get_header-fault b {S = Trace} {R = ℤ} version (after_1 t) short,
          )
    ])
