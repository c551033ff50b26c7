-- ===== src/Fdt/Check.antt =====
-- `fdt_header_size` and `fdt_check_header` of libfdt/fdt.c. The build's FDT_ASSUME_MASK is the
-- argument `assumed`.
use dtboverlay.Base.{
  ℕ, ◌+◌, ◌%◌, ◌^◌, Bool, true, false, not, ◌&&◌, bit_and, [], ltb, leb, ◌==◌, if◌then◌else◌,
}
use dtboverlay.Base.Int.{ℤ, pos}
use dtboverlay.Base.Control.{Stmt, pure, exit_if, when, or_else, ◌>>=◌, ◌>>◌}
use dtboverlay.Trace.{Trace, printk, emit}
use dtboverlay.Memory.{Buffer}
use dtboverlay.Fdt.Constants
use dtboverlay.Fdt.Constants.{
  fdt_v1_size, fdt_v2_size, fdt_v3_size, fdt_v16_size, fdt_v17_size, fdt_first_supported_version,
  fdt_last_supported_version, int_max, alignment, badmagic, badversion, truncated, failure,
}
use dtboverlay.Fdt.Assume.{can_assume, latest, valid_dtb}
use dtboverlay.Fdt.Header.{
  Field, magic, totalsize, off_dt_struct, off_dt_strings, off_mem_rsvmap, version,
  last_comp_version, size_dt_strings, size_dt_struct, fdt_get_header,
}

-- All three arguments are u32.
unfoldable pub check_off_ : (hdrsize total off : ℕ) → Bool
check_off_ hdrsize total off = leb hdrsize off && leb off total

-- `base + size` wraps at 32 bits.
unfoldable pub check_block_ : (hdrsize total base size : ℕ) → Bool
check_block_ hdrsize total base size =
    if not (check_off_ hdrsize total base)
    then false
    else if ltb ((base + size) % 2 ^ 32) base
    then false
    else if not (check_off_ hdrsize total ((base + size) % 2 ^ 32))
    then false
    else true

unfoldable pub fdt_header_size_ : (version : ℕ) → ℕ
fdt_header_size_ v =
    if leb v 1
    then fdt_v1_size
    else if leb v 2
    then fdt_v2_size
    else if leb v 3
    then fdt_v3_size
    else if leb v 16
    then fdt_v16_size
    else fdt_v17_size

-- A comparison of a member of the header, as the conditions of `fdt_check_header` make it.
abbrev pub test : Buffer → Field → (ℕ → Bool) → Stmt Trace ℤ Bool
test b f p = do x ← fdt_get_header b f; pure (p x)

module _ (assumed : ℕ) (fdt : Buffer) where
  unfoldable pub fdt_header_size : {R : Type 0} → Stmt Trace R ℕ
  fdt_header_size = elim (can_assume assumed latest) [
    | true ↦ pure fdt_v17_size
    | false ↦ do v ← fdt_get_header fdt version; pure (fdt_header_size_ v)
  ]

  -- The checks of the version.
  unfoldable pub check_version : Stmt Trace ℤ (Unit {0})
  check_version = do
    outside ←
        or_else (test fdt version (λ v. ltb v fdt_first_supported_version))
          (test fdt last_comp_version (λ l. ltb fdt_last_supported_version l))
    exit_if outside (failure badversion)
    v ← fdt_get_header fdt version
    l ← fdt_get_header fdt last_comp_version
    exit_if (ltb v l) (failure badversion)

  -- The checks of the total size and of the memory reservation block.
  unfoldable pub check_size : ℕ → Stmt Trace ℤ (Unit {0})
  check_size hdrsize = do
    outside ←
        or_else (test fdt totalsize (λ n. ltb n hdrsize)) (test fdt totalsize (λ n. ltb int_max n))
    exit_if outside (failure truncated)
    n ← fdt_get_header fdt totalsize
    off ← fdt_get_header fdt off_mem_rsvmap
    exit_if (not (check_off_ (hdrsize % 2 ^ 32) n off)) (failure truncated)

  -- The check of the structure block, for a version that lacks its size and for one that has it.
  unfoldable pub check_struct : ℕ → Stmt Trace ℤ (Unit {0})
  check_struct hdrsize = do
    old ← elim (can_assume assumed latest) [
      | true ↦ pure false
      | false ↦ test fdt version (λ v. ltb v 17)
    ]
    n ← fdt_get_header fdt totalsize
    off ← fdt_get_header fdt off_dt_struct
    elim old [
      | true ↦ exit_if (not (check_off_ (hdrsize % 2 ^ 32) n off)) (failure truncated)
      | false ↦ do
        size ← fdt_get_header fdt size_dt_struct
        exit_if (not (check_block_ (hdrsize % 2 ^ 32) n off size)) (failure truncated)
    ]

  -- The check of the strings block.
  unfoldable pub check_strings : ℕ → Stmt Trace ℤ (Unit {0})
  check_strings hdrsize = do
    n ← fdt_get_header fdt totalsize
    off ← fdt_get_header fdt off_dt_strings
    size ← fdt_get_header fdt size_dt_strings
    exit_if (not (check_block_ (hdrsize % 2 ^ 32) n off size)) (failure truncated)

  unfoldable pub fdt_check_header : Stmt Trace ℤ ℤ
  fdt_check_header = do
    exit_if (not (bit_and fdt.addr 7 == 0)) (failure alignment)
    emit (printk "DEBUG 0" [])
    m ← fdt_get_header fdt magic
    exit_if (not (m == Constants.fdt_magic)) (failure badmagic)
    emit (printk "DEBUG 1" [])
    when (not (can_assume assumed latest)) check_version
    emit (printk "DEBUG 2" [])
    hdrsize ← fdt_header_size
    emit (printk "DEBUG 3" [])
    when (not (can_assume assumed valid_dtb)) (check_size hdrsize)
    emit (printk "DEBUG 4" [])
    when (not (can_assume assumed valid_dtb))
        (do check_struct hdrsize; emit (printk "DEBUG 5" []); check_strings hdrsize)
    pure (pos 0)
