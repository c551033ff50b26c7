-- ===== src/Fdt/Sw/Space.antt =====
-- The states of a blob that is being written, and its space, of libfdt/fdt_sw.c.
use dtboverlay.Base.{
  ℕ, ◌+◌, ◌-◌, ◌%◌, ◌^◌, Option, none, some, Bool, not, ◌||◌, ◌==◌, if◌then◌else◌, ltb, replicate,
  bit_and,
}
use dtboverlay.Base.Int.{ℤ, pos, magnitude, eq_test, lt_test, to_int, to_u32}
use dtboverlay.Fdt.Assume.{valid_input}
use dtboverlay.Fdt.Constants
use dtboverlay.Fdt.Constants.{
  failure, badstate, badmagic, badflags, nospace, fdt_last_supported_version,
}
use dtboverlay.Fdt.Header.{
  magic, totalsize, off_dt_struct, off_dt_strings, off_mem_rsvmap, version, last_comp_version,
  size_dt_strings, size_dt_struct,
}
use dtboverlay.Fdt.Read
use dtboverlay.Fdt.Read.{Tree, assumes, fdt_offset_ptr_}
use dtboverlay.Fdt.Ro.Names.{fdt_sw_magic}
use dtboverlay.Fdt.Write.{
  Edit, ◌>>=◌, ◌>>◌, pure, reading, refuse, store_bytes, get_header, set_header, minus32,
}

unfoldable pub fdt_sw_probe_ : Edit ℤ
fdt_sw_probe_ = do
  lax ← reading (λ t. Read.value (assumes t valid_input))
  if lax then pure (pos 0) else do
    m ← get_header magic
    if m == Constants.fdt_magic
        then refuse badstate
        else if m == fdt_sw_magic
        then pure (pos 0)
        else refuse badmagic

-- A state: the probe, and a test of the header.
abbrev pub in_state : Edit Bool → Edit ℤ
in_state test = do
  err ← fdt_sw_probe_
  if not (eq_test err (pos 0)) then pure err else do
    lax ← reading (λ t. Read.value (assumes t valid_input))
    if lax then pure (pos 0) else do holds ← test; if holds then pure (pos 0) else refuse badstate

unfoldable pub fdt_sw_probe_memrsv_ : Edit ℤ
fdt_sw_probe_memrsv_ = in_state (do s ← get_header off_dt_strings; pure (s == 0))

unfoldable pub fdt_sw_probe_struct_ : Edit ℤ
fdt_sw_probe_struct_ =
    in_state (do s ← get_header off_dt_strings; total ← get_header totalsize; pure (s == total))

-- FDT_SW_PROBE, FDT_SW_PROBE_MEMRSV and FDT_SW_PROBE_STRUCT
abbrev pub guarded : Edit ℤ → Edit ℤ → Edit ℤ
guarded probe body = do err ← probe; if eq_test err (pos 0) then body else pure err

abbrev pub sw_flags : Edit ℕ
sw_flags = get_header last_comp_version

-- `len` more bytes of the structure block: a pointer to them, or a null pointer.
unfoldable pub fdt_grab_space_ : ℕ → Edit (Option ℕ)
fdt_grab_space_ len = do
  offset ← get_header size_dt_struct
  total ← get_header totalsize
  base ← get_header off_dt_struct
  strings ← get_header size_dt_strings
  let spaceleft = minus32 (minus32 total base) strings
  let end = (offset + len) % 2 ^ 64
  if ltb end offset || ltb spaceleft end then pure none else do
    set_header size_dt_struct end
    p ← reading (λ t. fdt_offset_ptr_ t (to_int offset))
    pure (some p)

-- FDT_CREATE_FLAGS_ALL
abbrev pub fdt_create_flags_all : ℕ
fdt_create_flags_all = 1

-- FDT_ALIGN(sizeof(struct fdt_header), sizeof(struct fdt_reserve_entry))
abbrev pub sw_header_size : ℕ
sw_header_size = 48

unfoldable pub fdt_create_with_flags : ℤ → ℕ → Edit ℤ
fdt_create_with_flags bufsize flags =
    if lt_test bufsize (pos sw_header_size)
    then refuse nospace
    else if not (bit_and flags (2 ^ 32 - 1 - fdt_create_flags_all) == 0)
    then refuse badflags
    else do
      store_bytes 0 (replicate (magnitude bufsize) 0)
      set_header magic fdt_sw_magic
      set_header version fdt_last_supported_version
      set_header last_comp_version flags
      set_header totalsize (to_u32 bufsize)
      set_header off_mem_rsvmap sw_header_size
      rsvmap ← get_header off_mem_rsvmap
      set_header off_dt_struct rsvmap
      set_header off_dt_strings 0
      pure (pos 0)

unfoldable pub fdt_create : ℤ → Edit ℤ
fdt_create bufsize = fdt_create_with_flags bufsize 0
