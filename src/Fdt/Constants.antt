-- ===== src/Fdt/Constants.antt =====
-- The constants of libfdt/fdt.h and libfdt/fdt.c.
use dtboverlay.Base.{ℕ, ◌+◌, ◌*◌, ◌-◌, ◌^◌}
use dtboverlay.Base.Int.{ℤ, neg}

abbrev pub fdt_magic : ℕ
fdt_magic = 0xd00dfeed

-- sizeof(u32)
abbrev pub fdt_tagsize : ℕ
fdt_tagsize = 4

abbrev pub fdt_v1_size : ℕ
fdt_v1_size = 7 * fdt_tagsize

abbrev pub fdt_v2_size : ℕ
fdt_v2_size = fdt_v1_size + fdt_tagsize

abbrev pub fdt_v3_size : ℕ
fdt_v3_size = fdt_v2_size + fdt_tagsize

abbrev pub fdt_v16_size : ℕ
fdt_v16_size = fdt_v3_size

abbrev pub fdt_v17_size : ℕ
fdt_v17_size = fdt_v16_size + fdt_tagsize

abbrev pub fdt_first_supported_version : ℕ
fdt_first_supported_version = 0x02

abbrev pub fdt_last_compatible_version : ℕ
fdt_last_compatible_version = 0x10

abbrev pub fdt_last_supported_version : ℕ
fdt_last_supported_version = 0x11

-- The kernel's INT_MAX.
abbrev pub int_max : ℕ
int_max = 2 ^ 31 - 1

-- FDT_ERR_NOTFOUND to FDT_ERR_ALIGNMENT.
pub data FdtErr : Type 0 where
  notfound exists nospace : FdtErr
  badoffset badpath badphandle badstate : FdtErr
  truncated badmagic badversion badstructure badlayout internal : FdtErr
  badncells badvalue badoverlay nophandles badflags alignment : FdtErr

abbrev pub fdt_err : FdtErr → ℕ
fdt_err notfound = 1
fdt_err exists = 2
fdt_err nospace = 3
fdt_err badoffset = 4
fdt_err badpath = 5
fdt_err badphandle = 6
fdt_err badstate = 7
fdt_err truncated = 8
fdt_err badmagic = 9
fdt_err badversion = 10
fdt_err badstructure = 11
fdt_err badlayout = 12
fdt_err internal = 13
fdt_err badncells = 14
fdt_err badvalue = 15
fdt_err badoverlay = 16
fdt_err nophandles = 17
fdt_err badflags = 18
fdt_err alignment = 19

abbrev pub fdt_err_max : ℕ
fdt_err_max = 19

-- `-FDT_ERR_…`
abbrev pub failure : FdtErr → ℤ
failure e = neg (fdt_err e)
