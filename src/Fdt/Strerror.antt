-- ===== src/Fdt/Strerror.antt =====
-- libfdt/fdt_strerror.c: the texts of the errors.
use dtboverlay.Base.{ℕ, suc, ◌-◌, ◌^◌, String, Option, none, some, ltb, if◌then◌else◌, ◌==◌}
use dtboverlay.Base.Int.{ℤ, pos, negsuc}
use dtboverlay.Fdt.Read.{Read, value, outside}
use dtboverlay.Fdt.Constants.{
  FdtErr, notfound, exists, nospace, badoffset, badpath, badphandle, badstate, truncated, badmagic,
  badversion, badstructure, badlayout, internal, badncells, badvalue, badoverlay, nophandles,
  badflags, alignment,
}

-- FDT_ERRTABENT
abbrev pub fdt_errtabent : FdtErr → String
fdt_errtabent notfound = "FDT_ERR_NOTFOUND"
fdt_errtabent exists = "FDT_ERR_EXISTS"
fdt_errtabent nospace = "FDT_ERR_NOSPACE"
fdt_errtabent badoffset = "FDT_ERR_BADOFFSET"
fdt_errtabent badpath = "FDT_ERR_BADPATH"
fdt_errtabent badphandle = "FDT_ERR_BADPHANDLE"
fdt_errtabent badstate = "FDT_ERR_BADSTATE"
fdt_errtabent truncated = "FDT_ERR_TRUNCATED"
fdt_errtabent badmagic = "FDT_ERR_BADMAGIC"
fdt_errtabent badversion = "FDT_ERR_BADVERSION"
fdt_errtabent badstructure = "FDT_ERR_BADSTRUCTURE"
fdt_errtabent badlayout = "FDT_ERR_BADLAYOUT"
fdt_errtabent internal = "FDT_ERR_INTERNAL"
fdt_errtabent badncells = "FDT_ERR_BADNCELLS"
fdt_errtabent badvalue = "FDT_ERR_BADVALUE"
fdt_errtabent badoverlay = "FDT_ERR_BADOVERLAY"
fdt_errtabent nophandles = "FDT_ERR_NOPHANDLES"
fdt_errtabent badflags = "FDT_ERR_BADFLAGS"
fdt_errtabent alignment = "FDT_ERR_ALIGNMENT"

-- `fdt_errtable[i].str`; no entry is at 0.
unfoldable pub fdt_errtable : ℕ → Option String
fdt_errtable i =
    if i == 1
    then some (fdt_errtabent notfound)
    else if i == 2
    then some (fdt_errtabent exists)
    else if i == 3
    then some (fdt_errtabent nospace)
    else if i == 4
    then some (fdt_errtabent badoffset)
    else if i == 5
    then some (fdt_errtabent badpath)
    else if i == 6
    then some (fdt_errtabent badphandle)
    else if i == 7
    then some (fdt_errtabent badstate)
    else if i == 8
    then some (fdt_errtabent truncated)
    else if i == 9
    then some (fdt_errtabent badmagic)
    else if i == 10
    then some (fdt_errtabent badversion)
    else if i == 11
    then some (fdt_errtabent badstructure)
    else if i == 12
    then some (fdt_errtabent badlayout)
    else if i == 13
    then some (fdt_errtabent internal)
    else if i == 14
    then some (fdt_errtabent badncells)
    else if i == 15
    then some (fdt_errtabent badvalue)
    else if i == 16
    then some (fdt_errtabent badoverlay)
    else if i == 17
    then some (fdt_errtabent nophandles)
    else if i == 18
    then some (fdt_errtabent badflags)
    else if i == 19
    then some (fdt_errtabent alignment)
    else none

-- FDT_ERRTABSIZE
abbrev pub fdt_errtabsize : ℕ
fdt_errtabsize = 20

-- The least `int` has no negative: `-errval` overflows.
unfoldable pub fdt_strerror : ℤ → Read String
unfolding fdt_errtable
fdt_strerror (pos n) = value (if n == 0 then "<no error>" else "<valid offset/length>")
fdt_strerror (negsuc n) =
    if n == 2 ^ 31 - 1
    then outside
    else value (
        if ltb (suc n) fdt_errtabsize
        then elim (fdt_errtable (suc n)) as (λ _. String) [ none ↦ "<unknown error>" | some s ↦ s ]
        else "<unknown error>")
