-- ===== src/Tests/Blobs.antt =====
-- Blobs to run libfdt/fdt.c on.
use dtboverlay.Base.{
  ℕ, zero, suc, ◌<◌, ◌≤◌, ◌^◌, ◌≡◌, refl, List, [], arith, replicate, length, some, Option,
}
use dtboverlay.Base.Int.{ℤ, pos}
use dtboverlay.Base.Control.{outcome}
use dtboverlay.Memory.{Buffer, IsBytes, load8}
use dtboverlay.Fdt.Assume.{fdt_assume_mask, can_assume}
use dtboverlay.Fdt.Header.{
  Field, totalsize, off_dt_struct, off_dt_strings, off_mem_rsvmap, version, last_comp_version,
  boot_cpuid_phys, size_dt_strings, size_dt_struct, magic, fdt_get_header, fdt32_ld,
}
use dtboverlay.Fdt.Constants.{fdt_magic, failure, truncated}
use dtboverlay.Fdt.Check.{
  fdt_check_header, check_version, fdt_header_size, check_size, fdt_header_size_, check_off_,
  check_struct, check_block_, check_strings,
}
use dtboverlay.Fdt.Layout.{HasHeader, field}
use dtboverlay.Fdt.Word.{word}
use dtboverlay.Fdt.Encode.{put32, put_header, put_header-HasHeader, blob}

-- 16 bytes of reservations, 8 of structure and 8 of strings after the header.
abbrev pub fields : Field → ℕ
fields magic = fdt_magic
fields totalsize = 72
fields off_dt_struct = 56
fields off_dt_strings = 64
fields off_mem_rsvmap = 40
fields version = 17
fields last_comp_version = 16
fields boot_cpuid_phys = 0
fields size_dt_strings = 8
fields size_dt_struct = 8

abbrev pub rest : List ℕ
rest = replicate 32 0

abbrev pub content : List ℕ
content = put_header fields rest

abbrev pub address : ℕ
address = 4096

abbrev pub sample : Buffer
sample = blob address fields rest

pub fields-fit : (f : Field) → fields f < 2 ^ 32
fields-fit magic = omega arith
fields-fit totalsize = omega arith
fields-fit off_dt_struct = omega arith
fields-fit off_dt_strings = omega arith
fields-fit off_mem_rsvmap = omega arith
fields-fit version = omega arith
fields-fit last_comp_version = omega arith
fields-fit boot_cpuid_phys = omega arith
fields-fit size_dt_strings = omega arith
fields-fit size_dt_struct = omega arith

pub zeros-IsBytes : (n : ℕ) → IsBytes (replicate n 0)
zeros-IsBytes zero = tt
zeros-IsBytes (suc n) = (omega arith, zeros-IsBytes n)

pub sample-HasHeader : HasHeader sample
sample-HasHeader = put_header-HasHeader address fields rest fields-fit (zeros-IsBytes 32)

-- The strings block ends a byte after the blob.
abbrev pub overlong : Field → ℕ
overlong size_dt_strings = 9
overlong f = fields f

-- The end of the strings block overflows a u32.
abbrev pub wrapping : Field → ℕ
wrapping size_dt_strings = 0xffffffff
wrapping f = fields f

abbrev pub checked : (Field → ℕ) → Option ℤ
checked h = outcome (fdt_check_header fdt_assume_mask (blob address h rest) [])

pub sample_accepted : checked fields ≡ some (pos 0)
unfolding fdt_check_header put_header put32 fdt_get_header fdt32_ld load8 can_assume check_version
    fdt_header_size check_size fdt_header_size_ check_off_ check_struct check_block_ check_strings
sample_accepted = refl

overlong_refused : checked overlong ≡ some (failure truncated)
unfolding fdt_check_header put_header put32 fdt_get_header fdt32_ld load8 can_assume check_version
    fdt_header_size check_size fdt_header_size_ check_off_ check_struct check_block_ check_strings
overlong_refused = refl

wrapping_refused : checked wrapping ≡ some (failure truncated)
unfolding fdt_check_header put_header put32 fdt_get_header fdt32_ld load8 can_assume check_version
    fdt_header_size check_size fdt_header_size_ check_off_ check_struct check_block_ check_strings
wrapping_refused = refl

-- A file of 20 bytes, with the magic number.
abbrev pub stub : Buffer
stub = record { addr = address; bytes = put32 fdt_magic (replicate 16 0) }

pub stub-IsBytes : IsBytes stub.bytes
unfolding put32
stub-IsBytes = (omega arith, (omega arith, (omega arith, (omega arith, zeros-IsBytes 16))))

pub stub_short : length stub.bytes ≡ 20
unfolding put32
stub_short = refl

pub stub-magic : field stub.bytes magic ≡ fdt_magic
unfolding field word put32
stub-magic = refl

pub sample_holds : field sample.bytes totalsize ≤ length sample.bytes
unfolding field word put_header put32
sample_holds = omega arith
