-- ===== src/Tests/HeaderRuns.antt =====
-- The results on libfdt/fdt.c at a blob of 72 bytes, and on the loads of libfdt/libfdt.h.
use dtboverlay.Base.{ℕ, ◌+◌, ◌≡◌, refl, [], replicate, arith, some, ◌↔◌}
use dtboverlay.Base.Int.{pos}
use dtboverlay.Base.Control.{next, fault, outcome}
use dtboverlay.Memory.{Buffer, byte, load8}
use dtboverlay.Fdt.Loads.{fdt16_ld, fdt64_ld, stored, fdt64_ld-fdt64_st}
use dtboverlay.Fdt.Assume.{fdt_assume_mask}
use dtboverlay.Fdt.Header.{fdt32_ld, off_dt_strings, version, last_comp_version, size_dt_strings}
use dtboverlay.Fdt.Check.{fdt_check_header}
use dtboverlay.Fdt.Layout.{field}
use dtboverlay.Fdt.Encode.{field-put_header}
use dtboverlay.Fdt.Verdict.{Verdict, fdt_check_header_lem}
use dtboverlay.Fdt.Accept.{IsAccepted, fdt_check_header-zero_iff, strings_in_bounds}
use dtboverlay.Fdt.Relaxed.{Honours, fdt_check_header-assumed}
use dtboverlay.Fdt.Results.{IsResult, fdt_check_header-IsResult}
use dtboverlay.Fdt.Short.{short_faults}
use dtboverlay.Tests.Blobs.{
  sample, sample-HasHeader, sample_accepted, sample_holds, fields, rest, stub, stub-IsBytes,
  stub_short, stub-magic,
}

fdt_check_header_lem_example : Verdict sample [] (fdt_check_header fdt_assume_mask sample [])
fdt_check_header_lem_example = fdt_check_header_lem sample-HasHeader []

fdt_check_header-zero_iff_example :
    (outcome (fdt_check_header fdt_assume_mask sample []) ≡ some (pos 0)) ↔ IsAccepted sample
fdt_check_header-zero_iff_example = fdt_check_header-zero_iff [] sample-HasHeader

sample-IsAccepted : IsAccepted sample
sample-IsAccepted = (fdt_check_header-zero_iff [] sample-HasHeader).0 sample_accepted

-- A build with ASSUME_LATEST.
sample-Honours : Honours 4 sample
sample-Honours = record {
  is_latest = λ _. (
    field-put_header fields rest version,
    rw (field-put_header fields rest last_comp_version) (omega arith),
  );
  is_valid = λ _. sample-IsAccepted;
}

fdt_check_header-assumed_example :
    outcome (fdt_check_header 4 sample []) ≡ outcome (fdt_check_header fdt_assume_mask sample [])
fdt_check_header-assumed_example = fdt_check_header-assumed sample-HasHeader 4 [] sample-Honours

strings_in_bounds_example :
    load8 {S = ℕ} {R = ℕ} sample (field sample.bytes off_dt_strings + 3) 0
    ≡ next (byte sample.bytes (field sample.bytes off_dt_strings + 3)) 0
strings_in_bounds_example =
    strings_in_bounds sample-HasHeader [] sample_accepted sample_holds 3 0
      (rw (field-put_header fields rest size_dt_strings) (omega arith))

short_faults_example : fdt_check_header fdt_assume_mask stub [] ≡ fault
short_faults_example =
    short_faults stub [] stub-IsBytes refl (omega (arith, stub_short)) (λ _. stub-magic)

fdt_check_header-IsResult_example : IsResult (outcome (fdt_check_header 4 sample []))
fdt_check_header-IsResult_example = fdt_check_header-IsResult 4 sample []

abbrev twelve : Buffer
twelve = record { addr = 0; bytes = replicate 12 7 }

fdt64_ld-fdt64_st_example :
    (fdt64_ld {S = ℕ} {R = ℕ} (stored twelve 3 0x0102030405060708) 3 0 ≡ next 0x0102030405060708 0)
    × (fdt32_ld {S = ℕ} {R = ℕ} (stored twelve 3 0x0102030405060708) 3 0 ≡ next 0x01020304 0)
    × (fdt16_ld {S = ℕ} {R = ℕ} (stored twelve 3 0x0102030405060708) 3 0 ≡ next 0x0102 0)
fdt64_ld-fdt64_st_example =
    fdt64_ld-fdt64_st twelve 3 0x0102030405060708 0 (omega arith) (omega arith)
