-- ===== src/Fdt/Encode.antt =====
-- Headers written as the bytes that `struct fdt_header` stands for, and read back.
use dtboverlay.Base.{ℕ, ◌/◌, ◌%◌, ◌^◌, ◌<◌, ◌≤◌, ◌≡◌, List, ◌∷◌, arith, length}
use dtboverlay.Base.Control.{next}
use dtboverlay.Memory.{Buffer, IsBytes}
use dtboverlay.Fdt.Header.{
  Field, totalsize, off_dt_struct, off_dt_strings, off_mem_rsvmap, version, last_comp_version,
  boot_cpuid_phys, size_dt_strings, size_dt_struct, magic, fdt_get_header,
}
use dtboverlay.Fdt.Word.{word, big_endian}
use dtboverlay.Fdt.Layout.{field, HasHeader}
use dtboverlay.Fdt.Stages.{fdt_get_header-next}

-- A u32 as four bytes, the highest first, before `rest`.
unfoldable pub put32 : ℕ → List ℕ → List ℕ
put32 v rest = (v / 2 ^ 24) ∷ (v / 2 ^ 16 % 256) ∷ (v / 2 ^ 8 % 256) ∷ (v % 256) ∷ rest

-- The members of a header, in the order of the struct, before `rest`.
unfoldable pub put_header : (Field → ℕ) → List ℕ → List ℕ
put_header h rest = put32 (h magic) (
    put32 (h totalsize) (
      put32 (h off_dt_struct) (
        put32 (h off_dt_strings) (
          put32 (h off_mem_rsvmap) (
            put32 (h version) (
              put32 (h last_comp_version) (
                put32 (h boot_cpuid_phys)
                  (put32 (h size_dt_strings) (put32 (h size_dt_struct) rest)))))))))

pub split_bytes :
    (v : ℕ) → big_endian (v / 2 ^ 24) (v / 2 ^ 16 % 256) (v / 2 ^ 8 % 256) (v % 256) ≡ v
split_bytes v = omega arith

module _ (h : Field → ℕ) (rest : List ℕ) where
  pub field-put_header : (f : Field) → field (put_header h rest) f ≡ h f
  unfolding field word put_header put32
  field-put_header magic = split_bytes (h magic)
  field-put_header totalsize = split_bytes (h totalsize)
  field-put_header off_dt_struct = split_bytes (h off_dt_struct)
  field-put_header off_dt_strings = split_bytes (h off_dt_strings)
  field-put_header off_mem_rsvmap = split_bytes (h off_mem_rsvmap)
  field-put_header version = split_bytes (h version)
  field-put_header last_comp_version = split_bytes (h last_comp_version)
  field-put_header boot_cpuid_phys = split_bytes (h boot_cpuid_phys)
  field-put_header size_dt_strings = split_bytes (h size_dt_strings)
  field-put_header size_dt_struct = split_bytes (h size_dt_struct)

pub put32-IsBytes : (v : ℕ) (rest : List ℕ) → v < 2 ^ 32 → IsBytes rest → IsBytes (put32 v rest)
unfolding put32
put32-IsBytes v rest h bytes = (omega arith, (omega arith, (omega arith, (omega arith, bytes))))

pub put_header-length : (h : Field → ℕ) (rest : List ℕ) → 40 ≤ length (put_header h rest)
unfolding put_header put32
put_header-length h rest = omega arith

module _ (addr : ℕ) (h : Field → ℕ) (rest : List ℕ) where
  abbrev pub blob : Buffer
  blob = record { addr = addr; bytes = put_header h rest }

  pub put_header-HasHeader : ((f : Field) → h f < 2 ^ 32) → IsBytes rest → HasHeader blob
  unfolding put_header
  put_header-HasHeader fits bytes = record {
    are_bytes = put32-IsBytes (h magic) _ (fits magic) (
        put32-IsBytes (h totalsize) _ (fits totalsize) (
          put32-IsBytes (h off_dt_struct) _ (fits off_dt_struct) (
            put32-IsBytes (h off_dt_strings) _ (fits off_dt_strings) (
              put32-IsBytes (h off_mem_rsvmap) _ (fits off_mem_rsvmap) (
                put32-IsBytes (h version) _ (fits version) (
                  put32-IsBytes (h last_comp_version) _ (fits last_comp_version) (
                    put32-IsBytes (h boot_cpuid_phys) _ (fits boot_cpuid_phys) (
                      put32-IsBytes (h size_dt_strings) _ (fits size_dt_strings)
                        (put32-IsBytes (h size_dt_struct) _ (fits size_dt_struct) bytes)))))))));
    long_enough = put_header-length h rest;
  }

  -- For members that are u32 and any bytes after them, each accessor of the header reads back the
  -- member that was written in big-endian order.
  pub fdt_get_header-put_header :
      {S R : Type 0} (f : Field) (s : S)
      → ((g : Field) → h g < 2 ^ 32)
      → IsBytes rest
      → fdt_get_header {S = S} {R = R} blob f s ≡ next (h f) s
  fdt_get_header-put_header f s fits bytes =
      rw (fdt_get_header-next (put_header-HasHeader fits bytes) f s, field-put_header h rest f)
