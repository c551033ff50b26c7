-- ===== src/Fdt/Header.antt =====
-- `struct fdt_header` of libfdt/fdt.h and the accessors of libfdt/fdt.c.
use dtboverlay.Base.{ℕ, ◌+◌, ◌*◌, ◌%◌, ◌^◌, bit_or}
use dtboverlay.Base.Control.{Stmt, pure, ◌>>=◌}
use dtboverlay.Memory.{Buffer, load8}

-- The members, in the order of the struct.
pub data Field : Type 0 where
  magic totalsize off_dt_struct off_dt_strings off_mem_rsvmap version last_comp_version : Field
  boot_cpuid_phys size_dt_strings size_dt_struct : Field

-- offsetof(struct fdt_header, f)
abbrev pub offset_of : Field → ℕ
offset_of magic = 0
offset_of totalsize = 4
offset_of off_dt_struct = 8
offset_of off_dt_strings = 12
offset_of off_mem_rsvmap = 16
offset_of version = 20
offset_of last_comp_version = 24
offset_of boot_cpuid_phys = 28
offset_of size_dt_strings = 32
offset_of size_dt_struct = 36

-- `(u32)x << k`
abbrev pub shl32 : ℕ → ℕ → ℕ
shl32 x k = x * 2 ^ k % 2 ^ 32

module _ {S R : Type 0} where
  unfoldable pub fdt32_ld : Buffer → ℕ → Stmt S R ℕ
  fdt32_ld b p = do
    b0 ← load8 b p
    b1 ← load8 b (p + 1)
    b2 ← load8 b (p + 2)
    b3 ← load8 b (p + 3)
    pure (bit_or (bit_or (bit_or (shl32 b0 24) (shl32 b1 16)) (shl32 b2 8)) b3)

  unfoldable pub fdt_get_header : Buffer → Field → Stmt S R ℕ
  fdt_get_header b f = fdt32_ld b (offset_of f)
