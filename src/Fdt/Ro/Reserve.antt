-- ===== src/Fdt/Ro/Reserve.antt =====
-- The memory reservation block, of libfdt/fdt_ro.c.
use dtboverlay.Base.{
  ℕ, zero, suc, ◌+◌, ◌-◌, ◌*◌, ◌%◌, ◌^◌, Option, none, some, false, ◌||◌, ◌==◌, if◌then◌else◌, ltb,
}
use dtboverlay.Base.Int.{ℤ, pos, negsuc, is_negative, to_u32}
use dtboverlay.Fdt.Assume.{valid_input}
use dtboverlay.Fdt.Constants.{failure, badoffset, truncated}
use dtboverlay.Fdt.Header.{totalsize, off_mem_rsvmap}
use dtboverlay.Fdt.Read.{
  Read, value, spent, ◌>>=◌, Tree, fail_with, assumes, header, read64, add_int, non_null,
}
use dtboverlay.Fdt.Tags.{reserve_size, reserve_address, reserve_length}

-- n * sizeof(struct fdt_reserve_entry)
abbrev pub times_entry : ℤ → ℤ
times_entry (pos n) = pos (n * 16)
times_entry (negsuc n) = negsuc (n * 16 + 15)

module _ (t : Tree) where
  unfoldable pub fdt_mem_rsv_ : ℤ → Read ℕ
  fdt_mem_rsv_ n = do base ← header t off_mem_rsvmap; value (add_int base (times_entry n))

  -- An entry, or a null pointer.
  unfoldable pub fdt_mem_rsv : ℤ → Read (Option ℕ)
  unfolding fdt_mem_rsv_
  fdt_mem_rsv n = do
    base ← header t off_mem_rsvmap
    let absoffset = (base + to_u32 n * reserve_size) % 2 ^ 32
    past ← if assumes t valid_input then value false else do
      total ← header t totalsize
      value (ltb absoffset base || ltb ((total + 2 ^ 64 - reserve_size) % 2 ^ 64) absoffset)
    if past then value none else do re ← fdt_mem_rsv_ n; value (some re)

  -- The result, `*address` and `*size`; the latter are set if the result is 0.
  unfoldable pub fdt_get_mem_rsv : ℤ → Read (ℤ × ℕ × ℕ)
  unfolding read64
  fdt_get_mem_rsv n = if is_negative t.ro_probe then value (t.ro_probe, 0, 0) else do
    re ← fdt_mem_rsv n
    let entry : Read (ℤ × ℕ × ℕ) = non_null re (λ p. do
      address ← read64 t (reserve_address p)
      size ← read64 t (reserve_length p)
      value (pos 0, address, size))
    elim re [
      | none ↦ if assumes t valid_input then entry else value (failure badoffset, 0, 0)
      | some p ↦ entry
    ]

  -- The loop of `fdt_num_mem_rsv`, from the entry `i` on.
  unfoldable pub count_mem_rsv : ℕ → ℕ → Read ℤ
  unfolding read64
  count_mem_rsv zero i = spent
  count_mem_rsv (suc n) i =
      let rest = count_mem_rsv n (i + 1) in
      do
        re ← fdt_mem_rsv (pos i)
        elim re [
          | none ↦ fail_with truncated
          | some p ↦ do
            size ← read64 t (reserve_length p)
            if size == 0 then value (pos i) else rest
        ]

  unfoldable pub fdt_num_mem_rsv : Read ℤ
  fdt_num_mem_rsv = count_mem_rsv t.fuel 0
