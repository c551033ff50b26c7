-- ===== src/Fdt/Rw/Open.antt =====
-- A blob that is unpacked into a buffer, or packed, of libfdt/fdt_rw.c. The bytes of the Tree are
-- memory here, in which the blob and the buffer are places that may overlap.
use dtboverlay.Base.{
  ℕ, zero, suc, ◌+◌, ◌*◌, drop, Bool, true, false, not, ◌&&◌, ◌==◌, if◌then◌else◌, ltb, leb,
}
use dtboverlay.Base.Int.{ℤ, pos, is_negative, eq_test, lt_test, to_int, to_u32}
use dtboverlay.Fdt.Assume.{latest, libfdt_order}
use dtboverlay.Fdt.Constants
use dtboverlay.Fdt.Constants.{failure, nospace, badversion}
use dtboverlay.Fdt.Header.{
  Field, offset_of, magic, totalsize, off_dt_struct, off_dt_strings, off_mem_rsvmap, version,
  last_comp_version, boot_cpuid_phys, size_dt_strings, size_dt_struct,
}
use dtboverlay.Fdt.Read
use dtboverlay.Fdt.Read.{Tree, header, add_int}
use dtboverlay.Fdt.Tags.{tag_end, reserve_size}
use dtboverlay.Fdt.Walk.{fdt_next_tag, fdt_move}
use dtboverlay.Fdt.Ro.Reserve.{fdt_num_mem_rsv}
use dtboverlay.Fdt.Write.{
  Edit, ◌>>=◌, ◌>>◌, pure, reading, refuse, with_bytes, store_bytes, store32, get_header,
  set_header, move_bytes, to_size,
}
use dtboverlay.Fdt.Rw.Splice.{assuming, rw_probed, fdt_blocks_misordered_, fdt_data_size_}

-- The blob at a place of memory, and its header.
abbrev at_place : ℕ → Tree → Tree
at_place p m = with_bytes m (drop p m.blob.bytes)

abbrev get_at : ℕ → Field → Edit ℕ
get_at p f = reading (λ m. header (at_place p m) f)

abbrev set_at : ℕ → Field → ℕ → Edit (Unit {0})
set_at p f v = store32 (p + offset_of f) v

-- sizeof(struct fdt_reserve_entry) for each reservation, and for the end.
abbrev reserve_room : ℤ → ℤ
reserve_room num = to_int ((to_u32 num + 1) * reserve_size)

-- FDT_ALIGN(sizeof(struct fdt_header), 8)
abbrev header_room : ℕ
header_room = 40

unfoldable pub fdt_packblocks_ :
    (old new : ℕ) → (mem_rsv_size struct_size strings_size : ℤ) → Edit (Unit {0})
fdt_packblocks_ old new mem_rsv_size struct_size strings_size = do
  let struct_off = to_int (header_room + to_u32 mem_rsv_size)
  let strings_off = to_int (to_u32 struct_off + to_u32 struct_size)
  rsvmap ← get_at old off_mem_rsvmap
  move_bytes (new + header_room) (old + rsvmap) (to_size mem_rsv_size)
  set_at new off_mem_rsvmap header_room
  base ← get_at old off_dt_struct
  move_bytes (add_int new struct_off) (old + base) (to_size struct_size)
  set_at new off_dt_struct (to_u32 struct_off)
  set_at new size_dt_struct (to_u32 struct_size)
  strings ← get_at old off_dt_strings
  move_bytes (add_int new strings_off) (old + strings) (to_size strings_size)
  set_at new off_dt_strings (to_u32 strings_off)
  size ← get_at old size_dt_strings
  set_at new size_dt_strings size

unfoldable pub fdt_pack : Edit ℤ
fdt_pack = rw_probed (do
  num ← reading fdt_num_mem_rsv
  struct_size ← get_header size_dt_struct
  strings_size ← get_header size_dt_strings
  fdt_packblocks_ 0 0 (reserve_room num) (to_int struct_size) (to_int strings_size)
  size ← fdt_data_size_
  set_header totalsize size
  pure (pos 0))

-- The loop that measures the structure block of a blob of version 16.
unfoldable pub measure_loop : ℕ → ℕ → ℤ → Edit ℤ
measure_loop zero fdt struct_size = λ m. Read.spent
measure_loop (suc n) fdt struct_size =
    let rest = measure_loop n fdt in
    do
      (tag, next) ← reading (λ m. fdt_next_tag (at_place fdt m) struct_size)
      if tag == tag_end then pure next else rest next

-- The size of the structure block; or that there is none, with the error.
unfoldable pub measured : ℕ → Edit (Bool × ℤ)
measured fdt = do
  new ← assuming latest
  v ← if new then pure 17 else get_at fdt version
  if leb 17 v
      then (do size ← get_at fdt size_dt_struct; pure (false, to_int size))
      else if v == 16
      then (do
        n ← reading (λ m. Read.value m.fuel)
        struct_size ← measure_loop n fdt (pos 0)
        pure (is_negative struct_size, struct_size))
      else pure (true, failure badversion)

-- The blob has its blocks in order, and is moved.
unfoldable pub open_ordered : (fdt buf : ℕ) → (bufsize struct_size : ℤ) → Edit ℤ
open_ordered fdt buf bufsize struct_size = do
  (err, xs) ← reading (λ m. fdt_move (at_place fdt m) bufsize)
  if not (eq_test err (pos 0)) then pure err else do
    store_bytes buf xs
    set_at buf version 17
    set_at buf size_dt_struct (to_u32 struct_size)
    set_at buf totalsize (to_u32 bufsize)
    pure (pos 0)

-- The blocks are put in order at `tmp`, and moved from there.
unfoldable pub open_reordered :
    (fdt buf tmp : ℕ) → (bufsize mem_rsv_size struct_size newsize : ℤ) → Edit ℤ
open_reordered fdt buf tmp bufsize mem_rsv_size struct_size newsize = do
  strings_size ← get_at fdt size_dt_strings
  fdt_packblocks_ fdt tmp mem_rsv_size struct_size (to_int strings_size)
  move_bytes buf tmp (to_size newsize)
  set_at buf magic Constants.fdt_magic
  set_at buf totalsize (to_u32 bufsize)
  set_at buf version 17
  set_at buf last_comp_version 16
  cpu ← get_at fdt boot_cpuid_phys
  set_at buf boot_cpuid_phys cpu
  pure (pos 0)

unfoldable pub fdt_open_into : (fdt buf : ℕ) → (bufsize : ℤ) → Edit ℤ
fdt_open_into fdt buf bufsize = do
  total ← get_at fdt totalsize
  probe ← reading (λ m. Read.value m.ro_probe)
  if is_negative probe then pure probe else do
    num ← reading (λ m. fdt_num_mem_rsv (at_place fdt m))
    let mem_rsv_size = reserve_room num
    (failed, struct_size) ← measured fdt
    if failed then pure struct_size else do
      any_order ← assuming libfdt_order
      misordered ← if any_order then pure false else (do
        (b, _) ← reading (λ m. fdt_blocks_misordered_ mem_rsv_size struct_size (at_place fdt m))
        pure b)
      if not misordered then open_ordered fdt buf bufsize struct_size else do
        strings_size ← get_at fdt size_dt_strings
        let newsize = to_int (header_room + to_u32 mem_rsv_size + to_u32 struct_size + strings_size)
        let overlaps = ltb fdt (add_int buf newsize) && ltb buf (fdt + total)
        let tmp = if overlaps then fdt + total else buf
        if lt_test bufsize newsize
            then refuse nospace
            else if overlaps && ltb (add_int buf bufsize) (add_int tmp newsize)
            then refuse nospace
            else open_reordered fdt buf tmp bufsize mem_rsv_size struct_size newsize
