-- ===== src/Fdt/Rw/Splice.antt =====
-- The probe of a blob that is changed, and the moves in it, of libfdt/fdt_rw.c.
use dtboverlay.Base.{
  ℕ, ◌+◌, ◌-◌, ◌*◌, ◌%◌, ◌^◌, List, [], ◌∷◌, ◌++◌, none, some, Bool, true, false, not, ◌||◌,
  if◌then◌else◌, length, ltb, leb,
}
use dtboverlay.Base.Int.{ℤ, pos, is_negative, magnitude, eq_test, to_int, to_u32}
use dtboverlay.Fdt.Assume.{Assumption, valid_dtb, latest}
use dtboverlay.Fdt.Constants.{badoffset, nospace, badversion, badlayout}
use dtboverlay.Fdt.Header.{
  Field, totalsize, off_dt_struct, off_dt_strings, off_mem_rsvmap, version, size_dt_strings,
  size_dt_struct,
}
use dtboverlay.Fdt.Read
use dtboverlay.Fdt.Read.{Tree, assumes, add_int, bytes_at}
use dtboverlay.Fdt.Tags.{reserve_size}
use dtboverlay.Fdt.Walk.{fdt_find_string_}
use dtboverlay.Fdt.Write.{
  Edit, ◌>>=◌, ◌>>◌, pure, reading, refuse, store_bytes, get_header, set_header, move_bytes,
  minus32, plus32,
}

abbrev pub assuming : Assumption → Edit Bool
assuming a = reading (λ t. Read.value (assumes t a))

-- `p || q`
abbrev or_else : Edit Bool → Edit Bool → Edit Bool
or_else p q = do c ← p; if c then pure true else q

-- `a < b + c` for members of the header and an `int`
abbrev is_before : Field → Field → ℤ → Edit Bool
is_before a b c = do x ← get_header a; y ← get_header b; pure (ltb x (plus32 y (to_u32 c)))

unfoldable pub fdt_blocks_misordered_ : ℤ → ℤ → Edit Bool
fdt_blocks_misordered_ mem_rsv_size struct_size =
    or_else (do rsvmap ← get_header off_mem_rsvmap; pure (ltb rsvmap 40))
      (or_else (is_before off_dt_struct off_mem_rsvmap mem_rsv_size) (
        or_else (is_before off_dt_strings off_dt_struct struct_size)
          (do size ← get_header size_dt_strings; is_before totalsize off_dt_strings (to_int size))))

unfoldable pub fdt_rw_probe_ : Edit ℤ
fdt_rw_probe_ = do
  valid ← assuming valid_dtb
  probe ← reading (λ t. Read.value t.ro_probe)
  if valid then pure (pos 0) else if is_negative probe then pure probe else do
    new ← assuming latest
    v ← if new then pure 17 else get_header version
    if ltb v 17 then refuse badversion else do
      size ← get_header size_dt_struct
      misordered ← fdt_blocks_misordered_ (pos reserve_size) (to_int size)
      if misordered
          then refuse badlayout
          else do if ltb 17 v then set_header version 17 else pure tt; pure (pos 0)

-- FDT_RW_PROBE
abbrev pub rw_probed : Edit ℤ → Edit ℤ
rw_probed body = do err ← fdt_rw_probe_; if eq_test err (pos 0) then body else pure err

unfoldable pub fdt_data_size_ : Edit ℕ
fdt_data_size_ = do
  strings ← get_header off_dt_strings
  size ← get_header size_dt_strings
  pure (plus32 strings size)

-- A pointer below the blob is one from 2 ^ 63 on.
unfoldable pub fdt_splice_ : ℕ → ℤ → ℤ → Edit ℤ
fdt_splice_ p oldlen newlen = do
  dsize ← fdt_data_size_
  let end = (p + magnitude oldlen) % 2 ^ 64
  if is_negative oldlen || (ltb end p || ltb dsize end)
      then refuse badoffset
      else if leb (2 ^ 63) p || ltb (plus32 dsize (to_u32 newlen)) (magnitude oldlen)
      then refuse badoffset
      else do
        total ← get_header totalsize
        if ltb total (plus32 (minus32 dsize (magnitude oldlen)) (to_u32 newlen))
            then refuse nospace
            else do move_bytes (add_int p newlen) end (dsize - end); pure (pos 0)

-- A member of the header is changed by `delta`, modulo 2 ^ 32.
abbrev pub move_header : Field → ℕ → Edit (Unit {0})
move_header f delta = do v ← get_header f; set_header f (plus32 v delta)

unfoldable pub fdt_splice_mem_rsv_ : ℕ → ℤ → ℤ → Edit ℤ
fdt_splice_mem_rsv_ p oldn newn = do
  let delta = minus32 (to_u32 newn) (to_u32 oldn) * reserve_size % 2 ^ 32
  err ← fdt_splice_ p (to_int (to_u32 oldn * reserve_size)) (to_int (to_u32 newn * reserve_size))
  if not (eq_test err (pos 0))
      then pure err
      else do move_header off_dt_struct delta; move_header off_dt_strings delta; pure (pos 0)

unfoldable pub fdt_splice_struct_ : ℕ → ℤ → ℤ → Edit ℤ
fdt_splice_struct_ p oldlen newlen = do
  let delta = minus32 (to_u32 newlen) (to_u32 oldlen)
  err ← fdt_splice_ p oldlen newlen
  if not (eq_test err (pos 0))
      then pure err
      else do move_header size_dt_struct delta; move_header off_dt_strings delta; pure (pos 0)

unfoldable pub fdt_del_last_string_ : List ℕ → Edit (Unit {0})
fdt_del_last_string_ s = move_header size_dt_strings (minus32 0 ((length s + 1) % 2 ^ 32))

unfoldable pub fdt_splice_string_ : ℤ → Edit ℤ
fdt_splice_string_ newlen = do
  strings ← get_header off_dt_strings
  size ← get_header size_dt_strings
  err ← fdt_splice_ (strings + size) (pos 0) newlen
  if not (eq_test err (pos 0))
      then pure err
      else do move_header size_dt_strings (to_u32 newlen); pure (pos 0)

-- The offset of a string or an error, and whether it was added. The table is read whole.
unfoldable pub fdt_find_add_string_ : List ℕ → Edit (ℤ × Bool)
fdt_find_add_string_ s = do
  strtab ← get_header off_dt_strings
  size ← get_header size_dt_strings
  found ←
      if is_negative (to_int size)
      then pure none
      else do table ← reading (λ t. bytes_at t strtab size); pure (fdt_find_string_ table s)
  elim found [
    | some i ↦ pure (pos i, false)
    | none ↦ do
      err ← fdt_splice_string_ (pos (length s + 1))
      if not (eq_test err (pos 0))
          then pure (err, false)
          else do store_bytes (strtab + size) (s ++ 0 ∷ []); pure (to_int size, true)
  ]
