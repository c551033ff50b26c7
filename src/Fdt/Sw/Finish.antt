-- ===== src/Fdt/Sw/Finish.antt =====
-- The end of a blob that was written, and its move to a larger buffer, of libfdt/fdt_sw.c.
use dtboverlay.Base.{
  ℕ, zero, suc, ◌+◌, List, drop, none, some, not, ◌&&◌, ◌==◌, if◌then◌else◌, leb, ltb,
}
use dtboverlay.Base.Int.{ℤ, pos, is_negative, eq_test, to_int, to_u32}
use dtboverlay.Fdt.Assume.{valid_dtb}
use dtboverlay.Fdt.Constants
use dtboverlay.Fdt.Constants.{failure, nospace, internal, fdt_tagsize, fdt_last_compatible_version}
use dtboverlay.Fdt.Header.{
  Field, offset_of, magic, totalsize, off_dt_struct, off_dt_strings, last_comp_version,
  size_dt_strings, size_dt_struct,
}
use dtboverlay.Fdt.Read
use dtboverlay.Fdt.Read.{Tree, assumes, header, fdt_offset_ptr_}
use dtboverlay.Fdt.Tags.{tag_prop, tag_end, prop_nameoff}
use dtboverlay.Fdt.Walk.{fdt_next_tag}
use dtboverlay.Fdt.Write.{
  Edit, ◌>>=◌, ◌>>◌, pure, reading, refuse, store32, load32, get_header, set_header, move_bytes,
  minus32, plus32, below, with_bytes,
}
use dtboverlay.Fdt.Sw.Space.{guarded, fdt_sw_probe_, fdt_sw_probe_struct_, fdt_grab_space_}

-- The loop of `fdt_finish`, which makes the offsets of the names count from the start of the strings:
-- `nextoffset` after it.
unfoldable pub finish_loop : ℕ → ℤ → Edit ℤ
finish_loop zero offset = λ t. Read.spent
finish_loop (suc n) offset =
    let rest = finish_loop n in
    do
      (tag, nextoffset) ← reading (λ t. fdt_next_tag t offset)
      if tag == tag_end
          then pure nextoffset
          else if tag == tag_prop
          then (do
            prop ← reading (λ t. fdt_offset_ptr_ t offset)
            nameoff ← load32 (prop_nameoff prop)
            size ← get_header size_dt_strings
            store32 (prop_nameoff prop) (plus32 nameoff size)
            rest nextoffset)
          else rest nextoffset

unfoldable pub fdt_finish : Edit ℤ
fdt_finish = guarded fdt_sw_probe_struct_ (do
  end ← fdt_grab_space_ fdt_tagsize
  elim end [
    | none ↦ refuse nospace
    | some p ↦ do
      store32 p tag_end
      total ← get_header totalsize
      strings ← get_header size_dt_strings
      base ← get_header off_dt_struct
      size ← get_header size_dt_struct
      let oldstroffset = to_int (minus32 total strings)
      let newstroffset = to_int (plus32 base size)
      move_bytes (Read.add_int 0 newstroffset) (Read.add_int 0 oldstroffset) strings
      set_header off_dt_strings (to_u32 newstroffset)
      n ← reading (λ t. Read.value t.fuel)
      nextoffset ← finish_loop n (pos 0)
      if is_negative nextoffset then pure nextoffset else do
        set_header totalsize (plus32 (to_u32 newstroffset) strings)
        set_header last_comp_version fdt_last_compatible_version
        set_header magic Constants.fdt_magic
        pure (pos 0)
  ])

-- The bytes of `t` are memory here, in which `fdt` and `buf` are places that may overlap.
module _ (t : Tree) (fdt buf : ℕ) (bufsize : ℤ) where
  -- The blob at a place of some memory.
  abbrev at_place : ℕ → List ℕ → Tree
  at_place p mem = with_bytes t (drop p mem)

  -- A setter of the header at `buf`.
  abbrev set_there : Field → ℕ → Edit (Unit {0})
  set_there f v = store32 (buf + offset_of f) v

  -- What `fdt_resize` does with the sizes of the parts that are moved.
  unfoldable pub move_parts : (headsize tailsize total : ℕ) → Edit ℤ
  move_parts headsize tailsize total = do
    let oldtail = below (fdt + total) tailsize
    let newtail = below (buf + to_u32 bufsize) tailsize
    if leb buf fdt
        then (do move_bytes buf fdt headsize; move_bytes newtail oldtail tailsize)
        else (do move_bytes newtail oldtail tailsize; move_bytes buf fdt headsize)
    set_there totalsize (to_u32 bufsize)
    strings ← reading (λ m. header (at_place buf m.blob.bytes) off_dt_strings)
    if strings == 0
        then pure (pos 0)
        else do set_there off_dt_strings (to_u32 bufsize); pure (pos 0)

  unfoldable pub fdt_resize : Edit ℤ
  fdt_resize = do
    (err, _) ← reading (λ m. fdt_sw_probe_ (at_place fdt m.blob.bytes))
    if not (eq_test err (pos 0))
        then pure err
        else if is_negative bufsize
        then refuse nospace
        else do
          base ← reading (λ m. header (at_place fdt m.blob.bytes) off_dt_struct)
          size ← reading (λ m. header (at_place fdt m.blob.bytes) size_dt_struct)
          tailsize ← reading (λ m. header (at_place fdt m.blob.bytes) size_dt_strings)
          total ← reading (λ m. header (at_place fdt m.blob.bytes) totalsize)
          let headsize = plus32 base size
          if not (assumes t valid_dtb) && ltb total (headsize + tailsize)
              then refuse internal
              else if ltb (to_u32 bufsize) (headsize + tailsize)
              then refuse nospace
              else move_parts headsize tailsize total
