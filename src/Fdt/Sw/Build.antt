-- ===== src/Fdt/Sw/Build.antt =====
-- What is added to a blob that is being written, of libfdt/fdt_sw.c.
use dtboverlay.Base.{
  ℕ, ◌+◌, ◌-◌, ◌%◌, ◌^◌, List, [], ◌∷◌, ◌++◌, none, some, Bool, true, false, not, ◌==◌,
  if◌then◌else◌, length, ltb, bit_and,
}
use dtboverlay.Base.Int.{ℤ, pos, is_negative, neg, eq_test, to_int, to_u32}
use dtboverlay.Fdt.Constants.{failure, nospace, fdt_tagsize}
use dtboverlay.Fdt.Header.{
  totalsize, off_dt_struct, off_dt_strings, size_dt_strings, size_dt_struct,
}
use dtboverlay.Fdt.Read.{add_int, bytes_at}
use dtboverlay.Fdt.Tags.{
  tag_begin_node, tag_end_node, tag_prop, property_size, prop_len, prop_nameoff, prop_data,
  node_name, reserve_size, reserve_address, reserve_length,
}
use dtboverlay.Fdt.Walk.{fdt_find_string_}
use dtboverlay.Fdt.Write.{
  Edit, ◌>>=◌, ◌>>◌, pure, reading, refuse, store_bytes, store32, store64, get_header, set_header,
  minus32, plus32, below, to_size, tag_align_size,
}
use dtboverlay.Fdt.Sw.Space.{
  guarded, fdt_sw_probe_memrsv_, fdt_sw_probe_struct_, sw_flags, fdt_grab_space_,
}

unfoldable pub fdt_add_reservemap_entry : (addr size : ℕ) → Edit ℤ
fdt_add_reservemap_entry addr size = guarded fdt_sw_probe_memrsv_ (do
  offset ← get_header off_dt_struct
  total ← get_header totalsize
  if ltb total ((to_size (to_int offset) + reserve_size) % 2 ^ 64) then refuse nospace else do
    let re = add_int 0 (to_int offset)
    store64 (reserve_address re) addr
    store64 (reserve_length re) size
    set_header off_dt_struct ((to_size (to_int offset) + reserve_size) % 2 ^ 64)
    pure (pos 0))

unfoldable pub fdt_finish_reservemap : Edit ℤ
fdt_finish_reservemap = do
  err ← fdt_add_reservemap_entry 0 0
  if not (eq_test err (pos 0))
      then pure err
      else do total ← get_header totalsize; set_header off_dt_strings total; pure (pos 0)

unfoldable pub fdt_begin_node : List ℕ → Edit ℤ
fdt_begin_node name = guarded fdt_sw_probe_struct_ (do
  let namelen = length name + 1
  nh ← fdt_grab_space_ (fdt_tagsize + tag_align_size namelen)
  elim nh [
    | none ↦ refuse nospace
    | some p ↦ do store32 p tag_begin_node; store_bytes (node_name p) (name ++ 0 ∷ []); pure (pos 0)
  ])

unfoldable pub fdt_end_node : Edit ℤ
fdt_end_node = guarded fdt_sw_probe_struct_ (do
  en ← fdt_grab_space_ fdt_tagsize
  elim en [ none ↦ refuse nospace | some p ↦ do store32 p tag_end_node; pure (pos 0) ])

-- The strings grow down from the end of the buffer, so that an offset in them is negative, and 0 is
-- that there is no room.
unfoldable pub fdt_add_string_ : List ℕ → Edit ℤ
fdt_add_string_ s = do
  total ← get_header totalsize
  strtabsize ← get_header size_dt_strings
  let len = length s + 1
  let offset = plus32 strtabsize len
  base ← get_header off_dt_struct
  size ← get_header size_dt_struct
  if ltb (minus32 total offset) (plus32 base size) then pure (pos 0) else do
    store_bytes (below total offset) (s ++ 0 ∷ [])
    set_header size_dt_strings (plus32 strtabsize len)
    pure (to_int (2 ^ 32 - offset))

unfoldable pub fdt_del_last_string_ : List ℕ → Edit (Unit {0})
fdt_del_last_string_ s = do
  strtabsize ← get_header size_dt_strings
  set_header size_dt_strings (minus32 strtabsize ((length s + 1) % 2 ^ 32))

-- The offset of a string, and whether it was added. The table is read whole.
unfoldable pub fdt_find_add_string_ : List ℕ → Edit (ℤ × Bool)
fdt_find_add_string_ s = do
  total ← get_header totalsize
  strtabsize ← get_header size_dt_strings
  let add : Edit (ℤ × Bool) = (do off ← fdt_add_string_ s; pure (off, true))
  if is_negative (to_int strtabsize) then add else do
    table ← reading (λ t. bytes_at t (below total strtabsize) strtabsize)
    elim (fdt_find_string_ table s) [ some i ↦ pure (neg (strtabsize - i), false) | none ↦ add ]

-- FDT_CREATE_FLAG_NO_NAME_DEDUP
abbrev pub no_name_dedup : ℕ
no_name_dedup = 1

-- The result, and `*valp`, which is set if the result is 0.
unfoldable pub fdt_property_placeholder : List ℕ → ℤ → Edit (ℤ × ℕ)
fdt_property_placeholder name len = do
  err ← fdt_sw_probe_struct_
  if not (eq_test err (pos 0)) then pure (err, 0) else do
    flags ← sw_flags
    (nameoff, allocated) ←
        if bit_and flags no_name_dedup == 0
        then fdt_find_add_string_ name
        else do off ← fdt_add_string_ name; pure (off, true)
    if eq_test nameoff (pos 0) then pure (failure nospace, 0) else do
      prop ← fdt_grab_space_ ((property_size + tag_align_size (to_size len)) % 2 ^ 64)
      elim prop [
        | none ↦ do
          if allocated then fdt_del_last_string_ name else pure tt
          pure (failure nospace, 0)
        | some p ↦ do
          store32 p tag_prop
          store32 (prop_nameoff p) (to_u32 nameoff)
          store32 (prop_len p) (to_u32 len)
          pure (pos 0, prop_data p)
      ]

-- `val` has `len` bytes.
unfoldable pub fdt_property : List ℕ → List ℕ → Edit ℤ
fdt_property name val = do
  (ret, ptr) ← fdt_property_placeholder name (pos (length val))
  if eq_test ret (pos 0) then (do store_bytes ptr val; pure (pos 0)) else pure ret
