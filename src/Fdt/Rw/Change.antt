-- ===== src/Fdt/Rw/Change.antt =====
-- Reservations, properties and nodes that are changed, of libfdt/fdt_rw.c.
use dtboverlay.Base.{
  ℕ, zero, suc, ◌+◌, ◌-◌, List, [], ◌∷◌, ◌++◌, none, some, not, ◌&&◌, ◌||◌, ◌==◌, if◌then◌else◌,
  length, replicate,
}
use dtboverlay.Base.Int.{ℤ, pos, is_negative, magnitude, eq_test, le_test, to_int, to_u32}
use dtboverlay.Fdt.Assume.{no_rollback, libfdt_flawless}
use dtboverlay.Fdt.Constants.{failure, notfound, exists, internal, fdt_tagsize}
use dtboverlay.Fdt.Read
use dtboverlay.Fdt.Read.{Tree, add_int, fdt_offset_ptr_}
use dtboverlay.Fdt.Tags.{
  tag_begin_node, tag_end_node, tag_prop, tag_nop, property_size, prop_len, prop_nameoff, prop_data,
  node_name, reserve_address, reserve_length,
}
use dtboverlay.Fdt.Walk.{tag_align, fdt_next_tag, fdt_check_node_offset_}
use dtboverlay.Fdt.Ro.Names.{fdt_get_name, fdt_subnode_offset_namelen}
use dtboverlay.Fdt.Ro.Props.{fdt_get_property}
use dtboverlay.Fdt.Ro.Reserve.{fdt_mem_rsv_, fdt_num_mem_rsv}
use dtboverlay.Fdt.Wip.Ends.{fdt_node_end_offset_}
use dtboverlay.Fdt.Write.{
  Edit, ◌>>=◌, ◌>>◌, pure, reading, refuse, store_bytes, store32, store64, minus32,
}
use dtboverlay.Fdt.Rw.Splice.{
  assuming, rw_probed, fdt_splice_mem_rsv_, fdt_splice_struct_, fdt_del_last_string_,
  fdt_find_add_string_,
}

-- What goes on after a result of 0.
abbrev unless_error : Edit ℤ → Edit ℤ → Edit ℤ
unless_error m k = do err ← m; if eq_test err (pos 0) then k else pure err

unfoldable pub fdt_add_mem_rsv : (address size : ℕ) → Edit ℤ
fdt_add_mem_rsv address size = rw_probed (do
  n ← reading fdt_num_mem_rsv
  re ← reading (λ t. fdt_mem_rsv_ t n)
  unless_error (fdt_splice_mem_rsv_ re (pos 0) (pos 1))
      (do store64 (reserve_address re) address; store64 (reserve_length re) size; pure (pos 0)))

unfoldable pub fdt_del_mem_rsv : ℤ → Edit ℤ
fdt_del_mem_rsv n = do
  re ← reading (λ t. fdt_mem_rsv_ t n)
  rw_probed (do
    num ← reading fdt_num_mem_rsv
    if le_test num n then refuse notfound else fdt_splice_mem_rsv_ re (pos 1) (pos 0))

-- The result, and `*prop`, which is set if the result is 0.
unfoldable pub fdt_resize_property_ : ℤ → List ℕ → ℤ → Edit (ℤ × ℕ)
fdt_resize_property_ nodeoffset name len = do
  (prop, oldlen) ← reading (λ t. fdt_get_property t nodeoffset name)
  elim prop [
    | none ↦ pure (oldlen, 0)
    | some p ↦ do
      err ← fdt_splice_struct_ (prop_data p) (tag_align oldlen) (tag_align len)
      if eq_test err (pos 0)
          then (do store32 (prop_len p) (to_u32 len); pure (pos 0, p))
          else pure (err, 0)
  ]

unfoldable pub fdt_add_property_ : ℤ → List ℕ → ℤ → Edit (ℤ × ℕ)
fdt_add_property_ nodeoffset name len = do
  nextoffset ← reading (λ t. fdt_check_node_offset_ t nodeoffset)
  if is_negative nextoffset then pure (nextoffset, 0) else do
    (namestroff, allocated) ← fdt_find_add_string_ name
    if is_negative namestroff then pure (namestroff, 0) else do
      prop ← reading (λ t. fdt_offset_ptr_ t nextoffset)
      err ← fdt_splice_struct_ prop (pos 0) (to_int (property_size + to_u32 (tag_align len)))
      if eq_test err (pos 0)
          then (do
            store32 prop tag_prop
            store32 (prop_nameoff prop) (to_u32 namestroff)
            store32 (prop_len prop) (to_u32 len)
            pure (pos 0, prop))
          else do
            lax ← assuming no_rollback
            if not lax && allocated then fdt_del_last_string_ name else pure tt
            pure (err, 0)

unfoldable pub fdt_set_name : ℤ → List ℕ → Edit ℤ
fdt_set_name nodeoffset name = rw_probed (do
  (namep, oldlen) ← reading (λ t. fdt_get_name t nodeoffset)
  elim namep [
    | none ↦ pure oldlen
    | some p ↦
        unless_error
          (fdt_splice_struct_ p (tag_align (to_int (to_u32 oldlen + 1)))
            (tag_align (pos (length name + 1))))
          (do store_bytes p (name ++ 0 ∷ []); pure (pos 0))
  ])

-- The result, and `*prop_data`, which is set if the result is 0.
unfoldable pub fdt_setprop_placeholder : ℤ → List ℕ → ℤ → Edit (ℤ × ℕ)
fdt_setprop_placeholder nodeoffset name len = do
  probe ← rw_probed (pure (pos 0))
  if not (eq_test probe (pos 0)) then pure (probe, 0) else do
    (err, prop) ← fdt_resize_property_ nodeoffset name len
    (err', prop') ←
        if eq_test err (failure notfound)
        then fdt_add_property_ nodeoffset name len
        else pure (err, prop)
    pure (if eq_test err' (pos 0) then (pos 0, prop_data prop') else (err', 0))

-- `val` has `len` bytes, here and below.
unfoldable pub fdt_setprop : ℤ → List ℕ → List ℕ → Edit ℤ
fdt_setprop nodeoffset name val = do
  (err, p) ← fdt_setprop_placeholder nodeoffset name (pos (length val))
  if not (eq_test err (pos 0))
      then pure err
      else if length val == 0
      then pure (pos 0)
      else do store_bytes p val; pure (pos 0)

unfoldable pub fdt_appendprop : ℤ → List ℕ → List ℕ → Edit ℤ
fdt_appendprop nodeoffset name val = rw_probed (do
  (prop, oldlen) ← reading (λ t. fdt_get_property t nodeoffset name)
  elim prop [
    | some p ↦
        let newlen = to_int (length val + to_u32 oldlen) in
        unless_error (fdt_splice_struct_ (prop_data p) (tag_align oldlen) (tag_align newlen)) (do
          store32 (prop_len p) (to_u32 newlen)
          store_bytes (add_int (prop_data p) oldlen) val
          pure (pos 0))
    | none ↦ do
      (err, p) ← fdt_add_property_ nodeoffset name (pos (length val))
      if eq_test err (pos 0) then (do store_bytes (prop_data p) val; pure (pos 0)) else pure err
  ])

unfoldable pub fdt_delprop : ℤ → List ℕ → Edit ℤ
fdt_delprop nodeoffset name = rw_probed (do
  (prop, len) ← reading (λ t. fdt_get_property t nodeoffset name)
  elim prop [
    | none ↦ pure len
    | some p ↦ fdt_splice_struct_ p (to_int (property_size + to_u32 (tag_align len))) (pos 0)
  ])

-- The loop over the properties of the parent: where they end.
unfoldable pub skip_properties : ℕ → ℤ → Edit ℤ
skip_properties zero offset = λ t. Read.spent
skip_properties (suc n) offset =
    let rest = skip_properties n in
    do
      (tag, nextoffset) ← reading (λ t. fdt_next_tag t offset)
      if tag == tag_prop || tag == tag_nop then rest nextoffset else pure offset

-- The new node, with its name and its end.
unfoldable pub insert_node : ℤ → List ℕ → Edit ℤ
insert_node offset name = do
  nh ← reading (λ t. fdt_offset_ptr_ t offset)
  let padded = magnitude (tag_align (pos (length name + 1)))
  let nodelen = fdt_tagsize + padded + fdt_tagsize
  unless_error (fdt_splice_struct_ nh (pos 0) (to_int nodelen)) (do
    store32 nh tag_begin_node
    store_bytes (node_name nh) (replicate padded 0)
    store_bytes (node_name nh) name
    store32 (nh + nodelen - fdt_tagsize) tag_end_node
    pure offset)

unfoldable pub fdt_add_subnode_namelen : ℤ → List ℕ → Edit ℤ
fdt_add_subnode_namelen parentoffset name = rw_probed (do
  there ← reading (λ t. fdt_subnode_offset_namelen t parentoffset name)
  if not (is_negative there)
      then refuse exists
      else if not (eq_test there (failure notfound))
      then pure there
      else do
        (tag, nextoffset) ← reading (λ t. fdt_next_tag t parentoffset)
        flawless ← assuming libfdt_flawless
        if not flawless && not (tag == tag_begin_node) then refuse internal else do
          n ← reading (λ t. Read.value t.fuel)
          offset ← skip_properties n nextoffset
          insert_node offset name)

unfoldable pub fdt_add_subnode : ℤ → List ℕ → Edit ℤ
fdt_add_subnode parentoffset name = fdt_add_subnode_namelen parentoffset name

unfoldable pub fdt_del_node : ℤ → Edit ℤ
fdt_del_node nodeoffset = rw_probed (do
  endoffset ← reading (λ t. fdt_node_end_offset_ t nodeoffset)
  if is_negative endoffset then pure endoffset else do
    p ← reading (λ t. fdt_offset_ptr_ t nodeoffset)
    fdt_splice_struct_ p (to_int (minus32 (to_u32 endoffset) (to_u32 nodeoffset))) (pos 0))
