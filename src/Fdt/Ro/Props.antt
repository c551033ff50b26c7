-- ===== src/Fdt/Ro/Props.antt =====
-- The properties of a node, of libfdt/fdt_ro.c.
use dtboverlay.Base.{
  ℕ, zero, suc, ◌+◌, ◌%◌, List, Option, none, some, Bool, true, false, not, ◌&&◌, ◌==◌,
  if◌then◌else◌, leb,
}
use dtboverlay.Base.Int.{ℤ, pos, is_negative, eq_test, to_u32, to_int}
use dtboverlay.Fdt.Assume.{valid_input, libfdt_flawless}
use dtboverlay.Fdt.Constants.{failure, notfound, badversion, internal, badstructure}
use dtboverlay.Fdt.Read.{
  Read, value, spent, ◌>>=◌, Tree, Found, missing, fail_with, assumes, is_old, read32,
  fdt_offset_ptr_, non_null, codes,
}
use dtboverlay.Fdt.Tags.{
  tag_prop, tag_end, tag_nop, property_size, prop_len, prop_nameoff, prop_data,
}
use dtboverlay.Fdt.Walk.{fdt_next_tag, fdt_check_node_offset_, fdt_check_prop_offset_}
use dtboverlay.Fdt.Ro.Names.{fdt_get_string, fdt_string, fdt_string_eq_}

module _ (t : Tree) where
  -- The loop of `nextprop_`.
  unfoldable pub nextprop_loop : ℕ → ℤ → Read ℤ
  nextprop_loop zero offset = spent
  nextprop_loop (suc n) offset =
      let rest = nextprop_loop n in
      do
        (tag, after) ← fdt_next_tag t offset
        if tag == tag_end
            then value (if is_negative after then after else failure badstructure)
            else if tag == tag_prop
            then value offset
            else if tag == tag_nop
            then rest after
            else fail_with notfound

  unfoldable pub nextprop_ : ℤ → Read ℤ
  nextprop_ offset = nextprop_loop t.fuel offset

  unfoldable pub fdt_first_property_offset : ℤ → Read ℤ
  fdt_first_property_offset nodeoffset = do
    offset ← fdt_check_node_offset_ t nodeoffset
    if is_negative offset then value offset else nextprop_ offset

  unfoldable pub fdt_next_property_offset : ℤ → Read ℤ
  fdt_next_property_offset offset = do
    after ← fdt_check_prop_offset_ t offset
    if is_negative after then value after else nextprop_ after

  -- A property, and its length if `lenp` says that the caller asks for it.
  unfoldable pub fdt_get_property_by_offset_ : (lenp : Bool) → ℤ → Read Found
  unfolding fdt_offset_ptr_
  fdt_get_property_by_offset_ lenp offset = do
    err ← if assumes t valid_input then value (pos 0) else fdt_check_prop_offset_ t offset
    if is_negative err then value (missing err) else do
      prop ← fdt_offset_ptr_ t offset
      len ← if lenp then (do n ← read32 t (prop_len prop); value (to_int n)) else value (pos 0)
      value (some prop, len)

  unfoldable pub fdt_get_property_by_offset : (lenp : Bool) → ℤ → Read Found
  unfolding is_old
  fdt_get_property_by_offset lenp offset = do
    old ← is_old t
    if old then value (missing (failure badversion)) else fdt_get_property_by_offset_ lenp offset

  -- The loop of `fdt_get_property_namelen_`: the property, its length or the error, and its offset.
  unfoldable pub find_property : ℕ → (lenp : Bool) → List ℕ → ℤ → Read (Option ℕ × ℤ × ℤ)
  find_property zero lenp name offset = spent
  find_property (suc n) lenp name offset =
      let rest = find_property n lenp name in
      if is_negative offset then value (none, offset, offset) else do
        (prop, len) ← fdt_get_property_by_offset_ lenp offset
        let look = non_null prop (λ p. do
          nameoff ← read32 t (prop_nameoff p)
          hit ← fdt_string_eq_ t (to_int nameoff) name
          if hit
              then value (some p, len, offset)
              else do after ← fdt_next_property_offset offset; rest after)
        elim prop [
          | none ↦
              if assumes t libfdt_flawless
              then look
              else value (none, failure internal, failure internal)
          | some p ↦ look
        ]

  unfoldable pub fdt_get_property_namelen_ : (lenp : Bool) → ℤ → List ℕ → Read (Option ℕ × ℤ × ℤ)
  fdt_get_property_namelen_ lenp nodeoffset name = do
    first ← fdt_first_property_offset nodeoffset
    find_property t.fuel lenp name first

  unfoldable pub fdt_get_property_namelen : (lenp : Bool) → ℤ → List ℕ → Read Found
  unfolding is_old
  fdt_get_property_namelen lenp offset name = do
    old ← is_old t
    if old
        then value (missing (failure badversion))
        else do (prop, len, _) ← fdt_get_property_namelen_ lenp offset name; value (prop, len)

  unfoldable pub fdt_get_property : ℤ → List ℕ → Read Found
  fdt_get_property nodeoffset name = fdt_get_property_namelen true nodeoffset name

  -- The value of a property, which old versions align to 8 bytes.
  unfoldable pub realigned : ℤ → ℕ → Read ℕ
  unfolding is_old
  realigned offset prop = do
    old ← is_old t
    moved ←
        if old && not ((to_u32 offset + property_size) % 8 == 0)
        then (do n ← read32 t (prop_len prop); value (leb 8 n))
        else value false
    value (if moved then prop_data prop + 4 else prop_data prop)

  unfoldable pub fdt_getprop_namelen : (lenp : Bool) → ℤ → List ℕ → Read Found
  fdt_getprop_namelen lenp nodeoffset name = do
    (prop, len, poffset) ← fdt_get_property_namelen_ lenp nodeoffset name
    elim prop [
      | none ↦ value (missing len)
      | some p ↦ do val ← realigned poffset p; value (some val, len)
    ]

  -- The value, its length, and the name if `namep` says that the caller asks for it.
  unfoldable pub fdt_getprop_by_offset : (namep lenp : Bool) → ℤ → Read (Option ℕ × ℤ × Option ℕ)
  fdt_getprop_by_offset namep lenp offset = do
    (prop, len) ← fdt_get_property_by_offset_ lenp offset
    elim prop [
      | none ↦ value (none, len, none)
      | some p ↦ do
        let found : Option ℕ → Read (Option ℕ × ℤ × Option ℕ) =
            λ name. (do val ← realigned offset p; value (some val, len, name))
        if namep
            then (do
              nameoff ← read32 t (prop_nameoff p)
              if assumes t valid_input
                  then (do name ← fdt_string t (to_int nameoff); found name)
                  else do
                    (name, namelen) ← fdt_get_string t true (to_int nameoff)
                    elim name [ none ↦ value (none, namelen, none) | some s ↦ found (some s) ])
            else found none
    ]

  unfoldable pub fdt_getprop : ℤ → List ℕ → Read Found
  fdt_getprop nodeoffset name = fdt_getprop_namelen true nodeoffset name

  -- A property of one cell; `none` if there is none of this name and length.
  unfoldable pub cell_property : ℤ → List ℕ → Read (Option ℕ)
  cell_property nodeoffset name = do
    (php, len) ← fdt_getprop nodeoffset name
    value (if eq_test len (pos 4) then php else none)

  unfoldable pub fdt_get_phandle : ℤ → Read ℕ
  fdt_get_phandle nodeoffset = do
    php ← cell_property nodeoffset (codes "phandle")
    elim php [
      | some p ↦ read32 t p
      | none ↦ do
        old ← cell_property nodeoffset (codes "linux,phandle")
        elim old [ none ↦ value 0 | some p ↦ read32 t p ]
    ]
