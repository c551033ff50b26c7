-- ===== src/Fdt/Walk.antt =====
-- The walk over the structure block, by the functions that the lines from 352 on of libfdt/fdt.c keep
-- in comments and that the other files of libfdt call.
pub mod Pointers
pub mod Steps
pub mod Skip
pub mod Next
pub mod Nodes
pub mod Lists
pub mod Loops
use dtboverlay.Base.{
  ℕ, zero, suc, ◌+◌, ◌-◌, ◌*◌, ◌/◌, ◌%◌, ◌^◌, List, [], ◌∷◌, ◌++◌, Option, none, some, Bool, true,
  false, not, ◌&&◌, ◌||◌, ◌==◌, if◌then◌else◌, ltb, leb, length, take,
}
use dtboverlay.Base.Int.{
  ℤ, pos, negsuc, is_negative, magnitude, increment, decrement, eq_test, lt_test, to_u32, to_int,
}
use dtboverlay.Fdt.Assume.{valid_dtb, valid_input, latest}
use dtboverlay.Fdt.Constants.{
  FdtErr, failure, notfound, nospace, badoffset, truncated, badstructure,
}
use dtboverlay.Fdt.Header.{Field, totalsize, off_dt_struct, size_dt_struct, version}
use dtboverlay.Fdt.Read.{
  Read, value, outside, spent, ◌>>=◌, either, Tree, fail_with, assumes, header, is_old, read8,
  read32, fdt_offset_ptr_, non_null, same_bytes, bytes_at,
}
use dtboverlay.Fdt.Tags.{tag_begin_node, tag_end_node, tag_prop, tag_nop, tag_end}

-- `offset + n` for an `int` and a `size_t`, put back into an `int`.
abbrev pub advance : ℤ → ℕ → ℤ
advance offset n = to_int (to_u32 offset + n)

-- `a - b` for a u32 `a`.
abbrev pub sub32 : ℕ → ℕ → ℕ
sub32 a b = (a + 2 ^ 32 - b % 2 ^ 32) % 2 ^ 32

-- FDT_TAGALIGN, put back into an `int`.
abbrev pub tag_align : ℤ → ℤ
tag_align offset = to_int ((to_u32 offset + 3) / 4 * 4)

module _ (t : Tree) where
  -- FDT_RO_PROBE
  abbrev pub probed : Read ℤ → Read ℤ
  probed m = if is_negative t.ro_probe then value t.ro_probe else m

  unfoldable pub fdt_offset_ptr : ℤ → ℕ → Read (Option ℕ)
  unfolding fdt_offset_ptr_
  fdt_offset_ptr offset len = do
    base ← header t off_dt_struct
    let uoffset = to_u32 offset
    let absoffset = (uoffset + base) % 2 ^ 32
    if is_negative offset then value none else do
      past ← if assumes t valid_input then value false else do
        total ← header t totalsize
        value (
            ltb absoffset uoffset
            || (ltb ((absoffset + len) % 2 ^ 32) absoffset
                || ltb total ((absoffset + len) % 2 ^ 32)))
      if past then value none else do
        sized ← either (value (assumes t latest)) (do v ← header t version; value (leb 0x11 v))
        beyond ←
            if sized
            then either (value (ltb ((uoffset + len) % 2 ^ 32) uoffset))
                (do size ← header t size_dt_struct; value (ltb size ((uoffset + len) % 2 ^ 32)))
            else value false
        if beyond then value none else do p ← fdt_offset_ptr_ t offset; value (some p)

  -- The loop over the bytes of a node's name: whether it ended at a 0, and the offset after it.
  unfoldable pub skip_name : ℕ → ℤ → Read (Bool × ℤ)
  skip_name zero offset = spent
  skip_name (suc n) offset =
      let rest = skip_name n (advance offset 1) in
      do
        p ← fdt_offset_ptr offset 1
        elim p [
          | none ↦ value (false, advance offset 1)
          | some q ↦ do c ← read8 t q; if c == 0 then value (true, advance offset 1) else rest
        ]

  -- The offset after the name, or after the length, the name's offset and the value of a property.
  -- `none` is a premature end.
  unfoldable pub skip_begin : ℤ → Read (Option ℤ)
  skip_begin offset = do
    (ended, after) ← skip_name t.fuel offset
    value (if not (assumes t valid_dtb) && not ended then none else some after)

  unfoldable pub skip_prop : ℤ → Read (Option ℤ)
  unfolding is_old
  skip_prop offset = do
    lenp ← fdt_offset_ptr offset 4
    let body = non_null lenp (λ p. do
      len ← read32 t p
      let after = advance offset (8 + len)
      old ← is_old t
      value (
          some (
            if old && (leb 8 len && not (sub32 (to_u32 after) len % 8 == 0))
            then advance after 4
            else after)))
    elim lenp [ none ↦ if assumes t valid_dtb then body else value none | some p ↦ body ]

  -- The `switch` of `fdt_next_tag`.
  unfoldable pub skip_tag : ℕ → ℤ → Read (Option ℤ)
  skip_tag tag offset =
      if tag == tag_begin_node
      then skip_begin offset
      else if tag == tag_prop
      then skip_prop offset
      else value
          (if tag == tag_end || (tag == tag_end_node || tag == tag_nop) then some offset else none)

  -- The tag, and `*nextoffset`.
  unfoldable pub fdt_next_tag : ℤ → Read (ℕ × ℤ)
  fdt_next_tag startoffset = do
    tagp ← fdt_offset_ptr startoffset 4
    let body = non_null tagp (λ p. do
      tag ← read32 t p
      after ← skip_tag tag (advance startoffset 4)
      elim after [
        | none ↦ value (tag_end, failure badstructure)
        | some offset ↦ do
          whole ← fdt_offset_ptr startoffset (sub32 (to_u32 offset) (to_u32 startoffset))
          value (elim whole [
            | none ↦ (tag_end, failure badstructure)
            | some _ ↦ (tag, tag_align offset)
          ])
      ])
    elim tagp [
      | none ↦ if assumes t valid_dtb then body else value (tag_end, failure truncated)
      | some p ↦ body
    ]

  -- `fdt_check_node_offset_` and `fdt_check_prop_offset_`, by the tag that has to stand there.
  unfoldable pub check_tag_offset : ℕ → ℤ → Read ℤ
  check_tag_offset wanted offset =
      if not (assumes t valid_input) && (is_negative offset || not (to_u32 offset % 4 == 0))
      then fail_with badoffset
      else do
        (tag, after) ← fdt_next_tag offset
        if tag == wanted then value after else fail_with badoffset

  abbrev pub fdt_check_node_offset_ : ℤ → Read ℤ
  fdt_check_node_offset_ = check_tag_offset tag_begin_node

  abbrev pub fdt_check_prop_offset_ : ℤ → Read ℤ
  fdt_check_prop_offset_ = check_tag_offset tag_prop

  -- The loop of `fdt_next_node`. `counted` says whether a depth is kept, which is returned.
  unfoldable pub node_loop : ℕ → Bool → ℤ → ℤ → Read (ℤ × ℤ)
  node_loop zero counted offset depth = spent
  node_loop (suc n) counted offset depth =
      let rest = node_loop n counted in
      do
        (tag, after) ← fdt_next_tag offset
        if tag == tag_begin_node
            then value (offset, if counted then increment depth else depth)
            else if tag == tag_end_node
            then (let depth' = if counted then decrement depth else depth in
                if counted && is_negative depth' then value (after, depth') else rest after depth')
            else if tag == tag_end
            then value (
              if not (is_negative after) || (eq_test after (failure truncated) && not counted)
                  then failure notfound
                  else after,
              depth,
            )
            else rest after depth

  unfoldable pub fdt_next_node : Bool → ℤ → ℤ → Read (ℤ × ℤ)
  fdt_next_node counted offset depth = do
    after ← if is_negative offset then value (pos 0) else fdt_check_node_offset_ offset
    if is_negative after then value (after, depth) else node_loop t.fuel counted after depth

  -- `fdt_next_node(fdt, offset, NULL)`
  unfoldable pub node_after : ℤ → Read ℤ
  node_after offset = do (after, _) ← fdt_next_node false offset (pos 0); value after

  unfoldable pub fdt_first_subnode : ℤ → Read ℤ
  fdt_first_subnode offset = do
    (after, depth) ← fdt_next_node true offset (pos 0)
    if is_negative after || not (eq_test depth (pos 1)) then fail_with notfound else value after

  unfoldable pub subnode_loop : ℕ → ℤ → ℤ → Read ℤ
  subnode_loop zero offset depth = spent
  subnode_loop (suc n) offset depth =
      let rest = subnode_loop n in
      do
        (after, depth') ← fdt_next_node true offset depth
        if is_negative after || lt_test depth' (pos 1)
            then fail_with notfound
            else if lt_test (pos 1) depth'
            then rest after depth'
            else value after

  unfoldable pub fdt_next_subnode : ℤ → Read ℤ
  fdt_next_subnode offset = subnode_loop t.fuel offset (pos 1)

  -- The code, and the bytes that are written to the buffer.
  unfoldable pub fdt_move : ℤ → Read (ℤ × List ℕ)
  fdt_move bufsize =
      if not (assumes t valid_input) && is_negative bufsize
      then value (failure nospace, [])
      else if is_negative t.ro_probe
      then value (t.ro_probe, [])
      else do
        total ← header t totalsize
        if ltb (to_u32 bufsize) total
            then value (failure nospace, [])
            else do xs ← bytes_at t 0 total; value (pos 0, xs)

-- `fdt_find_string_`: the place of `s`, with its 0, in a table.
unfoldable pub find_string : List ℕ → List ℕ → Option ℕ
find_string [] s = none
find_string (c ∷ tab) s =
    let rest : Option ℕ = elim (find_string tab s) [ none ↦ none | some i ↦ some (suc i) ] in
    if ltb (length (c ∷ tab)) (length s)
    then none
    else if same_bytes (take (length s) (c ∷ tab)) s
    then some 0
    else rest

unfoldable pub fdt_find_string_ : List ℕ → List ℕ → Option ℕ
fdt_find_string_ strtab s = find_string strtab (s ++ 0 ∷ [])
