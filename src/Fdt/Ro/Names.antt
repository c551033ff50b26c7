-- ===== src/Fdt/Ro/Names.antt =====
-- Strings and node names, of libfdt/fdt_ro.c.
use dtboverlay.Base.{
  ℕ, zero, suc, ◌+◌, ◌-◌, ◌%◌, ◌^◌, List, [], ◌∷◌, Option, none, some, Bool, true, false, not, ◌&&◌,
  ◌||◌, ◌==◌, if◌then◌else◌, ltb, leb, length,
}
use dtboverlay.Base.Int.{ℤ, pos, is_negative, magnitude, negate, eq_test, lt_test, to_u32}
use dtboverlay.Fdt.Assume.{valid_input, latest}
use dtboverlay.Fdt.Constants
use dtboverlay.Fdt.Constants.{failure, badoffset, internal, truncated, badstructure, notfound}
use dtboverlay.Fdt.Header.{magic, version, off_dt_strings, size_dt_strings}
use dtboverlay.Fdt.Read.{
  Read, value, spent, ◌>>=◌, both, either, Tree, Found, missing, assumes, header, is_old, read8,
  fdt_offset_ptr_, string_at, memchr, memcmp_equal, add_int,
}
use dtboverlay.Fdt.Tags.{node_name}
use dtboverlay.Fdt.Walk.{sub32, probed, fdt_check_node_offset_, fdt_next_node}

-- FDT_SW_MAGIC of libfdt/libfdt_internal.h
abbrev pub fdt_sw_magic : ℕ
fdt_sw_magic = 2 ^ 32 - 1 - Constants.fdt_magic

module _ (t : Tree) where
  -- How many bytes the string may have at most, for a finished blob and for one that is being
  -- written; `none` is a jump to `fail`.
  unfoldable pub string_room : (stroffset : ℤ) → (len : ℕ) → Read (Option ℕ)
  string_room stroffset len = if is_negative stroffset then value none else do
    sized ← either (value (assumes t latest)) (do v ← header t version; value (leb 17 v))
    if sized
        then (do
          size ← header t size_dt_strings
          if leb size (to_u32 stroffset)
              then value none
              else (let left = sub32 size (to_u32 stroffset) in
                  value (some (if ltb left len then left else len))))
        else value (some len)

  unfoldable pub sw_string_room : (stroffset : ℤ) → (len : ℕ) → Read (Option ℕ)
  sw_string_room stroffset len = do
    let sw_stroffset = to_u32 (negate stroffset)
    past ←
        either (value (not (is_negative stroffset)))
          (do size ← header t size_dt_strings; value (ltb size sw_stroffset))
    value (if past then none else some (if ltb sw_stroffset len then sw_stroffset else len))

  -- The string at `absoffset`, which has to end within `len` bytes.
  unfoldable pub terminated : (absoffset len : ℕ) → Read Found
  terminated absoffset len = do
    n ← memchr t absoffset 0 len
    value (elim n [ none ↦ missing (failure truncated) | some k ↦ (some absoffset, pos k) ])

  -- `lenp` says whether the caller asks for the length.
  unfoldable pub fdt_get_string : (lenp : Bool) → (stroffset : ℤ) → Read Found
  fdt_get_string lenp stroffset =
      if assumes t valid_input
      then (do
        base ← header t off_dt_strings
        let s = add_int base stroffset
        if lenp
            then (do xs ← string_at t s; value (some s, pos (length xs)))
            else value (some s, pos 0))
      else if is_negative t.ro_probe
      then value (missing t.ro_probe)
      else do
        let totalsize = magnitude t.ro_probe
        base ← header t off_dt_strings
        let absoffset = (to_u32 stroffset + base) % 2 ^ 32
        if leb totalsize absoffset then value (missing (failure badoffset)) else do
          m ← header t magic
          let len = totalsize - absoffset
          if m == Constants.fdt_magic || m == fdt_sw_magic
              then (do
                room ←
                    if m == Constants.fdt_magic
                    then string_room stroffset len
                    else sw_string_room stroffset len
                elim room [
                  | none ↦ value (missing (failure badoffset))
                  | some n ↦ terminated absoffset n
                ])
              else value (missing (failure internal))

  unfoldable pub fdt_string : ℤ → Read (Option ℕ)
  fdt_string stroffset = do (s, _) ← fdt_get_string false stroffset; value s

  unfoldable pub fdt_string_eq_ : ℤ → List ℕ → Read Bool
  fdt_string_eq_ stroffset s = do
    (p, slen) ← fdt_get_string true stroffset
    elim p [
      | none ↦ value false
      | some q ↦ if eq_test slen (pos (length s)) then memcmp_equal t q s else value false
    ]

  -- The last '/' of a string: the place after it.
  unfoldable pub after_last_slash : List ℕ → Option ℕ
  after_last_slash [] = none
  after_last_slash (c ∷ cs) = elim (after_last_slash cs) as (λ _. Option ℕ) [
    | some k ↦ some (suc k)
    | none ↦ if c == b'/' then some 1 else none
  ]

  -- The name of a node, and its length.
  unfoldable pub fdt_get_name : ℤ → Read Found
  unfolding is_old fdt_offset_ptr_
  fdt_get_name nodeoffset = do
    nh ← fdt_offset_ptr_ t nodeoffset
    if is_negative t.ro_probe then value (missing t.ro_probe) else do
      err ← fdt_check_node_offset_ t nodeoffset
      if is_negative err then value (missing err) else do
        let nameptr = node_name nh
        old ← is_old t
        if old
            then (do
              name ← string_at t nameptr
              elim (after_last_slash name) [
                | none ↦ value (missing (failure badstructure))
                | some k ↦ do
                  leaf ← string_at t (nameptr + k)
                  value (some (nameptr + k), pos (length leaf))
              ])
            else do name ← string_at t nameptr; value (some nameptr, pos (length name))

-- `memchr(s, c, len)` in a string of `len` bytes.
unfoldable pub has_byte : ℕ → List ℕ → Bool
has_byte c [] = false
has_byte c (x ∷ xs) = x == c || has_byte c xs

module _ (t : Tree) where
  -- The node's name is `s`, or `s` and a unit address that `s` lacks.
  unfoldable pub fdt_nodename_eq_ : ℤ → List ℕ → Read Bool
  fdt_nodename_eq_ offset s = do
    (p, olen) ← fdt_get_name t offset
    elim p [
      | none ↦ value false
      | some q ↦ if lt_test olen (pos (length s)) then value false else do
        same ← memcmp_equal t q s
        if same
            then (do
              c ← read8 t (q + length s)
              value (c == 0 || (not (has_byte b'@' s) && c == b'@')))
            else value false
    ]

  -- The loop of `fdt_subnode_offset_namelen`.
  unfoldable pub find_subnode : ℕ → List ℕ → ℤ → ℤ → Read ℤ
  find_subnode zero name offset depth = spent
  find_subnode (suc n) name offset depth =
      let rest = find_subnode n name in
      if is_negative offset || is_negative depth
      then value (if is_negative depth then failure notfound else offset)
      else do
        hit ← both (value (eq_test depth (pos 1))) (fdt_nodename_eq_ offset name)
        if hit
            then value offset
            else do (after, depth') ← fdt_next_node t true offset depth; rest after depth'

  -- The name has `namelen` bytes.
  unfoldable pub fdt_subnode_offset_namelen : ℤ → List ℕ → Read ℤ
  fdt_subnode_offset_namelen offset name = probed t (find_subnode t.fuel name offset (pos 0))

  unfoldable pub fdt_subnode_offset : ℤ → List ℕ → Read ℤ
  fdt_subnode_offset parentoffset name = fdt_subnode_offset_namelen parentoffset name
