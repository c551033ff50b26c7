-- ===== src/Fdt/Ro/Depth.antt =====
-- Where a node stands in the tree, of libfdt/fdt_ro.c.
use dtboverlay.Base.{
  ℕ, zero, suc, ◌+◌, ◌-◌, List, [], ◌∷◌, Option, none, some, true, not, ◌||◌, ◌==◌, if◌then◌else◌,
  length, get_elem?, set, ltb, leb,
}
use dtboverlay.Base.Int.{ℤ, pos, is_negative, increment, decrement, eq_test, lt_test, le_test}
use dtboverlay.Fdt.Assume.{valid_input, libfdt_flawless}
use dtboverlay.Fdt.Constants.{failure, notfound, nospace, badoffset, badstructure, internal}
use dtboverlay.Fdt.Read.{Read, value, outside, spent, ◌>>=◌, Tree, assumes, string_at}
use dtboverlay.Fdt.Walk.{fdt_next_node}
use dtboverlay.Fdt.Ro.Names.{fdt_get_name}

-- The error of `fdt_next_node` after a walk that did not meet the node.
abbrev pub walk_error : ℤ → ℤ
walk_error offset =
    if eq_test offset (failure notfound) || not (is_negative offset)
    then failure badoffset
    else if eq_test offset (failure badoffset)
    then failure badstructure
    else offset

-- `buf[p - 1]`
abbrev pub byte_before : List ℕ → ℕ → Read ℕ
byte_before buf zero = outside
byte_before buf (suc p) = elim (get_elem? buf p) [ none ↦ outside | some c ↦ value c ]

-- `do p--; while (buf[p - 1] != '/')`
unfoldable pub strip_name : List ℕ → ℕ → Read ℕ
strip_name buf zero = outside
strip_name buf (suc p) =
    let rest = strip_name buf p in do c ← byte_before buf p; if c == b'/' then value p else rest

-- `memcpy(buf + p, xs, …)`
unfoldable pub write_bytes : List ℕ → ℕ → List ℕ → List ℕ
write_bytes buf p [] = buf
write_bytes buf p (x ∷ xs) = write_bytes (set buf p x) (p + 1) xs

-- The variables of `fdt_get_path`.
pub record PathState : Type 0 where
  pub buf : List ℕ
  pub p : ℕ
  pub pdepth : ℤ

-- `while (pdepth > depth)`
unfoldable pub unwind : ℕ → ℤ → PathState → Read PathState
unwind zero depth s = spent
unwind (suc n) depth s =
    let rest = unwind n depth in
    if lt_test depth s.pdepth
    then (do p ← strip_name s.buf s.p; rest (record s { p = p; pdepth = decrement s.pdepth }))
    else value s

-- The name with a '/', if there is room.
abbrev pub add_name : List ℕ → PathState → PathState
add_name name s =
    if leb (s.p + length name + 1) (length s.buf)
    then record {
      buf = set (write_bytes s.buf s.p name) (s.p + length name) b'/';
      p = s.p + length name + 1;
      pdepth = increment s.pdepth;
    }
    else s

-- The end of the string, over the last '/' but that of the root.
abbrev pub close_path : PathState → ℤ → ℤ × List ℕ
close_path s depth =
    if lt_test s.pdepth (increment depth)
    then (failure nospace, s.buf)
    else (pos 0, set s.buf (if ltb 1 s.p then s.p - 1 else s.p) 0)

module _ (t : Tree) where
  -- The loop of `fdt_get_path`: the result and the buffer.
  unfoldable pub path_loop : ℕ → ℤ → ℤ → ℤ → PathState → Read (ℤ × List ℕ)
  path_loop zero nodeoffset offset depth s = spent
  path_loop (suc n) nodeoffset offset depth s =
      let rest = path_loop n nodeoffset in
      let onward = λ (s : PathState).
        if eq_test offset nodeoffset
        then value (close_path s depth)
        else (do (after, depth') ← fdt_next_node t true offset depth; rest after depth' s) in
      if is_negative offset || lt_test nodeoffset offset
      then value (walk_error offset, s.buf)
      else do
        s1 ← unwind t.fuel depth s
        if le_test depth s1.pdepth
            then (do
              (name, namelen) ← fdt_get_name t offset
              elim name [
                | none ↦ value (namelen, s1.buf)
                | some q ↦ do xs ← string_at t q; onward (add_name xs s1)
              ])
            else onward s1

  -- `buf` has `buflen` bytes.
  unfoldable pub fdt_get_path : ℤ → List ℕ → Read (ℤ × List ℕ)
  fdt_get_path nodeoffset buf =
      if is_negative t.ro_probe
      then value (t.ro_probe, buf)
      else if ltb (length buf) 2
      then value (failure nospace, buf)
      else path_loop t.fuel nodeoffset (pos 0) (pos 0) (record { buf = buf; p = 0; pdepth = pos 0 })

  -- The loop of `fdt_supernode_atdepth_offset`: the result, and `*nodedepth` if it is set.
  unfoldable pub supernode_loop : ℕ → ℤ → ℤ → ℤ → ℤ → ℤ → Read (ℤ × Option ℤ)
  supernode_loop zero nodeoffset wanted offset depth supernode = spent
  supernode_loop (suc n) nodeoffset wanted offset depth supernode =
      let rest = supernode_loop n nodeoffset wanted in
      if is_negative offset || lt_test nodeoffset offset
      then value (if assumes t valid_input then offset else walk_error offset, none)
      else (let found = if eq_test depth wanted then offset else supernode in
          if eq_test offset nodeoffset
          then value (if lt_test depth wanted then failure notfound else found, some depth)
          else do (after, depth') ← fdt_next_node t true offset depth; rest after depth' found)

  unfoldable pub fdt_supernode_atdepth_offset : ℤ → ℤ → Read (ℤ × Option ℤ)
  fdt_supernode_atdepth_offset nodeoffset supernodedepth =
      if is_negative t.ro_probe
      then value (t.ro_probe, none)
      else if is_negative supernodedepth
      then value (failure notfound, none)
      else supernode_loop t.fuel nodeoffset supernodedepth (pos 0) (pos 0) (failure internal)

  -- A depth that was not set is not returned.
  unfoldable pub fdt_node_depth : ℤ → Read ℤ
  fdt_node_depth nodeoffset = do
    (err, nodedepth) ← fdt_supernode_atdepth_offset nodeoffset (pos 0)
    if eq_test err (pos 0)
        then elim nodedepth [ none ↦ outside | some d ↦ value d ]
        else value (if assumes t libfdt_flawless || is_negative err then err else failure internal)

  unfoldable pub fdt_parent_offset : ℤ → Read ℤ
  fdt_parent_offset nodeoffset = do
    nodedepth ← fdt_node_depth nodeoffset
    if is_negative nodedepth then value nodedepth else do
      (offset, _) ← fdt_supernode_atdepth_offset nodeoffset (decrement nodedepth)
      value offset
