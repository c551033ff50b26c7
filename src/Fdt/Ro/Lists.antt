-- ===== src/Fdt/Ro/Lists.antt =====
-- Lists of strings, and what is looked up by them, of libfdt/fdt_ro.c.
use dtboverlay.Base.{
  ℕ, zero, suc, ◌+◌, ◌-◌, List, [], ◌∷◌, ◌++◌, Option, none, some, Bool, true, false, not, ◌&&◌,
  ◌==◌, if◌then◌else◌, length, drop, take, ltb, leb,
}
use dtboverlay.Base.Int.{ℤ, pos, is_negative, magnitude, decrement, eq_test}
use dtboverlay.Fdt.Constants.{failure, notfound, badvalue}
use dtboverlay.Fdt.Read.{
  Read, value, outside, spent, ◌>>=◌, Tree, Found, missing, fail_with, find_byte, same_bytes,
  memcmp_equal, codes,
}
use dtboverlay.Fdt.Walk.{probed, node_after}
use dtboverlay.Fdt.Ro.Props.{fdt_getprop}

-- `memcmp(str, strlist, len + 1) == 0` at the start of the bytes from `strlist` on.
unfoldable pub starts_with : List ℕ → List ℕ → Read Bool
starts_with xs s =
    if leb (length s) (length xs) then value (same_bytes (take (length s) xs) s) else outside

-- The loop of `fdt_stringlist_contains`, on the bytes that may be read from `strlist` on. Each round
-- takes at least a byte off the list.
unfoldable pub contains_loop : ℕ → List ℕ → ℕ → List ℕ → Read Bool
contains_loop zero xs listlen str = spent
contains_loop (suc n) xs listlen str =
    let rest = contains_loop n in
    if ltb listlen (length str) then value false else do
      hit ← starts_with xs (str ++ 0 ∷ [])
      if hit then value true else do
        p ← find_byte 0 xs listlen
        elim p [ none ↦ value false | some k ↦ rest (drop (suc k) xs) (listlen - suc k) str ]

unfoldable pub fdt_stringlist_contains : List ℕ → ℕ → List ℕ → Read Bool
fdt_stringlist_contains xs listlen str = contains_loop (suc listlen) xs listlen str

-- `strnlen(list, end - list) + 1` with `left` bytes up to `end`; `none` if that is past `end`.
unfoldable pub next_string : List ℕ → ℕ → Read (Option ℕ)
next_string xs left = do
  k ← find_byte 0 xs left
  value (elim k [ none ↦ none | some i ↦ some (suc i) ])

-- The loop of `fdt_stringlist_count`.
unfoldable pub count_loop : ℕ → List ℕ → ℕ → ℕ → Read ℤ
count_loop zero xs left count = spent
count_loop (suc n) xs left count =
    let rest = count_loop n in
    if left == 0 then value (pos count) else do
      k ← next_string xs left
      elim k [ none ↦ fail_with badvalue | some len ↦ rest (drop len xs) (left - len) (count + 1) ]

-- The loop of `fdt_stringlist_search`.
unfoldable pub search_loop : ℕ → List ℕ → ℕ → List ℕ → ℕ → Read ℤ
search_loop zero xs left string idx = spent
search_loop (suc n) xs left string idx =
    let rest = search_loop n in
    if left == 0 then fail_with notfound else do
      k ← next_string xs left
      elim k [
        | none ↦ fail_with badvalue
        | some len ↦
            if len == length string + 1 && same_bytes (take len xs) (string ++ 0 ∷ [])
            then value (pos idx)
            else rest (drop len xs) (left - len) string (idx + 1)
      ]

-- The loop of `fdt_stringlist_get`, at the pointer `list`.
unfoldable pub get_loop : ℕ → ℕ → List ℕ → ℕ → ℤ → Read Found
get_loop zero list xs left idx = spent
get_loop (suc n) list xs left idx =
    let rest = get_loop n in
    if left == 0 then value (missing (failure notfound)) else do
      k ← next_string xs left
      elim k [
        | none ↦ value (missing (failure badvalue))
        | some len ↦
            if eq_test idx (pos 0)
            then value (some list, pos (len - 1))
            else rest (list + len) (drop len xs) (left - len) (decrement idx)
      ]

module _ (t : Tree) where
  abbrev pub bytes_from : ℕ → List ℕ
  bytes_from p = drop p t.blob.bytes

  unfoldable pub fdt_stringlist_count : ℤ → List ℕ → Read ℤ
  fdt_stringlist_count nodeoffset property = do
    (list, length) ← fdt_getprop t nodeoffset property
    elim list [
      | none ↦ value length
      | some p ↦ count_loop (suc (magnitude length)) (bytes_from p) (magnitude length) 0
    ]

  unfoldable pub fdt_stringlist_search : ℤ → List ℕ → List ℕ → Read ℤ
  fdt_stringlist_search nodeoffset property string = do
    (list, length) ← fdt_getprop t nodeoffset property
    elim list [
      | none ↦ value length
      | some p ↦ search_loop (suc (magnitude length)) (bytes_from p) (magnitude length) string 0
    ]

  unfoldable pub fdt_stringlist_get : ℤ → List ℕ → ℤ → Read Found
  fdt_stringlist_get nodeoffset property idx = do
    (list, length) ← fdt_getprop t nodeoffset property
    elim list [
      | none ↦ value (missing length)
      | some p ↦ get_loop (suc (magnitude length)) p (bytes_from p) (magnitude length) idx
    ]

  -- 0 if the node is compatible, 1 if not, or an error.
  unfoldable pub fdt_node_check_compatible : ℤ → List ℕ → Read ℤ
  fdt_node_check_compatible nodeoffset compatible = do
    (prop, len) ← fdt_getprop t nodeoffset (codes "compatible")
    elim prop [
      | none ↦ value len
      | some p ↦ do
        hit ←
            if is_negative len
            then value false
            else fdt_stringlist_contains (bytes_from p) (magnitude len) compatible
        value (if hit then pos 0 else pos 1)
    ]

  -- The loop of `fdt_node_offset_by_compatible`.
  unfoldable pub find_compatible : ℕ → List ℕ → ℤ → Read ℤ
  find_compatible zero compatible offset = spent
  find_compatible (suc n) compatible offset =
      let rest = find_compatible n compatible in
      if is_negative offset then value offset else do
        err ← fdt_node_check_compatible offset compatible
        if is_negative err && not (eq_test err (failure notfound))
            then value err
            else if eq_test err (pos 0)
            then value offset
            else do after ← node_after t offset; rest after

  unfoldable pub fdt_node_offset_by_compatible : ℤ → List ℕ → Read ℤ
  fdt_node_offset_by_compatible startoffset compatible =
      probed t (do first ← node_after t startoffset; find_compatible t.fuel compatible first)

  -- The loop of `fdt_node_offset_by_prop_value`; `propval` has `proplen` bytes.
  unfoldable pub find_prop_value : ℕ → List ℕ → List ℕ → ℤ → Read ℤ
  find_prop_value zero propname propval offset = spent
  find_prop_value (suc n) propname propval offset =
      let rest = find_prop_value n propname propval in
      if is_negative offset then value offset else do
        (val, len) ← fdt_getprop t offset propname
        hit ← elim val as (λ _. Read Bool) [
          | none ↦ value false
          | some p ↦
              if eq_test len (pos (length propval)) then memcmp_equal t p propval else value false
        ]
        if hit then value offset else do after ← node_after t offset; rest after

  unfoldable pub fdt_node_offset_by_prop_value : ℤ → List ℕ → List ℕ → Read ℤ
  fdt_node_offset_by_prop_value startoffset propname propval =
      probed t (do first ← node_after t startoffset; find_prop_value t.fuel propname propval first)
