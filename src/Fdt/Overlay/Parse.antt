-- ===== src/Fdt/Overlay/Parse.antt =====
-- What libfdt/fdt_overlay.c reads in one blob: an entry of `__fixups__`, the phandle of a target, the
-- length of a path, and the value of a symbol.
use dtboverlay.Base.{
  ℕ, zero, suc, ◌+◌, ◌-◌, ◌^◌, List, [], ◌∷◌, Option, none, some, not, ◌&&◌, ◌||◌, ◌==◌,
  if◌then◌else◌, length, drop, take, leb,
}
use dtboverlay.Base.Int.{ℤ, pos, is_negative, magnitude, eq_test, lt_test, to_int}
use dtboverlay.Fdt.Read.{
  Read, value, spent, ◌>>=◌, Tree, codes, read8, read32, string_at, bytes_at, memchr, same_bytes,
}
use dtboverlay.Fdt.Walk.{probed}
use dtboverlay.Fdt.Ro.Names.{fdt_get_name}
use dtboverlay.Fdt.Ro.Props.{fdt_getprop}
use dtboverlay.Fdt.Ro.Paths.{component, from_slash}
use dtboverlay.Fdt.Ro.Depth.{fdt_parent_offset}
use dtboverlay.Fdt.Write.{minus32, plus32, to_size}

-- An entry of a property of `__fixups__`: a path and a name as pointers into the overlay with their
-- lengths, and a place in the property.
pub record Fixup : Type 0 where
  pub path : ℕ
  pub path_len : ℕ
  pub name : ℕ
  pub name_len : ℕ
  pub poffset : ℤ

-- `strtoul` of the C library in base 10, on the bytes of a string: the value, and the number of bytes
-- before `*endptr`.
module _ (strtoul : List ℕ → ℕ × ℕ) (fdto : Tree) where
  -- The text after the second ':'. It is a number to its end, or the entry is malformed.
  unfoldable pub parse_place : ℕ → Read (Option ℤ)
  parse_place digits = do
    s ← string_at fdto digits
    let (number, used) = strtoul s
    c ← read8 fdto (digits + used)
    value (if not (c == 0) || used == 0 then none else some (to_int number))

  -- The entry of `fixup_len` bytes at `fixup_str`; `none` if it is malformed.
  unfoldable pub parse_fixup : (fixup_str fixup_len : ℕ) → Read (Option Fixup)
  parse_fixup fixup_str fixup_len = do
    colon ← memchr fdto fixup_str b':' fixup_len
    elim colon [
      | none ↦ value none
      | some path_len ↦ if path_len == minus32 fixup_len 1 then value none else do
        let name = fixup_str + path_len + 1
        second ← memchr fdto name b':' (minus32 fixup_len (plus32 path_len 1))
        elim second [
          | none ↦ value none
          | some name_len ↦ if name_len == 0 then value none else do
            place ← parse_place (name + name_len + 1)
            value (elim place [
              | none ↦ none
              | some poffset ↦ some (record {
                path = fixup_str;
                path_len = path_len;
                name = name;
                name_len = name_len;
                poffset = poffset;
              })
            ])
        ]
    ]

-- 0 if there is no phandle, and 2 ^ 32 - 1 if it is malformed.
unfoldable pub overlay_get_target_phandle : Tree → ℤ → Read ℕ
overlay_get_target_phandle fdto fragment = do
  (val, len) ← fdt_getprop fdto fragment (codes "target")
  elim val [
    | none ↦ value 0
    | some p ↦ if not (eq_test len (pos 4)) then value (2 ^ 32 - 1) else read32 fdto p
  ]

module _ (fdt : Tree) where
  -- The loop of `get_path_len`. The names lie in the blob, so that `len` stays below 2 ^ 31.
  unfoldable pub path_len_loop : ℕ → ℤ → ℕ → Read ℤ
  path_len_loop zero nodeoffset len = spent
  path_len_loop (suc n) nodeoffset len =
      let rest = path_len_loop n in
      do
        (name, namelen) ← fdt_get_name fdt nodeoffset
        elim name [
          | none ↦ value namelen
          | some p ↦
              if eq_test namelen (pos 0) then value (pos (if len == 0 then 1 else len)) else do
                parent ← fdt_parent_offset fdt nodeoffset
                if is_negative parent
                    then value parent
                    else rest parent (len + magnitude namelen + 1)
        ]

  unfoldable pub get_path_len : ℤ → Read ℤ
  get_path_len nodeoffset = probed fdt (path_len_loop fdt.fuel nodeoffset 0)

-- The value of a symbol: malformed, a path to a node that is not merged, or the name of a fragment
-- and the path below its `__overlay__`.
pub data Symbol : Type 0 where
  malformed : Symbol
  elsewhere : Symbol
  merged : (frag_name rel_path : List ℕ) → Symbol

-- The bytes of `s` before `e - 1`, from the second '/' of the path on, after the name of a fragment.
unfoldable pub symbol_below : (frag_name s : List ℕ) → Symbol
symbol_below frag_name [] = elsewhere
symbol_below frag_name (c ∷ rest) =
    let s = c ∷ rest in
    if leb 13 (length s) && same_bytes (take 13 s) (codes "/__overlay__/")
    then merged frag_name (drop 13 s)
    else if length s == 12 && same_bytes (take 12 s) (codes "/__overlay__")
    then merged frag_name []
    else elsewhere

-- The `path_len` bytes at `path`, which are a string with one 0 if they are well formed.
unfoldable pub parse_symbol : Tree → ℕ → ℤ → Read Symbol
parse_symbol fdto path path_len = if lt_test path_len (pos 1) then value malformed else do
  end ← memchr fdto path 0 (to_size path_len)
  elim end [
    | none ↦ value malformed
    | some k ↦ if not (k + 1 == magnitude path_len) then value malformed else do
      text ← bytes_at fdto path k
      value (elim text [
        | [] ↦ malformed
        | c ∷ tail ↦
            if not (c == b'/') then malformed else symbol_below (component tail) (from_slash tail)
      ])
  ]
