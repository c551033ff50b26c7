-- ===== src/Fdt/Ro/Paths.antt =====
-- Paths and aliases, of libfdt/fdt_ro.c.
use dtboverlay.Base.{
  ℕ, zero, suc, List, [], ◌∷◌, Option, none, some, false, ◌==◌, if◌then◌else◌, length,
}
use dtboverlay.Base.Int.{ℤ, pos, is_negative}
use dtboverlay.Fdt.Constants.{badpath}
use dtboverlay.Fdt.Read.{Read, value, spent, ◌>>=◌, Tree, fail_with, string_at, codes}
use dtboverlay.Fdt.Walk.{probed}
use dtboverlay.Fdt.Ro.Names.{fdt_subnode_offset_namelen}
use dtboverlay.Fdt.Ro.Props.{fdt_getprop_namelen}

-- The part of a path before its first '/', and the rest from there on.
unfoldable pub component : List ℕ → List ℕ
component [] = []
component (c ∷ path) = if c == b'/' then [] else c ∷ component path

unfoldable pub from_slash : List ℕ → List ℕ
from_slash [] = []
from_slash (c ∷ path) = if c == b'/' then c ∷ path else from_slash path

-- A path without its leading '/'s.
unfoldable pub skip_slashes : List ℕ → List ℕ
skip_slashes [] = []
skip_slashes (c ∷ path) = if c == b'/' then skip_slashes path else c ∷ path

-- `*path`, with the byte that follows the path's last one.
abbrev pub first_byte : List ℕ → ℕ → ℕ
first_byte [] after = after
first_byte (c ∷ path) after = c

module _ (t : Tree) where
  -- The loop over the components. Each round takes at least a byte off the path.
  unfoldable pub follow : ℕ → List ℕ → ℤ → Read ℤ
  follow zero path offset = spent
  follow (suc n) path offset =
      let rest = follow n in
      elim (skip_slashes path) [
        | [] ↦ value offset
        | c ∷ p ↦ do
          next ← fdt_subnode_offset_namelen t offset (component (c ∷ p))
          if is_negative next then value next else rest (from_slash (c ∷ p)) next
      ]

  -- `fdt_get_alias_namelen`, over `fdt_path_offset`.
  unfoldable pub alias_by : (List ℕ → Read ℤ) → List ℕ → Read (Option ℕ)
  alias_by path_offset name = do
    aliasoffset ← path_offset (codes "/aliases")
    if is_negative aliasoffset
        then value none
        else do (val, _) ← fdt_getprop_namelen t false aliasoffset name; value val

  -- The path has `namelen` bytes, and `after` follows them. An alias is a path again.
  unfoldable pub path_offset : ℕ → List ℕ → ℕ → Read ℤ
  path_offset zero path after = spent
  path_offset (suc n) path after =
      let resolve = λ (p : List ℕ). path_offset n p 0 in
      probed t (
        if first_byte path after == b'/' then follow (suc (length path)) path (pos 0) else do
          p ← alias_by resolve (component path)
          elim p [
            | none ↦ fail_with badpath
            | some q ↦ do
              target ← string_at t q
              offset ← resolve target
              follow (suc (length path)) (from_slash path) offset
          ])

  unfoldable pub fdt_path_offset_namelen : List ℕ → ℕ → Read ℤ
  fdt_path_offset_namelen path after = path_offset t.fuel path after

  unfoldable pub fdt_path_offset : List ℕ → Read ℤ
  fdt_path_offset path = fdt_path_offset_namelen path 0

  unfoldable pub fdt_get_alias_namelen : List ℕ → Read (Option ℕ)
  fdt_get_alias_namelen name = alias_by fdt_path_offset name

  unfoldable pub fdt_get_alias : List ℕ → Read (Option ℕ)
  fdt_get_alias name = fdt_get_alias_namelen name
