-- ===== src/Fdt/Ro/Aliases.antt =====
-- Paths that start with an alias.
use dtboverlay.Base.{ℕ, zero, suc, ◌≡◌, refl, List, some, false, ◌==◌}
use dtboverlay.Base.Int.{ℤ, pos, is_negative}
use dtboverlay.Fdt.Read.{value, spent, Tree, codes, string_at}
use dtboverlay.Fdt.Ro.Paths.{component, first_byte, follow, alias_by, path_offset}
use dtboverlay.Fdt.Ro.Props.{fdt_getprop_namelen}

-- An alias whose value is its own name: the property `name`, at `q`, of the node `/aliases`, which is
-- at `aliases`.
pub record IsOwnAlias (t : Tree) (name : List ℕ) (aliases q : ℕ) (len : ℤ) : Type 0 where
  pub probed_well : is_negative t.ro_probe ≡ false
  pub relative : (first_byte name 0 == b'/') ≡ false
  pub whole : component name ≡ name
  pub at : follow t 9 (codes "/aliases") (pos 0) ≡ value (pos aliases)
  pub found : fdt_getprop_namelen t false (pos aliases) name ≡ value (some q, len)
  pub same : string_at t q ≡ value name

-- If `fdt_ro_probe_` returns no error and the node `/aliases` has an alias whose value is its own
-- name, `fdt_path_offset` of that name does not end: it spends any depth of recursion.
pub path_offset-spent :
    {t : Tree} {name : List ℕ} {aliases q : ℕ} {len : ℤ}
    → IsOwnAlias t name aliases q len
    → (n : ℕ) → path_offset t n name 0 ≡ spent
unfolding path_offset alias_by
path_offset-spent h zero = refl
path_offset-spent h (suc zero) = rw (h.probed_well, h.relative) refl
path_offset-spent h (suc (suc n)) =
    rw (h.probed_well, h.relative, h.at, h.whole, h.found, h.same, path_offset-spent h (suc n)) refl
