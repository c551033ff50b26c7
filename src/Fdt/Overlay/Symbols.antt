-- ===== src/Fdt/Overlay/Symbols.antt =====
-- The symbols of an overlay that are added to the base, of libfdt/fdt_overlay.c.
use dtboverlay.Base.{ℕ, ◌+◌, List, [], ◌∷◌, Option, none, some, true, not, if◌then◌else◌, length}
use dtboverlay.Base.Int.{ℤ, pos, is_negative, magnitude, decrement, eq_test, lt_test}
use dtboverlay.Fdt.Constants.{failure, notfound, badvalue, badoverlay}
use dtboverlay.Fdt.Read.{add_int, string_at, bytes_at, codes}
use dtboverlay.Fdt.Ro.Names.{fdt_subnode_offset, fdt_subnode_offset_namelen}
use dtboverlay.Fdt.Ro.Props.{fdt_getprop_by_offset}
use dtboverlay.Fdt.Ro.Depth.{fdt_get_path}
use dtboverlay.Fdt.Write.{store_bytes, Step, ◌>>=◌, ◌>>◌, pure}
use dtboverlay.Fdt.Rw.Change.{fdt_setprop_placeholder, fdt_add_subnode}
use dtboverlay.Fdt.Overlay.Both.{
  Blobs, non_null, leave, refuse, and_then, on_fdt, look_fdt, look_fdto,
  fdt_for_each_property_offset,
}
use dtboverlay.Fdt.Overlay.Parse.{Symbol, malformed, elsewhere, merged, parse_symbol, get_path_len}
use dtboverlay.Fdt.Overlay.Merge.{overlay_of, overlay_get_target}

-- The path of the target is written at `buf`, unless the target is the root: the result, and `len`,
-- which is one less for the root. `fdt_get_path` reads no value of a property, so that it may read
-- the blob before it writes to `buf`, which is one.
unfoldable pub write_target : (target : ℤ) → Option ℕ → (buf : ℕ) → (len : ℤ) → Step Blobs (ℤ × ℤ)
write_target target target_path buf len =
    if not (lt_test (pos 1) len) then pure (pos 0, decrement len) else elim target_path [
      | none ↦ do
        room ← look_fdt (λ t. bytes_at t buf (magnitude len + 1))
        (ret, path) ← look_fdt (λ t. fdt_get_path t target room)
        on_fdt (store_bytes buf path)
        pure (ret, len)
      | some q ↦ do
        path ← look_fdto (λ t. bytes_at t q (magnitude len + 1))
        on_fdt (store_bytes buf path)
        pure (pos 0, len)
    ]

-- The length of the path of a target: of its `target-path`, or of the node that its phandle names.
unfoldable pub target_len : ℤ → Option ℕ → Step Blobs ℤ
target_len target none = look_fdt (λ t. get_path_len t target)
target_len target (some q) = do s ← look_fdto (λ t. string_at t q); pure (pos (length s))

-- A target without a path, again, because the new property may have moved it.
unfoldable pub target_again : (fragment target : ℤ) → Option ℕ → Step Blobs (ℤ × Option ℕ)
target_again fragment target none = overlay_get_target fragment
target_again fragment target (some q) = pure (target, some q)

-- What the loop does for a symbol in a fragment.
unfoldable pub add_symbol :
    (root_sym : ℤ) → Option ℕ → (frag_name rel_path : List ℕ) → Step Blobs (Option ℤ)
add_symbol root_sym namep frag_name rel_path = do
  fragment ← look_fdto (λ t. fdt_subnode_offset_namelen t (pos 0) frag_name)
  if is_negative fragment then refuse badoverlay else do
    overlay ← look_fdto (λ t. fdt_subnode_offset t fragment (codes "__overlay__"))
    if is_negative overlay then refuse badoverlay else do
      (target, target_path) ← overlay_get_target fragment
      if is_negative target then leave target else do
        len ← target_len target target_path
        if is_negative len then leave len else do
          let slash = if lt_test (pos 1) len then 1 else 0
          (ret, p) ← non_null namep (λ n. do
            name ← look_fdto (λ t. string_at t n)
            on_fdt (
                fdt_setprop_placeholder root_sym name
                  (pos (magnitude len + slash + length rel_path + 1))))
          if is_negative ret then leave ret else do
            (target', target_path') ← target_again fragment target target_path
            if is_negative target' then leave target' else do
              (ret', len') ← write_target target' target_path' p len
              if is_negative ret' then leave ret' else do
                on_fdt (store_bytes (add_int p len') (b'/' ∷ []))
                on_fdt (store_bytes (add_int p len' + 1) rel_path)
                on_fdt (store_bytes (add_int p len' + 1 + length rel_path) (0 ∷ []))
                pure none

-- What the loop does with a value of a symbol.
unfoldable pub add_parsed : (root_sym : ℤ) → Option ℕ → Symbol → Step Blobs (Option ℤ)
add_parsed root_sym namep malformed = refuse badvalue
add_parsed root_sym namep elsewhere = pure none
add_parsed root_sym namep (merged frag_name rel_path) = add_symbol root_sym namep frag_name rel_path

-- A round of the loop over the symbols.
unfoldable pub update_symbol : (root_sym prop : ℤ) → Step Blobs (Option ℤ)
update_symbol root_sym prop = do
  (path, path_len, namep) ← look_fdto (λ t. fdt_getprop_by_offset t true true prop)
  elim path [
    | none ↦ leave path_len
    | some p ↦ do
      symbol ← look_fdto (λ t. parse_symbol t p path_len)
      add_parsed root_sym namep symbol
  ]

unfoldable pub overlay_symbol_update : Step Blobs ℤ
overlay_symbol_update = do
  ov_sym ← look_fdto (λ t. fdt_subnode_offset t (pos 0) (codes "__symbols__"))
  if is_negative ov_sym then pure (pos 0) else do
    there ← look_fdt (λ t. fdt_subnode_offset t (pos 0) (codes "__symbols__"))
    root_sym ←
        if eq_test there (failure notfound)
        then on_fdt (fdt_add_subnode (pos 0) (codes "__symbols__"))
        else pure there
    if is_negative root_sym
        then pure root_sym
        else and_then (fdt_for_each_property_offset overlay_of (update_symbol root_sym) ov_sym)
            (pure (pos 0))
