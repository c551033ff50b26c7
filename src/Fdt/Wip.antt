-- ===== src/Fdt/Wip.antt =====
-- libfdt/fdt_wip.c: writes that leave the structure of a blob as it is.
pub mod Ends
pub mod Frame
pub mod Inplace
use dtboverlay.Base.{
  ℕ, zero, suc, ◌+◌, ◌-◌, ◌*◌, ◌/◌, ◌%◌, ◌^◌, List, Option, none, some, Bool, true, false, not,
  ◌||◌, if◌then◌else◌, length, ltb,
}
use dtboverlay.Base.Int.{ℤ, pos, is_negative, magnitude, eq_test, to_u32, to_int}
use dtboverlay.Fdt.Constants.{failure, nospace}
use dtboverlay.Fdt.Read.{Read, outside, spent, Tree}
use dtboverlay.Fdt.Tags.{tag_nop, property_size}
use dtboverlay.Fdt.Walk.{fdt_offset_ptr}
use Ends.{fdt_node_end_offset_}
use dtboverlay.Fdt.Ro.Props.{fdt_getprop, fdt_getprop_namelen, fdt_get_property}
use dtboverlay.Fdt.Write.{
  Edit, ◌>>=◌, pure, ◌>>◌, reading, refuse, store_bytes, store32, plus32, minus32,
}

-- `val` has `len` bytes.
unfoldable pub fdt_setprop_inplace_namelen_partial : ℤ → List ℕ → ℕ → List ℕ → Edit ℤ
fdt_setprop_inplace_namelen_partial nodeoffset name idx val = do
  (propval, proplen) ← reading (λ t. fdt_getprop_namelen t true nodeoffset name)
  elim propval [
    | none ↦ pure proplen
    | some p ↦
        if ltb (to_u32 proplen) (plus32 (length val) idx)
        then refuse nospace
        else do store_bytes (p + idx) val; pure (pos 0)
  ]

unfoldable pub fdt_setprop_inplace : ℤ → List ℕ → List ℕ → Edit ℤ
fdt_setprop_inplace nodeoffset name val = do
  (propval, proplen) ← reading (λ t. fdt_getprop t nodeoffset name)
  elim propval [
    | none ↦ pure proplen
    | some p ↦
        if eq_test proplen (pos (length val))
        then fdt_setprop_inplace_namelen_partial nodeoffset name 0 val
        else refuse nospace
  ]

-- The loop of `fdt_nop_region_`, for a number of words.
unfoldable pub nop_words : ℕ → ℕ → Edit (Unit {0})
nop_words zero p = pure tt
nop_words (suc n) p = do store32 p tag_nop; nop_words n (p + 4)

unfoldable pub fdt_nop_region_ : ℕ → ℤ → Edit (Unit {0})
fdt_nop_region_ start len = nop_words ((magnitude len + 3) / 4) start

unfoldable pub fdt_nop_property : ℤ → List ℕ → Edit ℤ
fdt_nop_property nodeoffset name = do
  (prop, len) ← reading (λ t. fdt_get_property t nodeoffset name)
  elim prop [
    | none ↦ pure len
    | some p ↦ do fdt_nop_region_ p (to_int (to_u32 len + property_size)); pure (pos 0)
  ]

unfoldable pub fdt_nop_node : ℤ → Edit ℤ
fdt_nop_node nodeoffset = do
  endoffset ← reading (λ t. fdt_node_end_offset_ t nodeoffset)
  if is_negative endoffset then pure endoffset else do
    start ← reading (λ t. fdt_offset_ptr t nodeoffset 0)
    let len = to_int (minus32 (to_u32 endoffset) (to_u32 nodeoffset))
    elim start [
      | none ↦ if ltb 0 (magnitude len) then (λ t. outside) else pure (pos 0)
      | some p ↦ do fdt_nop_region_ p len; pure (pos 0)
    ]
