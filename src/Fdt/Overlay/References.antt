-- ===== src/Fdt/Overlay/References.antt =====
-- What the loop of `overlay_update_local_node_references` of libfdt/fdt_overlay.c does with a place.
use dtboverlay.Base.{ℕ, ◌+◌, ◌%◌, ◌^◌, ◌<◌, ◌≤◌, ◌≡◌, refl, List, none, some, arith, length}
use native.Mathlib.Decide.{dec_lt}
use dtboverlay.Base.Int.{ℤ}
use dtboverlay.Memory.{IsBytes}
use dtboverlay.Fdt.Constants.{failure, badoverlay}
use dtboverlay.Fdt.Word.{word, fdt32_ld-next, fdt32_ld-fault}
use dtboverlay.Fdt.Read.{value, outside, Tree, read32, string_at}
use dtboverlay.Fdt.Inline.{fdt32_st}
use dtboverlay.Fdt.Wip.Inplace.{
  IsReplaced, HasValue, replaced, refused, ran_off, fdt_setprop_inplace_namelen_partial_lem,
}
use dtboverlay.Fdt.Overlay.Local.{adjust_reference}
use dtboverlay.Fdt.Overlay.Offsets.{word-IsReplaced}

module _ (t : Tree) (node : ℤ) (val n name : ℕ) where
  -- The reference at the place is moved by `delta` modulo 2 ^ 32, the place is refused, or it is read
  -- outside the blob.
  pub data ReferenceResult (poffset delta : ℕ) : Type 0 where
    moved :
        (t' : Tree)
        → poffset + 4 ≤ n
        → adjust_reference node name val poffset delta t ≡ value (none, t')
        → word t'.blob.bytes (val + poffset) ≡ (word t.blob.bytes (val + poffset) + delta) % 2 ^ 32
        → IsReplaced t
            (val + poffset)
            (fdt32_st ((word t.blob.bytes (val + poffset) + delta) % 2 ^ 32))
            t'
        → ReferenceResult poffset delta
    past_value :
        n < poffset + 4
        → val + poffset + 4 ≤ length t.blob.bytes
        → adjust_reference node name val poffset delta t ≡ value (some (failure badoverlay), t)
        → ReferenceResult poffset delta
    past_blob :
        length t.blob.bytes < val + poffset + 4
        → adjust_reference node name val poffset delta t ≡ outside
        → ReferenceResult poffset delta

module _ {t : Tree} (bytes : IsBytes t.blob.bytes) {node : ℤ} {s : List ℕ} {val n name : ℕ}
    (h : HasValue t node s val n) (named : string_at t name ≡ value s) where
  -- In a blob of bytes shorter than 2 ^ 32 where a property of a node has a value in the blob and
  -- its name can be read, and for a place below 2 ^ 32, a round of the loop of
  -- `overlay_update_local_node_references` adds the delta modulo 2 ^ 32 to the four bytes at that
  -- place, and changes no other, if they lie in the value, gives BADOVERLAY and writes nothing if
  -- they lie behind the value but in the blob, and reads outside the blob if they do not.
  pub adjust_reference_lem :
      (poffset delta : ℕ)
      → poffset < 2 ^ 32
      → length t.blob.bytes < 2 ^ 32
      → ReferenceResult t node val n name poffset delta
  unfolding adjust_reference
  adjust_reference_lem poffset delta small short =
      let at = val + poffset in
      elim (dec_lt (length t.blob.bytes) (at + 4)) [
        | yes off ↦ past_blob off (rw (fdt32_ld-fault {R = ℕ} t.blob at tt off) refl)
        | no inside ↦
            let cell : read32 t at ≡ value (word t.blob.bytes at) =
              rw (fdt32_ld-next {R = ℕ} t.blob at tt bytes (omega arith)) refl in
            let new = (word t.blob.bytes at + delta) % 2 ^ 32 in
            elim (fdt_setprop_inplace_namelen_partial_lem h poffset (fdt32_st new) small
              (omega arith) short) [
                | replaced t' low e r ↦
                    moved t' low (rw (cell, named, e) refl) (word-IsReplaced (omega arith) r) r
                | refused over e ↦ past_value (omega arith) (omega arith) (rw (cell, named, e) refl)
                | ran_off wrapped low e ↦ absurd (omega arith)
              ]
      ]
