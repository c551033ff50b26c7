-- ===== src/Fdt/Overlay/Offsets.antt =====
-- What the functions of libfdt/fdt_overlay.c that move the phandles of an overlay write.
use dtboverlay.Base.{
  ℕ, ◌+◌, ◌-◌, ◌%◌, ◌^◌, ◌<◌, ◌≤◌, ◌≡◌, ◌⊎◌, inl, inr, refl, ◌∙◌, ap, List, Bool-cases, arith, ltb,
  ◌==◌,
}
use dtboverlay.Base.Int.{ℤ, pos}
use dtboverlay.Memory.{IsBytes, byte}
use dtboverlay.Fdt.Constants.{failure, nophandles}
use dtboverlay.Fdt.Word.{word, word-lt, fdt32_ld-next}
use dtboverlay.Fdt.Read.{value, Tree, read32}
use dtboverlay.Fdt.Inline.{fdt32_st}
use dtboverlay.Fdt.Wip.Inplace.{IsReplaced, HasValue, fdt_setprop_inplace_lem}
use dtboverlay.Fdt.Overlay.Local.{overlay_phandle_add_offset}

-- A number that replaced four bytes.
pub word-IsReplaced :
    {t t' : Tree} {p v : ℕ} → v < 2 ^ 32 → IsReplaced t p (fdt32_st v) t' → word t'.blob.bytes p ≡ v
unfolding word
word-IsReplaced {t} {t'} {p} {v} small r =
    rw
      (
        ap (byte t'.blob.bytes) (let e : p ≡ p + 0 = omega arith in e) ∙ r.written 0 (omega arith),
        r.written 1 (omega arith),
        r.written 2 (omega arith),
        r.written 3 (omega arith),
      )
      (omega arith)

module _ {t : Tree} (bytes : IsBytes t.blob.bytes) {node : ℤ} {name : List ℕ} {p : ℕ}
    (h : HasValue t node name p 4) where
  -- In a blob of bytes where a property of a node has a value of four bytes in the blob, and for a
  -- delta below 2 ^ 32, `overlay_phandle_add_offset` adds the delta to the value, changes no other
  -- byte and returns 0 if the sum is below 2 ^ 32 - 1, and otherwise returns NOPHANDLES and leaves
  -- the blob as it is.
  pub overlay_phandle_add_offset_lem :
      (delta : ℕ)
      → delta < 2 ^ 32
      → ((word t.blob.bytes p + delta < 2 ^ 32 - 1)
          × (t' : Tree) × (overlay_phandle_add_offset node name delta t ≡ value (pos 0, t'))
          × (word t'.blob.bytes p ≡ word t.blob.bytes p + delta)
          × IsReplaced t p (fdt32_st (word t.blob.bytes p + delta)) t')
        ⊎ (2 ^ 32 - 1 ≤ word t.blob.bytes p + delta)
          × (overlay_phandle_add_offset node name delta t ≡ value (failure nophandles, t))
  unfolding overlay_phandle_add_offset
  overlay_phandle_add_offset_lem delta small =
      let v = word t.blob.bytes p in
      let low : v < 2 ^ 32 = word-lt t.blob.bytes p bytes in
      let sum = (v + delta) % 2 ^ 32 in
      let cell : read32 t p ≡ value v = rw (fdt32_ld-next {R = ℕ} t.blob p tt bytes h.fits) refl in
      elim (Bool-cases (ltb sum v)) [
        | inl wrapped ↦ inr (ground arith, rw (h.found, cell, wrapped) refl)
        | inr more ↦ elim (Bool-cases (sum == 2 ^ 32 - 1)) [
          | inl last ↦ inr (ground arith, rw (h.found, cell, more, last) refl)
          | inr free ↦
              let plain : sum ≡ v + delta = ground arith in
              elim (fdt_setprop_inplace_lem h (fdt32_st (v + delta))) [
                | inr (other, _) ↦ absurd (other refl)
                | inl (_, t', e, r) ↦ inl (
                  ground arith,
                  t',
                  rw (h.found, cell, more, free, plain, e) refl,
                  word-IsReplaced (ground arith) r,
                  r,
                )
              ]
        ]
      ]
