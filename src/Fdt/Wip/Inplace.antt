-- ===== src/Fdt/Wip/Inplace.antt =====
-- What `fdt_setprop_inplace` of libfdt/fdt_wip.c writes.
use dtboverlay.Base.{
  ℕ, ◌+◌, ◌%◌, ◌^◌, ◌<◌, ◌≤◌, ◌≡◌, ◌≢◌, ◌⊎◌, inl, inr, refl, List, some, true, false, Bool-cases,
  arith, length, leb, ltb, ◌==◌,
}
use dtboverlay.Base.Int.{ℤ, pos}
use dtboverlay.Memory.{byte}
use dtboverlay.Fdt.Constants.{failure, nospace}
use dtboverlay.Fdt.Read.{value, outside, Tree}
use dtboverlay.Fdt.Write.{overwrite, with_bytes, store_bytes}
use dtboverlay.Fdt.Write.Bytes.{length-overwrite, byte-overwrite, byte-written}
use dtboverlay.Fdt.Write.Keeps.{shape}
use dtboverlay.Fdt.Ro.Props.{fdt_getprop}
use dtboverlay.Fdt.Wip.{fdt_setprop_inplace_namelen_partial, fdt_setprop_inplace}

-- The blob `t'` is `t` with the bytes `ys` at `p`.
pub record IsReplaced (t : Tree) (p : ℕ) (ys : List ℕ) (t' : Tree) : Type 0 where
  pub written : (i : ℕ) → i < length ys → byte t'.blob.bytes (p + i) ≡ byte ys i
  pub kept : (i : ℕ) → (i < p) ⊎ (p + length ys ≤ i) → byte t'.blob.bytes i ≡ byte t.blob.bytes i
  pub same_shape : shape t' ≡ shape t

pub overwrite-IsReplaced :
    (t : Tree) (p : ℕ) (ys : List ℕ)
    → p + length ys ≤ length t.blob.bytes
    → IsReplaced t p ys (with_bytes t (overwrite p ys t.blob.bytes))
overwrite-IsReplaced t p ys fits = record {
  written = λ i low. byte-written p ys t.blob.bytes i fits low;
  kept = λ i side. byte-overwrite p ys t.blob.bytes i side;
  same_shape = rw (length-overwrite p ys t.blob.bytes) refl;
}

-- The property `name` of a node has a value of `n` bytes at `p`, which lie in the blob.
pub record HasValue (t : Tree) (nodeoffset : ℤ) (name : List ℕ) (p n : ℕ) : Type 0 where
  pub found : fdt_getprop t nodeoffset name ≡ value (some p, pos n)
  pub fits : p + n ≤ length t.blob.bytes
  pub small : n < 2 ^ 31

module _ {t : Tree} {nodeoffset : ℤ} {name : List ℕ} {p n : ℕ}
    (h : HasValue t nodeoffset name p n) where
  pub fdt_setprop_inplace_lem :
      (ys : List ℕ)
      → ((length ys ≡ n)
          × (t' : Tree) × (fdt_setprop_inplace nodeoffset name ys t ≡ value (pos 0, t'))
          × IsReplaced t p ys t')
        ⊎ (length ys ≢ n) × (fdt_setprop_inplace nodeoffset name ys t ≡ value (failure nospace, t))
  unfolding fdt_setprop_inplace fdt_setprop_inplace_namelen_partial fdt_getprop store_bytes
  fdt_setprop_inplace_lem ys =
      let len : n % 2 ^ 32 ≡ n = omega (arith, h.small) in
      elim (Bool-cases (n == length ys)) [
        | inr other ↦ inr (ground arith, rw (h.found, other) refl)
        | inl same ↦
            let e : length ys ≡ n = ground arith in
            let low : ltb (n % 2 ^ 32) ((length ys + 0) % 2 ^ 32) ≡ false =
              ground (arith, h.small) in
            let inside : leb (p + 0 + length ys) (length t.blob.bytes) ≡ true =
              ground (arith, h.fits) in
            inl (
              e,
              with_bytes t (overwrite (p + 0) ys t.blob.bytes),
              rw (h.found, same, h.found, low, inside) refl,
              (let q : p + 0 ≡ p = omega arith in
                  rw q (overwrite-IsReplaced t p ys (omega (arith, e, h.fits)))),
            )
      ]

  -- The bytes `ys` are put in the value, the space is too small for them, or the sum of the place and
  -- their number wraps and they are put outside the blob.
  pub data PartialResult (idx : ℕ) (ys : List ℕ) : Type 0 where
    replaced :
        (t' : Tree)
        → idx + length ys ≤ n
        → fdt_setprop_inplace_namelen_partial nodeoffset name idx ys t ≡ value (pos 0, t')
        → IsReplaced t (p + idx) ys t'
        → PartialResult idx ys
    refused :
        n < (idx + length ys) % 2 ^ 32
        → fdt_setprop_inplace_namelen_partial nodeoffset name idx ys t ≡ value (failure nospace, t)
        → PartialResult idx ys
    ran_off :
        2 ^ 32 ≤ idx + length ys
        → (idx + length ys) % 2 ^ 32 ≤ n
        → fdt_setprop_inplace_namelen_partial nodeoffset name idx ys t ≡ outside
        → PartialResult idx ys

  -- In a blob shorter than 2 ^ 32 where a property of a node has a value in the blob, and for a
  -- place below 2 ^ 32 and fewer than 2 ^ 31 new bytes, `fdt_setprop_inplace_namelen_partial`
  -- either puts them in the value, changes no other byte and returns 0, or returns NOSPACE and
  -- writes nothing since the sum of the place and their number modulo 2 ^ 32 is more than the
  -- length of the value, or that sum is 2 ^ 32 or more before it is reduced, passes the test by
  -- that, and the write is outside the blob.
  pub fdt_setprop_inplace_namelen_partial_lem :
      (idx : ℕ) (ys : List ℕ)
      → idx < 2 ^ 32
      → length ys < 2 ^ 31
      → length t.blob.bytes < 2 ^ 32
      → PartialResult idx ys
  unfolding fdt_setprop_inplace_namelen_partial fdt_getprop store_bytes
  fdt_setprop_inplace_namelen_partial_lem idx ys hi hy hb =
      let sum = (length ys + idx) % 2 ^ 32 in
      let len : n % 2 ^ 32 ≡ n = omega (arith, h.small) in
      elim (Bool-cases (ltb (n % 2 ^ 32) sum)) [
        | inl over ↦ refused (ground arith) (rw (h.found, over) refl)
        | inr room ↦ elim (Bool-cases (leb (p + idx + length ys) (length t.blob.bytes))) [
          | inl inside ↦
              replaced (with_bytes t (overwrite (p + idx) ys t.blob.bytes)) (ground arith)
                (rw (h.found, room, inside) refl)
                (overwrite-IsReplaced t (p + idx) ys (ground arith))
          | inr off ↦ ran_off (ground (arith, h.fits)) (ground arith) (rw (h.found, room, off) refl)
        ]
      ]
