-- ===== src/Fdt/Word.antt =====
-- The number that `fdt32_ld` of libfdt/fdt.c reads.
use dtboverlay.Base.{
  ℕ, ◌+◌, ◌*◌, ◌^◌, ◌<◌, ◌≤◌, ◌≡◌, refl, bit_or, List, arith, length, inl, inr, ◌⊎◌,
}
use dtboverlay.Base.Bits.{bit_or-shift}
use dtboverlay.Base.Control.{next, fault}
use dtboverlay.Memory.{Buffer, IsBytes, byte, load8-next, load8-fault, load8-cases, byte_bounds}
use dtboverlay.Fdt.Header.{shl32, fdt32_ld}

-- The number that four bytes stand for, the highest first.
abbrev pub big_endian : ℕ → ℕ → ℕ → ℕ → ℕ
big_endian b0 b1 b2 b3 = ((b0 * 256 + b1) * 256 + b2) * 256 + b3

-- The shifts and bitwise ors of `fdt32_ld` put bytes together without a carry.
pub or_bytes :
    (b0 b1 b2 b3 : ℕ)
    → b0 < 256
    → b1 < 256
    → b2 < 256
    → b3 < 256
    → bit_or (bit_or (bit_or (shl32 b0 24) (shl32 b1 16)) (shl32 b2 8)) b3 ≡ big_endian b0 b1 b2 b3
or_bytes b0 b1 b2 b3 h0 h1 h2 h3 =
    let s0 : shl32 b0 24 ≡ b0 * 2 ^ 24 = omega arith in
    let s1 : shl32 b1 16 ≡ b1 * 2 ^ 16 = omega arith in
    let s2 : shl32 b2 8 ≡ b2 * 2 ^ 8 = omega arith in
    let t1 : b0 * 2 ^ 24 + b1 * 2 ^ 16 ≡ (b0 * 256 + b1) * 2 ^ 16 = omega arith in
    let t2 : (b0 * 256 + b1) * 2 ^ 16 + b2 * 2 ^ 8 ≡ ((b0 * 256 + b1) * 256 + b2) * 2 ^ 8 =
      omega arith in
    rw
      (
        s0,
        s1,
        s2,
        bit_or-shift 24 b0 (b1 * 2 ^ 16) (omega arith),
        t1,
        bit_or-shift 16 (b0 * 256 + b1) (b2 * 2 ^ 8) (omega arith),
        t2,
        bit_or-shift 8 ((b0 * 256 + b1) * 256 + b2) b3 (omega arith),
      )
      (omega arith)

-- The number at an offset of a buffer.
unfoldable pub word : List ℕ → ℕ → ℕ
word xs p = big_endian (byte xs p) (byte xs (p + 1)) (byte xs (p + 2)) (byte xs (p + 3))

pub word-lt : (xs : List ℕ) (p : ℕ) → IsBytes xs → word xs p < 2 ^ 32
unfolding word
word-lt xs p h = omega (
  arith,
  byte_bounds xs p h,
  byte_bounds xs (p + 1) h,
  byte_bounds xs (p + 2) h,
  byte_bounds xs (p + 3) h,
)

module _ {S R : Type 0} (b : Buffer) (p : ℕ) (s : S) where
  -- In a buffer of bytes, `fdt32_ld` at an offset with four bytes gives the big-endian number of
  -- these bytes, and changes nothing.
  pub fdt32_ld-next :
      IsBytes b.bytes
      → p + 4 ≤ length b.bytes
      → fdt32_ld {S = S} {R = R} b p s ≡ next (word b.bytes p) s
  unfolding fdt32_ld word
  fdt32_ld-next h fits = rw (
    load8-next b p s (omega arith),
    load8-next b (p + 1) s (omega arith),
    load8-next b (p + 2) s (omega arith),
    load8-next b (p + 3) s (omega arith),
    or_bytes (byte b.bytes p) (byte b.bytes (p + 1)) (byte b.bytes (p + 2)) (byte b.bytes (p + 3))
        (byte_bounds b.bytes p h) (byte_bounds b.bytes (p + 1) h) (byte_bounds b.bytes (p + 2) h)
        (byte_bounds b.bytes (p + 3) h),
  )

  -- A read that leaves the object faults.
  pub fdt32_ld-fault : length b.bytes < p + 4 → fdt32_ld {S = S} {R = R} b p s ≡ fault
  unfolding fdt32_ld
  fdt32_ld-fault short = elim (load8-cases {R = R} b p s) [
    | inr (h, bad) ↦ rw bad
    | inl (h, good) ↦ rw good (elim (load8-cases {R = R} b (p + 1) s) [
      | inr (h, bad) ↦ rw bad
      | inl (h, good) ↦ rw good (elim (load8-cases {R = R} b (p + 2) s) [
        | inr (h, bad) ↦ rw bad
        | inl (h, good) ↦ rw (good, load8-fault b (p + 3) s (omega arith))
      ])
    ])
  ]

  -- A read faults or gives a number, and changes nothing.
  pub fdt32_ld-cases :
      ((v : ℕ) × (fdt32_ld {S = S} {R = R} b p s ≡ next v s))
      ⊎ (fdt32_ld {S = S} {R = R} b p s ≡ fault)
  unfolding fdt32_ld
  fdt32_ld-cases = elim (load8-cases {R = R} b p s) [
    | inr (_, bad) ↦ rw bad (inr refl)
    | inl (_, e) ↦ rw e (elim (load8-cases {R = R} b (p + 1) s) [
      | inr (_, bad) ↦ rw bad (inr refl)
      | inl (_, e) ↦ rw e (elim (load8-cases {R = R} b (p + 2) s) [
        | inr (_, bad) ↦ rw bad (inr refl)
        | inl (_, e) ↦ rw e (elim (load8-cases {R = R} b (p + 3) s) [
          | inr (_, bad) ↦ rw bad (inr refl)
          | inl (_, e) ↦ rw e (inl (_, refl))
        ])
      ])
    ])
  ]
