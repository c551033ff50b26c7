-- ===== src/Fdt/Loads.antt =====
-- The loads of 16 and of 64 bits of libfdt/libfdt.h, beside `fdt32_ld`, and what they read back.
use dtboverlay.Base.{
  ℕ, ◌+◌, ◌*◌, ◌/◌, ◌%◌, ◌^◌, ◌<◌, ◌≤◌, ◌≡◌, refl, ap, ◌∙◌, bit_or, arith, length,
}
use dtboverlay.Base.Bits.{bit_or-shift}
use dtboverlay.Base.Control.{Stmt, ◌>>=◌, pure, next}
use dtboverlay.Memory.{Buffer, byte, load8, load8-next}
use dtboverlay.Fdt.Header.{fdt32_ld}
use dtboverlay.Fdt.Word.{big_endian, or_bytes}
use dtboverlay.Fdt.Inline.{fdt64_st}
use dtboverlay.Fdt.Write.{overwrite}
use dtboverlay.Fdt.Write.Bytes.{byte-written, length-overwrite}

-- `(uint64_t)x << k`
abbrev pub shl64 : ℕ → ℕ → ℕ
shl64 x k = x * 2 ^ k % 2 ^ 64

module _ {S R : Type 0} where
  unfoldable pub fdt16_ld : Buffer → ℕ → Stmt S R ℕ
  fdt16_ld b p = do b0 ← load8 b p; b1 ← load8 b (p + 1); pure (bit_or (b0 * 2 ^ 8) b1 % 2 ^ 16)

  unfoldable pub fdt64_ld : Buffer → ℕ → Stmt S R ℕ
  fdt64_ld b p = do
    b0 ← load8 b p
    b1 ← load8 b (p + 1)
    b2 ← load8 b (p + 2)
    b3 ← load8 b (p + 3)
    b4 ← load8 b (p + 4)
    b5 ← load8 b (p + 5)
    b6 ← load8 b (p + 6)
    b7 ← load8 b (p + 7)
    let high = bit_or (bit_or (bit_or (shl64 b0 56) (shl64 b1 48)) (shl64 b2 40)) (shl64 b3 32)
    pure (bit_or (bit_or (bit_or (bit_or high (shl64 b4 24)) (shl64 b5 16)) (shl64 b6 8)) b7)

-- The shifts and bitwise ors of `fdt64_ld` put two words together without a carry.
or_words :
    (b0 b1 b2 b3 b4 b5 b6 b7 : ℕ)
    → (b0 < 256) × (b1 < 256) × (b2 < 256) × (b3 < 256)
    → (b4 < 256) × (b5 < 256) × (b6 < 256) × (b7 < 256)
    → bit_or
        (bit_or
          (bit_or
            (bit_or
              (bit_or (bit_or (bit_or (shl64 b0 56) (shl64 b1 48)) (shl64 b2 40)) (shl64 b3 32))
              (shl64 b4 24))
            (shl64 b5 16))
          (shl64 b6 8))
        b7
      ≡ big_endian b0 b1 b2 b3 * 2 ^ 32 + big_endian b4 b5 b6 b7
or_words b0 b1 b2 b3 b4 b5 b6 b7 (h0, h1, h2, h3) (h4, h5, h6, h7) =
    let w1 = b0 * 256 + b1 in
    let w2 = w1 * 256 + b2 in
    let w3 = w2 * 256 + b3 in
    let w4 = w3 * 256 + b4 in
    let w5 = w4 * 256 + b5 in
    let w6 = w5 * 256 + b6 in
    let s0 : shl64 b0 56 ≡ b0 * 2 ^ 56 = omega arith in
    let s1 : shl64 b1 48 ≡ b1 * 2 ^ 48 = omega arith in
    let s2 : shl64 b2 40 ≡ b2 * 2 ^ 40 = omega arith in
    let s3 : shl64 b3 32 ≡ b3 * 2 ^ 32 = omega arith in
    let s4 : shl64 b4 24 ≡ b4 * 2 ^ 24 = omega arith in
    let s5 : shl64 b5 16 ≡ b5 * 2 ^ 16 = omega arith in
    let s6 : shl64 b6 8 ≡ b6 * 2 ^ 8 = omega arith in
    let t1 : b0 * 2 ^ 56 + b1 * 2 ^ 48 ≡ w1 * 2 ^ 48 = omega arith in
    let t2 : w1 * 2 ^ 48 + b2 * 2 ^ 40 ≡ w2 * 2 ^ 40 = omega arith in
    let t3 : w2 * 2 ^ 40 + b3 * 2 ^ 32 ≡ w3 * 2 ^ 32 = omega arith in
    let t4 : w3 * 2 ^ 32 + b4 * 2 ^ 24 ≡ w4 * 2 ^ 24 = omega arith in
    let t5 : w4 * 2 ^ 24 + b5 * 2 ^ 16 ≡ w5 * 2 ^ 16 = omega arith in
    let t6 : w5 * 2 ^ 16 + b6 * 2 ^ 8 ≡ w6 * 2 ^ 8 = omega arith in
    rw
      (
        s0,
        s1,
        s2,
        s3,
        s4,
        s5,
        s6,
        bit_or-shift 56 b0 (b1 * 2 ^ 48) (omega arith),
        t1,
        bit_or-shift 48 w1 (b2 * 2 ^ 40) (omega arith),
        t2,
        bit_or-shift 40 w2 (b3 * 2 ^ 32) (omega arith),
        t3,
        bit_or-shift 32 w3 (b4 * 2 ^ 24) (omega arith),
        t4,
        bit_or-shift 24 w4 (b5 * 2 ^ 16) (omega arith),
        t5,
        bit_or-shift 16 w5 (b6 * 2 ^ 8) (omega arith),
        t6,
        bit_or-shift 8 w6 b7 (omega arith),
      )
      (omega arith)

-- The buffer with the number stored at `p`.
abbrev pub stored : Buffer → ℕ → ℕ → Buffer
stored b p v = record b { bytes = overwrite p (fdt64_st v) b.bytes }

module _ {S R : Type 0} (b : Buffer) (p v : ℕ) (s : S) where
  load_stored :
      (i : ℕ)
      → p + 8 ≤ length b.bytes
      → i < 8
      → load8 {S = S} {R = R} (stored b p v) (p + i) s ≡ next (byte (fdt64_st v) i) s
  load_stored i fits low =
      rw
        (
          load8-next (stored b p v) (p + i) s
              (omega (arith, length-overwrite p (fdt64_st v) b.bytes)),
          byte-written p (fdt64_st v) b.bytes i fits low,
        )
        refl

  load_first :
      p + 8 ≤ length b.bytes
      → load8 {S = S} {R = R} (stored b p v) p s ≡ next (byte (fdt64_st v) 0) s
  load_first fits =
      ap (λ q. load8 {S = S} {R = R} (stored b p v) q s) (let e : p ≡ p + 0 = omega arith in e)
      ∙ load_stored 0 fits (omega arith)

  -- In a buffer with eight bytes from a place on, and for a number below 2 ^ 64 that `fdt64_st`
  -- stored there, `fdt64_ld` reads it back, `fdt32_ld` its upper 32 bits, and `fdt16_ld` its upper
  -- 16 bits.
  pub fdt64_ld-fdt64_st :
      v < 2 ^ 64
      → p + 8 ≤ length b.bytes
      → (fdt64_ld {S = S} {R = R} (stored b p v) p s ≡ next v s)
        × (fdt32_ld {S = S} {R = R} (stored b p v) p s ≡ next (v / 2 ^ 32) s)
        × (fdt16_ld {S = S} {R = R} (stored b p v) p s ≡ next (v / 2 ^ 48) s)
  unfolding fdt64_ld fdt32_ld fdt16_ld
  fdt64_ld-fdt64_st small fits =
      let byte_of : ℕ → ℕ = byte (fdt64_st v) in
      let whole : big_endian (byte_of 0) (byte_of 1) (byte_of 2) (byte_of 3) * 2 ^ 32
            + big_endian (byte_of 4) (byte_of 5) (byte_of 6) (byte_of 7)
          ≡ v =
        omega arith in
      (
        rw
            (
              load_first fits,
              load_stored 1 fits (omega arith),
              load_stored 2 fits (omega arith),
              load_stored 3 fits (omega arith),
              load_stored 4 fits (omega arith),
              load_stored 5 fits (omega arith),
              load_stored 6 fits (omega arith),
              load_stored 7 fits (omega arith),
            )
            (ap (λ n. next n s)
              (or_words (byte_of 0) (byte_of 1) (byte_of 2) (byte_of 3) (byte_of 4) (byte_of 5)
                  (byte_of 6) (byte_of 7) (omega arith, omega arith, omega arith, omega arith)
                  (omega arith, omega arith, omega arith, omega arith)
                ∙ whole)),
        rw
            (
              load_first fits,
              load_stored 1 fits (omega arith),
              load_stored 2 fits (omega arith),
              load_stored 3 fits (omega arith),
            )
            (ap (λ n. next n s)
              (or_bytes (byte_of 0) (byte_of 1) (byte_of 2) (byte_of 3) (omega arith) (omega arith)
                  (omega arith) (omega arith)
                ∙ omega arith)),
        rw (load_first fits, load_stored 1 fits (omega arith))
            (ap (λ n. next n s)
              (ap (λ n. n % 2 ^ 16) (bit_or-shift 8 (byte_of 0) (byte_of 1) (omega arith))
                ∙ omega arith)),
      )
