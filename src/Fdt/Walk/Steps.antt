-- ===== src/Fdt/Walk/Steps.antt =====
-- What `fdt_next_tag` returns in a blob that passed the header check.
use dtboverlay.Base.{
  ℕ, zero, suc, ◌+◌, ◌^◌, ◌<◌, ◌≤◌, ◌≡◌, none, some, Bool, true, false, arith, leb, ◌==◌,
  if◌then◌else◌, inl, inr, Bool-cases, ap, ◌∙◌,
}
use native.Mathlib.Decide.{dec_le}
use dtboverlay.Base.Int.{pos}
use dtboverlay.Memory.{byte}
use dtboverlay.Fdt.Read.{value, Tree}
use dtboverlay.Fdt.Walk.{advance, fdt_offset_ptr, skip_name}
use dtboverlay.Fdt.Walk.Pointers.{
  IsLoaded, base, room, total-lt, block_bounds, base_bounds, read8-value, fdt_offset_ptr-value,
}

pub advance-pos : (o n : ℕ) → o + n < 2 ^ 31 → advance (pos o) n ≡ pos (o + n)
advance-pos o n h = ground arith

module _ {t : Tree} (loaded : IsLoaded t) where
  pub room-lt : room loaded + 40 < 2 ^ 31
  room-lt = omega (arith, block_bounds loaded, total-lt loaded, base_bounds loaded)

  pub ptr_inside :
      (o len : ℕ)
      → o + len ≤ room loaded
      → fdt_offset_ptr t (pos o) len ≡ value (some (base loaded + o))
  ptr_inside o len h =
      let fits : leb (o + len) (room loaded) ≡ true = ground arith in
      fdt_offset_ptr-value loaded o len (omega (arith, room-lt)) (omega (arith, room-lt))
      ∙ ap (λ (c : Bool). value (if c then some (base loaded + o) else none)) fits

  pub ptr_beyond :
      (o len : ℕ)
      → o < 2 ^ 31
      → len < 2 ^ 32
      → room loaded < o + len
      → fdt_offset_ptr t (pos o) len ≡ value none
  ptr_beyond o len ho hl h =
      let past : leb (o + len) (room loaded) ≡ false = ground arith in
      fdt_offset_ptr-value loaded o len ho hl
      ∙ ap (λ (c : Bool). value (if c then some (base loaded + o) else none)) past

  -- The loop over a name ends, inside the structure block if it met a 0.
  pub skip_name_ends :
      (n o : ℕ)
      → o ≤ room loaded
      → room loaded < o + n
      → (ended : Bool) × (after : ℕ) × (skip_name t n (pos o) ≡ value (ended, pos after))
        × (o < after)
        × (after ≤ room loaded + 1)
        × (ended ≡ true → after ≤ room loaded)
  unfolding skip_name
  skip_name_ends zero o low high = absurd (omega arith)
  skip_name_ends (suc n) o low high = elim (dec_le (o + 1) (room loaded)) [
    | no h ↦ (
      false,
      o + 1,
      rw (
        ptr_beyond o 1 (omega (arith, room-lt)) (omega arith) (omega arith),
        advance-pos o 1 (omega (arith, room-lt)),
      ),
      omega arith,
      omega arith,
      λ e. cc e,
    )
    | yes h ↦
        let got = read8-value loaded (base loaded + o) (omega (arith, block_bounds loaded)) in
        let next_is = advance-pos o 1 (omega (arith, room-lt)) in
        elim (Bool-cases (byte t.blob.bytes (base loaded + o) == 0)) [
          | inl z ↦ (
            true,
            o + 1,
            rw (ptr_inside o 1 h, got, z, next_is),
            omega arith,
            omega arith,
            λ _. h,
          )
          | inr nz ↦
              let (ended, after, e, more, less, inside) =
                skip_name_ends n (o + 1) h (omega arith) in
              (ended, after, rw (ptr_inside o 1 h, got, nz, next_is) e, omega arith, less, inside)
        ]
  ]
