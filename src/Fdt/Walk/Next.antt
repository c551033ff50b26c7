-- ===== src/Fdt/Walk/Next.antt =====
-- `fdt_next_tag` as a whole, in a blob that passed the header check.
use dtboverlay.Base.{
  ℕ, ◌+◌, ◌-◌, ◌*◌, ◌/◌, ◌%◌, ◌^◌, ◌<◌, ◌≤◌, ◌≡◌, refl, Option, none, some, true, arith, ap, ◌∙◌,
}
use native.Mathlib.Decide.{dec_le, dec_lt}
use dtboverlay.Base.Int.{ℤ, pos, to_u32, to_int, is_negative}
use dtboverlay.Fdt.Assume.{valid_dtb}
use dtboverlay.Fdt.Constants.{failure, truncated, badstructure}
use dtboverlay.Fdt.Read.{Read, value, ◌>>=◌, Tree}
use dtboverlay.Fdt.Tags.{tag_prop, tag_end}
use dtboverlay.Fdt.Walk.{sub32, tag_align, fdt_offset_ptr, fdt_next_tag}
use dtboverlay.Fdt.Walk.Pointers.{IsLoaded, base, room, block_bounds, assumes-false, read32-value}
use dtboverlay.Fdt.Walk.Steps.{advance-pos, room-lt, ptr_inside, ptr_beyond}
use dtboverlay.Fdt.Walk.Skip.{
  length_at, tag_at, length_at-lt, Skipped, early, past_name, past_value, bare, skip_tag_ends,
}

-- The last check of `fdt_next_tag`, and what it returns.
abbrev close_tag : Tree → (s tag : ℕ) → ℤ → Read (ℕ × ℤ)
close_tag t s tag offset =
    fdt_offset_ptr t (pos s) (sub32 (to_u32 offset) (to_u32 (pos s))) >>= λ whole.
    value (elim whole [ none ↦ (tag_end, failure badstructure) | some _ ↦ (tag, tag_align offset) ])

align-pos : (a : ℕ) → a + 3 < 2 ^ 31 → tag_align (pos a) ≡ pos ((a + 3) / 4 * 4)
align-pos a h = ground arith

sub32-pos : (a s : ℕ) → s ≤ a → a < 2 ^ 31 → sub32 (to_u32 (pos a)) (to_u32 (pos s)) ≡ a - s
sub32-pos a s h g = ground arith

-- The distance over a property wraps with its length.
sub32-wrapped :
    (s len : ℕ)
    → s < 2 ^ 31
    → sub32 (to_u32 (to_int (s + 12 + len))) (to_u32 (pos s)) ≡ (12 + len) % 2 ^ 32
sub32-wrapped s len h = ground arith

to_int-wrapped :
    (s len : ℕ)
    → s + (12 + len) % 2 ^ 32 < 2 ^ 31
    → to_int (s + 12 + len) ≡ pos (s + (12 + len) % 2 ^ 32)
to_int-wrapped s len h = ground arith

module _ {t : Tree} (loaded : IsLoaded t) where
  -- What `fdt_next_tag` returns at `s`: an error, an offset further on, or, at a property whose length
  -- wraps to nothing, the offset that it was given.
  pub data Moves (s tag : ℕ) (next : ℤ) : Type 0 where
    stops : tag ≡ tag_end → is_negative next ≡ true → Moves s tag next
    moves : (n : ℕ) → next ≡ pos n → s < n → n ≤ room loaded + 3 → n % 4 ≡ 0 → Moves s tag next
    stuck :
        tag ≡ tag_prop
        → tag_at loaded s ≡ tag_prop
        → s + 8 ≤ room loaded
        → length_at loaded s ≡ 2 ^ 32 - 12
        → next ≡ pos ((s + 3) / 4 * 4)
        → Moves s tag next

  abbrev pub Ended : ℕ → Read (ℕ × ℤ) → Type 0
  Ended s r = (tag : ℕ) × (next : ℤ) × (r ≡ value (tag, next)) × Moves s tag next

  module _ (s : ℕ) (small : s < 2 ^ 31) (tag : ℕ) where
    close_tag-inside : (a : ℕ) → s < a → a ≤ room loaded → Ended s (close_tag t s tag (pos a))
    close_tag-inside a more less = (
      tag,
      pos ((a + 3) / 4 * 4),
      rw (
        sub32-pos a s (omega arith) (omega (arith, room-lt loaded)),
        ptr_inside loaded s (a - s) (omega arith),
        align-pos a (omega (arith, room-lt loaded)),
      ),
      moves _ refl (omega arith) (omega arith) (omega arith),
    )

    pub close_tag-wraps :
        s + (12 + length_at loaded s) % 2 ^ 32 ≤ room loaded
        → close_tag t s tag (to_int (s + 12 + length_at loaded s))
          ≡ value (tag, pos ((s + (12 + length_at loaded s) % 2 ^ 32 + 3) / 4 * 4))
    close_tag-wraps h =
        let len : ℕ = length_at loaded s in
        let k : ℕ = (12 + len) % 2 ^ 32 in
        rw (
          sub32-wrapped s len small,
          ptr_inside loaded s k h,
          to_int-wrapped s len (omega (arith, room-lt loaded)),
          align-pos (s + k) (omega (arith, room-lt loaded)),
        )

    close_tag-value :
        tag ≡ tag_prop
        → tag_at loaded s ≡ tag
        → s + 8 ≤ room loaded
        → Ended s (close_tag t s tag (to_int (s + 12 + length_at loaded s)))
    close_tag-value prop is low =
        let len : ℕ = length_at loaded s in
        let k : ℕ = (12 + len) % 2 ^ 32 in
        let k_small : k < 2 ^ 32 = omega arith in
        elim (dec_le (s + k) (room loaded)) [
          | no h ↦ (
            tag_end,
            failure badstructure,
            rw (sub32-wrapped s len small, ptr_beyond loaded s k small k_small (omega arith)),
            stops refl refl,
          )
          | yes h ↦
              let closed = close_tag-wraps h in
              elim (dec_lt 0 k) [
                | yes some_left ↦ (
                  tag,
                  pos ((s + k + 3) / 4 * 4),
                  closed,
                  moves _ refl (omega arith) (omega arith) (omega arith),
                )
                | no none_left ↦
                    let nothing : s + k + 3 ≡ s + 3 = omega arith in
                    (
                      tag,
                      pos ((s + k + 3) / 4 * 4),
                      closed,
                      stuck prop (is ∙ prop) low (omega (arith, length_at-lt loaded s))
                          (ap (λ (j : ℕ). pos (j / 4 * 4)) nothing),
                    )
              ]
        ]

  -- What follows the tag.
  closed-Ended :
      (s tag : ℕ) (after : Option ℤ)
      → s + 4 ≤ room loaded
      → tag_at loaded s ≡ tag
      → Skipped loaded s tag after
      → Ended s (elim after [
        | none ↦ value (tag_end, failure badstructure)
        | some offset ↦ close_tag t s tag offset
      ])
  closed-Ended s tag after fits is (early e) =
      rw e (tag_end, failure badstructure, refl, stops refl refl)
  closed-Ended s tag after fits is (past_name a more less e) =
      rw e (close_tag-inside s (omega (arith, room-lt loaded)) tag a (omega arith) less)
  closed-Ended s tag after fits is (past_value prop low e) =
      rw e (close_tag-value s (omega (arith, room-lt loaded)) tag prop is low)
  closed-Ended s tag after fits is (bare e) =
      rw e (close_tag-inside s (omega (arith, room-lt loaded)) tag (s + 4) (omega arith) fits)

  -- In a blob of version 17 that passed the header check in a build with no assumption and lies
  -- whole in its buffer, and with more fuel than the structure block has bytes, `fdt_next_tag`
  -- returns at every offset below 2 ^ 31, without a read outside the blob: FDT_END and an error, or
  -- a tag and a multiple of 4 that is further on and at most 3 behind the structure block, or, only
  -- at a property of the length 2 ^ 32 - 12, the aligned offset that it was given.
  pub fdt_next_tag-Ended :
      room loaded < t.fuel → (s : ℕ) → s < 2 ^ 31 → Ended s (fdt_next_tag t (pos s))
  unfolding fdt_next_tag
  fdt_next_tag-Ended enough s small = elim (dec_le (s + 4) (room loaded)) [
    | no h ↦ (
      tag_end,
      failure truncated,
      rw (ptr_beyond loaded s 4 small (omega arith) (omega arith), assumes-false loaded valid_dtb),
      stops refl refl,
    )
    | yes fits ↦
        let tag : ℕ = tag_at loaded s in
        let (after, e, skipped) = skip_tag_ends loaded enough s fits tag in
        let (tag', next, e', moved) = closed-Ended s tag after fits refl skipped in
        (
          tag',
          next,
          rw
              (
                ptr_inside loaded s 4 fits,
                read32-value loaded (base loaded + s) (omega (arith, block_bounds loaded)),
                advance-pos s 4 (omega (arith, room-lt loaded)),
                e,
              )
              e',
          moved,
        )
  ]
