-- ===== src/Fdt/Walk/Skip.antt =====
-- The `switch` of `fdt_next_tag`, in a blob that passed the header check.
use dtboverlay.Base.{
  ℕ, ◌+◌, ◌%◌, ◌^◌, ◌<◌, ◌≤◌, ◌≡◌, refl, Option, none, some, ◌||◌, arith, ◌==◌, inl, inr,
  Bool-cases, ap,
}
use native.Mathlib.Decide.{dec_le}
use dtboverlay.Base.Int.{ℤ, pos, to_int}
use dtboverlay.Fdt.Assume.{valid_dtb}
use dtboverlay.Fdt.Word.{word, word-lt}
use dtboverlay.Fdt.Read.{value, Tree}
use dtboverlay.Fdt.Tags.{tag_begin_node, tag_end_node, tag_prop, tag_nop, tag_end}
use dtboverlay.Fdt.Walk.{advance, skip_begin, skip_prop, skip_tag}
use dtboverlay.Fdt.Walk.Pointers.{
  IsLoaded, base, room, block_bounds, assumes-false, is_old-value, read32-value,
}
use dtboverlay.Fdt.Walk.Steps.{room-lt, ptr_inside, ptr_beyond, skip_name_ends}

module _ {t : Tree} (loaded : IsLoaded t) where
  -- The length of a property at an offset.
  abbrev pub length_at : ℕ → ℕ
  length_at s = word t.blob.bytes (base loaded + (s + 4))

  -- The word at an offset, where a tag stands.
  abbrev pub tag_at : ℕ → ℕ
  tag_at s = word t.blob.bytes (base loaded + s)

  pub length_at-lt : (s : ℕ) → length_at s < 2 ^ 32
  length_at-lt s = word-lt t.blob.bytes (base loaded + (s + 4)) loaded.has.are_bytes

  -- Where the `switch` of `fdt_next_tag` goes on, for a tag at `s`.
  pub data Skipped (s tag : ℕ) (after : Option ℤ) : Type 0 where
    early : after ≡ none → Skipped s tag after
    past_name : (a : ℕ) → s + 4 < a → a ≤ room loaded → after ≡ some (pos a) → Skipped s tag after
    past_value :
        tag ≡ tag_prop
        → s + 8 ≤ room loaded
        → after ≡ some (to_int (s + 12 + length_at s))
        → Skipped s tag after
    bare : after ≡ some (pos (s + 4)) → Skipped s tag after

  pub skip_prop-value :
      (s : ℕ)
      → s + 8 ≤ room loaded
      → skip_prop t (pos (s + 4)) ≡ value (some (to_int (s + 12 + length_at s)))
  unfolding skip_prop
  skip_prop-value s h =
      let small : s + 4 < 2 ^ 32 = omega (arith, room-lt loaded) in
      let same : advance (pos (s + 4)) (8 + length_at s) ≡ to_int (s + 12 + length_at s) =
        ap to_int (
          let e : (s + 4) % 2 ^ 32 + (8 + length_at s) ≡ s + 12 + length_at s = omega arith in e) in
      rw
        (
          ptr_inside loaded (s + 4) 4 (omega arith),
          read32-value loaded (base loaded + (s + 4)) (omega (arith, block_bounds loaded)),
          is_old-value loaded,
        )
        (ap (λ (z : ℤ). value (some z)) same)

  module _ (enough : room loaded < t.fuel) (s : ℕ) (fits : s + 4 ≤ room loaded) where
    skip_begin_ends :
        (after : Option ℤ) × (skip_begin t (pos (s + 4)) ≡ value after)
        × Skipped s tag_begin_node after
    unfolding skip_begin
    skip_begin_ends =
        let (ended, a, e, more, less, inside) =
          skip_name_ends loaded t.fuel (s + 4) fits (omega arith) in
        elim (Bool-cases ended) [
          | inl y ↦ (
            some (pos a),
            rw (e, y, assumes-false loaded valid_dtb),
            past_name a more (inside y) refl,
          )
          | inr n ↦ (none, rw (e, n, assumes-false loaded valid_dtb), early refl)
        ]

    skip_prop_ends :
        (after : Option ℤ) × (skip_prop t (pos (s + 4)) ≡ value after) × Skipped s tag_prop after
    unfolding skip_prop
    skip_prop_ends = elim (dec_le (s + 8) (room loaded)) [
      | no h ↦ (
        none,
        rw (
          ptr_beyond loaded (s + 4) 4 (omega (arith, room-lt loaded)) (omega arith) (omega arith),
          assumes-false loaded valid_dtb,
        ),
        early refl,
      )
      | yes h ↦ (some (to_int (s + 12 + length_at s)), skip_prop-value s h, past_value refl h refl)
    ]

    pub skip_tag_ends :
        (tag : ℕ)
        → (after : Option ℤ) × (skip_tag t tag (pos (s + 4)) ≡ value after) × Skipped s tag after
    unfolding skip_tag
    skip_tag_ends tag = elim (Bool-cases (tag == tag_begin_node)) [
      | inl y ↦ let is : tag ≡ tag_begin_node = ground arith in rw (y, is) skip_begin_ends
      | inr n ↦ elim (Bool-cases (tag == tag_prop)) [
        | inl y ↦ (let is : tag ≡ tag_prop = ground arith in rw is skip_prop_ends)
        | inr m ↦ elim (Bool-cases (tag == tag_end || (tag == tag_end_node || tag == tag_nop))) [
          | inl y ↦ (some (pos (s + 4)), rw (n, m, y), bare refl)
          | inr o ↦ (none, rw (n, m, o), early refl)
        ]
      ]
    ]
