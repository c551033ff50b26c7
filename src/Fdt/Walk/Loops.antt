-- ===== src/Fdt/Walk/Loops.antt =====
-- The walk at a property whose length makes the distance over it wrap to 0.
use dtboverlay.Base.{
  ℕ, zero, suc, ◌+◌, ◌-◌, ◌*◌, ◌/◌, ◌%◌, ◌^◌, ◌≤◌, ◌≡◌, refl, Bool, arith, ap, ◌∙◌,
}
use dtboverlay.Base.Int.{ℤ, pos}
use dtboverlay.Fdt.Read.{value, spent, Tree}
use dtboverlay.Fdt.Tags.{tag_prop}
use dtboverlay.Fdt.Walk.{fdt_next_tag, skip_tag, node_loop}
use dtboverlay.Fdt.Walk.Pointers.{IsLoaded, base, room, block_bounds, read32-value}
use dtboverlay.Fdt.Walk.Steps.{advance-pos, room-lt, ptr_inside}
use dtboverlay.Fdt.Walk.Skip.{length_at, tag_at, skip_prop-value}
use dtboverlay.Fdt.Walk.Next.{close_tag-wraps}

module _ {t : Tree} (loaded : IsLoaded t) where
  -- A property at an offset with the length 2 ^ 32 - 12.
  pub record IsStuck (s : ℕ) : Type 0 where
    pub aligned : s % 4 ≡ 0
    pub inside : s + 8 ≤ room loaded
    pub is_prop : tag_at loaded s ≡ tag_prop
    pub wraps : length_at loaded s ≡ 2 ^ 32 - 12

  fdt_next_tag-IsStuck : (s : ℕ) → IsStuck s → fdt_next_tag t (pos s) ≡ value (tag_prop, pos s)
  unfolding fdt_next_tag skip_tag
  fdt_next_tag-IsStuck s h =
      let len : ℕ = length_at loaded s in
      let none_left : (12 + len) % 2 ^ 32 ≡ 0 = omega (arith, h.wraps) in
      let here : (s + (12 + len) % 2 ^ 32 + 3) / 4 * 4 ≡ s = omega (arith, none_left, h.aligned) in
      rw
        (
          ptr_inside loaded s 4 (omega (arith, h.inside)),
          read32-value loaded (base loaded + s) (omega (arith, block_bounds loaded, h.inside)),
          h.is_prop,
          advance-pos s 4 (omega (arith, h.inside, room-lt loaded)),
          skip_prop-value loaded s h.inside,
        )
        (close_tag-wraps loaded s (omega (arith, h.inside, room-lt loaded)) (tag_at loaded s)
            (omega (arith, none_left, h.inside))
          ∙ rw h.is_prop (ap (λ (j : ℕ). value (tag_prop, pos j)) here))

  -- In a blob of version 17 that passed the header check in a build with no assumption and lies
  -- whole in its buffer, the loop of `fdt_next_node` that meets a property of the length 2 ^ 32 -
  -- 12 at a multiple of 4 does not end: it spends any fuel.
  pub node_loop-spent :
      (s : ℕ)
      → IsStuck s
      → (n : ℕ) (counted : Bool) (depth : ℤ) → node_loop t n counted (pos s) depth ≡ spent
  unfolding node_loop
  node_loop-spent s h zero counted depth = refl
  node_loop-spent s h (suc n) counted depth =
      rw (fdt_next_tag-IsStuck s h) (node_loop-spent s h n counted depth)
