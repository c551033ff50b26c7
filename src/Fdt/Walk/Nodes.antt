-- ===== src/Fdt/Walk/Nodes.antt =====
-- The loops over the nodes, in a blob that passed the header check.
use dtboverlay.Base.{
  ℕ, zero, suc, ◌+◌, ◌-◌, ◌%◌, ◌^◌, ◌<◌, ◌≤◌, ◌≡◌, ◌≢◌, ◌⊎◌, refl, Bool, true, false, not, ◌&&◌,
  arith, ◌==◌, if◌then◌else◌, inl, inr, Bool-cases,
}
use dtboverlay.Base.Int.{ℤ, pos, is_negative, decrement, eq_test, lt_test, to_u32}
use dtboverlay.Fdt.Assume.{valid_input}
use dtboverlay.Fdt.Constants.{failure, notfound, truncated, badoffset}
use dtboverlay.Fdt.Read.{Read, value, Tree}
use dtboverlay.Fdt.Tags.{tag_begin_node, tag_end_node, tag_prop, tag_end}
use dtboverlay.Fdt.Walk.{
  fdt_next_tag, check_tag_offset, node_loop, fdt_next_node, subnode_loop, fdt_next_subnode,
}
use dtboverlay.Fdt.Walk.Pointers.{IsLoaded, room, assumes-false}
use dtboverlay.Fdt.Walk.Steps.{room-lt}
use dtboverlay.Fdt.Walk.Skip.{tag_at, length_at}
use dtboverlay.Fdt.Walk.Next.{stops, moves, stuck, fdt_next_tag-Ended}

module _ {t : Tree} (loaded : IsLoaded t) where
  -- No property has the length for which the walk would return to the property itself.
  abbrev pub HasLengths : Type 0
  HasLengths =
      (s : ℕ) → s + 8 ≤ room loaded → tag_at loaded s ≡ tag_prop → length_at loaded s ≢ 2 ^ 32 - 12

  -- An error, or an offset from `low` on that is not far behind the structure block.
  abbrev pub Settled : ℕ → ℤ → Type 0
  Settled low r =
      (is_negative r ≡ true) ⊎ ((a : ℕ) × (r ≡ pos a) × (low ≤ a) × (a ≤ room loaded + 3))

  pub Settled-later : {low high : ℕ} {r : ℤ} → low ≤ high → Settled high r → Settled low r
  Settled-later le (inl below) = inl below
  Settled-later le (inr (a, is, more, less)) = inr (a, is, omega arith, less)

  -- A loop ends with such a result.
  abbrev pub Lands : ℕ → Read (ℤ × ℤ) → Type 0
  Lands low m = (r d : ℤ) × (m ≡ value (r, d)) × Settled low r

  Lands-if :
      {low : ℕ} {p q : Read (ℤ × ℤ)} (c : Bool)
      → Lands low p
      → Lands low q
      → Lands low (if c then p else q)
  Lands-if true yes_case no_case = yes_case
  Lands-if false yes_case no_case = no_case

  -- What lands from a later offset on lands from an earlier one on.
  Lands-later : {low high : ℕ} {m : Read (ℤ × ℤ)} → low ≤ high → Lands high m → Lands low m
  Lands-later le (r, d, e, settled) = (r, d, e, Settled-later le settled)

  module _ (enough : room loaded + 4 < t.fuel) (lengths : HasLengths) where
    -- One step: an error with the last tag, or an offset further on.
    pub next_tag-cases :
        (s : ℕ)
        → s < 2 ^ 31
        → ((next : ℤ) × (fdt_next_tag t (pos s) ≡ value (tag_end, next))
            × (is_negative next ≡ true))
          ⊎ ((tag n : ℕ) × (fdt_next_tag t (pos s) ≡ value (tag, pos n))
              × (s < n)
              × (n ≤ room loaded + 3))
    next_tag-cases s small =
        let (tag, next, e, moved) = fdt_next_tag-Ended loaded (omega arith) s small in
        elim moved [
          | stops is below ↦ inl (next, rw (e, is) refl, below)
          | moves n is more less _ ↦ inr (tag, n, rw (e, is) refl, more, less)
          | stuck _ at low len _ ↦ absurd (lengths s low at len)
        ]

    node_loop-Lands :
        (n : ℕ) (counted : Bool) (s : ℕ) (depth : ℤ)
        → s ≤ room loaded + 3
        → room loaded + 3 < s + n
        → Lands s (node_loop t n counted (pos s) depth)
    unfolding node_loop
    node_loop-Lands zero counted s depth low high = absurd (omega arith)
    node_loop-Lands (suc n) counted s depth low high =
        elim (next_tag-cases s (omega (arith, room-lt loaded))) [
          | inl stopped ↦
              let (next, e, below) = stopped in
              rw (e, below)
                (elim (Bool-cases (eq_test next (failure truncated) && not counted)) [
                  | inl y ↦ (failure notfound, depth, rw y refl, inl refl)
                  | inr m ↦ (next, depth, rw m refl, inl below)
                ])
          | inr moved ↦
              let (tag, a, e, more, less) = moved in
              let rest : (d : ℤ) → Lands s (node_loop t n counted (pos a) d) =
                λ d. Lands-later (omega arith) (node_loop-Lands n counted a d less (omega arith)) in
              rw e (
                Lands-if (tag == tag_begin_node) (pos s, _, refl, inr (s, refl, omega arith, low))
                  (Lands-if (tag == tag_end_node)
                    (Lands-if (counted && is_negative (if counted then decrement depth else depth))
                      (pos a, _, refl, inr (a, refl, omega arith, less)) (rest _))
                    (Lands-if (tag == tag_end) (failure notfound, depth, refl, inl refl)
                      (rest depth))))
        ]

    pub check_tag-cases :
        (wanted : ℕ)
        → (tag_end == wanted) ≡ false
        → (s : ℕ) → s < 2 ^ 31
        → (check_tag_offset t wanted (pos s) ≡ value (failure badoffset))
          ⊎ ((n : ℕ) × (check_tag_offset t wanted (pos s) ≡ value (pos n))
              × (s < n)
              × (n ≤ room loaded + 3))
    unfolding check_tag_offset
    check_tag-cases wanted other s small = elim (Bool-cases (not (to_u32 (pos s) % 4 == 0))) [
      | inl odd ↦ inl (rw (assumes-false loaded valid_input, odd) refl)
      | inr even ↦ elim (next_tag-cases s small) [
        | inl stopped ↦ inl (rw (assumes-false loaded valid_input, even, stopped.1, other) refl)
        | inr moved ↦
            let (tag, n, e, more, less) = moved in
            elim (Bool-cases (tag == wanted)) [
              | inl y ↦ inr (n, rw (assumes-false loaded valid_input, even, e, y) refl, more, less)
              | inr m ↦ inl (rw (assumes-false loaded valid_input, even, e, m) refl)
            ]
      ]
    ]

    -- In a blob of version 17 that passed the header check in a build with no assumption, lies
    -- whole in its buffer, and has no property of the length 2 ^ 32 - 12, and with as much fuel as
    -- the structure block has bytes and five more, `fdt_next_node` ends from every offset below 2 ^
    -- 31, with a depth or without, and without a read outside the blob: with an error, or with an
    -- offset further on that is at most 3 behind the structure block.
    pub fdt_next_node-Lands :
        (counted : Bool) (s : ℕ) (depth : ℤ)
        → s < 2 ^ 31
        → Lands (s + 1) (fdt_next_node t counted (pos s) depth)
    unfolding fdt_next_node
    fdt_next_node-Lands counted s depth small = elim (check_tag-cases tag_begin_node refl s small) [
      | inl bad ↦ (failure badoffset, depth, rw bad refl, inl refl)
      | inr good ↦
          let (n, e, more, less) = good in
          rw e
            (Lands-later (omega arith) (node_loop-Lands t.fuel counted n depth less (omega arith)))
    ]

    subnode_loop-Settled :
        (n s : ℕ) (depth : ℤ)
        → s ≤ room loaded + 3
        → room loaded + 3 < s + n
        → (r : ℤ) × (subnode_loop t n (pos s) depth ≡ value r) × Settled (s + 1) r
    unfolding subnode_loop
    subnode_loop-Settled zero s depth low high = absurd (omega arith)
    subnode_loop-Settled (suc n) s depth low high =
        let (r, d, e, settled) = fdt_next_node-Lands true s depth (omega (arith, room-lt loaded)) in
        elim settled [
          | inl below ↦ (failure notfound, rw (e, below) refl, inl refl)
          | inr at ↦
              let (a, is, more, less) = at in
              let (r', e', later) = subnode_loop-Settled n a d less (omega arith) in
              elim (Bool-cases (lt_test d (pos 1))) [
                | inl over ↦ (failure notfound, rw (e, is, over) refl, inl refl)
                | inr going ↦ elim (Bool-cases (lt_test (pos 1) d)) [
                  | inl deep ↦ (r', rw (e, is, going, deep) e', Settled-later (omega arith) later)
                  | inr child ↦ (r, rw (e, is, going, child) refl, inr (a, is, more, less))
                ]
              ]
        ]

    -- Under the same conditions `fdt_next_subnode` ends from every offset in the structure block: it
    -- returns an error or an offset further on.
    pub fdt_next_subnode-Settled :
        (s : ℕ)
        → s ≤ room loaded + 3
        → (r : ℤ) × (fdt_next_subnode t (pos s) ≡ value r) × Settled (s + 1) r
    unfolding fdt_next_subnode
    fdt_next_subnode-Settled s low = subnode_loop-Settled t.fuel s (pos 1) low (omega arith)
