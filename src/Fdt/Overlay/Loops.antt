-- ===== src/Fdt/Overlay/Loops.antt =====
-- That the loops `fdt_for_each_subnode` and `fdt_for_each_property_offset` of libfdt/libfdt.h end, in a
-- blob that passed the header check and that the rounds leave as it is.
use dtboverlay.Base.{
  ℕ, zero, suc, ◌+◌, ◌<◌, ◌≤◌, ◌≡◌, ◌^◌, inl, inr, refl, Option, none, some, arith, true,
}
use dtboverlay.Base.Int.{ℤ, pos, is_negative}
use dtboverlay.Fdt.Read.{Read, value, Tree}
use dtboverlay.Fdt.Walk.{fdt_next_subnode}
use dtboverlay.Fdt.Walk.Pointers.{IsLoaded, room}
use dtboverlay.Fdt.Walk.Steps.{room-lt}
use dtboverlay.Fdt.Walk.Nodes.{HasLengths, Settled, fdt_next_subnode-Settled}
use dtboverlay.Fdt.Walk.Lists.{
  Settles, fdt_first_subnode-Settles, fdt_first_property_offset-Settles,
  fdt_next_property_offset-Settles,
}
use dtboverlay.Fdt.Ro.Props.{fdt_next_property_offset}
use dtboverlay.Fdt.Write.{Step}
use dtboverlay.Fdt.Overlay.Both.{each_offset, fdt_for_each_subnode, fdt_for_each_property_offset}

module _ {S : Type 0} (view : S → Tree) (t : Tree) where
  -- The statement returns, and the blob is `t` again.
  abbrev pub Ended : {A : Type 0} → Step S A → S → Type 0
  Ended {A} m s = (a : A) × (s' : S) × (m s ≡ value (a, s')) × (view s' ≡ t)

  -- It does so from every state with the blob `t`.
  abbrev pub Returns : {A : Type 0} → Step S A → Type 0
  Returns m = (s : S) → view s ≡ t → Ended m s

module _ {S : Type 0} (view : S → Tree) {t : Tree} (loaded : IsLoaded t)
    (enough : room loaded + 4 < t.fuel) (lengths : HasLengths loaded) (body : ℤ → Step S (Option ℤ))
    (ends : (o : ℤ) → Returns view t (body o)) where
  module _ (next : Tree → ℤ → Read ℤ)
      (steps : (a : ℕ)
        → a ≤ room loaded + 3
        → Settles loaded enough lengths (a + 1) (next t (pos a))) where
    each_offset-negative :
        (n : ℕ) (o : ℤ)
        → 0 < n
        → is_negative o ≡ true
        → (s : S) → each_offset view next n body o s ≡ value (none, s)
    unfolding each_offset
    each_offset-negative zero o h below s = absurd (omega arith)
    each_offset-negative (suc n) o h below s = rw below refl

    each_offset-Returns :
        (n a : ℕ)
        → a ≤ room loaded + 3
        → room loaded + 4 < a + n
        → Returns view t (each_offset view next n body (pos a))
    unfolding each_offset
    each_offset-Returns zero a low high s at = absurd (omega arith)
    each_offset-Returns (suc n) a low high s at =
        let (left, s', e, at') = ends (pos a) s at in
        elim left
            as (λ l.
              body (pos a) s ≡ value (l, s')
              → (r : Option ℤ) × (s'' : S) × (each_offset view next (suc n) body (pos a) s
                  ≡ value (r, s''))
                × (view s'' ≡ t)) [
                  | some r ↦ λ e. (some r, s', rw e refl, at')
                  | none ↦ λ e.
                      let (o, e', settled) = steps a low in
                      elim settled [
                        | inl below ↦ (
                          none,
                          s',
                          rw (e, at', e') (each_offset-negative n o (omega arith) below s'),
                          at',
                        )
                        | inr later ↦
                            let (a', is, more, less) = later in
                            let (r, s'', e'', at'') =
                              each_offset-Returns n a' less (omega arith) s' at' in
                            (r, s'', rw (e, at', e', is) e'', at'')
                      ]
                ]
          e

    loop-Returns :
        (o : ℤ) (low : ℕ)
        → Settled loaded low o
        → Returns view t (each_offset view next t.fuel body o)
    loop-Returns o low (inl below) s at =
        (none, s, each_offset-negative t.fuel o (omega arith) below s, at)
    loop-Returns o low (inr (a, is, more, less)) s at =
        rw is (each_offset-Returns t.fuel a less (omega arith) s at)

  subnode_steps :
      (a : ℕ)
      → a ≤ room loaded + 3
      → Settles loaded enough lengths (a + 1) (fdt_next_subnode t (pos a))
  subnode_steps a low = fdt_next_subnode-Settled loaded enough lengths a low

  property_steps :
      (a : ℕ)
      → a ≤ room loaded + 3
      → Settles loaded enough lengths (a + 1) (fdt_next_property_offset t (pos a))
  property_steps a low =
      fdt_next_property_offset-Settles loaded enough lengths a (omega (arith, room-lt loaded))

  -- In a blob of version 17 that passed the header check in a build with no assumption, lies whole
  -- in its buffer, and has no property of the length 2 ^ 32 - 12, with as much fuel as the
  -- structure block has bytes and five more, and for a body whose rounds return and leave the blob
  -- as it is, the loops `fdt_for_each_subnode` and `fdt_for_each_property_offset` over a node at an
  -- offset below 2 ^ 31 end, and leave it as it is.
  pub for_each-Ended :
      (node : ℕ)
      → node < 2 ^ 31
      → (s : S) → view s ≡ t
      → Ended view t (fdt_for_each_subnode view body (pos node)) s
        × Ended view t (fdt_for_each_property_offset view body (pos node)) s
  unfolding fdt_for_each_subnode fdt_for_each_property_offset
  for_each-Ended node small s at =
      let (o, e, settled) = fdt_first_subnode-Settles loaded enough lengths node small in
      let (o', e', settled') = fdt_first_property_offset-Settles loaded enough lengths node small in
      (
        rw (at, e) (loop-Returns fdt_next_subnode subnode_steps o (node + 1) settled s at),
        rw (at, e')
            (loop-Returns fdt_next_property_offset property_steps o' (node + 1) settled' s at),
      )
