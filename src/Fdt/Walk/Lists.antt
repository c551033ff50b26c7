-- ===== src/Fdt/Walk/Lists.antt =====
-- The steps of the loops over the children and over the properties of a node, in a blob that passed
-- the header check.
use dtboverlay.Base.{
  ℕ, zero, suc, ◌+◌, ◌<◌, ◌≤◌, ◌≡◌, inl, inr, refl, Bool, true, false, not, ◌||◌, ◌==◌,
  if◌then◌else◌, ◌^◌, arith,
}
use dtboverlay.Base.Int.{ℤ, pos, is_negative, eq_test}
use dtboverlay.Fdt.Constants.{failure, notfound, badstructure, badoffset}
use dtboverlay.Fdt.Read.{Read, value, Tree}
use dtboverlay.Fdt.Tags.{tag_begin_node, tag_prop, tag_nop, tag_end}
use dtboverlay.Fdt.Walk.{fdt_first_subnode}
use dtboverlay.Fdt.Walk.Pointers.{IsLoaded, room}
use dtboverlay.Fdt.Walk.Steps.{room-lt}
use dtboverlay.Fdt.Walk.Nodes.{
  HasLengths, Settled, Settled-later, next_tag-cases, check_tag-cases, fdt_next_node-Lands,
}
use dtboverlay.Fdt.Ro.Props.{
  nextprop_loop, nextprop_, fdt_first_property_offset, fdt_next_property_offset,
}

module _ {t : Tree} (loaded : IsLoaded t) (enough : room loaded + 4 < t.fuel)
    (lengths : HasLengths loaded) where
  -- A read that gives an error or an offset from `low` on.
  abbrev pub Settles : ℕ → Read ℤ → Type 0
  Settles low m = (r : ℤ) × (m ≡ value r) × Settled loaded low r

  Settles-if :
      {low : ℕ} {p q : Read ℤ} (c : Bool)
      → Settles low p
      → Settles low q
      → Settles low (if c then p else q)
  Settles-if true yes_case no_case = yes_case
  Settles-if false yes_case no_case = no_case

  Settles-later : {low high : ℕ} {m : Read ℤ} → low ≤ high → Settles high m → Settles low m
  Settles-later le (r, e, settled) = (r, e, Settled-later loaded le settled)

  pub fdt_first_subnode-Settles :
      (s : ℕ) → s < 2 ^ 31 → Settles (s + 1) (fdt_first_subnode t (pos s))
  unfolding fdt_first_subnode
  fdt_first_subnode-Settles s small =
      let (r, d, e, settled) = fdt_next_node-Lands loaded enough lengths true s (pos 0) small in
      rw e (
        Settles-if (is_negative r || not (eq_test d (pos 1))) (failure notfound, refl, inl refl)
          (r, refl, settled))

  nextprop_loop-Settles :
      (n s : ℕ)
      → s ≤ room loaded + 3
      → room loaded + 3 < s + n
      → Settles s (nextprop_loop t n (pos s))
  unfolding nextprop_loop
  nextprop_loop-Settles zero s low high = absurd (omega arith)
  nextprop_loop-Settles (suc n) s low high =
      elim (next_tag-cases loaded enough lengths s (omega (arith, room-lt loaded))) [
        | inl stopped ↦ let (next, e, below) = stopped in rw (e, below) (next, refl, inl below)
        | inr moved ↦
            let (tag, a, e, more, less) = moved in
            rw e (
              Settles-if (tag == tag_end) (failure badstructure, refl, inl refl)
                (Settles-if (tag == tag_prop) (pos s, refl, inr (s, refl, omega arith, low))
                  (Settles-if (tag == tag_nop)
                    (Settles-later (omega arith) (nextprop_loop-Settles n a less (omega arith)))
                    (failure notfound, refl, inl refl))))
      ]

  pub fdt_first_property_offset-Settles :
      (s : ℕ) → s < 2 ^ 31 → Settles (s + 1) (fdt_first_property_offset t (pos s))
  unfolding fdt_first_property_offset nextprop_
  fdt_first_property_offset-Settles s small =
      elim (check_tag-cases loaded enough lengths tag_begin_node refl s small) [
        | inl bad ↦ rw bad (failure badoffset, refl, inl refl)
        | inr good ↦
            let (n, e, more, less) = good in
            rw e (Settles-later (omega arith) (nextprop_loop-Settles t.fuel n less (omega arith)))
      ]

  pub fdt_next_property_offset-Settles :
      (s : ℕ) → s < 2 ^ 31 → Settles (s + 1) (fdt_next_property_offset t (pos s))
  unfolding fdt_next_property_offset nextprop_
  fdt_next_property_offset-Settles s small =
      elim (check_tag-cases loaded enough lengths tag_prop refl s small) [
        | inl bad ↦ rw bad (failure badoffset, refl, inl refl)
        | inr good ↦
            let (n, e, more, less) = good in
            rw e (Settles-later (omega arith) (nextprop_loop-Settles t.fuel n less (omega arith)))
      ]
