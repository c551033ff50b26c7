-- ===== src/DtbOverlay/Properties.antt =====
-- The loop of `for_each_property_of_node` in `debug`.
use dtboverlay.Base.{
  ℕ, zero, suc, ◌<◌, ◌≡◌, ◌≢◌, String, List, [], ◌∷◌, Option, some, arith, true, false, ◌==◌,
  length,
}
use dtboverlay.Base.Control.{next}
use dtboverlay.Trace.{Trace, printk, str}
use dtboverlay.Kernel.{Ptr, null, Property}
use dtboverlay.DtbOverlay.World.{World}
use dtboverlay.DtbOverlay.Debug.{print_properties}

-- From a pointer the `next` pointers lead through properties of these names to a null pointer.
pub data Chain (prop : Ptr → Option Property) : Ptr → List String → Type 0 where
  end : {p : Ptr} → p ≡ null → Chain prop p []
  link :
      {p q : Ptr} {name : String} {names : List String}
      → p ≢ null
      → prop p ≡ some (record { name = name; next = q })
      → Chain prop q names
      → Chain prop p (name ∷ names)

-- A line for each name, the first one first.
abbrev pub property_lines : List String → Trace → Trace
property_lines [] t = t
property_lines (name ∷ names) t =
    property_lines names (printk "DEBUG prop %s\n" (str name ∷ []) ∷ t)

-- If the `next` pointers lead from a property through properties of given names to a null pointer,
-- the loop of `for_each_property_of_node` ends, on more fuel than there are names, and prints each
-- name once, in that order.
pub print_properties_lem :
    {S R : Type 0} (fuel : ℕ) (p : Ptr) (names : List String) (w : World S)
    → Chain w.shared.prop p names
    → length names < fuel
    → print_properties {S = S} {R = R} fuel p w
      ≡ next tt (record w { trace = property_lines names w.trace })
unfolding print_properties
print_properties_lem zero p names w c h = elim h [ ]
print_properties_lem (suc fuel) p names w (end e) h =
    let z : (p == null) ≡ true = ground arith in rw z
print_properties_lem (suc fuel) p names w (link {q} {name} {names = rest} ne at c) h =
    let nz : (p == null) ≡ false = ground arith in
    let w' : World _ = record w { trace = printk "DEBUG prop %s\n" (str name ∷ []) ∷ w.trace } in
    rw (nz, at) (print_properties_lem fuel q rest w' c (omega arith))
