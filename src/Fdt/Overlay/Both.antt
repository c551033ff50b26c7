-- ===== src/Fdt/Overlay/Both.antt =====
-- What the functions of libfdt/fdt_overlay.c are made of: statements over one blob, or over the base
-- and the overlay, which are two blobs that do not meet.
use dtboverlay.Base.{ℕ, zero, suc, Option, none, some, if◌then◌else◌}
use dtboverlay.Base.Int.{ℤ, pos, is_negative, eq_test}
use dtboverlay.Fdt.Constants.{FdtErr, failure}
use dtboverlay.Fdt.Read.{Read, value, outside, spent, Tree}
use dtboverlay.Fdt.Walk.{fdt_first_subnode, fdt_next_subnode}
use dtboverlay.Fdt.Ro.Props.{fdt_first_property_offset, fdt_next_property_offset}
use dtboverlay.Fdt.Write.{Step, Edit, ◌>>=◌, pure, reading}

-- The arguments `fdt` and `fdto`.
pub record Blobs : Type 0 where
  pub fdt : Tree
  pub fdto : Tree

module _ {S : Type 0} where
  -- A null pointer is not read.
  unfoldable pub non_null : {A B : Type 0} → Option A → (A → Step S B) → Step S B
  non_null none k s = outside
  non_null (some a) k s = k a s

  -- What goes on after a result of 0.
  abbrev pub when_zero : Step S ℤ → Step S ℤ → Step S ℤ
  when_zero m k = do ret ← m; if eq_test ret (pos 0) then k else pure ret

  -- A `return` from inside a loop, `if (ret) return ret;`, and what follows a loop.
  abbrev pub leave : ℤ → Step S (Option ℤ)
  leave r = pure (some r)

  abbrev pub refuse : FdtErr → Step S (Option ℤ)
  refuse e = leave (failure e)

  abbrev pub checked : Step S ℤ → Step S (Option ℤ)
  checked m = do ret ← m; pure (if eq_test ret (pos 0) then none else some ret)

  abbrev pub and_then : Step S (Option ℤ) → Step S ℤ → Step S ℤ
  and_then loop k = do left ← loop; elim left [ none ↦ k | some r ↦ pure r ]

abbrev pub place : {A S T : Type 0} → Read (A × S) → (S → T) → Read (A × T)
place (value r) put = value (r.0, put r.1)
place outside put = outside
place spent put = spent

-- A statement over one of the blobs.
abbrev pub on_fdt : {A : Type 0} → Edit A → Step Blobs A
on_fdt m b = place (m b.fdt) (λ t. record b { fdt = t })

abbrev pub on_fdto : {A : Type 0} → Edit A → Step Blobs A
on_fdto m b = place (m b.fdto) (λ t. record b { fdto = t })

abbrev pub look_fdt : {A : Type 0} → (Tree → Read A) → Step Blobs A
look_fdt m = reading (λ b. m b.fdt)

abbrev pub look_fdto : {A : Type 0} → (Tree → Read A) → Step Blobs A
look_fdto m = reading (λ b. m b.fdto)

module _ {S : Type 0} (view : S → Tree) where
  abbrev pub viewed : {A : Type 0} → (Tree → Read A) → Step S A
  viewed m = reading (λ s. m (view s))

  -- A loop over offsets that ends at the first negative one.
  unfoldable pub each_offset :
      (Tree → ℤ → Read ℤ) → ℕ → (ℤ → Step S (Option ℤ)) → ℤ → Step S (Option ℤ)
  each_offset next zero body offset = λ s. spent
  each_offset next (suc n) body offset =
      let rest = each_offset next n body in
      if is_negative offset then pure none else do
        left ← body offset
        elim left [ some r ↦ leave r | none ↦ do after ← viewed (λ t. next t offset); rest after ]

  -- fdt_for_each_subnode
  unfoldable pub fdt_for_each_subnode : (ℤ → Step S (Option ℤ)) → ℤ → Step S (Option ℤ)
  fdt_for_each_subnode body parent = do
    n ← viewed (λ t. value t.fuel)
    first ← viewed (λ t. fdt_first_subnode t parent)
    each_offset fdt_next_subnode n body first

  -- fdt_for_each_property_offset
  unfoldable pub fdt_for_each_property_offset : (ℤ → Step S (Option ℤ)) → ℤ → Step S (Option ℤ)
  fdt_for_each_property_offset body node = do
    n ← viewed (λ t. value t.fuel)
    first ← viewed (λ t. fdt_first_property_offset t node)
    each_offset fdt_next_property_offset n body first
