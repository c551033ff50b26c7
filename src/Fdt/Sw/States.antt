-- ===== src/Fdt/Sw/States.antt =====
-- The states of libfdt/fdt_sw.c: what is refused in which.
use dtboverlay.Base.{ℕ, ◌≡◌, ◌≢◌, ◌⊎◌, inl, inr, refl, List, false, ◌==◌, arith}
use dtboverlay.Base.Int.{ℤ}
use dtboverlay.Fdt.Assume.{fdt_assume_mask, Assumption, valid_input}
use dtboverlay.Fdt.Constants
use dtboverlay.Fdt.Constants.{failure, badstate}
use dtboverlay.Fdt.Header.{magic, totalsize, off_dt_strings}
use dtboverlay.Fdt.Layout.{field, HasHeader}
use dtboverlay.Fdt.Verdict.{no_assumption}
use dtboverlay.Fdt.Read.{Read, Tree, assumes}
use dtboverlay.Fdt.Ro.Names.{fdt_sw_magic}
use dtboverlay.Fdt.Write.{Edit}
use dtboverlay.Fdt.Sw.Space.{fdt_sw_probe_, fdt_sw_probe_struct_, fdt_sw_probe_memrsv_}
use dtboverlay.Fdt.Sw.Build.{
  fdt_add_reservemap_entry, fdt_finish_reservemap, fdt_begin_node, fdt_end_node,
  fdt_property_placeholder, fdt_property,
}
use dtboverlay.Fdt.Sw.Finish.{fdt_finish}
use dtboverlay.Fdt.Sw.Room.{header-value}

-- BADSTATE, with the blob as it was.
abbrev pub Refuses : Tree → Edit ℤ → Type 0
Refuses t m = m t ≡ Read.value (failure badstate, t)

-- The blob is finished, or has the magic number of one that is not and another mark in the header.
abbrev pub Differs : Tree → ℕ → Type 0
Differs t mark =
    (field t.blob.bytes magic ≡ Constants.fdt_magic)
    ⊎ ((field t.blob.bytes magic ≡ fdt_sw_magic) × (field t.blob.bytes off_dt_strings ≢ mark))

module _ (t : Tree) (no_mask : t.assumed ≡ fdt_assume_mask) (has : HasHeader t.blob) where
  assumes-false : (a : Assumption) → assumes t a ≡ false
  assumes-false a = rw no_mask (no_assumption a)

  probe_struct : Differs t (field t.blob.bytes totalsize) → Refuses t fdt_sw_probe_struct_
  unfolding fdt_sw_probe_struct_ fdt_sw_probe_
  probe_struct (inl done) = rw (assumes-false valid_input, header-value t has magic, done) refl
  probe_struct (inr (going, other)) =
      let apart : (field t.blob.bytes off_dt_strings == field t.blob.bytes totalsize) ≡ false =
        ground arith in
      rw
        (
          assumes-false valid_input,
          header-value t has magic,
          going,
          assumes-false valid_input,
          header-value t has off_dt_strings,
          header-value t has totalsize,
          apart,
        )
        refl

  probe_memrsv : Differs t 0 → Refuses t fdt_sw_probe_memrsv_
  unfolding fdt_sw_probe_memrsv_ fdt_sw_probe_
  probe_memrsv (inl done) = rw (assumes-false valid_input, header-value t has magic, done) refl
  probe_memrsv (inr (going, other)) =
      let apart : (field t.blob.bytes off_dt_strings == 0) ≡ false = ground arith in
      rw
        (
          assumes-false valid_input,
          header-value t has magic,
          going,
          assumes-false valid_input,
          header-value t has off_dt_strings,
          apart,
        )
        refl

  -- In a build with no assumption, on a finished blob, or on one with the magic number of fdt_sw.c
  -- whose off_dt_strings is not its total size, `fdt_begin_node`, `fdt_end_node`, `fdt_property`
  -- and `fdt_finish` return BADSTATE and leave the blob as it is.
  pub struct_functions-Refuses :
      Differs t (field t.blob.bytes totalsize)
      → (name val : List ℕ)
      → Refuses t (fdt_begin_node name)
        × Refuses t fdt_end_node
        × Refuses t (fdt_property name val)
        × Refuses t fdt_finish
  unfolding fdt_begin_node fdt_end_node fdt_property_placeholder fdt_property fdt_finish
  struct_functions-Refuses other name val =
      let e = probe_struct other in (rw e refl, rw e refl, rw e refl, rw e refl)

  -- memrsv
  pub memrsv_functions-Refuses :
      Differs t 0
      → (addr size : ℕ)
      → Refuses t (fdt_add_reservemap_entry addr size) × Refuses t fdt_finish_reservemap
  unfolding fdt_add_reservemap_entry fdt_finish_reservemap
  memrsv_functions-Refuses other addr size = let e = probe_memrsv other in (rw e refl, rw e refl)
