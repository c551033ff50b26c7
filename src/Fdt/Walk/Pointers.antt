-- ===== src/Fdt/Walk/Pointers.antt =====
-- Where `fdt_offset_ptr` points in a blob that passed the header check.
use dtboverlay.Base.{
  ℕ, ◌+◌, ◌^◌, ◌<◌, ◌≤◌, ◌≡◌, [], none, some, true, false, arith, length, ltb, leb, if◌then◌else◌,
}
use dtboverlay.Base.Int.{pos, negsuc}
use dtboverlay.Base.Control.{outcome}
use dtboverlay.Memory.{byte, load8-next}
use dtboverlay.Fdt.Assume.{Assumption, fdt_assume_mask, latest, valid_input}
use dtboverlay.Fdt.Header.{Field, totalsize, off_dt_struct, size_dt_struct, version}
use dtboverlay.Fdt.Check.{fdt_check_header, fdt_header_size_}
use dtboverlay.Fdt.Layout.{field, HasHeader}
use dtboverlay.Fdt.Word.{word, fdt32_ld-next}
use dtboverlay.Fdt.Stages.{fdt_get_header-next}
use dtboverlay.Fdt.Verdict.{no_assumption}
use dtboverlay.Fdt.Accept.{IsAccepted, fdt_check_header-zero_iff}
use dtboverlay.Fdt.Read.{value, Tree, assumes, header, is_old, read8, read32, fdt_offset_ptr_}
use dtboverlay.Fdt.Walk.{fdt_offset_ptr}

-- The build has no assumption, and the blob is of version 17, passed the header check, lies whole in
-- the buffer, and is what `fdt_ro_probe_` gives its size for.
pub record IsLoaded (t : Tree) : Type 0 where
  pub no_mask : t.assumed ≡ fdt_assume_mask
  pub has : HasHeader t.blob
  pub checked : outcome (fdt_check_header fdt_assume_mask t.blob []) ≡ some (pos 0)
  pub whole : field t.blob.bytes totalsize ≤ length t.blob.bytes
  pub current : 17 ≤ field t.blob.bytes version
  pub probe : t.ro_probe ≡ pos (field t.blob.bytes totalsize)

module _ {t : Tree} (loaded : IsLoaded t) where
  open loaded use {no_mask, has, checked, whole, current}

  -- The start and the size of the structure block.
  abbrev pub base : ℕ
  base = field t.blob.bytes off_dt_struct

  abbrev pub room : ℕ
  room = field t.blob.bytes size_dt_struct

  abbrev pub total : ℕ
  total = field t.blob.bytes totalsize

  pub accepted : IsAccepted t.blob
  accepted = (fdt_check_header-zero_iff [] has).0 checked

  pub total-lt : total < 2 ^ 31
  total-lt = omega (arith, accepted.0.sized.size.fits_int)

  pub block_bounds : base + room ≤ total
  block_bounds = ground (arith, accepted.0.struct.before_end)

  -- The header has 40 bytes, and the structure block stands after it.
  pub base_bounds : 40 ≤ base
  unfolding fdt_header_size_
  base_bounds = ground (arith, accepted.0.struct.after_header)

  pub assumes-false : (a : Assumption) → assumes t a ≡ false
  assumes-false a = rw no_mask (no_assumption a)

  pub header-value : (f : Field) → header t f ≡ value (field t.blob.bytes f)
  header-value f = rw (fdt_get_header-next has {R = ℕ} f tt)

  pub is_old-value : is_old t ≡ value false
  unfolding is_old
  is_old-value =
      let recent : ltb (field t.blob.bytes version) 0x10 ≡ false = ground arith in
      rw (assumes-false latest, header-value version, recent)

  pub read8-value : (p : ℕ) → p < total → read8 t p ≡ value (byte t.blob.bytes p)
  read8-value p h = rw (load8-next {S = Unit {0}} {R = ℕ} t.blob p tt (omega arith))

  pub read32-value : (p : ℕ) → p + 4 ≤ total → read32 t p ≡ value (word t.blob.bytes p)
  read32-value p h = rw (fdt32_ld-next {R = ℕ} t.blob p tt has.are_bytes (omega arith))

  pub fdt_offset_ptr-value :
      (o len : ℕ)
      → o < 2 ^ 31
      → len < 2 ^ 32
      → fdt_offset_ptr t (pos o) len ≡ value (if leb (o + len) room then some (base + o) else none)
  unfolding fdt_offset_ptr fdt_offset_ptr_
  fdt_offset_ptr-value o len ho hl =
      let recent : leb 0x11 (field t.blob.bytes version) ≡ true = ground arith in
      rw
        (
          header-value off_dt_struct,
          assumes-false valid_input,
          header-value totalsize,
          assumes-false latest,
          header-value version,
          recent,
        )
        (ground (arith, block_bounds, total-lt, header-value size_dt_struct))

  pub fdt_offset_ptr-negative : (k len : ℕ) → fdt_offset_ptr t (negsuc k) len ≡ value none
  unfolding fdt_offset_ptr
  fdt_offset_ptr-negative k len = rw (header-value off_dt_struct)
