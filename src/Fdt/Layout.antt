-- ===== src/Fdt/Layout.antt =====
-- What a header has to satisfy, stated on the numbers in it with no wrap-around.
use dtboverlay.Base.{ℕ, ◌+◌, ◌≤◌, Bool, if◌then◌else◌, List, length}
use dtboverlay.Memory.{Buffer, IsBytes}
use dtboverlay.Fdt.Constants.{int_max, fdt_v17_size}
use dtboverlay.Fdt.Header.{
  Field, totalsize, off_mem_rsvmap, version, last_comp_version, size_dt_struct, offset_of,
}
use dtboverlay.Fdt.Word.{word}

-- The members of the header at the start of some bytes.
unfoldable pub field : List ℕ → Field → ℕ
field xs f = word xs (offset_of f)

-- A whole header of the latest version can be read.
pub record HasHeader (b : Buffer) : Type 0 where
  pub are_bytes : IsBytes b.bytes
  pub long_enough : fdt_v17_size ≤ length b.bytes

-- A block from `base` of `size` bytes lies between the header and the end.
pub record IsBlock (hdrsize total base size : ℕ) : Type 0 where
  pub after_header : hdrsize ≤ base
  pub before_end : base + size ≤ total

pub record IsVersion (h : Field → ℕ) : Type 0 where
  pub first : 2 ≤ h version
  pub last : h last_comp_version ≤ 17
  pub ordered : h last_comp_version ≤ h version

pub record IsSize (hdrsize : ℕ) (h : Field → ℕ) : Type 0 where
  pub holds_header : hdrsize ≤ h totalsize
  pub fits_int : h totalsize ≤ int_max
  pub rsvmap : IsBlock hdrsize (h totalsize) (h off_mem_rsvmap) 0

-- Only version 17 has the size of the structure block; for older ones only its start is known.
abbrev pub struct_size : Bool → (Field → ℕ) → ℕ
struct_size old h = if old then 0 else h size_dt_struct
