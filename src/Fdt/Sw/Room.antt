-- ===== src/Fdt/Sw/Room.antt =====
-- A blob in the `struct` state of libfdt/fdt_sw.c, and the space in it.
use dtboverlay.Base.{
  ℕ, ◌+◌, ◌^◌, ◌<◌, ◌≤◌, ◌≡◌, ◌≢◌, inl, refl, sym, ◌∙◌, List, [], true, false, ◌==◌, arith, length,
  leb,
}
use dtboverlay.Base.Int.{pos}
use dtboverlay.Memory.{IsBytes}
use dtboverlay.Fdt.Assume.{Assumption, fdt_assume_mask, valid_input}
use dtboverlay.Fdt.Header.{
  Field, offset_of, magic, totalsize, off_dt_struct, off_dt_strings, off_mem_rsvmap, version,
  last_comp_version, boot_cpuid_phys, size_dt_strings, size_dt_struct,
}
use dtboverlay.Fdt.Layout.{field, HasHeader}
use dtboverlay.Fdt.Encode.{put32}
use dtboverlay.Fdt.Stages.{fdt_get_header-next}
use dtboverlay.Fdt.Verdict.{no_assumption}
use dtboverlay.Fdt.Read
use dtboverlay.Fdt.Read.{Tree, assumes, header, fdt_offset_ptr_}
use dtboverlay.Fdt.Ro.Names.{fdt_sw_magic}
use dtboverlay.Fdt.Write.{with_bytes, overwrite, store_bytes}
use dtboverlay.Fdt.Write.Bytes.{length-overwrite, overwrite-IsBytes, word-overwrite}
use dtboverlay.Fdt.Sw.Space.{fdt_sw_probe_, fdt_sw_probe_struct_}

-- The build has no assumption, the header has the marks of the state, and the structure so far, after
-- the header, and the strings, at the end, do not meet.
pub record IsWriting (t : Tree) : Type 0 where
  pub no_mask : t.assumed ≡ fdt_assume_mask
  pub has : HasHeader t.blob
  pub unfinished : field t.blob.bytes magic ≡ fdt_sw_magic
  pub in_struct : field t.blob.bytes off_dt_strings ≡ field t.blob.bytes totalsize
  pub after_header : 48 ≤ field t.blob.bytes off_dt_struct
  pub apart :
      field t.blob.bytes off_dt_struct
        + field t.blob.bytes size_dt_struct
        + field t.blob.bytes size_dt_strings
      ≤ field t.blob.bytes totalsize
  pub whole : field t.blob.bytes totalsize ≤ length t.blob.bytes
  pub small : field t.blob.bytes totalsize < 2 ^ 31

-- Where the structure goes on, and how long the blob is.
abbrev pub top : Tree → ℕ
top t = field t.blob.bytes off_dt_struct + field t.blob.bytes size_dt_struct

-- Every member of the header but the size of the structure is the same.
abbrev pub SameRest : Tree → Tree → Type 0
SameRest t t' = (f : Field) → f ≢ size_dt_struct → field t'.blob.bytes f ≡ field t.blob.bytes f

pub length-put32 : (v : ℕ) → length (put32 v []) ≡ 4
unfolding put32
length-put32 v = refl

module _ (t : Tree) (has : HasHeader t.blob) where
  pub header-value : (f : Field) → header t f ≡ Read.value (field t.blob.bytes f)
  header-value f = rw (fdt_get_header-next has {R = ℕ} f tt)

-- The offsets of the members leave each other's words alone.
pub before_size : (f : Field) → f ≢ size_dt_struct → offset_of f + 4 ≤ 36
before_size magic h = omega arith
before_size totalsize h = omega arith
before_size off_dt_struct h = omega arith
before_size off_dt_strings h = omega arith
before_size off_mem_rsvmap h = omega arith
before_size version h = omega arith
before_size last_comp_version h = omega arith
before_size boot_cpuid_phys h = omega arith
before_size size_dt_strings h = omega arith
before_size size_dt_struct h = absurd (h refl)

in_header : (f : Field) → offset_of f + 4 ≤ 40
in_header magic = omega arith
in_header totalsize = omega arith
in_header off_dt_struct = omega arith
in_header off_dt_strings = omega arith
in_header off_mem_rsvmap = omega arith
in_header version = omega arith
in_header last_comp_version = omega arith
in_header boot_cpuid_phys = omega arith
in_header size_dt_strings = omega arith
in_header size_dt_struct = omega arith

module _ {t : Tree} (w : IsWriting t) where
  -- The state depends on the header alone.
  pub kept-IsWriting :
      (t' : Tree)
      → t'.assumed ≡ fdt_assume_mask
      → IsBytes t'.blob.bytes
      → length t'.blob.bytes ≡ length t.blob.bytes
      → SameRest t t'
      → top t' + field t'.blob.bytes size_dt_strings ≤ field t.blob.bytes totalsize
      → IsWriting t'
  kept-IsWriting t' mask bytes len same room = record {
    no_mask = mask;
    has = record { are_bytes = bytes; long_enough = omega (arith, w.has.long_enough) };
    unfinished = same magic (λ e. cc e) ∙ w.unfinished;
    in_struct = same off_dt_strings (λ e. cc e) ∙ w.in_struct ∙ sym (same totalsize (λ e. cc e));
    after_header = omega (arith, same off_dt_struct (λ e. cc e), w.after_header);
    apart = omega (arith, same totalsize (λ e. cc e));
    whole = omega (arith, same totalsize (λ e. cc e), w.whole);
    small = omega (arith, same totalsize (λ e. cc e), w.small);
  }

  assumes-false : (a : Assumption) → assumes t a ≡ false
  assumes-false a = rw w.no_mask (no_assumption a)

  -- The probe lets the functions of the state through.
  pub fdt_sw_probe_struct_-IsWriting : fdt_sw_probe_struct_ t ≡ Read.value (pos 0, t)
  unfolding fdt_sw_probe_struct_ fdt_sw_probe_
  fdt_sw_probe_struct_-IsWriting =
      rw
        (
          assumes-false valid_input,
          header-value t w.has magic,
          w.unfinished,
          assumes-false valid_input,
          header-value t w.has off_dt_strings,
          header-value t w.has totalsize,
          w.in_struct,
        )
        (let same : (field t.blob.bytes totalsize == field t.blob.bytes totalsize) ≡ true =
            ground arith in
          rw same refl)

  -- What is written behind the header keeps the state.
  pub stored-IsWriting :
      (p : ℕ) (ys : List ℕ)
      → 40 ≤ p
      → p + length ys ≤ length t.blob.bytes
      → IsBytes ys
      → (store_bytes p ys t ≡ Read.value (tt, with_bytes t (overwrite p ys t.blob.bytes)))
        × ((f : Field) → field (overwrite p ys t.blob.bytes) f ≡ field t.blob.bytes f)
        × IsWriting (with_bytes t (overwrite p ys t.blob.bytes))
  unfolding store_bytes field
  stored-IsWriting p ys behind fits bytes =
      let room : leb (p + length ys) (length t.blob.bytes) ≡ true = ground arith in
      let same : (f : Field) → field (overwrite p ys t.blob.bytes) f ≡ field t.blob.bytes f =
        λ f. word-overwrite p ys t.blob.bytes (offset_of f) (inl (omega (arith, in_header f))) in
      (
        rw room refl,
        same,
        kept-IsWriting (with_bytes t (overwrite p ys t.blob.bytes)) w.no_mask
            (overwrite-IsBytes p ys t.blob.bytes bytes w.has.are_bytes)
            (length-overwrite p ys t.blob.bytes) (λ f _. same f)
            (let b : field (overwrite p ys t.blob.bytes) off_dt_struct
                  ≡ field t.blob.bytes off_dt_struct =
                same off_dt_struct in
              let z : field (overwrite p ys t.blob.bytes) size_dt_struct
                  ≡ field t.blob.bytes size_dt_struct =
                same size_dt_struct in
              let s : field (overwrite p ys t.blob.bytes) size_dt_strings
                  ≡ field t.blob.bytes size_dt_strings =
                same size_dt_strings in
              rw (b, z, s) w.apart),
      )
