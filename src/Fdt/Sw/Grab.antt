-- ===== src/Fdt/Sw/Grab.antt =====
-- `fdt_grab_space_` of libfdt/fdt_sw.c.
use dtboverlay.Base.{
  ℕ, ◌+◌, ◌-◌, ◌%◌, ◌^◌, ◌<◌, ◌≤◌, ◌≡◌, ◌⊎◌, inl, inr, refl, [], none, some, true, false, ◌||◌,
  arith, length, ltb, leb,
}
use native.Mathlib.Decide.{dec_le}
use dtboverlay.Base.Int.{pos, to_int}
use dtboverlay.Fdt.Header.{offset_of, totalsize, off_dt_struct, size_dt_strings, size_dt_struct}
use dtboverlay.Fdt.Layout.{field}
use dtboverlay.Fdt.Encode.{put32, put32-IsBytes}
use dtboverlay.Fdt.Read
use dtboverlay.Fdt.Read.{Tree, assumes, header, fdt_offset_ptr_}
use dtboverlay.Fdt.Write.{with_bytes, overwrite, store_bytes, minus32}
use dtboverlay.Fdt.Write.Bytes.{length-overwrite, overwrite-IsBytes, word-overwrite, word-written}
use dtboverlay.Fdt.Sw.Space.{fdt_grab_space_}
use dtboverlay.Fdt.Sw.Room.{
  IsWriting, top, SameRest, before_size, length-put32, header-value, kept-IsWriting,
}

module _ {t : Tree} (w : IsWriting t) where
  -- The blob with `len` more bytes of structure.
  abbrev resized : ℕ → Tree
  resized len =
      with_bytes t (overwrite 36 (put32 (field t.blob.bytes size_dt_struct + len) []) t.blob.bytes)

  resized-IsWriting :
      (len : ℕ)
      → top t + field t.blob.bytes size_dt_strings + len ≤ field t.blob.bytes totalsize
      → (store_bytes 36 (put32 (field t.blob.bytes size_dt_struct + len) []) t
          ≡ Read.value (tt, resized len))
        × SameRest t (resized len)
        × (field (resized len).blob.bytes size_dt_struct ≡ field t.blob.bytes size_dt_struct + len)
        × IsWriting (resized len)
  unfolding store_bytes field
  resized-IsWriting len h =
      let v : ℕ = field t.blob.bytes size_dt_struct + len in
      let small_v : v < 2 ^ 32 = omega (arith, w.small) in
      let room : leb (36 + length (put32 v [])) (length t.blob.bytes) ≡ true =
        ground (arith, length-put32 v, w.has.long_enough) in
      let same : SameRest t (resized len) = λ f other.
        word-overwrite 36 (put32 v []) t.blob.bytes (offset_of f) (inl (before_size f other)) in
      let now : field (resized len).blob.bytes size_dt_struct ≡ v =
        word-written 36 v t.blob.bytes (omega (arith, w.has.long_enough)) in
      (
        rw room refl,
        same,
        now,
        kept-IsWriting w (resized len) w.no_mask
            (overwrite-IsBytes 36 (put32 v []) t.blob.bytes (put32-IsBytes v [] small_v tt)
              w.has.are_bytes)
            (length-overwrite 36 (put32 v []) t.blob.bytes) same
            (let b : field (resized len).blob.bytes off_dt_struct
                  ≡ field t.blob.bytes off_dt_struct =
                same off_dt_struct (λ e. cc e) in
              let s : field (resized len).blob.bytes size_dt_strings
                  ≡ field t.blob.bytes size_dt_strings =
                same size_dt_strings (λ e. cc e) in
              rw (b, now, s) (omega (arith, h))),
      )

  pub fdt_grab_space_-cases :
      (len : ℕ)
      → len < 2 ^ 31
      → ((fdt_grab_space_ len t ≡ Read.value (none, t))
          × (field t.blob.bytes totalsize < top t + field t.blob.bytes size_dt_strings + len))
        ⊎ ((t' : Tree) × (fdt_grab_space_ len t ≡ Read.value (some (top t), t'))
            × IsWriting t'
            × SameRest t t'
            × (field t'.blob.bytes size_dt_struct ≡ field t.blob.bytes size_dt_struct + len)
            × (top t + field t.blob.bytes size_dt_strings + len ≤ field t.blob.bytes totalsize))
  unfolding fdt_grab_space_ fdt_offset_ptr_
  fdt_grab_space_-cases len small =
      let size = field t.blob.bytes size_dt_struct in
      let strings = field t.blob.bytes size_dt_strings in
      let base = field t.blob.bytes off_dt_struct in
      let all = field t.blob.bytes totalsize in
      let left : minus32 (minus32 all base) strings ≡ all - base - strings =
        omega (arith, w.apart, w.small) in
      let end : (size + len) % 2 ^ 64 ≡ size + len = omega (arith, w.apart, w.small) in
      elim (dec_le (base + size + strings + len) all) [
        | no h ↦
            let over : (ltb (size + len) size || ltb (all - base - strings) (size + len)) ≡ true =
              ground (arith, w.apart) in
            inl (
              rw
                  (
                    header-value t w.has size_dt_struct,
                    header-value t w.has totalsize,
                    header-value t w.has off_dt_struct,
                    header-value t w.has size_dt_strings,
                    left,
                    end,
                    over,
                  )
                  refl,
              omega arith,
            )
        | yes h ↦
            let inside : (ltb (size + len) size || ltb (all - base - strings) (size + len))
                ≡ false =
              ground (arith, w.apart) in
            let word_of : (size + len) % 2 ^ 32 ≡ size + len = omega (arith, w.small) in
            let place : to_int size ≡ pos size = ground (arith, w.apart, w.small) in
            let t' = resized len in
            let (e, same, now, w') = resized-IsWriting len h in
            inr (
              t',
              rw
                  (
                    header-value t w.has size_dt_struct,
                    header-value t w.has totalsize,
                    header-value t w.has off_dt_struct,
                    header-value t w.has size_dt_strings,
                    left,
                    end,
                    inside,
                    word_of,
                    e,
                    place,
                    header-value t' w'.has off_dt_struct,
                    same off_dt_struct (λ q. cc q),
                  )
                  refl,
              w',
              same,
              now,
              h,
            )
      ]
