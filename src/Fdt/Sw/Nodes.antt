-- ===== src/Fdt/Sw/Nodes.antt =====
-- Nodes that are begun and ended, in a blob that is being written.
use dtboverlay.Base.{
  ℕ, ◌+◌, ◌*◌, ◌/◌, ◌%◌, ◌^◌, ◌<◌, ◌≤◌, ◌≡◌, ◌⊎◌, inl, inr, refl, ◌∙◌, List, [], ◌∷◌, ◌++◌, arith,
  length, length-append,
}
use dtboverlay.Base.Int.{ℤ, pos}
use dtboverlay.Memory.{IsBytes, byte}
use dtboverlay.Fdt.Constants.{failure, nospace}
use dtboverlay.Fdt.Header.{totalsize, off_dt_struct, size_dt_strings, size_dt_struct}
use dtboverlay.Fdt.Layout.{field}
use dtboverlay.Fdt.Word.{word}
use dtboverlay.Fdt.Encode.{put32, put32-IsBytes}
use dtboverlay.Fdt.Read.{Read, Tree}
use dtboverlay.Fdt.Tags.{tag_begin_node, tag_end_node}
use dtboverlay.Fdt.Write.{with_bytes, overwrite}
use dtboverlay.Fdt.Write.Bytes.{length-overwrite, word-overwrite, word-written, byte-written}
use dtboverlay.Fdt.Sw.Build.{fdt_begin_node, fdt_end_node}
use dtboverlay.Fdt.Sw.Room.{
  IsWriting, top, SameRest, length-put32, fdt_sw_probe_struct_-IsWriting, stored-IsWriting,
}
use dtboverlay.Fdt.Sw.Grab.{fdt_grab_space_-cases}

-- A function adds `n` bytes with a content to the structure, or there is no room for them, and
-- nothing is written.
abbrev pub Adds : Tree → ℕ → (Tree → Type 0) → Read (ℤ × Tree) → Type 0
Adds t n Content m =
    ((m ≡ Read.value (failure nospace, t))
      × (field t.blob.bytes totalsize < top t + field t.blob.bytes size_dt_strings + n))
    ⊎ ((t' : Tree) × (m ≡ Read.value (pos 0, t'))
        × IsWriting t'
        × (top t' ≡ top t + n)
        × SameRest t t'
        × Content t')

append-IsBytes : (name : List ℕ) → IsBytes name → IsBytes (name ++ 0 ∷ [])
append-IsBytes [] h = (omega arith, tt)
append-IsBytes (c ∷ name) h = (h.0, append-IsBytes name h.1)

module _ {t : Tree} (w : IsWriting t) where
  -- In a blob in the struct state of fdt_sw.c, in a build with no assumption, whose structure and
  -- strings do not meet and that lies whole in its buffer, `fdt_end_node` either has no room for 4
  -- bytes, returns NOSPACE and writes nothing, or returns 0 and the blob is in that state again,
  -- with the tag where the structure ended, which now ends 4 bytes further on, and with no other
  -- change of the header.
  pub fdt_end_node-Adds :
      Adds t 4 (λ t'. word t'.blob.bytes (top t) ≡ tag_end_node) (fdt_end_node t)
  unfolding fdt_end_node
  fdt_end_node-Adds = elim (fdt_grab_space_-cases w 4 (omega arith)) [
    | inl full ↦ inl (rw (fdt_sw_probe_struct_-IsWriting w, full.0) refl, full.1)
    | inr got ↦
        let (t', e, w', same, now, room) = got in
        let behind : 40 ≤ top t = omega (arith, w.after_header) in
        let inside : top t + 4 ≤ length t'.blob.bytes =
          omega (arith, w'.whole, same totalsize (λ q. cc q), room) in
        let tag = put32 tag_end_node [] in
        let (stored, fields, w'') =
          stored-IsWriting w' (top t) tag behind (omega (arith, inside, length-put32 tag_end_node))
            (put32-IsBytes tag_end_node [] (omega arith) tt) in
        inr (
          with_bytes t' (overwrite (top t) tag t'.blob.bytes),
          rw (fdt_sw_probe_struct_-IsWriting w, e, stored) refl,
          w'',
          rw (fields off_dt_struct, fields size_dt_struct, now, same off_dt_struct (λ q. cc q))
              (omega arith),
          (λ f other. fields f ∙ same f other),
          word-written (top t) tag_end_node t'.blob.bytes inside,
        )
  ]

  -- In a blob in the struct state of fdt_sw.c, in a build with no assumption, whose structure and
  -- strings do not meet and that lies whole in its buffer, and for a name of bytes shorter than 2 ^
  -- 30, `fdt_begin_node` either has no room for the tag and the aligned name, returns NOSPACE and
  -- writes nothing, or returns 0 and the blob is in that state again, with the tag and the name
  -- with its 0 where the structure ended, which now ends behind them, and with no other change of
  -- the header.
  pub fdt_begin_node-Adds :
      (name : List ℕ)
      → IsBytes name
      → length name < 2 ^ 30
      → Adds t
          (4 + (length name + 4) / 4 * 4)
          (λ t'.
            (word t'.blob.bytes (top t) ≡ tag_begin_node)
            × ((i : ℕ)
                → i < length name + 1
                → byte t'.blob.bytes (top t + 4 + i) ≡ byte (name ++ 0 ∷ []) i))
          (fdt_begin_node name t)
  unfolding fdt_begin_node
  fdt_begin_node-Adds name bytes short =
      let n : ℕ = 4 + (length name + 4) / 4 * 4 in
      let size : 4 + (length name + 1 + 3) % 2 ^ 64 / 4 * 4 ≡ n = omega arith in
      elim (fdt_grab_space_-cases w n (omega arith)) [
        | inl full ↦ inl (rw (fdt_sw_probe_struct_-IsWriting w, size, full.0) refl, full.1)
        | inr got ↦
            let (t', e, w', same, now, room) = got in
            let behind : 40 ≤ top t = omega (arith, w.after_header) in
            let inside : top t + n ≤ length t'.blob.bytes =
              omega (arith, w'.whole, same totalsize (λ q. cc q), room) in
            let tag = put32 tag_begin_node [] in
            let text = name ++ 0 ∷ [] in
            let text_length : length text ≡ length name + 1 = length-append name (0 ∷ []) in
            let (stored, fields, w1) =
              stored-IsWriting w' (top t) tag behind
                (omega (arith, inside, length-put32 tag_begin_node))
                (put32-IsBytes tag_begin_node [] (omega arith) tt) in
            let first = overwrite (top t) tag t'.blob.bytes in
            let long : length first ≡ length t'.blob.bytes =
              length-overwrite (top t) tag t'.blob.bytes in
            let fits : top t + 4 + length text ≤ length first =
              omega (arith, inside, text_length, long) in
            let (stored', fields', w2) =
              stored-IsWriting w1 (top t + 4) text (omega (arith, behind)) fits
                (append-IsBytes name bytes) in
            inr (
              with_bytes t' (overwrite (top t + 4) text first),
              rw (fdt_sw_probe_struct_-IsWriting w, size, e, stored, stored') refl,
              w2,
              rw
                  (
                    fields' off_dt_struct,
                    fields' size_dt_struct,
                    fields off_dt_struct,
                    fields size_dt_struct,
                    now,
                    same off_dt_struct (λ q. cc q),
                  )
                  (omega arith),
              (λ f other. fields' f ∙ fields f ∙ same f other),
              (
                word-overwrite (top t + 4) text first (top t) (inl (omega arith))
                    ∙ word-written (top t) tag_begin_node t'.blob.bytes (omega (arith, inside)),
                λ i low. byte-written (top t + 4) text first i fits (omega (arith, text_length)),
              ),
            )
      ]
