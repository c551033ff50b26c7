-- ===== src/Fdt/Overlay/Entries.antt =====
-- The entries of `__fixups__` that libfdt/fdt_overlay.c reads, "path:name:place".
use dtboverlay.Base.{
  ℕ, zero, suc, ◌+◌, ◌-◌, ◌%◌, ◌^◌, ◌<◌, ◌≡◌, ◌≢◌, refl, sym, ◌∙◌, ap, List, [], ◌∷◌, ◌++◌, some,
  false, ◌==◌, arith, length, drop, drop_add, get_elem?, All,
}
use dtboverlay.Base.Int.{to_int}
use dtboverlay.Base.Control.{next}
use dtboverlay.Memory.{load8}
use dtboverlay.Fdt.Read.{value, Tree, read8}
use dtboverlay.Fdt.Ro.Strings.{IsText, find_byte-separated, drop-separated}
use dtboverlay.Fdt.Ro.Counts.{until_nul-packed}
use dtboverlay.Fdt.Overlay.Parse.{parse_place, parse_fixup}

get_elem?-drop : (xs : List ℕ) (p k : ℕ) → get_elem? (drop p xs) k ≡ get_elem? xs (p + k)
get_elem?-drop xs zero k = ap (get_elem? xs) (let e : k ≡ zero + k = omega arith in e)
get_elem?-drop [] (suc p) k = refl
get_elem?-drop (x ∷ xs) (suc p) k =
    get_elem?-drop xs p k
    ∙ ap (get_elem? (x ∷ xs)) (let e : suc (p + k) ≡ suc p + k = omega arith in e)

get_elem?-separated : (d : ℕ) (s tail : List ℕ) → get_elem? (s ++ d ∷ tail) (length s) ≡ some d
get_elem?-separated d [] tail = refl
get_elem?-separated d (c ∷ s) tail = get_elem?-separated d s tail

-- What follows the byte `d` that ends `s` at a pointer, and that byte.
module _ (t : Tree) (p d : ℕ) (s tail : List ℕ) (at : drop p t.blob.bytes ≡ s ++ d ∷ tail) where
  past : drop (p + length s + 1) t.blob.bytes ≡ tail
  past =
      ap (λ (k : ℕ). drop k t.blob.bytes)
        (let e : p + length s + 1 ≡ p + suc (length s) = omega arith in e)
      ∙ drop_add p (suc (length s)) t.blob.bytes
      ∙ ap (drop (suc (length s))) at
      ∙ drop-separated d s tail

  end_byte : read8 t (p + length s) ≡ value d
  unfolding load8
  end_byte =
      let e : get_elem? t.blob.bytes (p + length s) ≡ some d =
        sym (get_elem?-drop t.blob.bytes p (length s))
        ∙ ap (λ (l : List ℕ). get_elem? l (length s)) at
        ∙ get_elem?-separated d s tail in
      let loaded : load8 {S = Unit {0}} {R = ℕ} t.blob (p + length s) tt ≡ next d tt =
        rw (e, load8) in
      rw loaded refl

-- The bytes of an entry, before `tail`.
abbrev pub entry_text : (path name digits tail : List ℕ) → List ℕ
entry_text path name digits tail = path ++ b':' ∷ (name ++ b':' ∷ (digits ++ 0 ∷ tail))

-- The number of bytes before the 0.
abbrev pub entry_len : (path name digits : List ℕ) → ℕ
entry_len path name digits = length path + 1 + length name + 1 + length digits

-- `strtoul` reads a text to its end as a number.
abbrev pub ReadsAll : (List ℕ → ℕ × ℕ) → List ℕ → ℕ → Type 0
ReadsAll strtoul digits number = strtoul digits ≡ (number, length digits)

module _ (strtoul : List ℕ → ℕ × ℕ) (t : Tree) (at : ℕ) (path name digits tail : List ℕ)
    (placed : drop at t.blob.bytes ≡ entry_text path name digits tail)
    (no_colon : All (λ (c : ℕ). c ≢ b':') path) (no_colon' : All (λ (c : ℕ). c ≢ b':') name)
    (named : 0 < length name) (text : IsText digits) (some_digits : 0 < length digits)
    (small : entry_len path name digits < 2 ^ 32) where
  name_placed : drop (at + length path + 1) t.blob.bytes ≡ name ++ b':' ∷ (digits ++ 0 ∷ tail)
  name_placed = past t at b':' path (name ++ b':' ∷ (digits ++ 0 ∷ tail)) placed

  digits_placed : drop (at + length path + 1 + length name + 1) t.blob.bytes ≡ digits ++ 0 ∷ tail
  digits_placed = past t (at + length path + 1) b':' name (digits ++ 0 ∷ tail) name_placed

  parse_place-entry :
      {number : ℕ}
      → ReadsAll strtoul digits number
      → parse_place strtoul t (at + length path + 1 + length name + 1)
        ≡ value (some (to_int number))
  unfolding parse_place
  parse_place-entry {number} reads =
      let q = at + length path + 1 + length name + 1 in
      let not_empty : (length digits == 0) ≡ false = ground arith in
      rw
        (
          digits_placed,
          until_nul-packed digits tail text,
          reads,
          end_byte t q 0 digits tail digits_placed,
          not_empty,
        )
        refl

  -- If the bytes at a pointer are a path without a ':', a ':', a name of a byte or more without a
  -- ':', a ':', and a text of a byte or more without a 0 that ends in a 0 and that `strtoul` reads
  -- to its end as a number, and they are fewer than 2 ^ 32 before the 0, then the entry that
  -- `overlay_fixup_phandle` reads there has that path, that name and that number as an `int`.
  pub parse_fixup-entry :
      {number : ℕ}
      → ReadsAll strtoul digits number
      → parse_fixup strtoul t at (entry_len path name digits)
        ≡ value (
            some (record {
              path = at;
              path_len = length path;
              name = at + length path + 1;
              name_len = length name;
              poffset = to_int number;
            }))
  unfolding parse_fixup
  parse_fixup-entry {number} reads =
      let len = entry_len path name digits in
      let more : (length path == (len + 2 ^ 32 - 1) % 2 ^ 32) ≡ false = ground arith in
      let not_empty : (length name == 0) ≡ false = ground arith in
      rw
        (
          placed,
          find_byte-separated b':' path (name ++ b':' ∷ (digits ++ 0 ∷ tail)) len no_colon
              (omega arith),
          more,
          name_placed,
          find_byte-separated b':' name (digits ++ 0 ∷ tail)
              ((len + 2 ^ 32 - (length path + 1) % 2 ^ 32) % 2 ^ 32) no_colon' (omega arith),
          not_empty,
          parse_place-entry reads,
        )
        refl
