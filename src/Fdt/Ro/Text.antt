-- ===== src/Fdt/Ro/Text.antt =====
-- `fdt_get_string`, in a blob that passed the header check.
use dtboverlay.Base.{
  ℕ, zero, suc, ◌+◌, ◌-◌, ◌%◌, ◌^◌, ◌<◌, ◌≤◌, ◌≡◌, ◌⊎◌, inl, inr, ap, refl, List, [], ◌∷◌, none,
  some, Bool, true, false, Bool-cases, ◌==◌, if◌then◌else◌, length, drop, ltb, leb, arith,
}
use dtboverlay.Base.Int.{ℤ, pos, is_negative, magnitude}
use dtboverlay.Fdt.Assume.{valid_input, latest}
use dtboverlay.Fdt.Constants.{failure, badoffset, truncated}
use dtboverlay.Fdt.Header.{magic, version, off_dt_strings, size_dt_strings}
use dtboverlay.Fdt.Layout.{field}
use dtboverlay.Fdt.Read.{Read, value, Tree, Found, missing, find_byte, until_nul, string_at}
use dtboverlay.Fdt.Walk.{sub32}
use dtboverlay.Fdt.Walk.Pointers.{IsLoaded, total, total-lt, accepted, assumes-false, header-value}
use dtboverlay.Fdt.Ro.Names.{string_room, terminated, fdt_get_string}

-- A 0 that is found ends the C string.
find_byte-text :
    (n : ℕ) (xs : List ℕ)
    → n ≤ length xs
    → (find_byte 0 xs n ≡ value none)
      ⊎ ((k : ℕ) × (s : List ℕ) × (find_byte 0 xs n ≡ value (some k))
          × (until_nul xs ≡ value s)
          × (length s ≡ k)
          × (k < n))
unfolding find_byte until_nul
find_byte-text zero xs h = inl refl
find_byte-text (suc n) [] h = absurd (omega arith)
find_byte-text (suc n) (c ∷ xs) h = elim (Bool-cases (c == 0)) [
  | inl y ↦ inr (0, [], rw y refl, rw y refl, refl, omega arith)
  | inr m ↦ elim (find_byte-text n xs (omega arith)) [
    | inl lost ↦ inl (rw (m, lost) refl)
    | inr found ↦
        let (k, s, e, text, len, low) = found in
        inr (suc k, c ∷ s, rw (m, e) refl, rw (m, text) refl, ap suc len, omega arith)
  ]
]

length-drop : (n : ℕ) (xs : List ℕ) → length (drop n xs) ≡ length xs - n
length-drop zero xs = omega arith
length-drop (suc n) [] = omega arith
length-drop (suc n) (x ∷ xs) = omega (arith, length-drop n xs)

module _ {t : Tree} (loaded : IsLoaded t) where
  abbrev strings_start : ℕ
  strings_start = field t.blob.bytes off_dt_strings

  abbrev strings_size : ℕ
  strings_size = field t.blob.bytes size_dt_strings

  -- What `fdt_get_string` gives for an offset: a null pointer with an error, or a pointer to a string
  -- that ends in the strings block, with its length.
  abbrev pub HasText : ℕ → Read Found → Type 0
  HasText o m =
      ((e : ℤ) × (m ≡ value (missing e)) × (is_negative e ≡ true))
      ⊎ ((s : List ℕ) × (m ≡ value (some (strings_start + o), pos (length s)))
          × (string_at t (strings_start + o) ≡ value s)
          × (o + length s < strings_size))

  text-if :
      (o : ℕ) (p q : Read Found) (c : Bool)
      → HasText o p
      → HasText o q
      → HasText o (if c then p else q)
  text-if o p q true yes_case no_case = yes_case
  text-if o p q false yes_case no_case = no_case

  terminated-HasText :
      (o n : ℕ) → o + n ≤ strings_size → HasText o (terminated t (strings_start + o) n)
  unfolding terminated
  terminated-HasText o n h =
      elim (find_byte-text n (drop (strings_start + o) t.blob.bytes) (
        omega (
          arith,
          length-drop (strings_start + o) t.blob.bytes,
          loaded.whole,
          (accepted loaded).1.before_end,
        ))) [
          | inl lost ↦ inl (failure truncated, rw lost refl, refl)
          | inr found ↦
              let (k, s, e, text, len, low) = found in
              inr (s, rw (e, len) refl, text, omega (arith, len))
        ]

  string_room-value :
      (o len : ℕ)
      → o < 2 ^ 31
      → string_room t (pos o) len
        ≡ value (
            if leb strings_size o
            then none
            else some (if ltb (strings_size - o) len then strings_size - o else len))
  unfolding string_room
  string_room-value o len h =
      let recent : leb 17 (field t.blob.bytes version) ≡ true = ground (arith, loaded.current) in
      let same : o % 2 ^ 32 ≡ o = omega arith in
      rw
        (
          assumes-false loaded latest,
          header-value loaded version,
          recent,
          header-value loaded size_dt_strings,
          same,
        )
        (elim (Bool-cases (leb strings_size o)) [
          | inl past ↦ rw past refl
          | inr inside ↦
              let left : sub32 strings_size o ≡ strings_size - o =
                ground (arith, total-lt loaded, (accepted loaded).1.before_end) in
              rw (inside, left) refl
        ])

  -- In a blob of version 17 that passed the header check in a build with no assumption and lies
  -- whole in its buffer, `fdt_get_string` with a length asked for gives for every offset from 0 to
  -- 2 ^ 31 - 1 either a null pointer with a negative error, or the pointer to the offset in the
  -- strings block and the length of the C string there, whose 0 is in the strings block.
  pub fdt_get_string-HasText : (o : ℕ) → o < 2 ^ 31 → HasText o (fdt_get_string t true (pos o))
  unfolding fdt_get_string
  fdt_get_string-HasText o small =
      let probe_ok : is_negative t.ro_probe ≡ false = rw loaded.probe refl in
      let size : magnitude t.ro_probe ≡ total loaded = rw loaded.probe refl in
      let place : (o % 2 ^ 32 + strings_start) % 2 ^ 32 ≡ strings_start + o =
        omega (arith, total-lt loaded, (accepted loaded).1.before_end) in
      let left : ℕ = total loaded - (strings_start + o) in
      rw
        (
          assumes-false loaded valid_input,
          probe_ok,
          size,
          header-value loaded off_dt_strings,
          header-value loaded magic,
          (accepted loaded).0.sized.current.dtb.magic_number,
          place,
          string_room-value o left small,
        )
        (text-if o _ _ (leb (total loaded) (strings_start + o))
          (inl (failure badoffset, refl, refl))
          (elim (Bool-cases (leb strings_size o)) [
            | inl past ↦ rw past (inl (failure badoffset, refl, refl))
            | inr inside ↦ elim (Bool-cases (ltb (strings_size - o) left)) [
              | inl y ↦
                  rw (inside, y, place) (terminated-HasText o (strings_size - o) (ground arith))
              | inr m ↦ rw (inside, m, place) (terminated-HasText o left (ground arith))
            ]
          ]))
