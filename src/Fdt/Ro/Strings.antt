-- ===== src/Fdt/Ro/Strings.antt =====
-- A property value that is a list of strings, each with a 0 after it, and what the loops over such a
-- value return.
use dtboverlay.Base.{
  ℕ, zero, suc, ◌+◌, ◌-◌, ◌<◌, ◌≤◌, ◌≡◌, ◌≢◌, ◌∙◌, ap, refl, List, [], ◌∷◌, ◌++◌, some, Bool, true,
  false, ◌&&◌, ◌||◌, ◌==◌, Bool-cases, inl, inr, length, length-append, drop, take, ltb, leb, arith,
  All,
}
use dtboverlay.Fdt.Read.{value, find_byte, same_bytes}
use dtboverlay.Fdt.Ro.Lists.{starts_with, contains_loop, fdt_stringlist_contains}

-- A string has no 0.
abbrev pub IsText : List ℕ → Type 0
IsText s = All (λ (c : ℕ). c ≢ 0) s

-- The value of a property with these strings.
abbrev pub packed : List (List ℕ) → List ℕ
packed [] = []
packed (s ∷ ss) = s ++ 0 ∷ packed ss

-- One of the strings has the bytes of `str`.
abbrev pub has_string : List (List ℕ) → List ℕ → Bool
has_string [] str = false
has_string (s ∷ ss) str = same_bytes s str || has_string ss str

append_assoc : (xs ys zs : List ℕ) → (xs ++ ys) ++ zs ≡ xs ++ (ys ++ zs)
append_assoc [] ys zs = refl
append_assoc (x ∷ xs) ys zs = ap (λ (l : List ℕ). x ∷ l) (append_assoc xs ys zs)

-- The first string of such a value, and what is left after it.
pub length-packed :
    (s : List ℕ) (ss : List (List ℕ))
    → length (packed (s ∷ ss)) ≡ length s + suc (length (packed ss))
length-packed s ss = length-append s (0 ∷ packed ss)

pub packed_shape :
    (s : List ℕ) (ss : List (List ℕ)) (rest : List ℕ)
    → packed (s ∷ ss) ++ rest ≡ s ++ 0 ∷ (packed ss ++ rest)
packed_shape s ss rest = append_assoc s (0 ∷ packed ss) rest

-- The first byte `d` after bytes that are others, and what follows it.
pub find_byte-separated :
    (d : ℕ) (s tail : List ℕ) (n : ℕ)
    → All (λ (c : ℕ). c ≢ d) s
    → length s < n
    → find_byte d (s ++ d ∷ tail) n ≡ value (some (length s))
unfolding find_byte
find_byte-separated d [] tail zero others h = absurd (omega arith)
find_byte-separated d [] tail (suc n) others h =
    let same : (d == d) ≡ true = ground arith in rw same refl
find_byte-separated d (c ∷ s) tail zero others h = absurd (omega arith)
find_byte-separated d (c ∷ s) tail (suc n) others h =
    let other : (c == d) ≡ false = ground (arith, others.0) in
    rw (other, find_byte-separated d s tail n others.1 (omega arith)) refl

pub drop-separated : (d : ℕ) (s tail : List ℕ) → drop (suc (length s)) (s ++ d ∷ tail) ≡ tail
drop-separated d [] tail = refl
drop-separated d (c ∷ s) tail = drop-separated d s tail

pub drop_first :
    (s : List ℕ) (ss : List (List ℕ)) (rest : List ℕ)
    → drop (suc (length s)) (packed (s ∷ ss) ++ rest) ≡ packed ss ++ rest
drop_first s ss rest =
    ap (drop (suc (length s))) (packed_shape s ss rest) ∙ drop-separated 0 s (packed ss ++ rest)

pub length_first :
    (s : List ℕ) (ss : List (List ℕ))
    → length (packed (s ∷ ss)) - suc (length s) ≡ length (packed ss)
length_first s ss = omega (arith, length-packed s ss)

pub find_first :
    (s : List ℕ) (ss : List (List ℕ)) (rest : List ℕ)
    → IsText s
    → find_byte 0 (packed (s ∷ ss) ++ rest) (length (packed (s ∷ ss))) ≡ value (some (length s))
find_first s ss rest text = rw (packed_shape s ss rest) (
    find_byte-separated 0 s (packed ss ++ rest) (length (packed (s ∷ ss))) text
      (omega (arith, length-packed s ss)))

-- Enough bytes after a string tell it from another by the 0 of either.
pub same_bytes-packed :
    (s str tail : List ℕ)
    → IsText s
    → IsText str
    → same_bytes (take (length (str ++ 0 ∷ [])) (s ++ 0 ∷ tail)) (str ++ 0 ∷ []) ≡ same_bytes s str
unfolding same_bytes
same_bytes-packed [] [] tail s-text str-text = refl
same_bytes-packed [] (d ∷ str) tail s-text str-text =
    let other : (0 == d) ≡ false = ground (arith, str-text.0) in rw other refl
same_bytes-packed (c ∷ s) [] tail s-text str-text =
    let other : (c == 0) ≡ false = ground (arith, s-text.0) in rw other refl
same_bytes-packed (c ∷ s) (d ∷ str) tail s-text str-text =
    ap (λ (b : Bool). (c == d) && b) (same_bytes-packed s str tail s-text.1 str-text.1)

-- Strings of different lengths differ.
pub same_bytes-length : (s str : List ℕ) → length s ≢ length str → same_bytes s str ≡ false
unfolding same_bytes
same_bytes-length [] [] h = absurd (h refl)
same_bytes-length (c ∷ s) [] h = refl
same_bytes-length [] (d ∷ str) h = refl
same_bytes-length (c ∷ s) (d ∷ str) h = elim (Bool-cases (c == d)) [
  | inl y ↦ rw (y, same_bytes-length s str (omega arith)) refl
  | inr n ↦ rw n refl
]

has_string-short :
    (ss : List (List ℕ)) (str : List ℕ)
    → length (packed ss) < length str
    → has_string ss str ≡ false
has_string-short [] str h = refl
has_string-short (s ∷ ss) str h =
    let total = length-packed s ss in
    rw
      (
        same_bytes-length s str (omega (arith, total)),
        has_string-short ss str (omega (arith, total)),
      )
      refl

-- A string and its 0 stand at the start of such a value, if it is the first string.
starts_with-packed :
    (s str tail : List ℕ)
    → IsText s
    → IsText str
    → length str ≤ length s + length tail
    → starts_with (s ++ 0 ∷ tail) (str ++ 0 ∷ []) ≡ value (same_bytes s str)
unfolding starts_with
starts_with-packed s str tail s-text str-text h =
    let room : leb (length (str ++ 0 ∷ [])) (length (s ++ 0 ∷ tail)) ≡ true =
      rw (length-append str (0 ∷ []), length-append s (0 ∷ tail)) (ground arith) in
    rw (room, same_bytes-packed s str tail s-text str-text) refl

contains_loop-packed :
    (n : ℕ) (ss : List (List ℕ)) (str : List ℕ) (z : ℕ) (rest : List ℕ)
    → All IsText ss
    → IsText str
    → 0 < length str
    → length (packed ss) < n
    → contains_loop n (packed ss ++ z ∷ rest) (length (packed ss)) str ≡ value (has_string ss str)
unfolding contains_loop
contains_loop-packed zero ss str z rest texts text some_byte h = absurd (omega arith)
contains_loop-packed (suc n) [] str z rest texts text some_byte h =
    let over : ltb 0 (length str) ≡ true = ground arith in rw over refl
contains_loop-packed (suc n) (s ∷ ss) str z rest texts text some_byte h =
    let tail : List ℕ = packed ss ++ z ∷ rest in
    let total = length-packed s ss in
    let tail_length : length tail ≡ length (packed ss) + suc (length rest) =
      length-append (packed ss) (z ∷ rest) in
    let shape = packed_shape s ss (z ∷ rest) in
    elim (Bool-cases (ltb (length (packed (s ∷ ss))) (length str))) [
      | inl y ↦
          (let over : length (packed (s ∷ ss)) < length str = ground arith in
            rw (y, has_string-short (s ∷ ss) str over) refl)
      | inr m ↦
          let fits : length str ≤ length (packed (s ∷ ss)) = ground arith in
          let start =
            starts_with-packed s str tail texts.0 text (omega (arith, total, tail_length)) in
          elim (Bool-cases (same_bytes s str)) [
            | inl y ↦ rw (m, shape, start, y) refl
            | inr other ↦
                rw
                  (
                    m,
                    shape,
                    start,
                    other,
                    find_byte-separated 0 s tail (length (packed (s ∷ ss))) texts.0
                        (omega (arith, total)),
                    drop_first s ss (z ∷ rest),
                    length_first s ss,
                  )
                  (contains_loop-packed n ss str z rest texts.1 text some_byte
                    (omega (arith, total)))
          ]
    ]

-- For a list of strings without a 0 in them, each followed by a 0, with at least a byte after the
-- list that can be read, and for a string that is not empty and has no 0, `fdt_stringlist_contains`
-- returns whether the string is one of the list.
pub fdt_stringlist_contains-packed :
    (ss : List (List ℕ)) (str : List ℕ) (z : ℕ) (rest : List ℕ)
    → All IsText ss
    → IsText str
    → 0 < length str
    → fdt_stringlist_contains (packed ss ++ z ∷ rest) (length (packed ss)) str
      ≡ value (has_string ss str)
unfolding fdt_stringlist_contains
fdt_stringlist_contains-packed ss str z rest texts text some_byte =
    contains_loop-packed (suc (length (packed ss))) ss str z rest texts text some_byte (omega arith)
