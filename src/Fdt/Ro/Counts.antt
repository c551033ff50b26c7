-- ===== src/Fdt/Ro/Counts.antt =====
-- The number of strings in a property, the index of one and the string at an index.
use dtboverlay.Base.{
  ℕ, zero, suc, ◌+◌, ◌-◌, ◌<◌, ◌≡◌, ◌≢◌, ◌∙◌, ap, refl, List, [], ◌∷◌, ◌++◌, Option, none, some,
  Bool, false, ◌&&◌, ◌==◌, if◌then◌else◌, Bool-cases, inl, inr, length, length-append, drop,
  drop_add, take, get_elem?, arith, All,
}
use dtboverlay.Base.Int.{ℤ, pos}
use dtboverlay.Fdt.Constants.{failure, notfound}
use dtboverlay.Fdt.Read.{value, Tree, same_bytes, until_nul, string_at}
use dtboverlay.Fdt.Ro.Props.{fdt_getprop}
use dtboverlay.Fdt.Ro.Lists.{
  next_string, count_loop, search_loop, get_loop, bytes_from, fdt_stringlist_count,
  fdt_stringlist_search, fdt_stringlist_get,
}
use dtboverlay.Fdt.Ro.Strings.{
  IsText, packed, length-packed, packed_shape, drop_first, length_first, find_first,
  same_bytes-packed, same_bytes-length,
}

-- The index of the first of the strings with the bytes of `str`, if any, counted from `idx`.
abbrev pub index_from : ℕ → List (List ℕ) → List ℕ → Option ℕ
index_from idx [] str = none
index_from idx (s ∷ ss) str = if same_bytes s str then some idx else index_from (idx + 1) ss str

next_string-packed :
    (s : List ℕ) (ss : List (List ℕ)) (rest : List ℕ)
    → IsText s
    → next_string (packed (s ∷ ss) ++ rest) (length (packed (s ∷ ss)))
      ≡ value (some (suc (length s)))
unfolding next_string
next_string-packed s ss rest text = rw (find_first s ss rest text) refl

some_left : (s : List ℕ) (ss : List (List ℕ)) → (length (packed (s ∷ ss)) == 0) ≡ false
some_left s ss = ground (arith, length-packed s ss)

count_loop-packed :
    (n : ℕ) (ss : List (List ℕ)) (rest : List ℕ) (count : ℕ)
    → All IsText ss
    → length (packed ss) < n
    → count_loop n (packed ss ++ rest) (length (packed ss)) count ≡ value (pos (count + length ss))
unfolding count_loop
count_loop-packed zero ss rest count texts h = absurd (omega arith)
count_loop-packed (suc n) [] rest count texts h = ap (λ (c : ℕ). value (pos c)) (omega arith)
count_loop-packed (suc n) (s ∷ ss) rest count texts h =
    rw
      (
        some_left s ss,
        next_string-packed s ss rest texts.0,
        drop_first s ss rest,
        length_first s ss,
      )
      (count_loop-packed n ss rest (count + 1) texts.1 (omega (arith, length-packed s ss))
        ∙ ap (λ (c : ℕ). value (pos c)) (omega arith))

-- The test of `fdt_stringlist_search` at a string.
abbrev matches : ℕ → List ℕ → List ℕ → Bool
matches len xs string = len == length string + 1 && same_bytes (take len xs) (string ++ 0 ∷ [])

matches-packed :
    (s : List ℕ) (ss : List (List ℕ)) (rest str : List ℕ)
    → IsText s
    → IsText str
    → matches (suc (length s)) (packed (s ∷ ss) ++ rest) str ≡ same_bytes s str
matches-packed s ss rest str text str-text = elim (Bool-cases (suc (length s) == length str + 1)) [
  | inl y ↦
      let same : suc (length s) ≡ length (str ++ 0 ∷ []) =
        rw (length-append str (0 ∷ [])) (ground arith) in
      rw (y, same, packed_shape s ss rest)
        (same_bytes-packed s str (packed ss ++ rest) text str-text)
  | inr n ↦
      let differ : length s ≢ length str = ground arith in
      rw (n, same_bytes-length s str differ) refl
]

search_loop-packed :
    (n : ℕ) (ss : List (List ℕ)) (rest str : List ℕ) (idx : ℕ)
    → All IsText ss
    → IsText str
    → length (packed ss) < n
    → search_loop n (packed ss ++ rest) (length (packed ss)) str idx
      ≡ value (elim (index_from idx ss str) [ none ↦ failure notfound | some i ↦ pos i ])
unfolding search_loop
search_loop-packed zero ss rest str idx texts text h = absurd (omega arith)
search_loop-packed (suc n) [] rest str idx texts text h = refl
search_loop-packed (suc n) (s ∷ ss) rest str idx texts text h =
    let here = matches-packed s ss rest str texts.0 text in
    elim (Bool-cases (same_bytes s str)) [
      | inl y ↦ rw (some_left s ss, next_string-packed s ss rest texts.0, here, y) refl
      | inr m ↦
          rw
            (
              some_left s ss,
              next_string-packed s ss rest texts.0,
              here,
              m,
              drop_first s ss rest,
              length_first s ss,
            )
            (search_loop-packed n ss rest str (idx + 1) texts.1 text
              (omega (arith, length-packed s ss)))
    ]

pub until_nul-packed : (s tail : List ℕ) → IsText s → until_nul (s ++ 0 ∷ tail) ≡ value s
unfolding until_nul
until_nul-packed [] tail text = refl
until_nul-packed (c ∷ s) tail text =
    let other : (c == 0) ≡ false = ground (arith, text.0) in
    rw (other, until_nul-packed s tail text.1) refl

get_loop-packed :
    (n : ℕ) (ss : List (List ℕ)) (rest : List ℕ) (list i : ℕ) (str : List ℕ)
    → All IsText ss
    → get_elem? ss i ≡ some str
    → length (packed ss) < n
    → (k : ℕ) × (get_loop n list (packed ss ++ rest) (length (packed ss)) (pos i)
        ≡ value (some (list + k), pos (length str)))
      × (until_nul (drop k (packed ss ++ rest)) ≡ value str)
unfolding get_loop
get_loop-packed zero ss rest list i str texts is h = absurd (omega arith)
get_loop-packed (suc n) [] rest list i str texts is h = absurd (cc is)
get_loop-packed (suc n) (s ∷ ss) rest list zero str texts is h =
    let same : s ≡ str = cc is in
    (
      0,
      rw (some_left s ss, next_string-packed s ss rest texts.0)
          (ap (λ (n : ℕ). value (some list, pos n))
              (let e : suc (length s) - 1 ≡ length s = omega arith in e ∙ ap length same)
            ∙ ap (λ (q : ℕ). value (some q, pos (length str))) (omega arith)),
      rw (packed_shape s ss rest)
          (until_nul-packed s (packed ss ++ rest) texts.0 ∙ ap (λ (r : List ℕ). value r) same),
    )
get_loop-packed (suc n) (s ∷ ss) rest list (suc i) str texts is h =
    let (k, e, back) =
      get_loop-packed n ss rest (list + suc (length s)) i str texts.1 is
        (omega (arith, length-packed s ss)) in
    let later : (suc i == 0) ≡ false = ground arith in
    (
      suc (length s) + k,
      rw
          (
            some_left s ss,
            next_string-packed s ss rest texts.0,
            later,
            drop_first s ss rest,
            length_first s ss,
          )
          (e ∙ ap (λ (q : ℕ). value (some q, pos (length str))) (omega arith)),
      ap until_nul (
            drop_add (suc (length s)) k (packed (s ∷ ss) ++ rest)
            ∙ ap (drop k) (drop_first s ss rest))
          ∙ back,
    )

-- A property that `fdt_getprop` finds, and whose value, at `p`, is such strings.
pub record HoldsStrings (t : Tree) (nodeoffset : ℤ) (property : List ℕ) (p : ℕ) (ss : List (List ℕ))
    (rest : List ℕ) : Type 0 where
  pub found : fdt_getprop t nodeoffset property ≡ value (some p, pos (length (packed ss)))
  pub content : bytes_from t p ≡ packed ss ++ rest
  pub texts : All IsText ss

module _ {t : Tree} {nodeoffset : ℤ} {property : List ℕ} {p : ℕ} {ss : List (List ℕ)}
    {rest : List ℕ} (holds : HoldsStrings t nodeoffset property p ss rest) where
  open holds use {found, content, texts}

  -- If `fdt_getprop` finds a property and its value is a list of strings without a 0 in them, each
  -- followed by a 0, `fdt_stringlist_count` returns their number.
  pub fdt_stringlist_count-packed :
      fdt_stringlist_count t nodeoffset property ≡ value (pos (length ss))
  unfolding fdt_stringlist_count
  fdt_stringlist_count-packed =
      rw (found, content)
        (count_loop-packed (suc (length (packed ss))) ss rest 0 texts (omega arith)
          ∙ ap (λ (c : ℕ). value (pos c)) (omega arith))

  -- If `fdt_getprop` finds a property and its value is a list of strings without a 0 in them, each
  -- followed by a 0, `fdt_stringlist_search` for a string with no 0 returns the index of the first
  -- of them with its bytes, or NOTFOUND if there is none.
  pub fdt_stringlist_search-packed :
      (str : List ℕ)
      → IsText str
      → fdt_stringlist_search t nodeoffset property str
        ≡ value (elim (index_from 0 ss str) [ none ↦ failure notfound | some i ↦ pos i ])
  unfolding fdt_stringlist_search
  fdt_stringlist_search-packed str text =
      rw (found, content)
        (search_loop-packed (suc (length (packed ss))) ss rest str 0 texts text (omega arith))

  -- If `fdt_getprop` finds a property and its value is a list of strings without a 0 in them, each
  -- followed by a 0, `fdt_stringlist_get` with the index of one of them gives its length and a
  -- pointer at which the C string is that string.
  pub fdt_stringlist_get-packed :
      (i : ℕ) (s : List ℕ)
      → get_elem? ss i ≡ some s
      → (q : ℕ) × (fdt_stringlist_get t nodeoffset property (pos i)
          ≡ value (some q, pos (length s)))
        × (string_at t q ≡ value s)
  unfolding fdt_stringlist_get
  fdt_stringlist_get-packed i s is =
      let (k, e, back) =
        get_loop-packed (suc (length (packed ss))) ss rest p i s texts is (omega arith) in
      (
        p + k,
        rw (found, content) e,
        ap until_nul (drop_add p k t.blob.bytes ∙ ap (drop k) content) ∙ back,
      )
