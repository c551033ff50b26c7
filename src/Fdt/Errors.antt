-- ===== src/Fdt/Errors.antt =====
-- The texts of `fdt_strerror` of libfdt/fdt_strerror.c against the names of the errors in
-- libfdt/libfdt.h.
use text.Mathlib.Text.{◌==◌}
use native.Mathlib.Decide.{dec_lt}
use dtboverlay.Base.{
  ℕ, suc, ◌≤◌, ◌-◌, ◌^◌, ◌<◌, ◌≡◌, ◌⊎◌, inl, inr, refl, ltb, true, false, arith, String, List, [],
  ◌∷◌, Option, none, some, if◌then◌else◌, Bool-cases, Option-cases, Bool, ap,
}
use dtboverlay.Base
use dtboverlay.Base.Every.{every, every_at}
use dtboverlay.Base.Int.{ℤ, pos, negsuc, magnitude, negate}
use dtboverlay.Fdt.Read.{Read, value}
use dtboverlay.Fdt.Strerror.{fdt_errtable, fdt_strerror, fdt_errtabsize}

-- The macros of libfdt/libfdt.h for the errors: a name and its value.
abbrev pub macros : List (String × ℕ)
macros =
    ("FDT_ERR_NOTFOUND", 1)
    ∷ ("FDT_ERR_EXISTS", 2)
    ∷ ("FDT_ERR_NOSPACE", 3)
    ∷ ("FDT_ERR_BADOFFSET", 4)
    ∷ ("FDT_ERR_BADPATH", 5)
    ∷ ("FDT_ERR_BADPHANDLE", 6)
    ∷ ("FDT_ERR_BADSTATE", 7)
    ∷ ("FDT_ERR_TRUNCATED", 8)
    ∷ ("FDT_ERR_BADMAGIC", 9)
    ∷ ("FDT_ERR_BADVERSION", 10)
    ∷ ("FDT_ERR_BADSTRUCTURE", 11)
    ∷ ("FDT_ERR_BADLAYOUT", 12)
    ∷ ("FDT_ERR_INTERNAL", 13)
    ∷ ("FDT_ERR_BADNCELLS", 14)
    ∷ ("FDT_ERR_BADVALUE", 15)
    ∷ ("FDT_ERR_BADOVERLAY", 16)
    ∷ ("FDT_ERR_NOPHANDLES", 17)
    ∷ ("FDT_ERR_BADFLAGS", 18)
    ∷ ("FDT_ERR_ALIGNMENT", 19)
    ∷ []

abbrev lookup : String → List (String × ℕ) → Option ℕ
lookup s [] = none
lookup s ((name, v) ∷ rest) = if s == name then some v else lookup s rest

-- The value of a name.
unfoldable pub macro_value : String → Option ℕ
macro_value s = lookup s macros

-- What a text says of the `int` that it was asked for.
abbrev pub Says : ℤ → String → Type 0
Says (pos n) s = ((n ≡ 0) × (s ≡ "<no error>")) ⊎ ((0 < n) × (s ≡ "<valid offset/length>"))
Says (negsuc k) s =
    ((k < 19) × (macro_value s ≡ some (suc k))) ⊎ ((19 ≤ k) × (s ≡ "<unknown error>"))

abbrev is_value : Option ℕ → ℕ → Bool
is_value none n = false
is_value (some v) n = Base.◌==◌ v n

is_value_lem : (o : Option ℕ) (n : ℕ) → is_value o n ≡ true → o ≡ some n
is_value_lem none n h = absurd (cc h)
is_value_lem (some v) n h = let same : v ≡ n = ground arith in ap some same

-- Whether a result is the name of a number.
abbrev is_name : Read String → ℕ → Bool
is_name (Read.value s) n = is_value (macro_value s) n
is_name Read.outside n = false
is_name Read.spent n = false

is_name_lem :
    (r : Read String) (n : ℕ)
    → is_name r n ≡ true
    → (s : String) × (r ≡ value s) × (macro_value s ≡ some n)
is_name_lem (Read.value s) n h = (s, refl, is_value_lem (macro_value s) n h)
is_name_lem Read.outside n h = absurd (cc h)
is_name_lem Read.spent n h = absurd (cc h)

all_names : every 19 (λ k. is_name (fdt_strerror (negsuc k)) (suc k)) ≡ true
unfolding fdt_strerror fdt_errtable macro_value
all_names = refl

known :
    (k : ℕ)
    → k < 19
    → (s : String) × (fdt_strerror (negsuc k) ≡ value s) × (macro_value s ≡ some (suc k))
known k low =
    is_name_lem (fdt_strerror (negsuc k)) (suc k)
      (every_at 19 (λ j. is_name (fdt_strerror (negsuc j)) (suc j)) all_names k low)

unknown : (k : ℕ) → 19 ≤ k → k < 2 ^ 31 - 1 → fdt_strerror (negsuc k) ≡ value "<unknown error>"
unfolding fdt_strerror
unknown k h small =
    let other : (Base.◌==◌ k (2 ^ 31 - 1)) ≡ false = ground arith in
    let beyond : ltb (suc k) fdt_errtabsize ≡ false = ground arith in rw (other, beyond) refl

valid : (n : ℕ) → (s : String) × (fdt_strerror (pos n) ≡ value s) × Says (pos n) s
unfolding fdt_strerror
valid n = elim (Bool-cases (Base.◌==◌ n 0)) [
  | inl y ↦ rw y ("<no error>", refl, inl (ground arith, refl))
  | inr m ↦ rw m ("<valid offset/length>", refl, inr (ground arith, refl))
]

-- `fdt_strerror` returns for each `int` but the least: "<no error>" for 0, "<valid offset/length>"
-- for a number above it, for -1 to -19 the name that libfdt.h gives to the error of that number,
-- and "<unknown error>" for every number below.
pub fdt_strerror_lem :
    (errval : ℤ)
    → magnitude (negate errval) < 2 ^ 31
    → (s : String) × (fdt_strerror errval ≡ value s) × Says errval s
fdt_strerror_lem (pos n) small = valid n
fdt_strerror_lem (negsuc k) small = elim (dec_lt k 19) [
  | yes low ↦ let (s, e, is) = known k low in (s, e, inl (low, is))
  | no high ↦ ("<unknown error>", unknown k (omega arith) (omega arith), inr (omega arith, refl))
]
