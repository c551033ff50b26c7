-- ===== src/OfCheck/Indent.antt =====
-- How far `dump_recurse` of ofcheck.c may indent.
use dtboverlay.Base.{
  ℕ, zero, suc, ◌+◌, ◌-◌, ◌≤◌, ◌<◌, ◌≡◌, refl, String, List, [], ◌∷◌, ◌++◌, none, some, arith, set,
  replicate, get_elem?, ap, ◌∙◌,
}
use native.Mathlib.Decide.{dec_lt}
use native.Mathlib.Numerals.{add-one}
use dtboverlay.Base.Int.{ℤ}
use dtboverlay.Base.Control.{next, fault}
use dtboverlay.Trace.{Trace, printk, str, chars}
use dtboverlay.OfCheck.{rounds, indent_loop, c_string, dump_recurse}

abbrev space : ℕ
space = b' '

-- `i` spaces, then `k` zeros.
abbrev indented : ℕ → ℕ → List ℕ
indented i k = replicate i space ++ replicate k 0

at_end : (i k : ℕ) → get_elem? (indented i (suc k)) i ≡ some 0
at_end zero k = refl
at_end (suc i) k = at_end i k

past_end : (i : ℕ) → get_elem? (indented i 0) i ≡ none
past_end zero = refl
past_end (suc i) = past_end i

set_end : (i k : ℕ) → set (indented i (suc k)) i space ≡ indented (suc i) k
set_end zero k = refl
set_end (suc i) k = ap {B = List ℕ} (λ (l : List ℕ). space ∷ l) (set_end i k)

-- One round at the first of the zeros, and one past the last.
module _ (n i k : ℕ) (t : Trace) where
  indent_step :
      indent_loop {R = Unit {0}} (suc n) i (indented i (suc k)) t
      ≡ indent_loop n (suc i) (indented (suc i) k) t
  unfolding indent_loop
  indent_step = rw (indent_loop, at_end i k, set_end i k, add-one)

  indent_past : indent_loop {R = Unit {0}} (suc n) i (indented i 0) t ≡ fault
  unfolding indent_loop
  indent_past = rw (indent_loop, past_end i)

-- The loop turns zeros into spaces, as long as there are any.
indent_loop_lem :
    (n i k j m : ℕ) (t : Trace)
    → m ≡ n + k
    → j ≡ i + n
    → indent_loop {R = Unit {0}} n i (indented i m) t ≡ next (indented j k) t
unfolding indent_loop
indent_loop_lem zero i k j m t left right =
    let e : m ≡ k = omega arith in let f : j ≡ i = omega arith in rw (e, f)
indent_loop_lem (suc n) i k j zero t left right = absurd (omega arith)
indent_loop_lem (suc n) i k j (suc m) t left right =
    indent_step n i m t ∙ indent_loop_lem n (suc i) k j m t (omega arith) (omega arith)

-- More rounds than there are zeros write past the end.
indent_loop_fault :
    (n i m : ℕ) (t : Trace) → m < n → indent_loop {R = Unit {0}} n i (indented i m) t ≡ fault
indent_loop_fault zero i m t h = absurd (omega arith)
indent_loop_fault (suc n) i zero t h = indent_past n i 0 t
indent_loop_fault (suc n) i (suc m) t h =
    indent_step n i m t ∙ indent_loop_fault n (suc i) m t (omega arith)

c_string-indented : (n k : ℕ) → c_string (indented n (suc k)) ≡ some (replicate n space)
unfolding c_string
c_string-indented zero k = refl
c_string-indented (suc n) k = rw (c_string-indented n k)

c_string_full : (n : ℕ) → c_string (indented n 0) ≡ none
unfolding c_string
c_string_full zero = refl
c_string_full (suc n) = rw (c_string_full n)

module _ (name : String) (depth : ℤ) (t : Trace) where
  -- For a node that is given, and a depth below 256, `dump_recurse` prints its name behind as many
  -- spaces as the depth, and behind none if the depth is negative.
  pub dump_recurse_indents :
      rounds depth < 256
      → dump_recurse (some name) depth t
        ≡ next tt (printk "%s> %s" (chars (replicate (rounds depth) space) ∷ str name ∷ []) ∷ t)
  unfolding dump_recurse
  dump_recurse_indents h =
      let n = rounds depth in
      rw (
        indent_loop_lem n 0 (suc (255 - n)) n 256 t (omega arith) (omega arith),
        c_string-indented n (255 - n),
      )

  -- For a node that is given, and a depth of 256 or more, `dump_recurse` writes or reads past the
  -- end of its array.
  pub dump_recurse_faults : 256 ≤ rounds depth → dump_recurse (some name) depth t ≡ fault
  unfolding dump_recurse
  dump_recurse_faults h =
      let n = rounds depth in
      elim (dec_lt 256 n) [
        | yes past ↦ rw (indent_loop_fault n 0 256 t past)
        | no fits ↦ rw (indent_loop_lem n 0 0 n 256 t (omega arith) (omega arith), c_string_full n)
      ]
