-- ===== src/OfCheck.antt =====
-- ofcheck.c: a module that prints the name of the root node, and a helper that indents one.
pub mod Indent
use dtboverlay.Base.{
  ℕ, zero, suc, ◌+◌, String, List, [], ◌∷◌, Option, none, some, ◌==◌, if◌then◌else◌, set, replicate,
  get_elem?, length,
}
use mathlib.Core.Option
use dtboverlay.Base.Int.{ℤ, pos, negsuc}
use dtboverlay.Base.Control.{Run, Stmt, next, fault, pure, crash, ◌>>=◌, ◌>>◌}
use dtboverlay.Trace.{Trace, printk, str, chars, emit}

-- `(i < depth) ? depth - i : 0` rounds of the loop that starts at 0.
abbrev pub rounds : ℤ → ℕ
rounds (pos n) = n
rounds (negsuc n) = 0

-- An access to an element that may not exist.
abbrev pub in_bounds : {R A : Type 0} → Option ℕ → Stmt Trace R A → Stmt Trace R A
in_bounds none m = crash
in_bounds (some _) m = m

-- `buf[i] = ' '` for `i`, `i + 1`, …, a fault outside `buf`.
unfoldable pub indent_loop : {R : Type 0} → ℕ → ℕ → List ℕ → Stmt Trace R (List ℕ)
indent_loop zero i buf = pure buf
indent_loop (suc n) i buf =
    let rest = indent_loop n (i + 1) (set buf i b' ') in in_bounds (get_elem? buf i) rest

-- The text that `%s` prints: up to the first 0, a fault if there is none in the array.
unfoldable pub c_string : List ℕ → Option (List ℕ)
c_string [] = none
c_string (c ∷ buf) =
    let rest = c_string buf in if c == 0 then some [] else Option.map (λ s. c ∷ s) rest

-- `printk("%s> %s", buf, n->name)`
abbrev pub print_name : Option (List ℕ) → String → Stmt Trace (Unit {0}) (Unit {0})
print_name none name = crash
print_name (some indent) name = emit (printk "%s> %s" (chars indent ∷ str name ∷ []))

-- `dump_recurse`: a node is a null pointer, or is given by its name.
unfoldable pub dump_recurse : Option String → ℤ → Stmt Trace (Unit {0}) (Unit {0})
dump_recurse none depth = pure tt
dump_recurse (some name) depth = do
  buf ← indent_loop (rounds depth) 0 (replicate 256 0)
  print_name (c_string buf) name

-- `of_check_init`: `of_root` is a null pointer, or is given by its name.
unfoldable pub of_check_init : Option String → Stmt Trace ℤ ℤ
of_check_init none = crash
of_check_init (some name) = do emit (printk "DTB root %s\n" (str name ∷ [])); pure (pos 0)
