-- ===== src/Trace.antt =====
-- What the modules do that can be seen from outside, newest first: the lines that they print and
-- the kernel functions that they call.
use dtboverlay.Base.{ℕ, String, List, ◌∷◌}
use dtboverlay.Base.Int.{ℤ}
use dtboverlay.Base.Control.{Stmt, next}

-- An argument of `printk`.
pub data Arg : Type 0 where
  num : ℤ → Arg
  ptr : ℕ → Arg
  str : String → Arg
  chars : List ℕ → Arg

-- `printk` stands for `pr_info` and `pr_err` too; its format and arguments are kept apart.
pub data Event : Type 0 where
  printk : String → List Arg → Event
  call : String → List Arg → Event

abbrev pub Trace : Type 0
Trace = List Event

-- Adds an event to the trace.
abbrev pub emit : {R : Type 0} → Event → Stmt Trace R (Unit {0})
emit e t = next tt (e ∷ t)
