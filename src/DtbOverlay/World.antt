-- ===== src/DtbOverlay/World.antt =====
-- The state of dtboverlay.c, and the steps that its functions are made of.
use dtboverlay.Base.{
  ◌≡◌, refl, sym, ◌∙◌, inl, inr, arith, Option-cases, String, List, ◌∷◌, Option, none, some, ◌==◌,
  if◌then◌else◌,
}
use dtboverlay.Base.Int.{ℤ}
use dtboverlay.Base.Control.{Goes, Run, Stmt, next, exit, fault, ◌>>=◌}
use dtboverlay.Trace.{Arg, printk, call, Trace}
use dtboverlay.Kernel.{Shared, Ptr, null, DeviceNode, update, Op}

-- The static variables `dtbpath`, `kp` (its address) and `ovcsid`, what is shared with the kernel, and
-- what was printed and called so far.
pub record World (S : Type 0) : Type 0 where
  pub dtbpath : Option String
  pub kp_addr : Ptr
  pub ovcsid : ℤ
  pub shared : Shared S
  pub trace : Trace

-- The field `.symbol_name` of `kp`.
abbrev pub kp_symbol_name : String
kp_symbol_name = "kallsyms_lookup_name"

module _ {S R : Type 0} where
  -- A line of `printk`, `pr_info` or `pr_err`.
  abbrev pub print : String → List Arg → Stmt (World S) R (Unit {0})
  print format args w = next tt (record w { trace = printk format args ∷ w.trace })

  -- A call of a kernel function, noted in the trace.
  abbrev pub sys : {A : Type 0} → String → List Arg → Op S A → Stmt (World S) R A
  sys name args op w = elim (op w.shared) [
    | none ↦ fault
    | some (a, s) ↦ next a (record w { shared = s; trace = call name args ∷ w.trace })
  ]

  -- A read of a static or shared variable.
  abbrev pub get : {A : Type 0} → (World S → A) → Stmt (World S) R A
  get f w = next (f w) w

  -- An assignment to a static or shared variable.
  abbrev pub modify : (World S → World S) → Stmt (World S) R (Unit {0})
  modify f w = next tt (f w)

  -- `*p` for a device node, a fault for a null or dangling pointer.
  unfoldable pub load_node : Ptr → Stmt (World S) R DeviceNode
  load_node p w =
      if p == null then fault else elim (w.shared.node p) [ none ↦ fault | some n ↦ next n w ]

  -- Assignments to members of `*p`.
  unfoldable pub store_node : Ptr → (DeviceNode → DeviceNode) → Stmt (World S) R (Unit {0})
  store_node p f = do
    n ← load_node p
    modify (λ w. record w {
      shared = record (w.shared) { node = update (w.shared.node) p (some (f n)) };
    })

  -- A member that was never assigned is not read.
  abbrev pub defined : {A : Type 0} → Option A → Stmt (World S) R A
  defined none w = fault
  defined (some a) w = next a w

  -- A function of libfdt, which only prints.
  abbrev pub traced : {A : Type 0} → Run Trace A A → (Trace → World S) → Run (World S) R A
  traced (next a t) f = next a (f t)
  traced (exit a t) f = next a (f t)
  traced fault f = fault

  abbrev pub from_trace : {A : Type 0} → Stmt Trace A A → Stmt (World S) R A
  from_trace m w = traced (m w.trace) (λ t. record w { trace = t })

  traced-Goes : {A : Type 0} (r : Run Trace A A) (f : Trace → World S) → Goes (traced r f)
  traced-Goes (next a t) f = inl (a, f t, refl)
  traced-Goes (exit a t) f = inl (a, f t, refl)
  traced-Goes fault f = inr refl

  -- A call whose result is known.
  pub sys-next :
      {A : Type 0} (name : String) (args : List Arg) (op : Op S A) (w : World S) {a : A}
      {s : Shared S}
      → op w.shared ≡ some (a, s)
      → sys name args op w ≡ next a (record w { shared = s; trace = call name args ∷ w.trace })
  sys-next name args op w e = rw (e, sys)

  pub sys-fault :
      {A : Type 0} (name : String) (args : List Arg) (op : Op S A) (w : World S)
      → op w.shared ≡ none
      → sys name args op w ≡ fault
  sys-fault name args op w e = rw (e, sys)

  -- A call that goes through had a result.
  pub sys-next_inv :
      {A : Type 0} (name : String) (args : List Arg) (op : Op S A) (w : World S) {a : A}
      {w' : World S}
      → sys name args op w ≡ next a w'
      → (s : Shared S) × (op w.shared ≡ some (a, s))
        × (w' ≡ record w { shared = s; trace = call name args ∷ w.trace })
  sys-next_inv name args op w {a} {w'} h = elim (Option-cases (op w.shared)) [
    | inl e ↦ absurd (ground (arith, h, sys-fault name args op w e))
    | inr ((x, s), e) ↦ let same = sym (sys-next name args op w e) ∙ h in (s, cc (same, e), cc same)
  ]

  pub from_trace-Goes :
      {A : Type 0} (m : Stmt Trace A A) (w : World S) → Goes (from_trace {A = A} m w)
  from_trace-Goes {A} m w = traced-Goes (m w.trace) (λ t. record w { trace = t })

  pub sys-Goes :
      {A : Type 0} (name : String) (args : List Arg) (op : Op S A) (w : World S)
      → Goes (sys name args op w)
  sys-Goes name args op w = elim (Option-cases (op w.shared)) [
    | inl e ↦ inr (sys-fault name args op w e)
    | inr ((a, s), e) ↦ inl (_, _, sys-next name args op w e)
  ]
