-- ===== src/Kdbg.antt =====
-- kdbg.c: a module that prints the context id at every call of a kernel function, by a kprobe.
pub mod Probe
use dtboverlay.Base.{ℕ, String, List, [], ◌∷◌, Option, none, some, Bool, true, false}
use dtboverlay.Base.Int.{ℤ, pos, is_negative}
use dtboverlay.Base.Control.{Stmt, next, pure, when, ◌>>=◌, ◌>>◌}
use dtboverlay.Trace.{Trace, printk, num}

-- A handler of any module, with the values of CONTEXTIDR_EL1 and `smp_processor_id()` at the hit.
abbrev pub Handler : Type 0
Handler = (contextidr cpu : ℕ) → Stmt Trace ℤ ℤ

unfoldable pub dump_contextidr : Handler
dump_contextidr contextidr cpu t =
    next (pos 0)
      (printk "DEBUG contextidr %x, cpu %u\n" (num (pos contextidr) ∷ num (pos cpu) ∷ []) ∷ t)

-- The members of `struct kprobe` that kdbg.c sets.
pub record Kprobe : Type 0 where
  pub symbol_name : String
  pub pre_handler : Option Handler

-- The initial value of `kp`.
abbrev pub kp : Kprobe
kp = record { symbol_name = "__arm64_sys_getdents64"; pre_handler = none }

-- A kprobe that is registered, and its address.
pub record Registered : Type 0 where
  pub at : ℕ
  pub kprobe : Kprobe

-- The kernel's kprobes: their state, and what registering and unregistering do to it.
pub record Kprobes : Type 1 where
  pub S : Type 0
  pub register_kprobe : ℕ → Kprobe → S → ℤ × S
  pub unregister_kprobe : ℕ → S → S
  -- The kprobes at a symbol, in the order in which they run.
  pub probes : S → String → List Registered

-- `kp` and its address, the kernel's state, and what was printed.
pub record World (S : Type 0) : Type 0 where
  pub kp_at : ℕ
  pub kp : Kprobe
  pub sys : S
  pub trace : Trace

module _ (P : Kprobes) where
  abbrev pub Body : Type 0 → Type 0
  Body A = Stmt (World P.S) ℤ A

  abbrev print : String → Body (Unit {0})
  print format w = next tt (record w { trace = printk format [] ∷ w.trace })

  abbrev register : Body ℤ
  register w =
      let (ret, s) = P.register_kprobe w.kp_at w.kp w.sys in next ret (record w { sys = s })

  unfoldable pub kdbg_init : Body ℤ
  kdbg_init = do
    (λ w. next tt (record w { kp = record (w.kp) { pre_handler = some dump_contextidr } }))
    ret ← register
    when (is_negative ret) (print "register kprobe failed")
    pure ret

  unfoldable pub kdbg_exit : Body (Unit {0})
  kdbg_exit w = next tt (record w { sys = P.unregister_kprobe w.kp_at w.sys })
