-- ===== src/Tests/OtherRuns.antt =====
-- The results on ofcheck.c, kdbg.c and the texts of the errors at small inputs.
use text.Mathlib.Text.{◌==◌}
use text.Mathlib.TextEquality.{eq_iff}
use dtboverlay.Base.{
  ℕ, String, ◌≡◌, ◌<◌, ◌^◌, refl, List, [], ◌∷◌, ◌++◌, some, none, arith, Bool-cases, inl, inr,
  replicate, if◌then◌else◌, Bool, false, ◌||◌,
}
use dtboverlay.Base
use dtboverlay.Base.Int.{pos, negsuc}
use dtboverlay.Base.Control.{next, fault, ◌>>◌}
use dtboverlay.Trace.{chars, str, num, printk}
use dtboverlay.OfCheck.{dump_recurse, of_check_init}
use dtboverlay.OfCheck.Indent.{dump_recurse_indents, dump_recurse_faults}
use dtboverlay.Kdbg.{Registered, Kprobes, World, kp, kdbg_init, kdbg_exit}
use dtboverlay.Kdbg.Probe.{IsLawful, IsFree, without, hit, kdbg_init_exit}
use dtboverlay.Fdt.Read.{value}
use dtboverlay.Fdt.Strerror.{fdt_strerror}
use dtboverlay.Fdt.Errors.{Says, fdt_strerror_lem}

dump_recurse_indents_example :
    dump_recurse (some "soc") (pos 3) []
    ≡ next tt (printk "%s> %s" (chars (replicate 3 b' ') ∷ str "soc" ∷ []) ∷ [])
dump_recurse_indents_example = dump_recurse_indents "soc" (pos 3) [] (omega arith)

dump_recurse_faults_example : dump_recurse (some "soc") (pos 300) [] ≡ fault
dump_recurse_faults_example = dump_recurse_faults "soc" (pos 300) [] (omega arith)

-- The probes of each symbol.
abbrev Table : Type 0
Table = String → List Registered

abbrev has_probe : ℕ → List Registered → Bool
has_probe at [] = false
has_probe at (p ∷ ps) = Base.◌==◌ p.at at || has_probe at ps

has_probe-IsFree : (at : ℕ) (ps : List Registered) → has_probe at ps ≡ false → IsFree at ps
has_probe-IsFree at [] h = tt
has_probe-IsFree at (p ∷ ps) h = (ground arith, has_probe-IsFree at ps (ground arith))

abbrev set_probes : Table → String → List Registered → Table
set_probes t symbol ps q = if q == symbol then ps else t q

-- No kprobe is registered twice at a symbol.
abbrev table : Kprobes
table = record {
  S = Table;
  register_kprobe = λ at k t.
      if has_probe at (t k.symbol_name)
      then (negsuc 21, t)
      else (pos 0, set_probes t k.symbol_name (record { at = at; kprobe = k } ∷ t k.symbol_name));
  unregister_kprobe = λ at t symbol. without at (t symbol);
  probes = λ t symbol. t symbol;
}

set_probes_lem :
    (t : Table) (symbol : String) (ps : List Registered) → set_probes t symbol ps symbol ≡ ps
set_probes_lem t symbol ps = rw ((eq_iff symbol symbol).1 refl)

table-IsLawful : IsLawful table
table-IsLawful = record {
  registered = λ at k s r ok. elim (Bool-cases (has_probe at (s k.symbol_name))) [
    | inl e ↦ (let bad = rw e at ok in absurd (cc bad))
    | inr e ↦ ([], s k.symbol_name, refl, rw e (set_probes_lem s k.symbol_name _))
  ];
  fresh = λ at k s r ok. elim (Bool-cases (has_probe at (s k.symbol_name))) [
    | inl e ↦ (let bad = rw e at ok in absurd (cc bad))
    | inr e ↦ has_probe-IsFree at (s k.symbol_name) e
  ];
  refused = λ at k s e symbol bad. elim (Bool-cases (has_probe at (s k.symbol_name))) [
    | inl e ↦ rw e refl
    | inr e ↦ (let bad = rw e at bad in absurd (cc bad))
  ];
  unregistered = λ at s symbol. refl;
}

-- A probe of another module, whose handler lets no other run after it.
abbrev blocking : Registered
blocking = record {
  at = 5;
  kprobe = record {
    symbol_name = kp.symbol_name;
    pre_handler = some (λ contextidr cpu t. next (pos 1) (printk "other" [] ∷ t));
  };
}

abbrev unloaded : World Table
unloaded = record { kp_at = 9; kp = kp; sys = λ symbol. blocking ∷ []; trace = [] }

kdbg_init_exit_example :
    (ps qs : List Registered) × (w1 w2 : World Table) × (blocking ∷ [] ≡ ps ++ qs)
    × (kdbg_init table unloaded ≡ next (pos 0) w1)
    × (w1.trace ≡ [])
    × (hit 7 1 (w1.sys kp.symbol_name) []
        ≡ (hit 7 1 ps >> λ t.
              hit 7 1 qs
                (printk "DEBUG contextidr %x, cpu %u\n" (num (pos 7) ∷ num (pos 1) ∷ []) ∷ t))
            [])
    × (hit 7 1 (blocking ∷ []) [] ≡ (hit 7 1 ps >> hit 7 1 qs) [])
    × (kdbg_exit table w1 ≡ next tt w2)
    × (w2.sys kp.symbol_name ≡ blocking ∷ [])
kdbg_init_exit_example = kdbg_init_exit table-IsLawful unloaded 7 1 [] refl

fdt_strerror_lem_example : (s : String) × (fdt_strerror (negsuc 11) ≡ value s) × Says (negsuc 11) s
fdt_strerror_lem_example = fdt_strerror_lem (negsuc 11) (omega arith)

of_check_init_names_root :
    of_check_init (some "/") [] ≡ next (pos 0) (printk "DTB root %s\n" (str "/" ∷ []) ∷ [])
unfolding of_check_init
of_check_init_names_root = refl
