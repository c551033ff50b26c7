-- ===== src/Kdbg/Probe.antt =====
-- What runs at a symbol between `kdbg_init` and `kdbg_exit` of kdbg.c, and after it.
use dtboverlay.Base.{
  ℕ, String, List, [], ◌∷◌, ◌++◌, ◌≡◌, refl, sym, ap, ◌∙◌, Option, none, some, true, false,
  Bool-cases, inl, inr, if◌then◌else◌, ◌==◌, ◌≢◌, All, arith,
}
use dtboverlay.Base.Int.{ℤ, pos, negsuc, eq_test}
use dtboverlay.Base.Control.{
  Run, Stmt, next, exit, fault, finish, pure, exit_with, and_then, ◌>>=◌, ◌>>◌,
}
use dtboverlay.Trace.{Trace, printk, num}
use dtboverlay.Kdbg.{
  Handler, dump_contextidr, Kprobe, Registered, Kprobes, World, kdbg_init, kdbg_exit,
}

-- The probes but for those at an address.
abbrev pub without : ℕ → List Registered → List Registered
without at [] = []
without at (p ∷ ps) = let rest = without at ps in if p.at == at then rest else p ∷ rest

-- No probe is at the address.
abbrev pub IsFree : ℕ → List Registered → Type 0
IsFree at ps = All (λ p. p.at ≢ at) ps

-- What kprobes promise. A kprobe that is registered is one more at its symbol, and was not registered
-- before; one that is refused changes nothing; and one that is unregistered is taken from its symbol.
pub record IsLawful (P : Kprobes) : Type 0 where
  pub registered :
      (at : ℕ) (k : Kprobe) (s : P.S) (r : ℕ)
      → (P.register_kprobe at k s).0 ≡ pos r
      → (ps qs : List Registered) × (P.probes s k.symbol_name ≡ ps ++ qs)
        × (P.probes (P.register_kprobe at k s).1 k.symbol_name
            ≡ ps ++ record { at = at; kprobe = k } ∷ qs)
  pub fresh :
      (at : ℕ) (k : Kprobe) (s : P.S) (r : ℕ)
      → (P.register_kprobe at k s).0 ≡ pos r
      → IsFree at (P.probes s k.symbol_name)
  pub refused :
      (at : ℕ) (k : Kprobe) (s : P.S) (e : ℕ) (symbol : String)
      → (P.register_kprobe at k s).0 ≡ negsuc e
      → P.probes (P.register_kprobe at k s).1 symbol ≡ P.probes s symbol
  pub unregistered :
      (at : ℕ) (s : P.S) (symbol : String)
      → P.probes (P.unregister_kprobe at s) symbol ≡ without at (P.probes s symbol)

-- What follows a handler may be split in two.
then_append :
    (r : Run Trace ℤ ℤ) (first second whole : Stmt Trace ℤ ℤ)
    → ((t : Trace) → whole t ≡ (first >> second) t)
    → and_then r (λ v. if eq_test v (pos 0) then whole else exit_with v)
      ≡ and_then (and_then r (λ v. if eq_test v (pos 0) then first else exit_with v)) (λ _. second)
then_append (next v t) first second whole h = elim (Bool-cases (eq_test v (pos 0))) [
  | inl zero ↦ rw zero (h t)
  | inr stop ↦ rw stop refl
]
then_append (exit v t) first second whole h = refl
then_append fault first second whole h = refl

module _ (contextidr cpu : ℕ) where
  abbrev run_pre_handler : Option Handler → Stmt Trace ℤ ℤ
  run_pre_handler none t = pure (pos 0) t
  run_pre_handler (some h) t = finish (h contextidr cpu t)

  -- A hit of a symbol: the handlers run one after the other, until one returns other than 0.
  unfoldable pub hit : List Registered → Stmt Trace ℤ ℤ
  hit [] = pure (pos 0)
  hit (p ∷ ps) =
      let rest = hit ps in
      run_pre_handler p.kprobe.pre_handler >>= λ r. if eq_test r (pos 0) then rest else exit_with r

  hit-append : (ps qs : List Registered) (t : Trace) → hit (ps ++ qs) t ≡ (hit ps >> hit qs) t
  unfolding hit
  hit-append [] qs t = refl
  hit-append (p ∷ ps) qs t =
      then_append (run_pre_handler p.kprobe.pre_handler t) (hit ps) (hit qs) (hit (ps ++ qs))
        (hit-append ps qs)

without-IsFree : (at : ℕ) (ps : List Registered) → IsFree at ps → without at ps ≡ ps
without-IsFree at [] h = refl
without-IsFree at (p ∷ ps) h =
    let other : (p.at == at) ≡ false = ground (arith, h.0) in
    rw other (ap (λ rest. p ∷ rest) (without-IsFree at ps h.1))

without-append :
    (at : ℕ) (ps qs : List Registered) → without at (ps ++ qs) ≡ without at ps ++ without at qs
without-append at [] qs = refl
without-append at (p ∷ ps) qs = elim (Bool-cases (p.at == at)) [
  | inl same ↦ rw same (without-append at ps qs)
  | inr other ↦ rw other (ap (λ rest. p ∷ rest) (without-append at ps qs))
]

-- Taking away the one probe at an address undoes its insertion.
without-insert :
    (at : ℕ) (p : Registered) (ps qs : List Registered)
    → p.at ≡ at
    → IsFree at (ps ++ qs)
    → without at (ps ++ p ∷ qs) ≡ ps ++ qs
without-insert at p ps qs is free =
    let same : (p.at == at) ≡ true = ground (arith, is) in
    let taken : without at (p ∷ qs) ≡ without at qs = rw same refl in
    without-append at ps (p ∷ qs)
    ∙ ap (λ rest. without at ps ++ rest) taken
    ∙ sym (without-append at ps qs)
    ∙ without-IsFree at (ps ++ qs) free

abbrev pub with_handler : Kprobe → Kprobe
with_handler k = record k { pre_handler = some dump_contextidr }

module _ {P : Kprobes} (lawful : IsLawful P) (w : World P.S) where
  abbrev result : ℤ × P.S
  result = P.register_kprobe w.kp_at (with_handler w.kp) w.sys

  -- With kprobes that keep their promises, if the registration succeeds with the code r,
  -- `kdbg_init` returns r and prints nothing, and there is a place among the probes that the symbol
  -- had such that a hit of the symbol then runs the probes before it, prints the context id and the
  -- processor, and runs the probes behind it, unless one before it returned other than 0 or
  -- faulted, as a hit ran them without that line; after `kdbg_exit` the symbol has the probes that
  -- it had.
  pub kdbg_init_exit :
      (contextidr cpu : ℕ) (t : Trace) {r : ℕ}
      → result.0 ≡ pos r
      → (ps qs : List Registered) × (w1 w2 : World P.S) × (P.probes w.sys w.kp.symbol_name
          ≡ ps ++ qs)
        × (kdbg_init P w ≡ next (pos r) w1)
        × (w1.trace ≡ w.trace)
        × (hit contextidr cpu (P.probes w1.sys w.kp.symbol_name) t
            ≡ (hit contextidr cpu ps >> λ t'. hit contextidr cpu qs (
                  printk "DEBUG contextidr %x, cpu %u\n" (num (pos contextidr) ∷ num (pos cpu) ∷ [])
                  ∷ t'))
                t)
        × (hit contextidr cpu (P.probes w.sys w.kp.symbol_name) t
            ≡ (hit contextidr cpu ps >> hit contextidr cpu qs) t)
        × (kdbg_exit P w1 ≡ next tt w2)
        × (P.probes w2.sys w.kp.symbol_name ≡ P.probes w.sys w.kp.symbol_name)
  unfolding kdbg_init kdbg_exit hit dump_contextidr
  kdbg_init_exit contextidr cpu t {r} ok =
      let k = with_handler w.kp in
      let p : Registered = record { at = w.kp_at; kprobe = k } in
      let w1 : World P.S = record w { kp = k; sys = result.1 } in
      let (ps, qs, before, after) = lawful.registered w.kp_at k w.sys r ok in
      let free = rw before at (lawful.fresh w.kp_at k w.sys r ok) in
      (
        ps,
        qs,
        w1,
        record w1 { sys = P.unregister_kprobe w.kp_at result.1 },
        before,
        rw ok refl,
        refl,
        ap (λ l. hit contextidr cpu l t) after ∙ hit-append contextidr cpu ps (p ∷ qs) t,
        ap (λ l. hit contextidr cpu l t) before ∙ hit-append contextidr cpu ps qs t,
        refl,
        lawful.unregistered w.kp_at result.1 w.kp.symbol_name
            ∙ ap (without w.kp_at) after
            ∙ without-insert w.kp_at p ps qs refl free
            ∙ sym before,
      )

  -- If the registration fails, `kdbg_init` prints that, returns its error, and every symbol has the
  -- probes that it had.
  pub kdbg_init_refused :
      {e : ℕ}
      → result.0 ≡ negsuc e
      → (w1 : World P.S) × (kdbg_init P w ≡ next (negsuc e) w1)
        × (w1.trace ≡ printk "register kprobe failed" [] ∷ w.trace)
        × ((symbol : String) → P.probes w1.sys symbol ≡ P.probes w.sys symbol)
  unfolding kdbg_init
  kdbg_init_refused {e} bad = (
    record w {
      kp = with_handler w.kp;
      sys = result.1;
      trace = printk "register kprobe failed" [] ∷ w.trace;
    },
    rw bad refl,
    refl,
    λ symbol. lawful.refused w.kp_at (with_handler w.kp) w.sys e symbol bad,
  )
