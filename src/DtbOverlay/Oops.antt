-- ===== src/DtbOverlay/Oops.antt =====
-- `debug` where memory or the kprobe is missing.
use dtboverlay.Base.{
  ℕ, ◌≡◌, [], ◌∷◌, some, arith, true, ◌==◌, inl, inr, Option-cases, Bool-cases, refl, String,
}
use dtboverlay.Base.Int.{ℤ}
use dtboverlay.Base.Control.{fault, Goes, and_then-Goes}
use dtboverlay.Trace.{ptr, str, call, printk}
use dtboverlay.Kernel.{Kernel, Shared, Ptr, null}
use dtboverlay.DtbOverlay.World.{
  World, sys-Goes, sys-next, sys-fault, kp_symbol_name, load_node, store_node,
}
use dtboverlay.DtbOverlay.Debug.{
  fill_node, find_lookup, find_symbols, lookup_symbol, make_nodes, create_root, debug,
}

module _ (K : Kernel) (w : World K.S) where
  -- The lookup of the symbols does not return early.
  find_lookup-Goes : Goes (find_lookup K w)
  unfolding find_lookup
  find_lookup-Goes =
      and_then-Goes _ _
        (sys-Goes "register_kprobe" (str kp_symbol_name ∷ [])
          (K.register_kprobe kp_symbol_name w.kp_addr) w)
        (λ (_, at) w1.
          and_then-Goes _ _
            (sys-Goes "unregister_kprobe" (str kp_symbol_name ∷ [])
              (K.unregister_kprobe kp_symbol_name at) _)
            (λ after w2. inl (_, _, refl)))

  lookup_symbol-Goes : (lookup : Ptr) (symbol : String) → Goes (lookup_symbol K lookup symbol w)
  unfolding lookup_symbol
  lookup_symbol-Goes lookup symbol = elim (Bool-cases (lookup == null)) [
    | inl z ↦ rw z (inr refl)
    | inr nz ↦
        rw nz
          (sys-Goes "kallsyms_lookup_name_ptr" (str symbol ∷ []) (K.call_string lookup symbol) w)
  ]

module _ (K : Kernel) (w : World K.S) where
  find_symbols-Goes : Goes (find_symbols K w)
  unfolding find_symbols
  find_symbols-Goes = and_then-Goes _ _ (find_lookup-Goes K w) (λ lookup w1.
      and_then-Goes _ _ (lookup_symbol-Goes K w1 lookup "of_node_ktype") (λ ktype w2.
        and_then-Goes _ _ (lookup_symbol-Goes K _ lookup "__of_attach_node_sysfs")
          (λ attach w3. inl (_, _, refl))))

  -- A null pointer is not filled in.
  make_nodes-null : (ktype : Ptr) → make_nodes K null ktype w ≡ fault
  unfolding make_nodes fill_node store_node load_node
  make_nodes-null ktype = elim (Option-cases (K.kobject_init null ktype w.shared)) [
    | inl e ↦
        rw (sys-fault "kobject_init" (ptr null ∷ ptr ktype ∷ []) (K.kobject_init null ktype) w e)
    | inr (_, e) ↦
        rw (sys-next "kobject_init" (ptr null ∷ ptr ktype ∷ []) (K.kobject_init null ktype) w e)
  ]

module _ (K : Kernel) (fuel : ℕ) (w : World K.S) (no_root : w.shared.of_root ≡ null) where
  starts : (w.shared.of_root == null) ≡ true
  starts = ground arith

  -- On a system with no root, if `register_kprobe` always leaves the probe with a null address,
  -- `debug` faults.
  pub debug_no_probe :
      ((s : Shared K.S)
        → (code : ℤ) × (s' : Shared K.S) × (K.register_kprobe kp_symbol_name w.kp_addr s
            ≡ some ((code, null), s')))
      → debug K fuel w ≡ fault
  unfolding debug create_root find_symbols find_lookup lookup_symbol
  debug_no_probe no_probe =
      let w0 : World K.S = record w {
        trace = printk "DEBUG of_root %llx" (ptr w.shared.of_root ∷ []) ∷ w.trace;
      } in
      rw starts (elim (Option-cases (K.kmalloc_node w.shared)) [
        | inl e ↦ rw (sys-fault "kmalloc" [] K.kmalloc_node w0 e)
        | inr ((root, s1), e) ↦
            let w1 : World K.S = record w0 { shared = s1; trace = call "kmalloc" [] ∷ w0.trace } in
            let (code, s2, e2) = no_probe s1 in
            let w2 : World K.S = record w1 {
              kp_addr = null;
              shared = s2;
              trace =
                  printk "DEBUG kallsyms_lookup_name %px" (ptr null ∷ [])
                  ∷ call "register_kprobe" (str kp_symbol_name ∷ [])
                  ∷ w1.trace;
            } in
            rw
              (
                sys-next "kmalloc" [] K.kmalloc_node w0 e,
                sys-next "register_kprobe" (str kp_symbol_name ∷ [])
                    (K.register_kprobe kp_symbol_name w.kp_addr) w1 e2,
              )
              (elim (Option-cases (K.unregister_kprobe kp_symbol_name null s2)) [
                | inl e ↦ rw (
                    sys-fault "unregister_kprobe" (str kp_symbol_name ∷ [])
                      (K.unregister_kprobe kp_symbol_name null) w2 e)
                | inr ((at, s3), e) ↦ rw (
                    sys-next "unregister_kprobe" (str kp_symbol_name ∷ [])
                      (K.unregister_kprobe kp_symbol_name null) w2 e)
              ])
      ])

  -- On a system with no root, if `kmalloc` gives a null pointer for the root, `debug` faults.
  pub debug_no_memory :
      {s : Shared K.S} → K.kmalloc_node w.shared ≡ some (null, s) → debug K fuel w ≡ fault
  unfolding debug create_root
  debug_no_memory {s} e =
      let w0 : World K.S = record w {
        trace = printk "DEBUG of_root %llx" (ptr w.shared.of_root ∷ []) ∷ w.trace;
      } in
      let w1 : World K.S = record w0 { shared = s; trace = call "kmalloc" [] ∷ w0.trace } in
      rw (starts, sys-next "kmalloc" [] K.kmalloc_node w0 e)
        (elim (find_symbols-Goes K w1) [
          | inl (found, w2, e) ↦ rw (e, make_nodes-null K w2 found.0)
          | inr e ↦ rw e
        ])
