-- ===== src/DtbOverlay/Symbols.antt =====
-- `debug` looks up the kernel functions that are not exported.
use dtboverlay.Base.{◌≡◌, [], ◌∷◌, Option, some, arith, false, ◌==◌, ap, ◌∙◌}
use dtboverlay.Base.Int.{ℤ}
use dtboverlay.Base.Control.{next}
use dtboverlay.Trace.{Trace, ptr, str, call, printk}
use dtboverlay.Kernel.{Kernel, Shared, Ptr, null}
use dtboverlay.Kernel.Laws.{IsWorking, SameTree, Keeps}
use dtboverlay.DtbOverlay.World.{World, sys-next, kp_symbol_name}
use dtboverlay.DtbOverlay.Debug.{find_lookup, lookup_symbol, find_symbols}

module _ {S : Type 0} where
  pub SameTree-trans : (s t u : Shared S) → SameTree s t → SameTree t u → SameTree s u
  SameTree-trans s t u p q = record {
    root_is = q.root_is ∙ p.root_is;
    node_is = q.node_is ∙ p.node_is;
    prop_is = q.prop_is ∙ p.prop_is;
  }

-- What `find_symbols` adds to the trace.
abbrev pub symbol_lines : (lookup ktype attach : Ptr) → Trace → Trace
symbol_lines lookup ktype attach t =
    printk "DEBUG __of_attach_node_sysfs_ptr %px" (ptr attach ∷ [])
    ∷ call "kallsyms_lookup_name_ptr" (str "__of_attach_node_sysfs" ∷ [])
    ∷ printk "DEBUG of_node_ktype_ptr %px" (ptr ktype ∷ [])
    ∷ call "kallsyms_lookup_name_ptr" (str "of_node_ktype" ∷ [])
    ∷ printk "DEBUG kallsyms_lookup_name %px" (ptr lookup ∷ [])
    ∷ call "unregister_kprobe" (str kp_symbol_name ∷ [])
    ∷ printk "DEBUG kallsyms_lookup_name %px" (ptr lookup ∷ [])
    ∷ call "register_kprobe" (str kp_symbol_name ∷ [])
    ∷ t

module _ {K : Kernel} {lookup ktype attach : Ptr} (works : IsWorking K lookup ktype attach)
    (w : World K.S) where
  open works use {lookup-ne-null, register_law, unregister_law, ktype_law, attach_law}

  -- The trace before each of the later calls.
  abbrev trace_1 : Trace
  trace_1 =
      printk "DEBUG kallsyms_lookup_name %px" (ptr lookup ∷ [])
      ∷ call "register_kprobe" (str kp_symbol_name ∷ [])
      ∷ w.trace

  abbrev trace_2 : Trace
  trace_2 =
      printk "DEBUG kallsyms_lookup_name %px" (ptr lookup ∷ [])
      ∷ call "unregister_kprobe" (str kp_symbol_name ∷ [])
      ∷ trace_1

  abbrev trace_3 : Trace
  trace_3 =
      printk "DEBUG of_node_ktype_ptr %px" (ptr ktype ∷ [])
      ∷ call "kallsyms_lookup_name_ptr" (str "of_node_ktype" ∷ [])
      ∷ trace_2

  lookup_is : (lookup == null) ≡ false
  lookup_is = ground (arith, lookup-ne-null)

  -- Both symbols are found, and the device tree is left alone.
  pub find_symbols_lem :
      (at : Ptr) × (s : Shared K.S) × (find_symbols K w
        ≡ next
            (ktype, attach)
            (record w {
              kp_addr = at;
              shared = s;
              trace = symbol_lines lookup ktype attach w.trace;
            }))
      × Keeps works.in_use w.shared s
      × SameTree w.shared s
  unfolding find_symbols find_lookup lookup_symbol
  find_symbols_lem =
      let (r, s1, e1, p1) = register_law w.kp_addr w.shared in
      let (at, s2, e2, p2) = unregister_law s1 in
      let (k, s3, e3, p3) = ktype_law s2 in
      let (a, s4, e4, p4) = attach_law s3 in
      let found : K.register_kprobe kp_symbol_name w.kp_addr w.shared ≡ some ((r.0, lookup), s1) =
        e1 ∙ ap {B = Option ((ℤ × Ptr) × Shared K.S)} (λ (x : Ptr). some ((r.0, x), s1)) p1.0 in
      let ktype_found : K.call_string lookup "of_node_ktype" s2 ≡ some (ktype, s3) =
        e3 ∙ ap {B = Option (Ptr × Shared K.S)} (λ (x : Ptr). some (x, s3)) p3.0 in
      let attach_found : K.call_string lookup "__of_attach_node_sysfs" s3 ≡ some (attach, s4) =
        e4 ∙ ap {B = Option (Ptr × Shared K.S)} (λ (x : Ptr). some (x, s4)) p4.0 in
      let w1 : World K.S = record w { kp_addr = lookup; shared = s1; trace = trace_1 } in
      let w2 : World K.S = record w { kp_addr = at; shared = s2; trace = trace_2 } in
      let w3 : World K.S = record w { kp_addr = at; shared = s3; trace = trace_3 } in
      (
        at,
        s4,
        rw (
          sys-next "register_kprobe" (str kp_symbol_name ∷ [])
              (K.register_kprobe kp_symbol_name w.kp_addr) w found,
          sys-next "unregister_kprobe" (str kp_symbol_name ∷ [])
              (K.unregister_kprobe kp_symbol_name lookup) w1 e2,
          lookup_is,
          sys-next "kallsyms_lookup_name_ptr" (str "of_node_ktype" ∷ [])
              (K.call_string lookup "of_node_ktype") w2 ktype_found,
          sys-next "kallsyms_lookup_name_ptr" (str "__of_attach_node_sysfs" ∷ [])
              (K.call_string lookup "__of_attach_node_sysfs") w3 attach_found,
        ),
        (λ p h. p4.1 p (p3.1 p (p2.0 p (p1.1 p h)))),
        SameTree-trans w.shared s3 s4
            (SameTree-trans w.shared s2 s3 (SameTree-trans w.shared s1 s2 p1.2 p2.1) p3.2) p4.2,
      )
