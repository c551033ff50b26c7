-- ===== src/DtbOverlay/Create.antt =====
-- What `debug` does as a whole.
use dtboverlay.Base.{
  ℕ, suc, String, ◌≡◌, ◌≢◌, refl, [], ◌∷◌, Option, none, some, arith, Bool, true, false, ◌==◌, ap,
  sym, ◌∙◌,
}
use dtboverlay.Base.Control.{Run, next}
use dtboverlay.Trace.{Trace, ptr, str, call, printk}
use dtboverlay.Kernel.{Kernel, Ptr, null, DeviceNode}
use dtboverlay.Kernel.Laws.{IsWorking, unnamed}
use dtboverlay.DtbOverlay.World.{World, sys-next}
use dtboverlay.DtbOverlay.Debug.{symbols_path, create_root, debug}
use dtboverlay.DtbOverlay.Symbols.{symbol_lines, find_symbols_lem}
use dtboverlay.DtbOverlay.Nodes.{
  not_before, root_node, symbols_node, two_nodes, node_lines, make_nodes_lem,
}
use dtboverlay.DtbOverlay.Publish.{attach_lines, publish_lem, show_symbols_lem}

-- All that a run of `debug` that makes the root prints and calls, newest first.
abbrev pub debug_lines : (old lookup ktype attach root symchild : Ptr) → Trace → Trace
debug_lines old lookup ktype attach root symchild t =
    call "of_find_node_by_path" (str symbols_path ∷ [])
    ∷ attach_lines root symchild (
        node_lines root ktype symchild (
          symbol_lines lookup ktype attach
            (call "kmalloc" [] ∷ printk "DEBUG of_root %llx" (ptr old ∷ []) ∷ t)))

-- The system has a new root with the one child `/__symbols__`; all else is as it was.
pub record HasRoot {S : Type 0} (in_use : S → Ptr → Bool) (before after : World S)
    (lookup ktype attach root symchild : Ptr) : Type 0 where
  pub root-ne-null : root ≢ null
  pub symchild-ne-null : symchild ≢ null
  pub apart : root ≢ symchild
  pub root_unused : in_use before.shared.sys root ≡ false
  pub symchild_unused : in_use before.shared.sys symchild ≡ false
  pub is_root : after.shared.of_root ≡ root
  pub nodes :
      (p : Ptr)
      → unnamed (after.shared.node p)
        ≡ unnamed (
            two_nodes root symchild
              (root_node ktype symchild none)
              (symbols_node ktype root none)
              (before.shared.node)
              p)
  pub same_prop : after.shared.prop ≡ before.shared.prop
  pub same_id : after.ovcsid ≡ before.ovcsid
  pub lines :
      after.trace ≡ debug_lines before.shared.of_root lookup ktype attach root symchild before.trace

-- The name of a kobject is of no account among the links.
unnamed-two_nodes :
    (root symchild ktype : Ptr) (a b : Option String) (g : Ptr → Option DeviceNode) (p : Ptr)
    → unnamed (two_nodes root symchild (root_node ktype symchild a) (symbols_node ktype root b) g p)
      ≡ unnamed (
          two_nodes root symchild
            (root_node ktype symchild none)
            (symbols_node ktype root none)
            g
            p)
unnamed-two_nodes root symchild ktype a b g p = ground arith

two_nodes_root :
    (root symchild : Ptr) (m n : DeviceNode) (g : Ptr → Option DeviceNode)
    → two_nodes root symchild m n g root ≡ some m
two_nodes_root root symchild m n g = ground arith

two_nodes_child :
    (root symchild : Ptr) (m n : DeviceNode) (g : Ptr → Option DeviceNode)
    → root ≢ symchild
    → two_nodes root symchild m n g symchild ≡ some n
two_nodes_child root symchild m n g apart = ground arith

module _ (K : Kernel) (fuel : ℕ) (w : World K.S) where
  -- With a root in place `debug` prints a line and does nothing else.
  pub debug_has_root :
      w.shared.of_root ≢ null
      → debug K fuel w
        ≡ next tt
            (record w { trace = printk "DEBUG of_root %llx" (ptr w.shared.of_root ∷ []) ∷ w.trace })
  unfolding debug
  debug_has_root h = let e : (w.shared.of_root == null) ≡ false = ground arith in rw e

  -- In a kernel that works and has no root, and on fuel of 1 or more, `debug` runs to its end: two
  -- addresses that were not in use get a node each, the one becomes the system's root with no
  -- parent and the other as its child, the other is `/__symbols__` with the first as its parent,
  -- every other node, all properties and `ovcsid` are unchanged, and the lines and calls of the run
  -- are those of the source in their order. Names of kobjects are left open.
  pub debug-HasRoot :
      {lookup ktype attach : Ptr} (works : IsWorking K lookup ktype attach)
      → w.shared.of_root ≡ null
      → (root symchild : Ptr) × (after : World K.S) × (debug K (suc fuel) w ≡ next tt after)
        × HasRoot works.in_use w after lookup ktype attach root symchild
  unfolding debug create_root
  debug-HasRoot {lookup} {ktype} {attach} works no_root =
      let w0 : World K.S = record w {
        trace = printk "DEBUG of_root %llx" (ptr w.shared.of_root ∷ []) ∷ w.trace;
      } in
      let (root, s1, e1, p1) = works.kmalloc_law w.shared in
      let w1 : World K.S = record w0 { shared = s1; trace = call "kmalloc" [] ∷ w0.trace } in
      let (at, s2, e2, k2, t2) = find_symbols_lem works w1 in
      let w2 : World K.S = record w1 {
        kp_addr = at;
        shared = s2;
        trace = symbol_lines lookup ktype attach w1.trace;
      } in
      let (symchild, a, b, s3, e3, ne3, apart, unused, t3) =
        make_nodes_lem works root w.shared.node w2 p1.0 (k2 root p1.2)
          (t2.node_is ∙ p1.4.node_is) in
      let w3 : World K.S = record w2 {
        shared = s3;
        trace = node_lines root ktype symchild w2.trace;
      } in
      let nodes : DeviceNode × DeviceNode =
        (root_node ktype symchild a, symbols_node ktype root b) in
      let at_root : s3.node root ≡ some nodes.0 =
        ap (λ (h : Ptr → Option DeviceNode). h root) t3.node_is
        ∙ two_nodes_root root symchild nodes.0 nodes.1 w.shared.node in
      let at_child : s3.node symchild ≡ some nodes.1 =
        ap (λ (h : Ptr → Option DeviceNode). h symchild) t3.node_is
        ∙ two_nodes_child root symchild nodes.0 nodes.1 w.shared.node apart in
      let (s4, e4, same) = publish_lem works root symchild nodes.0 nodes.1 w3 at_root at_child in
      let w4 : World K.S = record w3 { shared = s4; trace = attach_lines root symchild w3.trace } in
      let (s5, e5, t5) =
        show_symbols_lem works fuel root symchild a b w4 ne3 same.same_root
          (same.same_node root ∙ ap unnamed at_root)
          (same.same_node symchild ∙ ap unnamed at_child) in
      let z : (w.shared.of_root == null) ≡ true = ground arith in
      (
        root,
        symchild,
        record w4 {
          shared = s5;
          trace = call "of_find_node_by_path" (str symbols_path ∷ []) ∷ w4.trace;
        },
        rw (z, sys-next "kmalloc" [] K.kmalloc_node w0 e1, e2, e3, e4, e5),
        record {
          root-ne-null = p1.0;
          symchild-ne-null = ne3;
          apart = apart;
          root_unused = p1.1;
          symchild_unused = not_before _ (λ h. k2 symchild (p1.3 symchild h)) unused;
          is_root = t5.root_is ∙ same.same_root;
          nodes = λ p.
              ap (λ (h : Ptr → Option DeviceNode). unnamed (h p)) t5.node_is
              ∙ same.same_node p
              ∙ ap (λ (h : Ptr → Option DeviceNode). unnamed (h p)) t3.node_is
              ∙ unnamed-two_nodes root symchild ktype a b w.shared.node p;
          same_prop = t5.prop_is ∙ same.same_prop ∙ t3.prop_is ∙ t2.prop_is ∙ p1.4.prop_is;
          same_id = refl;
          lines = refl;
        },
      )

module _ (K : Kernel) (fuel : ℕ) (w : World K.S) where
  -- In a kernel that works and has no root, a second run of `debug`, with any fuel, after one that
  -- ran to its end changes nothing but the trace, to which it adds the line with the address of the
  -- root that the first run made.
  pub debug_again :
      {lookup ktype attach : Ptr} (works : IsWorking K lookup ktype attach)
      → w.shared.of_root ≡ null
      → (again : ℕ)
      → (root : Ptr) × (after : World K.S) × (debug K (suc fuel) w ≡ next tt after)
        × (after.shared.of_root ≡ root)
        × (debug K again after
            ≡ next tt (record after {
              trace = printk "DEBUG of_root %llx" (ptr root ∷ []) ∷ after.trace;
            }))
  debug_again works no_root again =
      let (root, symchild, after, ran, made) = debug-HasRoot K fuel w works no_root in
      let there : after.shared.of_root ≢ null = λ e. made.root-ne-null (sym made.is_root ∙ e) in
      (
        root,
        after,
        ran,
        made.is_root,
        debug_has_root K again after there
            ∙ ap {B = Run (World K.S) (Unit {0}) (Unit {0})}
                (λ (p : Ptr).
                  next tt (record after {
                    trace = printk "DEBUG of_root %llx" (ptr p ∷ []) ∷ after.trace;
                  }))
                made.is_root,
      )
