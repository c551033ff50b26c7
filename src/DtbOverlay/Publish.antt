-- ===== src/DtbOverlay/Publish.antt =====
-- `debug` publishes the nodes that it made, in a kernel that works.
use dtboverlay.Base.{
  ℕ, suc, String, ◌≡◌, ◌≢◌, refl, [], ◌∷◌, Option, none, some, arith, false, ◌==◌, ap, ◌∙◌,
}
use dtboverlay.Base.Control.{next}
use dtboverlay.Trace.{Trace, ptr, str, call, printk}
use dtboverlay.Kernel.{Kernel, Shared, Ptr, null, DeviceNode}
use dtboverlay.Kernel.Laws.{IsWorking, SameTree, SameLinks, unnamed}
use dtboverlay.DtbOverlay.World.{World, sys-next}
use dtboverlay.DtbOverlay.Debug.{
  symbols_path, print_properties, attach_node_sysfs, show_symbols, publish,
}
use dtboverlay.DtbOverlay.Fill.{load_node-next}
use dtboverlay.DtbOverlay.Nodes.{root_node, symbols_node}

-- A node that differs from a known one in the name of its kobject at most.
known :
    (o : Option DeviceNode) (m : DeviceNode)
    → unnamed o ≡ unnamed (some m)
    → (n : DeviceNode) × (o ≡ some n)
      × (record n { kobj_name = none } ≡ record m { kobj_name = none })
known none m h = cc
known (some n) m h = (n, refl, ground arith)

abbrev pub attach_lines : (root symchild : Ptr) → Trace → Trace
attach_lines root symchild t =
    call "__of_attach_node_sysfs_ptr" (ptr symchild ∷ [])
    ∷ printk "DEBUG attach symbols sysfs" []
    ∷ call "__of_attach_node_sysfs_ptr" (ptr root ∷ [])
    ∷ printk "DEBUG attach root sysfs" []
    ∷ t

module _ {K : Kernel} {lookup ktype attach : Ptr} (works : IsWorking K lookup ktype attach) where
  open works use {attach-ne-null, sysfs_law, find_law}

  attach_is : (attach == null) ≡ false
  attach_is = ground (arith, attach-ne-null)

  -- An entry in sysfs leaves the links of every node.
  attach_node_lem :
      (p : Ptr) (n : DeviceNode) (w : World K.S)
      → w.shared.node p ≡ some n
      → (s : Shared K.S) × (attach_node_sysfs K attach p w
          ≡ next tt (record w {
            shared = s;
            trace = call "__of_attach_node_sysfs_ptr" (ptr p ∷ []) ∷ w.trace;
          }))
        × SameLinks w.shared s
  unfolding attach_node_sysfs
  attach_node_lem p n w at =
      let (r, s, e, same) = sysfs_law p n w.shared at in
      (
        s,
        rw (
          attach_is,
          sys-next "__of_attach_node_sysfs_ptr" (ptr p ∷ []) (K.call_node attach p) w e,
        ),
        same,
      )

  -- Both nodes get their entries, the root first, and the root becomes the system's.
  pub publish_lem :
      (root symchild : Ptr) (m n : DeviceNode) (w : World K.S)
      → w.shared.node root ≡ some m
      → w.shared.node symchild ≡ some n
      → (s : Shared K.S) × (publish K attach root symchild w
          ≡ next tt (record w { shared = s; trace = attach_lines root symchild w.trace }))
        × SameLinks (record (w.shared) { of_root = root }) s
  unfolding publish
  publish_lem root symchild m n w at_root at_child =
      let w1 : World K.S = record w {
        shared = record (w.shared) { of_root = root };
        trace = printk "DEBUG attach root sysfs" [] ∷ w.trace;
      } in
      let (s1, e1, same1) = attach_node_lem root m w1 at_root in
      let (n', held, _) =
        known (s1.node symchild) n (same1.same_node symchild ∙ ap unnamed at_child) in
      let w2 : World K.S = record w {
        shared = s1;
        trace =
            printk "DEBUG attach symbols sysfs" []
            ∷ call "__of_attach_node_sysfs_ptr" (ptr root ∷ [])
            ∷ printk "DEBUG attach root sysfs" []
            ∷ w.trace;
      } in
      let (s2, e2, same2) = attach_node_lem symchild n' w2 held in
      (
        s2,
        rw (e1, e2),
        record {
          same_root = same2.same_root ∙ same1.same_root;
          same_node = λ p. same2.same_node p ∙ same1.same_node p;
          same_prop = same2.same_prop ∙ same1.same_prop;
        },
      )

  -- The node that was made is found again, and has no property to print.
  pub show_symbols_lem :
      (f : ℕ) (root symchild : Ptr) (a b : Option String) (w : World K.S)
      → symchild ≢ null
      → w.shared.of_root ≡ root
      → unnamed (w.shared.node root) ≡ unnamed (some (root_node ktype symchild a))
      → unnamed (w.shared.node symchild) ≡ unnamed (some (symbols_node ktype root b))
      → (s : Shared K.S) × (show_symbols K (suc f) w
          ≡ next tt (record w {
            shared = s;
            trace = call "of_find_node_by_path" (str symbols_path ∷ []) ∷ w.trace;
          }))
        × SameTree w.shared s
  unfolding show_symbols print_properties
  show_symbols_lem f root symchild a b w ne is_root at_root at_child =
      let (m, held_m, like_m) = known (w.shared.node root) (root_node ktype symchild a) at_root in
      let (n, held_n, like_n) =
        known (w.shared.node symchild) (symbols_node ktype root b) at_child in
      let (p, s, e, q) =
        find_law root symchild m n w.shared is_root held_m (ap (λ (x : DeviceNode). x.child) like_m)
          held_n (ap (λ (x : DeviceNode). x.full_name) like_n) in
      let found : K.of_find_node_by_path symbols_path w.shared ≡ some (symchild, s) =
        e ∙ ap {B = Option (Ptr × Shared K.S)} (λ (x : Ptr). some (x, s)) q.0 in
      let w1 : World K.S = record w {
        shared = s;
        trace = call "of_find_node_by_path" (str symbols_path ∷ []) ∷ w.trace;
      } in
      let ne' : (symchild == null) ≡ false = ground arith in
      let first : n.properties ≡ some null = ap (λ (x : DeviceNode). x.properties) like_n in
      (
        s,
        rw (
          sys-next "of_find_node_by_path" (str symbols_path ∷ [])
              (K.of_find_node_by_path symbols_path) w found,
          ne',
          load_node-next symchild n w1 ne
              (ap (λ (h : Ptr → Option DeviceNode). h symchild) q.1.node_is ∙ held_n),
          first,
        ),
        q.1,
      )
