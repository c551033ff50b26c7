-- ===== src/DtbOverlay/Nodes.antt =====
-- The root node and its child that `debug` makes, in a kernel that works.
use mathlib.Core.Path.{fun_ext}
use dtboverlay.Base.{
  String, ◌≡◌, ◌≢◌, refl, [], ◌∷◌, Option, some, arith, Bool, true, false, ap, ◌∙◌,
}
use dtboverlay.Base.Control.{next}
use dtboverlay.Trace.{Trace, ptr, str, call}
use dtboverlay.Kernel.{Kernel, Shared, Ptr, null, DeviceNode, blank, update}
use dtboverlay.Kernel.Laws.{IsWorking, Tree}
use dtboverlay.DtbOverlay.World.{World, sys-next}
use dtboverlay.DtbOverlay.Debug.{symbols_path, make_nodes}
use dtboverlay.DtbOverlay.Fill.{store_node-at, filled, fill_node_lem}

-- The root with its child, and the child.
abbrev pub root_node : (ktype symchild : Ptr) → Option String → DeviceNode
root_node ktype symchild copy = record (filled ktype null "/" copy blank) { child = some symchild }

abbrev pub symbols_node : (ktype root : Ptr) → Option String → DeviceNode
symbols_node ktype root copy = filled ktype root symbols_path copy blank

abbrev pub two_nodes :
    (root symchild : Ptr) → (m n : DeviceNode) → (Ptr → Option DeviceNode) → Ptr → Option DeviceNode
two_nodes root symchild m n g = update (update g symchild (some n)) root (some m)

update_again :
    (g : Ptr → Option DeviceNode) (r c : Ptr) (u v x : Option DeviceNode)
    → update (update (update g r u) c v) r x ≡ update (update g c v) r x
update_again g r c u v x = fun_ext λ q. ground arith

update_apart :
    (g : Ptr → Option DeviceNode) (r c : Ptr) (m : DeviceNode) (v : Option DeviceNode)
    → r ≢ c
    → update (update g r (some m)) c v r ≡ some m
update_apart g r c m v h = ground arith

-- What is not in use was not in use before.
pub not_before : (b : Bool) {c : Bool} → (b ≡ true → c ≡ true) → c ≡ false → b ≡ false
not_before true keep h = cc (keep refl)
not_before false keep h = refl

abbrev pub node_lines : (root ktype symchild : Ptr) → Trace → Trace
node_lines root ktype symchild t =
    call "kstrdup" (str symbols_path ∷ [])
    ∷ call "kobject_init" (ptr symchild ∷ ptr ktype ∷ [])
    ∷ call "kmalloc" []
    ∷ call "kstrdup" (str "/" ∷ [])
    ∷ call "kobject_init" (ptr root ∷ ptr ktype ∷ [])
    ∷ t

module _ {K : Kernel} {lookup ktype attach : Ptr} (works : IsWorking K lookup ktype attach) where
  open works use {kmalloc_law}

  -- The child is a node of its own, and the two nodes point at one another.
  pub make_nodes_lem :
      (root : Ptr) (g : Ptr → Option DeviceNode) (w : World K.S)
      → root ≢ null
      → works.in_use w.shared.sys root ≡ true
      → w.shared.node ≡ update g root (some blank)
      → (symchild : Ptr) × (a b : Option String) × (s : Shared K.S) × (make_nodes K root ktype w
          ≡ next symchild (record w { shared = s; trace = node_lines root ktype symchild w.trace }))
        × (symchild ≢ null)
        × (root ≢ symchild)
        × (works.in_use w.shared.sys symchild ≡ false)
        × Tree s w.shared.of_root
            (two_nodes root symchild (root_node ktype symchild a) (symbols_node ktype root b) g)
            w.shared.prop
  unfolding make_nodes
  make_nodes_lem root g w ne used at =
      let (a, s1, e1, k1, t1) = fill_node_lem works root null "/" g blank w ne at in
      let m : DeviceNode = filled ktype null "/" a blank in
      let (c, s2, e2, p2) = kmalloc_law s1 in
      let w1 : World K.S = record w {
        shared = s1;
        trace =
            call "kstrdup" (str "/" ∷ [])
            ∷ call "kobject_init" (ptr root ∷ ptr ktype ∷ [])
            ∷ w.trace;
      } in
      let w2 : World K.S = record w1 { shared = s2; trace = call "kmalloc" [] ∷ w1.trace } in
      let (b, s3, e3, k3, t3) =
        fill_node_lem works c root symbols_path s1.node blank w2 p2.0 p2.4.node_is in
      let apart : root ≢ c = λ e. cc (k1 root used, p2.1, ap (works.in_use s1.sys) e) in
      let unused : works.in_use w.shared.sys c ≡ false =
        not_before (works.in_use w.shared.sys c) (k1 c) p2.1 in
      let w3 : World K.S = record w2 { shared = s3; trace = node_lines root ktype c w.trace } in
      let nodes : s3.node ≡ update (update g root (some m)) c (some (symbols_node ktype root b)) =
        t3.node_is
        ∙ ap (λ (h : Ptr → Option DeviceNode). update h c (some (symbols_node ktype root b)))
            t1.node_is in
      let held : s3.node root ≡ some m =
        ap (λ (h : Ptr → Option DeviceNode). h root) nodes ∙ update_apart g root c m _ apart in
      (
        c,
        a,
        b,
        record s3 { node = update (s3.node) root (some (root_node ktype c a)) },
        rw (
          e1,
          sys-next "kmalloc" [] K.kmalloc_node w1 e2,
          e3,
          store_node-at root m w3 ne (λ n. record n { child = some c }) held,
        ),
        p2.0,
        apart,
        unused,
        record {
          root_is = t3.root_is ∙ p2.4.root_is ∙ t1.root_is;
          node_is =
              ap (λ (h : Ptr → Option DeviceNode). update h root (some (root_node ktype c a))) nodes
              ∙ update_again g root c _ _ _;
          prop_is = t3.prop_is ∙ p2.4.prop_is ∙ t1.prop_is;
        },
      )
