-- ===== src/DtbOverlay/Fill.antt =====
-- The steps of `debug` in a kernel that works.
use mathlib.Core.Path.{fun_ext}
use dtboverlay.Base.{String, ◌≡◌, ◌≢◌, refl, [], ◌∷◌, Option, some, arith, false, ◌==◌, ap, ◌∙◌}
use dtboverlay.Base.Control.{next}
use dtboverlay.Trace.{ptr, str, call}
use dtboverlay.Kernel.{Kernel, Shared, Ptr, null, DeviceNode, update}
use dtboverlay.Kernel.Laws.{IsWorking, Tree, Keeps}
use dtboverlay.DtbOverlay.World.{World, sys-next, load_node, store_node}
use dtboverlay.DtbOverlay.Debug.{fill_node}

pub update-update :
    (f : Ptr → Option DeviceNode) (p : Ptr) (v u : Option DeviceNode)
    → update (update f p v) p u ≡ update f p u
update-update f p v u = fun_ext λ q. ground arith

pub update_self :
    (f : Ptr → Option DeviceNode) (p : Ptr) (v : Option DeviceNode) → update f p v p ≡ v
update_self f p v = ground arith

-- The world with other device nodes.
abbrev pub with_nodes : {S : Type 0} → World S → (Ptr → Option DeviceNode) → World S
with_nodes w f = record w { shared = record (w.shared) { node = f } }

module _ {S : Type 0} (p : Ptr) (n : DeviceNode) (w : World S) (ne : p ≢ null) where
  is_null : (p == null) ≡ false
  is_null = ground arith

  pub load_node-next :
      {R : Type 0} → w.shared.node p ≡ some n → load_node {S = S} {R = R} p w ≡ next n w
  unfolding load_node
  load_node-next at = rw (is_null, at)

  pub store_node-at :
      {R : Type 0} (f : DeviceNode → DeviceNode)
      → w.shared.node p ≡ some n
      → store_node {S = S} {R = R} p f w
        ≡ next tt (with_nodes w (update (w.shared.node) p (some (f n))))
  unfolding store_node
  store_node-at f at = rw (load_node-next at)

  -- An assignment to a member of a node that is there.
  pub store_node-next :
      {R : Type 0} (g : Ptr → Option DeviceNode) (f : DeviceNode → DeviceNode)
      → w.shared.node ≡ update g p (some n)
      → store_node {S = S} {R = R} p f w ≡ next tt (with_nodes w (update g p (some (f n))))
  unfolding store_node
  store_node-next g f at = rw (
    load_node-next (ap (λ (h : Ptr → Option DeviceNode). h p) at ∙ update_self g p (some n)),
    at,
    update-update g p (some n) (some (f n)),
  )

-- A node whose members are set as `debug` sets them.
abbrev pub filled : (ktype parent : Ptr) → String → Option String → DeviceNode → DeviceNode
filled ktype parent name copy n = record n {
  ktype = some ktype;
  kobj_name = some copy;
  name = some name;
  full_name = some name;
  phandle = some 0;
  properties = some null;
  parent = some parent;
}

module _ {K : Kernel} {lookup ktype attach : Ptr} (works : IsWorking K lookup ktype attach) where
  open works use {kobject_law, kstrdup_law}

  -- In a kernel that works `fill_node` sets the members of its node, and changes no other node.
  pub fill_node_lem :
      (p parent : Ptr) (name : String) (g : Ptr → Option DeviceNode) (n : DeviceNode)
      (w : World K.S)
      → p ≢ null
      → w.shared.node ≡ update g p (some n)
      → (copy : Option String) × (s : Shared K.S) × (fill_node K p ktype parent name w
          ≡ next tt (record w {
            shared = s;
            trace =
                call "kstrdup" (str name ∷ [])
                ∷ call "kobject_init" (ptr p ∷ ptr ktype ∷ [])
                ∷ w.trace;
          }))
        × Keeps works.in_use w.shared s
        × Tree s w.shared.of_root
            (update g p (some (filled ktype parent name copy n)))
            w.shared.prop
  unfolding fill_node
  fill_node_lem p parent name g n w ne at =
      let held : w.shared.node p ≡ some n =
        ap (λ (h : Ptr → Option DeviceNode). h p) at ∙ update_self g p (some n) in
      let (_, s1, e1, p1) = kobject_law p n w.shared held in
      let n1 : DeviceNode = record n { ktype = some ktype } in
      let at1 : s1.node ≡ update g p (some n1) =
        p1.1.node_is
        ∙ ap (λ (h : Ptr → Option DeviceNode). update h p (some n1)) at
        ∙ update-update g p (some n) (some n1) in
      let w1 : World K.S = record w {
        shared = s1;
        trace = call "kobject_init" (ptr p ∷ ptr ktype ∷ []) ∷ w.trace;
      } in
      let n2 : DeviceNode = record n1 { parent = some parent } in
      let n3 : DeviceNode = record n2 { name = some name } in
      let n4 : DeviceNode = record n3 { full_name = some name } in
      let n5 : DeviceNode = record n4 { phandle = some 0 } in
      let n6 : DeviceNode = record n5 { properties = some null } in
      let at6 : Shared K.S = record s1 { node = update g p (some n6) } in
      let (copy, s2, e2, p2) = kstrdup_law name at6 in
      let w2 : World K.S = record w1 {
        shared = s2;
        trace = call "kstrdup" (str name ∷ []) ∷ w1.trace;
      } in
      let nodes : DeviceNode → World K.S = λ m. with_nodes w1 (update g p (some m)) in
      let at2 : s2.node ≡ update g p (some n6) = p2.1.node_is in
      (
        copy,
        record s2 { node = update g p (some (record n6 { kobj_name = some copy })) },
        rw (
          sys-next "kobject_init" (ptr p ∷ ptr ktype ∷ []) (K.kobject_init p ktype) w e1,
          store_node-next p n1 w1 ne g (λ m. record m { parent = some parent }) at1,
          store_node-next p n2 (nodes n2) ne g (λ m. record m { name = some name }) refl,
          store_node-next p n3 (nodes n3) ne g (λ m. record m { full_name = some name }) refl,
          store_node-next p n4 (nodes n4) ne g (λ m. record m { phandle = some 0 }) refl,
          store_node-next p n5 (nodes n5) ne g (λ m. record m { properties = some null }) refl,
          sys-next "kstrdup" (str name ∷ []) (K.kstrdup name) (nodes n6) e2,
          store_node-next p n6 w2 ne g (λ m. record m { kobj_name = some copy }) at2,
        ),
        (λ q h. p2.0 q (p1.0 q h)),
        record {
          root_is = p2.1.root_is ∙ p1.1.root_is;
          node_is = refl;
          prop_is = p2.1.prop_is ∙ p1.1.prop_is;
        },
      )
