-- ===== src/DtbOverlay/Debug.antt =====
-- `debug` of dtboverlay.c: creates the root node and its child `/__symbols__`, if there is no root.
use dtboverlay.Base.{ℕ, zero, suc, String, [], ◌∷◌, some, ◌==◌, if◌then◌else◌}
use dtboverlay.Base.Control.{Stmt, pure, crash, ◌>>=◌, ◌>>◌}
use dtboverlay.Trace.{ptr, str}
use dtboverlay.Kernel.{Kernel, Ptr, null}
use dtboverlay.DtbOverlay.World.{
  World, kp_symbol_name, print, sys, get, modify, load_node, store_node, defined,
}

abbrev pub symbols_path : String
symbols_path = "/__symbols__"

-- The loop of `for_each_property_of_node`: it follows `next` from a property to the last one.
-- `fuel` bounds the number of properties.
unfoldable pub print_properties : {S R : Type 0} → ℕ → Ptr → Stmt (World S) R (Unit {0})
print_properties zero prop = crash
print_properties (suc fuel) prop =
    let rest = λ (p : Ptr). print_properties fuel p in
    if prop == null then pure tt else do
      cell ← get (λ w. w.shared.prop prop)
      p ← defined cell
      print "DEBUG prop %s\n" (str p.name ∷ [])
      rest p.next

module _ (K : Kernel) where
  abbrev pub Fn : Type 0 → Type 0
  Fn A = Stmt (World K.S) (Unit {0}) A

  -- A call through a function pointer.
  abbrev call_ptr : {A : Type 0} → Ptr → Fn A → Fn A
  call_ptr fn m = if fn == null then crash else m

  -- The symbol is looked up through the address that a kprobe on `kallsyms_lookup_name` has.
  unfoldable pub find_lookup : Fn Ptr
  find_lookup = do
    addr ← get (λ w. w.kp_addr)
    (_, at) ←
        sys "register_kprobe" (str kp_symbol_name ∷ []) (K.register_kprobe kp_symbol_name addr)
    modify (λ w. record w { kp_addr = at })
    lookup ← get (λ w. w.kp_addr)
    print "DEBUG kallsyms_lookup_name %px" (ptr lookup ∷ [])
    after ←
        sys "unregister_kprobe" (str kp_symbol_name ∷ []) (K.unregister_kprobe kp_symbol_name at)
    modify (λ w. record w { kp_addr = after })
    print "DEBUG kallsyms_lookup_name %px" (ptr lookup ∷ [])
    pure lookup

  unfoldable pub lookup_symbol : Ptr → String → Fn Ptr
  lookup_symbol lookup symbol =
      call_ptr lookup
        (sys "kallsyms_lookup_name_ptr" (str symbol ∷ []) (K.call_string lookup symbol))

  -- The initialisation of a node: its parent, and one string for both names and for the kobject.
  unfoldable pub fill_node : (node ktype parent : Ptr) → String → Fn (Unit {0})
  fill_node node ktype parent name = do
    sys "kobject_init" (ptr node ∷ ptr ktype ∷ []) (K.kobject_init node ktype)
    store_node node (λ n. record n { parent = some parent })
    store_node node (λ n. record n { name = some name })
    store_node node (λ n. record n { full_name = some name })
    store_node node (λ n. record n { phandle = some 0 })
    store_node node (λ n. record n { properties = some null })
    copy ← sys "kstrdup" (str name ∷ []) (K.kstrdup name)
    store_node node (λ n. record n { kobj_name = some copy })

  unfoldable pub attach_node_sysfs : (attach node : Ptr) → Fn (Unit {0})
  attach_node_sysfs attach node = do
    call_ptr attach (sys "__of_attach_node_sysfs_ptr" (ptr node ∷ []) (K.call_node attach node))
    pure tt

  -- The last part of `debug`: it reads back the node that was made, and prints its properties.
  unfoldable pub show_symbols : ℕ → Fn (Unit {0})
  show_symbols fuel = do
    root ← sys "of_find_node_by_path" (str symbols_path ∷ []) (K.of_find_node_by_path symbols_path)
    if root == null
        then print "DEBUG node not found at '/__symbols__'" []
        else do n ← load_node root; first ← defined n.properties; print_properties fuel first

  -- The addresses of `of_node_ktype` and of `__of_attach_node_sysfs`, which are not exported.
  unfoldable pub find_symbols : Fn (Ptr × Ptr)
  find_symbols = do
    lookup ← find_lookup
    ktype ← lookup_symbol lookup "of_node_ktype"
    print "DEBUG of_node_ktype_ptr %px" (ptr ktype ∷ [])
    attach ← lookup_symbol lookup "__of_attach_node_sysfs"
    print "DEBUG __of_attach_node_sysfs_ptr %px" (ptr attach ∷ [])
    pure (ktype, attach)

  -- The root and its child, which is returned.
  unfoldable pub make_nodes : (root ktype : Ptr) → Fn Ptr
  make_nodes root ktype = do
    fill_node root ktype null "/"
    symchild ← sys "kmalloc" [] K.kmalloc_node
    fill_node symchild ktype root symbols_path
    store_node root (λ n. record n { child = some symchild })
    pure symchild

  -- The root becomes the system's, and both nodes get their entries in sysfs.
  unfoldable pub publish : (attach root symchild : Ptr) → Fn (Unit {0})
  publish attach root symchild = do
    modify (λ w. record w { shared = record (w.shared) { of_root = root } })
    print "DEBUG attach root sysfs" []
    attach_node_sysfs attach root
    print "DEBUG attach symbols sysfs" []
    attach_node_sysfs attach symchild

  unfoldable pub create_root : ℕ → Fn (Unit {0})
  create_root fuel = do
    root ← sys "kmalloc" [] K.kmalloc_node
    (ktype, attach) ← find_symbols
    symchild ← make_nodes root ktype
    publish attach root symchild
    show_symbols fuel

  unfoldable pub debug : ℕ → Fn (Unit {0})
  debug fuel = do
    root ← get (λ w. w.shared.of_root)
    print "DEBUG of_root %llx" (ptr root ∷ [])
    if root == null then create_root fuel else pure tt
