-- ===== src/Kernel/Laws.antt =====
-- What dtboverlay.c relies on in a kernel where no call of `debug` fails.
use dtboverlay.Base.{String, ◌≡◌, ◌≢◌, Option, none, some, Bool, true, false}
use dtboverlay.Kernel.{Kernel, Shared, Ptr, null, DeviceNode, Property, blank, update}

module _ {S A : Type 0} where
  -- A call that does not oops, with a postcondition on its result and the state after it.
  abbrev pub Gives : (A → Shared S → Type 0) → Option (A × Shared S) → Type 0
  Gives P o = (a : A) × (s : Shared S) × (o ≡ some (a, s)) × P a s

-- A node without the name of its kobject, which sysfs may replace.
abbrev pub unnamed : Option DeviceNode → Option DeviceNode
unnamed none = none
unnamed (some n) = some (record n { kobj_name = none })

module _ {S : Type 0} where
  -- The device tree after a call, node by node.
  pub record Tree (s' : Shared S) (of_root : Ptr) (node : Ptr → Option DeviceNode)
      (prop : Ptr → Option Property) : Type 0 where
    pub root_is : s'.of_root ≡ of_root
    pub node_is : s'.node ≡ node
    pub prop_is : s'.prop ≡ prop

  -- The call leaves the device tree alone.
  abbrev pub SameTree : Shared S → Shared S → Type 0
  SameTree s s' = Tree s' s.of_root s.node s.prop

  -- The call changes at most the names of kobjects.
  pub record SameLinks (s s' : Shared S) : Type 0 where
    pub same_root : s'.of_root ≡ s.of_root
    pub same_node : (p : Ptr) → unnamed (s'.node p) ≡ unnamed (s.node p)
    pub same_prop : s'.prop ≡ s.prop

-- What is in use stays in use.
abbrev pub Keeps : {S : Type 0} → (S → Ptr → Bool) → Shared S → Shared S → Type 0
Keeps in_use s s' = (p : Ptr) → in_use (s.sys) p ≡ true → in_use (s'.sys) p ≡ true

-- `lookup`, `ktype` and `attach` are the addresses of `kallsyms_lookup_name`, `of_node_ktype` and
-- `__of_attach_node_sysfs`.
pub record IsWorking (K : Kernel) (lookup ktype attach : Ptr) : Type 0 where
  -- The addresses that the allocator has given out. No call of `debug` gives one back.
  pub in_use : K.S → Ptr → Bool
  pub lookup-ne-null : lookup ≢ null
  pub attach-ne-null : attach ≢ null
  -- Memory is not exhausted, and a new node is not in use.
  pub kmalloc_law :
      (s : Shared K.S)
      → Gives
          (λ p s'.
            (p ≢ null)
            × (in_use (s.sys) p ≡ false)
            × (in_use (s'.sys) p ≡ true)
            × Keeps in_use s s'
            × Tree s' s.of_root (update s.node p (some blank)) s.prop)
          (K.kmalloc_node s)
  -- The probe can be set, and then has the address of its symbol.
  pub register_law :
      (at : Ptr) (s : Shared K.S)
      → Gives
          (λ (_, at') s'. (at' ≡ lookup) × Keeps in_use s s' × SameTree s s')
          (K.register_kprobe "kallsyms_lookup_name" at s)
  pub unregister_law :
      (s : Shared K.S)
      → Gives
          (λ _ s'. Keeps in_use s s' × SameTree s s')
          (K.unregister_kprobe "kallsyms_lookup_name" lookup s)
  pub ktype_law :
      (s : Shared K.S)
      → Gives
          (λ a s'. (a ≡ ktype) × Keeps in_use s s' × SameTree s s')
          (K.call_string lookup "of_node_ktype" s)
  pub attach_law :
      (s : Shared K.S)
      → Gives
          (λ a s'. (a ≡ attach) × Keeps in_use s s' × SameTree s s')
          (K.call_string lookup "__of_attach_node_sysfs" s)
  -- `kobject_init` sets the type of the node's kobject.
  pub kobject_law :
      (p : Ptr) (n : DeviceNode) (s : Shared K.S)
      → s.node p ≡ some n
      → Gives
          (λ _ s'.
            Keeps in_use s s'
            × Tree s' s.of_root (update s.node p (some (record n { ktype = some ktype }))) s.prop)
          (K.kobject_init p ktype s)
  pub kstrdup_law :
      (t : String) (s : Shared K.S)
      → Gives (λ _ s'. Keeps in_use s s' × SameTree s s') (K.kstrdup t s)
  -- An entry in sysfs is made for a node; its links stay.
  pub sysfs_law :
      (p : Ptr) (n : DeviceNode) (s : Shared K.S)
      → s.node p ≡ some n
      → Gives (λ _ s'. SameLinks s s') (K.call_node attach p s)
  -- The first child of the root is found by its path.
  pub find_law :
      (r c : Ptr) (m n : DeviceNode) (s : Shared K.S)
      → s.of_root ≡ r
      → s.node r ≡ some m
      → m.child ≡ some c
      → s.node c ≡ some n
      → n.full_name ≡ some "/__symbols__"
      → Gives (λ p s'. (p ≡ c) × SameTree s s') (K.of_find_node_by_path "/__symbols__" s)
