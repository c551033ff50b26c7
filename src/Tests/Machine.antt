-- ===== src/Tests/Machine.antt =====
-- A small kernel to run dtboverlay.c on: addresses are handed out one after the other.
use dtboverlay.Base.{
  ℕ, suc, String, refl, List, Option, none, some, arith, Bool, leb, length, if◌then◌else◌,
}
use text.Mathlib.Text.{◌==◌}
use dtboverlay.Base.Int.{pos}
use dtboverlay.Kernel.{Kernel, Ptr, null, DeviceNode, blank, update, Opened, file, err_ptr, Op}
use dtboverlay.Kernel.Laws.{IsWorking}

abbrev pub lookup_address : Ptr
lookup_address = 1000

abbrev pub ktype_address : Ptr
ktype_address = 2000

abbrev pub attach_address : Ptr
attach_address = 3000

-- The greatest address that was given out.
abbrev Used : Type 0
Used = ℕ

abbrev same : {A : Type 0} → A → Op Used A
same a s = some (a, s)

abbrev set_ktype : Ptr → Option DeviceNode → Op Used (Unit {0})
set_ktype p none s = none
set_ktype p (some n) s =
    some
      (tt, record s { node = update (s.node) p (some (record n { ktype = some ktype_address })) })

abbrev child_of : Option DeviceNode → Ptr
child_of none = null
child_of (some n) = elim n.child [ none ↦ null | some c ↦ c ]

abbrev opens : List ℕ → Option String → Opened (List ℕ)
opens content none = err_ptr 14
opens content (some path) = file content

-- The one file of the system has this content.
abbrev pub machine : List ℕ → Kernel
machine content = record {
  S = Used;
  File = List ℕ;
  kmalloc_node = λ s.
      some
        (suc s.sys, record s { sys = suc s.sys; node = update (s.node) (suc s.sys) (some blank) });
  register_kprobe = λ symbol at. same (pos 0, lookup_address);
  unregister_kprobe = λ symbol at. same at;
  call_string =
      λ fn symbol. same (if symbol == "of_node_ktype" then ktype_address else attach_address);
  call_node = λ fn p. same (pos 0);
  kobject_init = λ p k s. set_ktype p (s.node p) s;
  kstrdup = λ t. same (some t);
  of_find_node_by_path = λ path s. some (child_of (s.node s.of_root), s);
  filp_open = λ path. same (opens content path);
  i_size_read = λ f. same (length f);
  kzalloc = λ n. same 4096;
  kernel_read = λ f n. same (f, length f);
  of_overlay_fdt_apply = λ b n id. same (pos 0, pos 1);
  filp_close = λ f. same tt;
  of_overlay_remove = λ id. same (pos 0, pos 0);
}

abbrev in_use : Used → Ptr → Bool
in_use used p = leb p used

module _ (content : List ℕ) where
  pub machine-IsWorking : IsWorking (machine content) lookup_address ktype_address attach_address
  machine-IsWorking = record {
    in_use = in_use;
    lookup-ne-null = omega arith;
    attach-ne-null = omega arith;
    kmalloc_law = λ s. (
      _,
      _,
      refl,
      (
        omega arith,
        ground arith,
        ground arith,
        (λ p h. ground arith),
        record { root_is = refl; node_is = refl; prop_is = refl },
      ),
    );
    register_law = λ at s.
        (_, _, refl, (refl, (λ p h. h), record { root_is = refl; node_is = refl; prop_is = refl }));
    unregister_law =
        λ s. (_, _, refl, ((λ p h. h), record { root_is = refl; node_is = refl; prop_is = refl }));
    ktype_law = λ s.
        (_, _, refl, (refl, (λ p h. h), record { root_is = refl; node_is = refl; prop_is = refl }));
    attach_law = λ s.
        (_, _, refl, (refl, (λ p h. h), record { root_is = refl; node_is = refl; prop_is = refl }));
    kobject_law = λ p n s h.
        rw h (_, _, refl, ((λ p h. h), record { root_is = refl; node_is = refl; prop_is = refl }));
    kstrdup_law = λ t s.
        (_, _, refl, ((λ p h. h), record { root_is = refl; node_is = refl; prop_is = refl }));
    sysfs_law = λ p n s h.
        (_, _, refl, record { same_root = refl; same_node = λ q. refl; same_prop = refl });
    find_law = λ r c m n s at_root held has_child at_child named. (
      _,
      _,
      refl,
      (
        rw (at_root, held, has_child) refl,
        record { root_is = refl; node_is = refl; prop_is = refl },
      ),
    );
  }
