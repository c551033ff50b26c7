-- ===== src/Kernel.antt =====
-- The Linux kernel as the modules see it: the device nodes and properties that they share with it,
-- and the functions that they call. The kernel's own state and what its functions do are parameters.
pub mod Laws
use dtboverlay.Base.{ℕ, String, List, Option, none, ◌==◌, if◌then◌else◌}
use dtboverlay.Base.Int.{ℤ}
use dtboverlay.Memory.{Buffer}

abbrev pub Ptr : Type 0
Ptr = ℕ

abbrev pub null : Ptr
null = 0

-- The members of `struct device_node` that the modules set, read or leave alone. `none` is the
-- indeterminate value of memory from `kmalloc`. A `kobj.name` of `none` inside is a null pointer.
pub record DeviceNode : Type 0 where
  pub ktype : Option Ptr
  pub kobj_name : Option (Option String)
  pub name : Option String
  pub full_name : Option String
  pub phandle : Option ℕ
  pub properties : Option Ptr
  pub parent : Option Ptr
  pub child : Option Ptr
  pub sibling : Option Ptr

-- What `kmalloc(sizeof(struct device_node), …)` gives.
abbrev pub blank : DeviceNode
blank = record {
  ktype = none;
  kobj_name = none;
  name = none;
  full_name = none;
  phandle = none;
  properties = none;
  parent = none;
  child = none;
  sibling = none;
}

-- The members of `struct property` that `for_each_property_of_node` and its body read.
pub record Property : Type 0 where
  pub name : String
  pub next : Ptr

abbrev pub update {ℓ} : {A : Type ℓ} → (Ptr → A) → Ptr → A → Ptr → A
update f p v q = if q == p then v else f q

-- The state that the modules and the kernel share, beside the kernel's own `S`.
pub record Shared (S : Type 0) : Type 0 where
  pub sys : S
  pub of_root : Ptr
  pub node : Ptr → Option DeviceNode
  pub prop : Ptr → Option Property

-- A call of the kernel: a result and a new state, or `none` if it oopses.
abbrev pub Op : Type 0 → Type 0 → Type 0
Op S A = Shared S → Option (A × Shared S)

-- What `filp_open` returns: a file, or ERR_PTR of a negative errno.
pub data Opened (F : Type 0) : Type 0 where
  file : F → Opened F
  err_ptr : ℕ → Opened F

pub record Kernel : Type 1 where
  pub S : Type 0
  pub File : Type 0
  -- kmalloc(sizeof(struct device_node), GFP_ATOMIC)
  pub kmalloc_node : Op S Ptr
  -- The return value, and `kp.addr` afterwards.
  pub register_kprobe : String → Ptr → Op S (ℤ × Ptr)
  pub unregister_kprobe : String → Ptr → Op S Ptr
  -- A call of the function at an address, with a string or with a node.
  pub call_string : Ptr → String → Op S Ptr
  pub call_node : Ptr → Ptr → Op S ℤ
  pub kobject_init : Ptr → Ptr → Op S (Unit {0})
  -- kstrdup(s, GFP_KERNEL), which may give a null pointer.
  pub kstrdup : String → Op S (Option String)
  pub of_find_node_by_path : String → Op S Ptr
  -- The path is a null pointer if the module parameter is not given.
  pub filp_open : Option String → Op S (Opened File)
  pub i_size_read : File → Op S ℕ
  -- kzalloc(size, GFP_KERNEL)
  pub kzalloc : ℕ → Op S Ptr
  -- The bytes that are read, at most as many as asked for and none on an error, and the new position.
  pub kernel_read : File → ℕ → Op S (List ℕ × ℕ)
  -- The return value, and `*ovcs_id` afterwards.
  -- The size is what is passed for the u32 parameter; its conversion is part of the call.
  pub of_overlay_fdt_apply : Buffer → ℕ → ℤ → Op S (ℤ × ℤ)
  pub filp_close : File → Op S (Unit {0})
  -- `*ovcs_id` afterwards.
  pub of_overlay_remove : ℤ → Op S (ℤ × ℤ)
