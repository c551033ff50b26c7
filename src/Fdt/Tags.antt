-- ===== src/Fdt/Tags.antt =====
-- The tags of the structure block, and the layout of its properties, of libfdt/fdt.h.
use dtboverlay.Base.{ℕ, ◌+◌}

abbrev pub tag_begin_node : ℕ
tag_begin_node = 0x1

abbrev pub tag_end_node : ℕ
tag_end_node = 0x2

abbrev pub tag_prop : ℕ
tag_prop = 0x3

abbrev pub tag_nop : ℕ
tag_nop = 0x4

abbrev pub tag_end : ℕ
tag_end = 0x9

-- sizeof(struct fdt_property)
abbrev pub property_size : ℕ
property_size = 12

-- The members of a property at a pointer.
abbrev pub prop_len : ℕ → ℕ
prop_len prop = prop + 4

abbrev pub prop_nameoff : ℕ → ℕ
prop_nameoff prop = prop + 8

abbrev pub prop_data : ℕ → ℕ
prop_data prop = prop + 12

-- The name of a node, after its tag.
abbrev pub node_name : ℕ → ℕ
node_name nh = nh + 4

-- sizeof(struct fdt_reserve_entry), and its members.
abbrev pub reserve_size : ℕ
reserve_size = 16

abbrev pub reserve_address : ℕ → ℕ
reserve_address re = re

abbrev pub reserve_length : ℕ → ℕ
reserve_length re = re + 8
