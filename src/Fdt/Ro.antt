-- ===== src/Fdt/Ro.antt =====
-- libfdt/fdt_ro.c: read access to a blob.
pub mod Names
pub mod Props
pub mod Reserve
pub mod Phandles
pub mod Paths
pub mod Depth
pub mod Lists
pub mod Strings
pub mod Counts
pub mod Text
pub mod Aliases
