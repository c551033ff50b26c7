-- ===== src/Fdt/Sw.antt =====
-- libfdt/fdt_sw.c: writing a blob from the front to the end.
pub mod Space
pub mod Build
pub mod Finish
pub mod Room
pub mod Grab
pub mod Nodes
pub mod States
