-- ===== src/Fdt/Rw.antt =====
-- libfdt/fdt_rw.c: changes of a whole blob.
pub mod Splice
pub mod Change
pub mod Open
pub mod Frame
pub mod Moves
