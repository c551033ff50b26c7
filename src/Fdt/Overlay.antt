-- ===== src/Fdt/Overlay.antt =====
-- libfdt/fdt_overlay.c: an overlay that is merged into a base blob.
pub mod Both
pub mod Parse
pub mod Local
pub mod Fixups
pub mod Merge
pub mod Symbols
pub mod Apply
pub mod Frame
pub mod Apart
pub mod Steps
pub mod Erase
pub mod Offsets
pub mod References
pub mod Entries
pub mod SymbolText
pub mod Loops
