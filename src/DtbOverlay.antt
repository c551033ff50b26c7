-- ===== src/DtbOverlay.antt =====
-- dtboverlay.c: the module that creates an empty root node and applies an overlay to it.
pub mod World
pub mod Debug
pub mod Fill
pub mod Symbols
pub mod Nodes
pub mod Publish
pub mod Create
pub mod Oops
pub mod Properties
pub mod Module
pub mod Errors
pub mod Apply
pub mod Reads
pub mod Insmod
pub mod Rooted
