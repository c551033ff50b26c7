-- ===== src/Fdt.antt =====
-- libfdt: fdt.c and fdt.h, the part that is built into dtboverlay_out.ko, and the files that read blobs.
pub mod Constants
pub mod Assume
pub mod Header
pub mod Check
pub mod Word
pub mod Layout
pub mod Stages
pub mod Verdict
pub mod Accept
pub mod Relaxed
pub mod Gates
pub mod Short
pub mod Encode
pub mod Read
pub mod Tags
pub mod Walk
pub mod Ro
pub mod Strerror
pub mod Errors
pub mod Addresses
pub mod Write
pub mod Wip
pub mod Sw
pub mod Rw
pub mod EmptyTree
pub mod Inline
pub mod Loads
pub mod Overlay
pub mod Results
