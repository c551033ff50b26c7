-- ===== src/Tests.antt =====
-- Runs of the modules on small inputs, and each result at one of them.
pub mod Machine
pub mod Blobs
pub mod HeaderRuns
pub mod OverlayRuns
pub mod OtherRuns
pub mod Trees
pub mod TreeRuns
pub mod StringRuns
pub mod WriteRuns
pub mod ChangeRuns
pub mod OverlayTrees
pub mod MergeRuns
pub mod EditRuns
pub mod FixupRuns
