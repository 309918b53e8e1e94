-- ===== src/Window/Laws.antt =====
-- What the steps of a plan keep.
pub mod Soft
pub mod Tail
pub mod Hard
pub mod Verdict
pub mod Projection
