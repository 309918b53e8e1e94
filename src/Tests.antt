-- ===== src/Tests.antt =====
-- Concrete runs of the modelled code, and the theorems at concrete inputs.
mod Lru
mod PendingSlot
mod CommitStore
mod ToolBoundary
mod ModePolicy
mod Window
mod YieldGate
mod HostCache
mod OpenLoops
mod Continuity
mod Preparation
mod Delivery
mod Sections
mod Policy
mod Trigger
mod Revalidate
mod AnchorCache
mod RunLock
mod Batches
