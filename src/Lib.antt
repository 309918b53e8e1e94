-- ===== src/Lib.antt =====
-- A model of pi-smart-compact, an extension that replaces the older part of a coding agent's
-- conversation by a summary.
--
-- A compaction is planned (`src/app/steps/window.ts`, with the cut rules of
-- `src/utils/helpers.ts` and the budgets of `src/app/mode-policy.ts`): the plan says from which
-- message on the conversation is kept. The summary's size is checked against the plan
-- (`src/domain/yield-gate.ts`). A prepared summary waits for its session
-- (`src/app/pending-slot.ts`), and once handed to the host for the host's confirmation
-- (`src/app/compaction-commit-store.ts`). What compactions cost the provider's prompt cache is
-- tallied in `src/app/host-cache-ledger.ts`; work left open is carried along by
-- `src/utils/state.ts`, with the facts of earlier compactions; the summary's sections are read and
-- edited by `src/domain/summary-parse.ts`. A summary can be prepared ahead of its use
-- (`src/app/background-preparation.ts`), and notifications that come while a compaction runs wait
-- in the gate of `src/app/compaction-delivery.ts`. A branch's own settings are kept by
-- `src/app/smart-compact-policy.ts`.
-- Compactions are requested by `src/app/settled-auto-trigger.ts`, and run under the locks of
-- `src/app/session-run-lock.ts`, which processes share.
--
--   Base: shared names, the Boolean tests on natural numbers, list lemmas.
--   OrderedMap: the language's `Map`, in insertion order.
--   Lru: `lruGet` and `lruSet` of `src/utils/lru.ts`.
--   Types, Messages: the data of `src/types.ts` that the modelled code reads.
--   PendingSlot: `createPendingSlot` of `src/app/pending-slot.ts`, each method a function from the
--     slot's state to the next state and its result.
--   CommitStore: `createCompactionCommitStore` of `src/app/compaction-commit-store.ts`.
--   ToolBoundary: `buildToolCallBoundaryIndex`, `guardToolCallBoundary` and
--     `advancePastToolCallBoundary` of `src/utils/helpers.ts`.
--   ModePolicy: `src/app/mode-policy.ts`.
--   Window: `planCompactionWindow` of `src/app/steps/window.ts`, in the parts Budget, Tail, Soft,
--     Portable and Plan, in the order of the code.
--   YieldGate: `verifyCompactionYield` of `src/domain/yield-gate.ts`.
--   HostCache: `createHostCacheLedger` of `src/app/host-cache-ledger.ts`; Observe is its `observe`.
--   OpenLoops: `mergeBy`, `mergeOpenLoops` and the loop overrides of `src/utils/state.ts`.
--   Continuity: the facts of `src/utils/state.ts`: overrides, cleaning and `collapseDecisionsByQuestion`
--     (Facts), `mergeCompactionStates` (Merge), `computeDelta` (Delta).
--   Preparation: `createBackgroundPreparation` of `src/app/background-preparation.ts`; each call and
--     each promise that runs is an event.
--   Delivery: `registerCompactionDelivery` of `src/app/compaction-delivery.ts`: the gate, its drain
--     and the handlers of the host's events.
--   Sections: `parseSummary`, `upsertSection` and `appendToSection` of `src/domain/summary-parse.ts`.
--   Policy: the overrides of `src/app/smart-compact-policy.ts`.
--   Batches: `createBatches` of `src/utils/helpers.ts`.
--   PendingSlot.Revalidate: `revalidatePending` of `src/app/pending-slot.ts`.
--   AnchorCache: `enforceMarkerLimit` of `src/app/anchor-cache.ts`: blocks that hold blocks, the
--     first loop on fuel of the markers listed, the second on fuel of the markers not owned.
--   Trigger: `createSettledAutoTrigger` of `src/app/settled-auto-trigger.ts`; requests, callbacks,
--     timers and the calls of the host are events (Walk: what every step keeps).
--   RunLock: the file leases of `src/app/session-run-lock.ts` (Attempts), processes that share the
--     files (System, Held, Exclusive) and `createSessionRunLock` (Lock).
--   Tests: runs of the model at concrete inputs.
--
-- Numbers are natural numbers. Where the code computes with fractions, the model multiplies out:
-- ratios are in tenths or hundredths, the scale of the token estimates is a numerator over a
-- denominator. A clock reading is an argument. The loops over a `Map` that is deleted from and the
-- walk of the guard run on fuel: the size of the map, and the number of messages plus one, which
-- the code itself uses as its cap. The drain of the delivery gate runs on fuel too, since a callback
-- may defer more: the queue's length is enough for callbacks that do not. A call of the run lock
-- is one step of its process; what others do between the two looks of `acquireFileLease` is an
-- argument.
--
-- Not modelled: the calls of language models, files, the host's user interface, and the text
-- heuristics of the extraction. What a regular expression or a function of the language says of a
-- text is an argument: `TextTests` for facts, `TextOps` for summaries.
mod Base
pub mod OrderedMap
pub mod Lru
pub mod Types
pub mod Messages
pub mod PendingSlot
pub mod CommitStore
pub mod ToolBoundary
pub mod ModePolicy
pub mod Window
pub mod YieldGate
pub mod HostCache
pub mod OpenLoops
pub mod Policy
pub mod Continuity
pub mod Preparation
pub mod Delivery
pub mod Sections
pub mod Trigger
pub mod AnchorCache
pub mod RunLock
pub mod Batches
mod Tests
