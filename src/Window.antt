-- ===== src/Window.antt =====
-- `src/app/steps/window.ts`, `planCompactionWindow`: which prefix of the conversation to compact.
--
-- Token counts are natural numbers. The source's doubles are exact fractions here: the scale of
-- the message estimates is a pair, and limits that are products with 0.04 or a percentage are in
-- hundredths of a token.
pub mod Budget
pub mod Tail
pub mod Soft
pub mod Portable
pub mod Plan
pub mod Laws
