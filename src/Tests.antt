-- ===== src/Tests.antt =====
-- Concrete inputs, runs of the definitions on them, and the theorems at these inputs.
mod Decisions
mod Samples
mod Answers
mod Audit
mod Calls
mod Braces
mod Runs
mod Designs
mod Reviews
mod Parts
mod Costs
mod Sandboxes
mod Intake
