-- ===== src/Examples.antt =====
-- The theorems on concrete trees, plans and tasks.
mod Data
mod Plans
mod Checks
mod Slots
mod Storage
mod Tasks
mod Runs
mod Flow
mod Stores
mod Safety
mod Outcomes
mod Arguments
mod Bindings
mod Builders
mod Pipelines
mod Receivers
