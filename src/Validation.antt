-- ===== src/Validation.antt =====
-- The checks that `run_plan` makes of a plan when it is compiled:
-- include/yorch/detail/executor/plan_validation.hpp, prev_access_plan_validation.hpp and fanout.hpp.
pub mod Plans
pub mod Fanout
pub mod Sources
pub mod Errors
pub mod Sound
pub mod Siblings
pub mod Isolation
pub mod Policies
pub mod SpecCounts
pub mod Accesses
pub mod Accepted
