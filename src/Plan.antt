-- ===== src/Plan.antt =====
-- Static plans: include/yorch/plan/layout.hpp and include/yorch/plan/compiled_plan.hpp.
pub mod Layout
pub mod Parents
pub mod Children
pub mod ChildTable
pub mod Bounds
pub mod Compiled
