-- ===== src/Executor.antt =====
-- The executors of include/yorch/detail/executor.
pub mod Interface
pub mod Recursive
pub mod HeapStack
pub mod Equivalence
pub mod Termination
pub mod Agreement
pub mod Plans
pub mod Statuses
pub mod Discipline
