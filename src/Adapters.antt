-- ===== src/Adapters.antt =====
-- The task adapters of include/yorch/task_adapters and their helpers in
-- include/yorch/detail/task_adapters/result_helpers.hpp.
pub mod Retry
pub mod RetryLaws
pub mod DirectRetry
pub mod Catch
