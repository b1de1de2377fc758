-- ===== src/Scheduler.antt =====
-- kernel/src/level0a/core/scheduler.rs: the task table and its data. TASKS is a function of the
-- index. The children of this module hold the operations: `Spawn` for the birth and the end of tasks, `Select`
-- for the choice of the next task and the switch, `Wait` for sleep and waiting.
pub mod Tasks
pub mod Select
pub mod Spawn
pub mod Wait
pub mod Births
pub mod Failures
pub mod Ends
pub mod Orphans
pub mod Wake
pub mod Choice
pub mod Switch
mod Tests
