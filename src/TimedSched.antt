-- ===== src/TimedSched.antt =====
-- timesched.go: the tasks and their heap (`Heap`), a worker with its timer (`Worker`), and the
-- scheduler with its queue of new tasks, its workers and their steps (`Steps`).
pub mod Heap
pub mod Worker
pub mod Steps
mod Runs
